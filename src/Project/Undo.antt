-- ===== src/Project/Undo.antt =====
-- Undoing an operation: the inverse of what was captured, applied to what it left.
pub mod Leaves
pub mod Records
use windy_public.Prelude.{◌≡◌, ◌≢◌, refl, sym, ap, ◌∙◌, Option, none, some, arith}
use windy_public.Project.State.{Project}
use windy_public.Project.Types.{DataType, FunctionSignature}
use windy_public.Project.Op.{
  Op, Ops, rename_symbol, set_comment, set_focus, set_global_type, set_function_signature,
  set_stack_local_type, set_stack_local_name, set_param_name, set_function_memory, batch, nil, cons,
}
use windy_public.Project.Apply.{apply_to, apply_ops}
use windy_public.Project.Inverse.{inverse, inverse_ops, append_op, push_inverse, as_batch}
use windy_public.Project.View.{View, view, effect, effect_all, apply_to-view, effect_option}
use Leaves.{
  HadSymbol, HadComment, HadFocus, HadVariable, HadParam, IsFiled, rename_undone, comment_undone,
  focus_undone, global_undone, signature_undone, local_type_undone, local_name_undone,
}
use Records.{param_undone, memory_undone}

-- The operation comes with nothing captured, and there is something for its inverse to restore; in
-- a batch this holds of each operation where its turn comes.
abbrev mutual
  pub HadPrior : Op → Project → Type 0
  HadPrior (rename_symbol va name kind none none) p = HadSymbol p va
  HadPrior (set_comment va scope text none) p = HadComment p va scope
  HadPrior (set_focus va none) p = HadFocus p
  HadPrior (set_global_type va ty none) p = (t : DataType) × (p.typed_globals va ≡ some t)
  HadPrior (set_function_signature va s none) p =
      (t : FunctionSignature) × (p.function_signatures va ≡ some t)
  HadPrior (set_stack_local_type va o ty none) p = HadVariable p va o
  HadPrior (set_stack_local_name va o name none) p = HadVariable p va o
  HadPrior (set_param_name va i name none) p = HadParam p va i
  HadPrior (set_function_memory va card none) p = IsFiled va (p.function_memory va)
  HadPrior (batch ops) p = HadPriorAll ops p
  HadPrior _ p = ⊥

  pub HadPriorAll : Ops → Project → Type 0
  HadPriorAll nil p = Unit
  HadPriorAll (cons op ops) p = HadPrior op p × HadPriorAll ops (apply_to op p).1

effect_all-append_op :
    (ops : Ops) (op : Op) (v : View)
    → effect_all (append_op ops op) v ≡ effect op (effect_all ops v)
unfolding append_op effect
effect_all-append_op nil op v = refl
effect_all-append_op (cons o ops) op v = effect_all-append_op ops op (effect o v)

effect_all-push_inverse :
    (done : Ops) (inv : Option Op) (v : View)
    → effect_all (push_inverse done inv) v ≡ effect_option inv (effect_all done v)
unfolding push_inverse
effect_all-push_inverse done none v = refl
effect_all-push_inverse done (some op) v = effect_all-append_op done op v

effect-as_batch : (ops : Ops) (v : View) → effect_option (as_batch ops) v ≡ effect_all ops v
unfolding as_batch effect
effect-as_batch nil v = refl
effect-as_batch (cons op ops) v = refl

mutual
  unfolding apply_to inverse effect

  undo_view :
      (op : Op) (p : Project)
      → HadPrior op p
      → effect_option (inverse (apply_to op p).0) (effect op (view p)) ≡ view p
  undo_view (rename_symbol va name kind none none) p h = rename_undone va name kind p h
  undo_view (set_comment va scope text none) p h = comment_undone va scope text p h
  undo_view (set_focus va none) p h = focus_undone va p h
  undo_view (set_global_type va ty none) p h = global_undone va ty p h
  undo_view (set_function_signature va s none) p h = signature_undone va s p h
  undo_view (set_stack_local_type va o ty none) p h = local_type_undone va o ty p h
  undo_view (set_stack_local_name va o name none) p h = local_name_undone va o name p h
  undo_view (set_param_name va i name none) p h = param_undone va i name p h
  undo_view (set_function_memory va card none) p h = memory_undone va card p h
  undo_view (batch ops) p h = effect-as_batch _ _ ∙ undo_views ops p h
  undo_view _ p h = absurd h

  undo_views :
      (ops : Ops) (p : Project)
      → HadPriorAll ops p
      → effect_all (inverse_ops (apply_ops ops p).0) (effect_all ops (view p)) ≡ view p
  undo_views nil p h = refl
  undo_views (cons op ops) p h =
      effect_all-push_inverse _ _ _
      ∙ ap (effect_option (inverse (apply_to op p).0)) (
          ap (λ v. effect_all (inverse_ops (apply_ops ops (apply_to op p).1).0) (effect_all ops v))
            (sym (apply_to-view op p))
          ∙ undo_views ops (apply_to op p).1 h.1
          ∙ apply_to-view op p)
      ∙ undo_view op p h.0

-- Let an operation with nothing captured be applied where its old values exist (in a batch: each
-- operation where its turn comes). If the applied operation has an inverse, then applying the
-- inverse gives back the view that the project had.
pub undo-apply :
    (op inv : Op) (p : Project)
    → HadPrior op p
    → inverse (apply_to op p).0 ≡ some inv
    → view (apply_to inv (apply_to op p).1).1 ≡ view p
undo-apply op inv p h e =
    apply_to-view inv (apply_to op p).1
    ∙ ap (effect inv) (apply_to-view op p)
    ∙ (rw e at (undo_view op p h))
