-- ===== src/Project/View.antt =====
-- What an agent sees of a project: everything but the sequence numbers stamped on memory cards, the
-- rename lineage and the caches. `effect` says what each operation means on a view.
use mathlib.Core.Option
use windy_public.Prelude.{
  ℕ, suc, ◌≡◌, refl, ap, ◌∙◌, fun_ext, String, Bool, Option, none, some, [], arith, inl, inr,
  Bool-cases, nat_eq, if◌then◌else◌,
}
use windy_public.KeyMap.{KeyMap, insert, remove}
use windy_public.Project.Types.{DataType, FunctionSignature, StackFrame, default_frame, unknown}
use windy_public.Project.TypeManager.{DataTypeManager}
use windy_public.Project.Tables.{
  SymbolTable, CommentStore, FunctionMemoryCard, is_clear, insert_symbol, set_comment_text,
  symbol_name,
}
use windy_public.Project.State.{Project, saturating_add, invalidate_ssa_cache}
use windy_public.Project.Frame.{upsert_stack_var}
use windy_public.Project.Op.{
  Op, Ops, rename_symbol, set_comment, set_focus, set_global_type, set_function_signature,
  set_stack_local_type, set_stack_local_name, set_param_name, set_function_memory, batch, nil, cons,
}
use windy_public.Project.Apply.{
  apply_to, apply_ops, apply_memory, retype, rename_var, rename_param, pad_params, new_signature,
  padded_signature, frame_at,
}

pub record View : Type 0 where
  pub has_function : ℕ → Bool
  pub symbols : SymbolTable
  pub comments : CommentStore
  pub types : DataTypeManager
  pub function_frames : KeyMap ℕ StackFrame
  pub typed_globals : KeyMap ℕ DataType
  pub function_signatures : KeyMap ℕ FunctionSignature
  pub focus : Option ℕ
  pub function_memory : KeyMap ℕ FunctionMemoryCard

abbrev pub unstamped : FunctionMemoryCard → FunctionMemoryCard
unstamped card = record card { updated_seq = 0 }

abbrev pub unstamped_all : KeyMap ℕ FunctionMemoryCard → KeyMap ℕ FunctionMemoryCard
unstamped_all m k = Option.map unstamped (m k)

abbrev pub view : Project → View
view p = record {
  has_function = p.has_function;
  symbols = p.symbols;
  comments = p.comments;
  types = p.types;
  function_frames = p.function_frames;
  typed_globals = p.typed_globals;
  function_signatures = p.function_signatures;
  focus = p.focus;
  function_memory = unstamped_all p.function_memory;
}

-- The parameters of the signature at an address, or of a new one, with room for `index`.
unfoldable pub named_signature : View → ℕ → ℕ → String → FunctionSignature
unfolding symbol_name
named_signature v va index name =
    let sig = Option.get_or (v.function_signatures va) (record {
      name = Option.get_or (symbol_name v.symbols va) "sub";
      params = [];
      ret = unknown 0;
      calling_conv = none;
    }) in
    record sig { params = rename_param index name (pad_params (suc index) index sig.params) }

-- The meaning of an operation, whatever it has captured.
unfoldable mutual
  pub effect : Op → View → View
  effect (rename_symbol va name kind on ok) v = record v {
    symbols = insert_symbol v.symbols va name kind;
  }
  effect (set_comment va scope text old) v = record v {
    comments = set_comment_text v.comments va scope text;
  }
  effect (set_focus va old) v = record v { focus = if v.has_function va then some va else v.focus }
  effect (set_global_type va ty old) v = record v { typed_globals = insert v.typed_globals va ty }
  effect (set_function_signature va s old) v = record v {
    function_signatures = insert v.function_signatures va s;
  }
  effect (set_stack_local_type va o ty old) v = record v {
    function_frames =
        insert v.function_frames va
          (upsert_stack_var (Option.get_or (v.function_frames va) default_frame) o (retype ty));
  }
  effect (set_stack_local_name va o n old) v = record v {
    function_frames =
        insert v.function_frames va
          (upsert_stack_var (Option.get_or (v.function_frames va) default_frame) o (rename_var n));
  }
  effect (set_param_name va i n old) v = record v {
    function_signatures = insert v.function_signatures va (named_signature v va i n);
  }
  effect (set_function_memory va c old) v = record v {
    function_memory =
        if is_clear c
        then remove v.function_memory va
        else insert v.function_memory va (record c { va = va; updated_seq = 0 });
  }
  effect (batch ops) v = effect_all ops v

  pub effect_all : Ops → View → View
  effect_all nil v = v
  effect_all (cons op ops) v = effect_all ops (effect op v)

unstamped-insert :
    (m : KeyMap ℕ FunctionMemoryCard) (k : ℕ) (c : FunctionMemoryCard)
    → unstamped_all (insert m k c) ≡ insert (unstamped_all m) k (unstamped c)
unfolding insert
unstamped-insert m k c = fun_ext λ j. ground arith

unstamped-remove :
    (m : KeyMap ℕ FunctionMemoryCard) (k : ℕ)
    → unstamped_all (remove m k) ≡ remove (unstamped_all m) k
unfolding remove
unstamped-remove m k = fun_ext λ j. ground arith

apply_memory-view :
    (va : ℕ) (c : FunctionMemoryCard) (old : Option (Option FunctionMemoryCard)) (p : Project)
    → view (apply_memory va c old p).1 ≡ effect (set_function_memory va c old) (view p)
unfolding apply_memory effect
apply_memory-view va c old p = elim (Bool-cases (is_clear c)) [
  | inl e ↦
      rw e (λ i. record (view p) { function_memory = unstamped-remove p.function_memory va i })
  | inr e ↦ rw e (λ i. record (view p) {
    function_memory =
        unstamped-insert p.function_memory va
          (record c { va = va; updated_seq = saturating_add p.op_seq 1 }) i;
  })
]

mutual
  unfolding apply_to effect invalidate_ssa_cache frame_at padded_signature new_signature
      named_signature

  pub apply_to-view : (op : Op) (p : Project) → view (apply_to op p).1 ≡ effect op (view p)
  apply_to-view (rename_symbol va name kind on ok) p = refl
  apply_to-view (set_comment va scope text old) p = refl
  apply_to-view (set_focus va old) p = ground arith
  apply_to-view (set_global_type va ty old) p = refl
  apply_to-view (set_function_signature va s old) p = refl
  apply_to-view (set_stack_local_type va o ty old) p = refl
  apply_to-view (set_stack_local_name va o n old) p = refl
  apply_to-view (set_param_name va i n old) p = refl
  apply_to-view (set_function_memory va c old) p = apply_memory-view va c old p
  apply_to-view (batch ops) p = apply_ops-view ops p

  pub apply_ops-view :
      (ops : Ops) (p : Project) → view (apply_ops ops p).1 ≡ effect_all ops (view p)
  apply_ops-view nil p = refl
  apply_ops-view (cons op ops) p =
      apply_ops-view ops (apply_to op p).1 ∙ ap (effect_all ops) (apply_to-view op p)

-- Two operations that differ in what they have captured, and in nothing else, do the same.
mutual
  unfolding apply_to effect

  pub effect-apply_to :
      (op : Op) (p : Project) (v : View) → effect (apply_to op p).0 v ≡ effect op v
  effect-apply_to (rename_symbol va name kind on ok) p v = refl
  effect-apply_to (set_comment va scope text old) p v = refl
  effect-apply_to (set_focus va old) p v = refl
  effect-apply_to (set_global_type va ty old) p v = refl
  effect-apply_to (set_function_signature va s old) p v = refl
  effect-apply_to (set_stack_local_type va o ty old) p v = refl
  effect-apply_to (set_stack_local_name va o n old) p v = refl
  effect-apply_to (set_param_name va i n old) p v = refl
  effect-apply_to (set_function_memory va c old) p v = refl
  effect-apply_to (batch ops) p v = effect-apply_ops ops p v

  pub effect-apply_ops :
      (ops : Ops) (p : Project) (v : View) → effect_all (apply_ops ops p).0 v ≡ effect_all ops v
  effect-apply_ops nil p v = refl
  effect-apply_ops (cons op ops) p v =
      effect-apply_ops ops (apply_to op p).1 (effect (apply_to op p).0 v)
      ∙ ap (effect_all ops) (effect-apply_to op p v)

-- The effect of an operation that may be missing.
abbrev pub effect_option : Option Op → View → View
effect_option none v = v
effect_option (some op) v = effect op v
