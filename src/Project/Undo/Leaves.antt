-- ===== src/Project/Undo/Leaves.antt =====
-- Each single operation, submitted with nothing captured, is undone where there was something to
-- restore.
use mathlib.Core.Option
use text.Mathlib.TextEquality.{eq_iff}
use windy_public.Prelude.{
  ℕ, zero, suc, ◌<◌, ◌≡◌, ◌≢◌, refl, ap, String, true, false, Option, none, some, List, [], ◌∷◌,
  arith, nat_eq, length, Bool-cases, inl, inr, string_eq,
}
use windy_public.Prelude.Int.{ℤ}
use windy_public.KeyMap.{KeyMap, insert, insert_back, get-insert_self}
use windy_public.Project.Types.{
  DataType, FunctionSignature, StackFrame, StackVariable, default_frame,
}
use windy_public.Project.Tables.{
  SymbolKind, Symbol, CommentScope, address_scope, function_scope, FunctionMemoryCard, is_clear,
  insert_symbol, symbol_name, symbol_kind, get_comment, set_comment_text,
}
use windy_public.Project.State.{Project}
use windy_public.Project.Frame.{upsert_stack_var, find_in_frame}
use windy_public.Project.Frame.Restore.{IsSplit, find-side, upsert_back}
use windy_public.Project.Op.{
  Op, rename_symbol, set_comment, set_focus, set_global_type, set_function_signature,
  set_stack_local_type, set_stack_local_name, capture, capture_kind,
}
use windy_public.Project.Apply.{
  apply_to, retype, rename_var, rename_param, pad_params, param_name, name_or_clear, frame_at,
}
use windy_public.Project.Inverse.{inverse}
use windy_public.Project.View.{View, view, effect, effect_option}

-- What was there before, in the state to which an operation is applied.
abbrev pub HadSymbol : Project → ℕ → Type 0
HadSymbol p va = (s : Symbol) × (p.symbols va ≡ some s)

abbrev pub HadComment : Project → ℕ → CommentScope → Type 0
HadComment p va scope = (t : String) × (get_comment p.comments va scope ≡ some t)

-- The cursor stood on a function.
abbrev pub HadFocus : Project → Type 0
HadFocus p = (f : ℕ) × (p.focus ≡ some f) × (p.has_function f ≡ true)

abbrev pub HadVariable : Project → ℕ → ℤ → Type 0
HadVariable p va o =
    (f : StackFrame) × (v : StackVariable) × (p.function_frames va ≡ some f)
    × (find_in_frame f o ≡ some v)
    × IsSplit f
    × (v.name ≢ some "")

abbrev pub HadParam : Project → ℕ → ℕ → Type 0
HadParam p va i =
    (s : FunctionSignature) × (p.function_signatures va ≡ some s) × (i < length s.params)

-- No card, or one filed under its own address that is no removal mark.
abbrev pub IsFiled : ℕ → Option FunctionMemoryCard → Type 0
IsFiled va none = Unit
IsFiled va (some c) = (c.va ≡ va) × (is_clear c ≡ false)

-- `inverse` of what applying captured, read on views.
abbrev pub undone : Op → Project → View
undone op p = effect_option (inverse (apply_to op p).0) (effect op (view p))

pub rename_undone :
    (va : ℕ) (name : String) (kind : SymbolKind) (p : Project)
    → HadSymbol p va
    → undone (rename_symbol va name kind none none) p ≡ view p
unfolding inverse apply_to effect insert_symbol symbol_name symbol_kind capture capture_kind
rename_undone va name kind p (s, h) = rw h (λ i. record (view p) {
  symbols = insert_back p.symbols va (record { name = name; kind = kind }) s h i;
})

pub comment_undone :
    (va : ℕ) (scope : CommentScope) (text : String) (p : Project)
    → HadComment p va scope
    → undone (set_comment va scope text none) p ≡ view p
unfolding inverse apply_to effect get_comment set_comment_text capture
comment_undone va address_scope text p (t, h) = rw h (λ i. record (view p) {
  comments = record p.comments { by_addr = insert_back p.comments.by_addr va text t h i };
})
comment_undone va function_scope text p (t, h) = rw h (λ i. record (view p) {
  comments = record p.comments { by_function = insert_back p.comments.by_function va text t h i };
})

pub focus_undone : (va : ℕ) (p : Project) → HadFocus p → undone (set_focus va none) p ≡ view p
unfolding inverse apply_to effect capture
focus_undone va p (f, h, known) = rw h (rw known)

pub global_undone :
    (va : ℕ) (ty : DataType) (p : Project)
    → ((old : DataType) × (p.typed_globals va ≡ some old))
    → undone (set_global_type va ty none) p ≡ view p
unfolding inverse apply_to effect capture
global_undone va ty p (old, h) =
    rw h (λ i. record (view p) { typed_globals = insert_back p.typed_globals va ty old h i })

pub signature_undone :
    (va : ℕ) (s : FunctionSignature) (p : Project)
    → ((old : FunctionSignature) × (p.function_signatures va ≡ some old))
    → undone (set_function_signature va s none) p ≡ view p
unfolding inverse apply_to effect capture
signature_undone va s p (old, h) =
    rw h (λ i. record (view p) {
      function_signatures = insert_back p.function_signatures va s old h i;
    })

frames_back :
    (m : KeyMap ℕ StackFrame) (va : ℕ) (o : ℤ) (f : StackFrame)
    (g h : StackVariable → StackVariable)
    → m va ≡ some f
    → upsert_stack_var (upsert_stack_var f o g) o h ≡ f
    → (let written = insert m va (upsert_stack_var f o g) in
        insert written va (upsert_stack_var (Option.get_or (written va) default_frame) o h))
      ≡ m
frames_back m va o f g h e back = rw (get-insert_self, back) (insert_back m va _ f e)

pub local_type_undone :
    (va : ℕ) (o : ℤ) (ty : DataType) (p : Project)
    → HadVariable p va o
    → undone (set_stack_local_type va o ty none) p ≡ view p
unfolding inverse apply_to effect capture frame_at
local_type_undone va o ty p (f, v, hf, hv, split, named) =
    let back : upsert_stack_var (upsert_stack_var f o (retype ty)) o (retype v.ty) ≡ f =
      upsert_back o (retype ty) (retype v.ty) (λ w. refl) f v (find-side f o v split hv) refl in
    rw (hf, hv)
      (λ i. record (view p) {
        function_frames = frames_back p.function_frames va o f (retype ty) (retype v.ty) hf back i;
      })

name_back : (o : Option String) → o ≢ some "" → name_or_clear (Option.get_or o "") ≡ o
unfolding name_or_clear
name_back none h = refl
name_back (some n) h = elim (Bool-cases (string_eq.beq n "")) [
  | inl e ↦ absurd (h (ap some ((eq_iff n "").0 e)))
  | inr e ↦ rw e
]

rename_var_back :
    (name : String) (v : StackVariable)
    → v.name ≢ some ""
    → rename_var (Option.get_or v.name "") (rename_var name v) ≡ v
unfolding rename_var
rename_var_back name v h = λ i. record v { name = name_back v.name h i }

pub local_name_undone :
    (va : ℕ) (o : ℤ) (name : String) (p : Project)
    → HadVariable p va o
    → undone (set_stack_local_name va o name none) p ≡ view p
unfolding inverse apply_to effect capture frame_at Option.bind
local_name_undone va o name p (f, v, hf, hv, split, named) =
    let old : String = Option.get_or v.name "" in
    let back : upsert_stack_var (upsert_stack_var f o (rename_var name)) o (rename_var old) ≡ f =
      upsert_back o (rename_var name) (rename_var old) (unfold rename_var in λ w. refl) f v
        (find-side f o v split hv) (rename_var_back name v named) in
    rw (hf, hv)
      (λ i. record (view p) {
        function_frames =
            frames_back p.function_frames va o f (rename_var name) (rename_var old) hf back i;
      })

-- Padding stops at once where there is room.
pub pad_params_room :
    (fuel index : ℕ) (ps : List (String × DataType))
    → index < length ps
    → pad_params fuel index ps ≡ ps
unfolding pad_params
pad_params_room zero index ps h = refl
pad_params_room (suc fuel) index ps h = ground arith

pub rename_param_back :
    (i : ℕ) (name old : String) (ps : List (String × DataType))
    → param_name ps i ≡ some old
    → rename_param i old (rename_param i name ps) ≡ ps
unfolding rename_param
rename_param_back i name old [] h = refl
rename_param_back zero name old (q ∷ ps) h = ground arith
rename_param_back (suc i) name old (q ∷ ps) h = ap (◌∷◌ q) (rename_param_back i name old ps h)
