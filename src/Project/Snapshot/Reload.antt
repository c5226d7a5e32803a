-- ===== src/Project/Snapshot/Reload.antt =====
-- A project that was saved and is loaded over a fresh analysis of the same image.
use windy_public.Prelude.{
  ℕ, String, ◌≡◌, refl, sym, fun_ext, Bool, Option, none, some, arith, nat_eq, if◌then◌else◌,
}
use windy_public.KeyMap.{KeyMap, extend, insert}
use windy_public.Project.State.{Project}
use windy_public.Project.Types.{DataType, FunctionSignature, StackFrame}
use windy_public.Project.Tables.{
  Symbol, CommentScope, FunctionMemoryCard, address_scope, function_scope, insert_symbol,
  set_comment_text,
}
use windy_public.Project.Snapshot.{from_project, apply_state, keep_focus}
use windy_public.Project.View.{View, view, effect, effect_all}
use windy_public.Project.Op.{
  Op, Ops, rename_symbol, set_comment, set_focus, set_global_type, set_function_signature,
  set_stack_local_type, set_stack_local_name, set_param_name, set_function_memory, batch, nil, cons,
}

-- Nothing that the fresh analysis gives has gone: names, comments and the cursor are only added or
-- replaced.
pub record Grows (v w : View) : Type 0 where
  pub functions : w.has_function ≡ v.has_function
  pub symbols : (k : ℕ) → w.symbols k ≡ none → v.symbols k ≡ none
  pub by_addr : (k : ℕ) → w.comments.by_addr k ≡ none → v.comments.by_addr k ≡ none
  pub by_function : (k : ℕ) → w.comments.by_function k ≡ none → v.comments.by_function k ≡ none
  pub focus : w.focus ≡ none → v.focus ≡ none

pub Grows-refl : (v : View) → Grows v v
Grows-refl v = record {
  functions = refl;
  symbols = λ k h. h;
  by_addr = λ k h. h;
  by_function = λ k h. h;
  focus = λ h. h;
}

insert_grows {κ} :
    {V : Type κ} (m : KeyMap ℕ V) (k j : ℕ) (x : V) → insert m k x j ≡ none → m j ≡ none
unfolding insert
insert_grows m k j x h = ground arith

-- The other maps do not matter.
unchanged :
    (v w : View) (frames : KeyMap ℕ StackFrame) (globals : KeyMap ℕ DataType)
    (signatures : KeyMap ℕ FunctionSignature) (memory : KeyMap ℕ FunctionMemoryCard)
    → Grows v w
    → Grows v (record w {
      function_frames = frames;
      typed_globals = globals;
      function_signatures = signatures;
      function_memory = memory;
    })
unchanged v w frames globals signatures memory g = record {
  functions = g.functions;
  symbols = g.symbols;
  by_addr = g.by_addr;
  by_function = g.by_function;
  focus = g.focus;
}

rename-Grows :
    (v w : View) (va : ℕ) (s : Symbol)
    → Grows v w
    → Grows v (record w { symbols = insert w.symbols va s })
rename-Grows v w va s g = record {
  functions = g.functions;
  symbols = λ k h. g.symbols k (insert_grows w.symbols va k s h);
  by_addr = g.by_addr;
  by_function = g.by_function;
  focus = g.focus;
}

comment-Grows :
    (v w : View) (va : ℕ) (scope : CommentScope) (text : String)
    → Grows v w
    → Grows v (record w { comments = set_comment_text w.comments va scope text })
unfolding set_comment_text
comment-Grows v w va address_scope text g = record {
  functions = g.functions;
  symbols = g.symbols;
  by_addr = λ k h. g.by_addr k (insert_grows w.comments.by_addr va k text h);
  by_function = g.by_function;
  focus = g.focus;
}
comment-Grows v w va function_scope text g = record {
  functions = g.functions;
  symbols = g.symbols;
  by_addr = g.by_addr;
  by_function = λ k h. g.by_function k (insert_grows w.comments.by_function va k text h);
  focus = g.focus;
}

focus-Grows :
    (v w : View) (b : Bool) (va : ℕ)
    → Grows v w
    → Grows v (record w { focus = if b then some va else w.focus })
focus-Grows v w b va g = record {
  functions = g.functions;
  symbols = g.symbols;
  by_addr = g.by_addr;
  by_function = g.by_function;
  focus = λ h. g.focus (ground arith);
}

mutual
  unfolding effect insert_symbol

  pub effect-Grows : (op : Op) (v w : View) → Grows v w → Grows v (effect op w)
  effect-Grows (rename_symbol va name kind on ok) v w g = rename-Grows v w va _ g
  effect-Grows (set_comment va scope text old) v w g = comment-Grows v w va scope text g
  effect-Grows (set_focus va old) v w g = focus-Grows v w (w.has_function va) va g
  effect-Grows (set_global_type va ty old) v w g = unchanged v w _ _ _ _ g
  effect-Grows (set_function_signature va s old) v w g = unchanged v w _ _ _ _ g
  effect-Grows (set_stack_local_type va o ty old) v w g = unchanged v w _ _ _ _ g
  effect-Grows (set_stack_local_name va o n old) v w g = unchanged v w _ _ _ _ g
  effect-Grows (set_param_name va i n old) v w g = unchanged v w _ _ _ _ g
  effect-Grows (set_function_memory va c old) v w g = unchanged v w _ _ _ _ g
  effect-Grows (batch ops) v w g = effect_all-Grows ops v w g

  effect_all-Grows : (ops : Ops) (v w : View) → Grows v w → Grows v (effect_all ops w)
  effect_all-Grows nil v w g = g
  effect_all-Grows (cons op ops) v w g =
      effect_all-Grows ops v (effect op w) (effect-Grows op v w g)

extend_grown {κ} :
    {V : Type κ} (base new : KeyMap ℕ V)
    → ((k : ℕ) → new k ≡ none → base k ≡ none)
    → extend base new ≡ new
unfolding extend
extend_grown base new h = fun_ext λ k. ground (arith, h k)

keep_focus_grown : (new old : Option ℕ) → (new ≡ none → old ≡ none) → keep_focus new old ≡ new
unfolding keep_focus
keep_focus_grown none old h = h refl
keep_focus_grown (some f) old h = refl

-- Let a project have every name, comment and focus, possibly replaced, that a fresh analysis of its
-- image has. Saving it and loading the snapshot over the fresh analysis shows the project again.
pub reload-view :
    (fresh p : Project)
    → Grows (view fresh) (view p)
    → view (apply_state (from_project p) fresh) ≡ view p
unfolding apply_state from_project
reload-view fresh p g =
    let addr : extend fresh.comments.by_addr p.comments.by_addr ≡ p.comments.by_addr =
      extend_grown _ _ g.by_addr in
    let function : extend fresh.comments.by_function p.comments.by_function
        ≡ p.comments.by_function =
      extend_grown _ _ g.by_function in
    λ i. record (view p) {
      has_function = sym g.functions i;
      symbols = extend_grown fresh.symbols p.symbols g.symbols i;
      comments = record { by_addr = addr i; by_function = function i };
      focus = keep_focus_grown p.focus fresh.focus g.focus i;
    }
