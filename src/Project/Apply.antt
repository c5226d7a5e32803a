-- ===== src/Project/Apply.antt =====
-- src/project/op.rs, `Op::capture_and_apply`: each arm is a function, which returns the operation
-- with its old values filled in and the changed project.
use Prim.Native.String.{◌++◌ as str_append}
use text.Mathlib.Text.{◌==◌ as str_eq}
use mathlib.Core.Option
use windy_public.Prelude.{
  ℕ, zero, suc, String, Option, none, some, List, [], ◌∷◌, ◌++◌, nat_eq, if◌then◌else◌, length,
  get_elem?, leb,
}
use windy_public.Prelude.Int.{ℤ}
use windy_public.Project.Decimal.{decimal}
use windy_public.KeyMap.{insert, remove}
use windy_public.Project.Types.{
  DataType, unknown, FunctionSignature, StackFrame, StackVariable, default_frame,
}
use windy_public.Project.Tables.{
  SymbolKind, CommentScope, FunctionMemoryCard, is_clear, AliasEvent, insert_symbol, symbol_name,
  symbol_kind, get_comment, set_comment_text,
}
use windy_public.Project.State.{Project, saturating_add, invalidate_ssa_cache}
use windy_public.Project.Frame.{upsert_stack_var, find_in_frame}
use windy_public.Project.Op.{
  Op, Ops, rename_symbol, set_comment, set_focus, set_global_type, set_function_signature,
  set_stack_local_type, set_stack_local_name, set_param_name, set_function_memory, batch, nil, cons,
  capture, capture_kind,
}

-- The event that a rename of a named address adds to the lineage.
unfoldable pub push_alias : Project → ℕ → String → Option String → List AliasEvent
push_alias p va name none = p.alias_history
push_alias p va name (some prev) =
    p.alias_history
    ++ record {
      va = va;
      old_name = prev;
      new_name = name;
      source = "user";
      seq = saturating_add p.op_seq 1;
    }
      ∷ []

unfoldable pub apply_rename :
    ℕ → String → SymbolKind → Option String → Option SymbolKind → Project → Op × Project
unfolding capture capture_kind push_alias
apply_rename va name kind old_name old_kind p =
    let captured = capture old_name (symbol_name p.symbols va) in
    let captured_kind = capture_kind old_name old_kind (symbol_kind p.symbols va) in
    (
      rename_symbol va name kind captured captured_kind,
      record p {
        alias_history = push_alias p va name captured;
        symbols = insert_symbol p.symbols va name kind;
      },
    )

unfoldable pub apply_comment : ℕ → CommentScope → String → Option String → Project → Op × Project
unfolding capture
apply_comment va scope text old p = (
  set_comment va scope text (capture old (get_comment p.comments va scope)),
  record p { comments = set_comment_text p.comments va scope text },
)

unfoldable pub apply_focus : ℕ → Option ℕ → Project → Op × Project
unfolding capture
apply_focus va old p = (
  set_focus va (capture old p.focus),
  if p.has_function va then record p { focus = some va } else p,
)

unfoldable pub apply_global_type : ℕ → DataType → Option DataType → Project → Op × Project
unfolding capture
apply_global_type va ty old p = (
  set_global_type va ty (capture old (p.typed_globals va)),
  record p { typed_globals = insert p.typed_globals va ty },
)

unfoldable pub apply_signature :
    ℕ → FunctionSignature → Option FunctionSignature → Project → Op × Project
unfolding capture
apply_signature va signature old p = (
  set_function_signature va signature (capture old (p.function_signatures va)),
  invalidate_ssa_cache
      (record p { function_signatures = insert p.function_signatures va signature }) (some va),
)

-- `entry(va).or_default()`
unfoldable pub frame_at : Project → ℕ → StackFrame
frame_at p va = Option.get_or (p.function_frames va) default_frame

abbrev pub retype : DataType → StackVariable → StackVariable
retype ty v = record v { ty = ty }

-- An empty name clears the name.
unfoldable pub name_or_clear : String → Option String
name_or_clear name = if str_eq name "" then none else some name

unfoldable pub rename_var : String → StackVariable → StackVariable
unfolding name_or_clear
rename_var name v = record v { name = name_or_clear name }

unfoldable pub apply_local_type : ℕ → ℤ → DataType → Option DataType → Project → Op × Project
unfolding capture frame_at
apply_local_type va offset ty old p =
    let frame = frame_at p va in
    (
      set_stack_local_type va offset ty
          (capture old (Option.map (λ v. v.ty) (find_in_frame frame offset))),
      invalidate_ssa_cache
          (record p {
            function_frames =
                insert p.function_frames va (upsert_stack_var frame offset (retype ty));
          })
          (some va),
    )

unfoldable pub apply_local_name : ℕ → ℤ → String → Option (Option String) → Project → Op × Project
unfolding capture frame_at rename_var
apply_local_name va offset name old p =
    let frame = frame_at p va in
    (
      set_stack_local_name va offset name
          (capture old (some (Option.bind (find_in_frame frame offset) (λ v. v.name)))),
      invalidate_ssa_cache
          (record p {
            function_frames =
                insert p.function_frames va (upsert_stack_var frame offset (rename_var name));
          })
          (some va),
    )

-- A `usize` has at most 20 digits.
unfoldable pub placeholder : ℕ → String × DataType
unfolding decimal
placeholder i = (str_append "arg" (decimal 20 i), unknown 0)

-- `while params.len() <= index { push }`, in at most `fuel` rounds.
unfoldable pub pad_params : ℕ → ℕ → List (String × DataType) → List (String × DataType)
pad_params zero index params = params
pad_params (suc fuel) index params =
    let rest = pad_params fuel index (params ++ placeholder (length params) ∷ []) in
    if leb (length params) index then rest else params

unfoldable pub new_signature : Project → ℕ → FunctionSignature
new_signature p va = record {
  name = Option.get_or (symbol_name p.symbols va) "sub";
  params = [];
  ret = unknown 0;
  calling_conv = none;
}

-- The signature with at least `index + 1` parameters.
unfoldable pub padded_signature : Project → ℕ → ℕ → FunctionSignature
unfolding new_signature
padded_signature p va index =
    let sig = Option.get_or (p.function_signatures va) (new_signature p va) in
    record sig { params = pad_params (suc index) index sig.params }

abbrev pub param_name : List (String × DataType) → ℕ → Option String
param_name params i = Option.map (λ q. q.0) (get_elem? params i)

-- `params[index].0 = name`
unfoldable pub rename_param : ℕ → String → List (String × DataType) → List (String × DataType)
rename_param i name [] = []
rename_param zero name ((old, ty) ∷ params) = (name, ty) ∷ params
rename_param (suc i) name (q ∷ params) = q ∷ rename_param i name params

unfoldable pub apply_param_name : ℕ → ℕ → String → Option String → Project → Op × Project
unfolding capture padded_signature
apply_param_name va index name old p =
    let sig = padded_signature p va index in
    (
      set_param_name va index name (capture old (param_name sig.params index)),
      record p {
        function_signatures =
            insert p.function_signatures va
              (record sig { params = rename_param index name sig.params });
      },
    )

unfoldable pub apply_memory :
    ℕ → FunctionMemoryCard → Option (Option FunctionMemoryCard) → Project → Op × Project
unfolding capture
apply_memory va card old p = (
  set_function_memory va card (capture old (some (p.function_memory va))),
  if is_clear card then record p { function_memory = remove p.function_memory va } else record p {
    function_memory =
        insert p.function_memory va
          (record card { va = va; updated_seq = saturating_add p.op_seq 1 });
  },
)

-- `Op::capture_and_apply`
unfoldable mutual
  unfolding apply_rename apply_comment apply_focus apply_global_type apply_signature
      apply_local_type apply_local_name apply_param_name apply_memory

  pub apply_to : Op → Project → Op × Project
  apply_to (rename_symbol va name kind on ok) p = apply_rename va name kind on ok p
  apply_to (set_comment va scope text old) p = apply_comment va scope text old p
  apply_to (set_focus va old) p = apply_focus va old p
  apply_to (set_global_type va ty old) p = apply_global_type va ty old p
  apply_to (set_function_signature va s old) p = apply_signature va s old p
  apply_to (set_stack_local_type va o ty old) p = apply_local_type va o ty old p
  apply_to (set_stack_local_name va o n old) p = apply_local_name va o n old p
  apply_to (set_param_name va i n old) p = apply_param_name va i n old p
  apply_to (set_function_memory va c old) p = apply_memory va c old p
  apply_to (batch ops) p = let (ops', p') = apply_ops ops p in (batch ops', p')

  pub apply_ops : Ops → Project → Ops × Project
  apply_ops nil p = (nil, p)
  apply_ops (cons op ops) p =
      let (op', p') = apply_to op p in let (ops', p'') = apply_ops ops p' in (cons op' ops', p'')
