-- ===== src/Project/State.antt =====
-- src/project/mod.rs: the editable part of `Project`, and its setters.
use windy_public.Prelude.{
  ℕ, ◌+◌, ◌-◌, ◌^◌, min, String, Bool, Option, none, some, List, nat_eq, if◌then◌else◌,
}
use windy_public.KeyMap.{KeyMap, insert, remove, empty}
use windy_public.Project.Types.{DataType, FunctionSignature, StackFrame}
use windy_public.Project.TypeManager.{DataTypeManager}
use windy_public.Project.Tables.{
  SymbolTable, CommentStore, FunctionMemoryCard, AliasEvent, insert_symbol, set_comment_text, user,
  address_scope,
}

-- The image, its analysis and the type databases are read only by these operations, and only
-- through `function_at(va).is_some()`. A cached SSA form is recorded by its key alone.
pub record Project : Type 0 where
  pub has_function : ℕ → Bool
  pub symbols : SymbolTable
  pub comments : CommentStore
  pub types : DataTypeManager
  pub function_frames : KeyMap ℕ StackFrame
  pub typed_globals : KeyMap ℕ DataType
  pub function_signatures : KeyMap ℕ FunctionSignature
  pub focus : Option ℕ
  pub op_seq : ℕ
  pub function_memory : KeyMap ℕ FunctionMemoryCard
  pub alias_history : List AliasEvent
  pub ssa_cache : KeyMap ℕ (Unit {0})

-- `u64::saturating_add`
unfoldable pub saturating_add : ℕ → ℕ → ℕ
saturating_add a b = min (a + b) (2 ^ 64 - 1)

unfoldable pub invalidate_ssa_cache : Project → Option ℕ → Project
invalidate_ssa_cache p none = record p { ssa_cache = empty }
invalidate_ssa_cache p (some va) = record p { ssa_cache = remove p.ssa_cache va }

unfoldable pub rename : Project → ℕ → String → Project
rename p va name = record p { symbols = insert_symbol p.symbols va name user }

unfoldable pub set_comment : Project → ℕ → String → Project
set_comment p va text = record p { comments = set_comment_text p.comments va address_scope text }

unfoldable pub set_focus : Project → ℕ → Project
set_focus p va = if p.has_function va then record p { focus = some va } else p

unfoldable pub set_global_type : Project → ℕ → DataType → Project
set_global_type p va ty = record p { typed_globals = insert p.typed_globals va ty }

unfoldable pub set_function_signature : Project → ℕ → FunctionSignature → Project
set_function_signature p va signature = record p {
  function_signatures = insert p.function_signatures va signature;
}
