-- ===== src/Project/Op.antt =====
-- src/project/op.rs: the reversible operations.
use windy_public.Prelude.{ℕ, String, Option, none, some}
use windy_public.Prelude.Int.{ℤ}
use windy_public.Project.Types.{DataType, FunctionSignature}
use windy_public.Project.Tables.{SymbolKind, CommentScope, FunctionMemoryCard}

-- The `old` fields hold what was there before; `none` until the operation is applied.
mutual
  pub data Op : Type 0 where
    rename_symbol : ℕ → String → SymbolKind → Option String → Option SymbolKind → Op
    set_comment : ℕ → CommentScope → String → Option String → Op
    set_focus : ℕ → Option ℕ → Op
    set_global_type : ℕ → DataType → Option DataType → Op
    set_function_signature : ℕ → FunctionSignature → Option FunctionSignature → Op
    set_stack_local_type : ℕ → ℤ → DataType → Option DataType → Op
    set_stack_local_name : ℕ → ℤ → String → Option (Option String) → Op
    set_param_name : ℕ → ℕ → String → Option String → Op
    set_function_memory : ℕ → FunctionMemoryCard → Option (Option FunctionMemoryCard) → Op
    batch : Ops → Op

  pub data Ops : Type 0 where
    nil : Ops
    cons : Op → Ops → Ops

-- `if old.is_none() { *old = now }`
unfoldable pub capture {ℓ} : {A : Type ℓ} → Option A → Option A → Option A
capture none now = now
capture (some a) now = some a

unfoldable pub capture_kind :
    Option String → Option SymbolKind → Option SymbolKind → Option SymbolKind
capture_kind none old now = now
capture_kind (some n) old now = old
