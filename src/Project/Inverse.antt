-- ===== src/Project/Inverse.antt =====
-- src/project/op.rs, `Op::inverse`: the operation that compensates an applied one.
use mathlib.Core.Option
use windy_public.Prelude.{ℕ, Option, none, some, []}
use windy_public.Project.Types.{void, unknown, FunctionSignature}
use windy_public.Project.Tables.{FunctionMemoryCard, clear_card}
use windy_public.Project.Op.{
  Op, Ops, rename_symbol, set_comment, set_focus, set_global_type, set_function_signature,
  set_stack_local_type, set_stack_local_name, set_param_name, set_function_memory, batch, nil, cons,
}

abbrev pub empty_signature : FunctionSignature
empty_signature = record { name = ""; params = []; ret = void; calling_conv = none }

abbrev pub flatten {ℓ} : {A : Type ℓ} → Option (Option A) → Option A
flatten none = none
flatten (some o) = o

-- The card written by the inverse of `set_function_memory`.
abbrev pub card_or_clear : ℕ → Option FunctionMemoryCard → FunctionMemoryCard
card_or_clear va none = clear_card va
card_or_clear va (some card) = card

-- `Vec::push`
unfoldable pub append_op : Ops → Op → Ops
append_op nil op = cons op nil
append_op (cons o ops) op = cons o (append_op ops op)

-- One more operation, of which the inverse is `inv`, stood in front of those inverted in `done`.
unfoldable pub push_inverse : Ops → Option Op → Ops
push_inverse done none = done
push_inverse done (some op) = append_op done op

-- An empty batch of inverses counts as none.
unfoldable pub as_batch : Ops → Option Op
as_batch nil = none
as_batch (cons op ops) = some (batch (cons op ops))

unfoldable mutual
  pub inverse : Op → Option Op
  inverse (rename_symbol va name kind old_name old_kind) = some (
      rename_symbol va (Option.get_or old_name "") (Option.get_or old_kind kind) (some name)
        (some kind))
  inverse (set_comment va scope text old) =
      some (set_comment va scope (Option.get_or old "") (some text))
  inverse (set_focus va old) = some (set_focus (Option.get_or old va) (some va))
  inverse (set_global_type va ty old) =
      some (set_global_type va (Option.get_or old (unknown 0)) (some ty))
  inverse (set_function_signature va s old) =
      some (set_function_signature va (Option.get_or old empty_signature) (some s))
  inverse (set_stack_local_type va o ty old) =
      some (set_stack_local_type va o (Option.get_or old (unknown 0)) (some ty))
  inverse (set_stack_local_name va o name old) =
      some (set_stack_local_name va o (Option.get_or (flatten old) "") (some (some name)))
  inverse (set_param_name va i name old) =
      some (set_param_name va i (Option.get_or old "") (some name))
  inverse (set_function_memory va card old) =
      some (set_function_memory va (card_or_clear va (flatten old)) (some (some card)))
  inverse (batch ops) = as_batch (inverse_ops ops)

  -- `ops.iter().rev().filter_map(Op::inverse)`
  pub inverse_ops : Ops → Ops
  inverse_ops nil = nil
  inverse_ops (cons op ops) = push_inverse (inverse_ops ops) (inverse op)
