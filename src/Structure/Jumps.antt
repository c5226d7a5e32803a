-- ===== src/Structure/Jumps.antt =====
-- src/decompiler/structure/cfg_norm.rs: blocks that only jump on, and where they lead.
pub mod Bounds
use windy_public.Prelude.{
  ℕ, zero, suc, Bool, true, false, ◌&&◌, ◌||◌, not, Option, none, some, List, [], ◌∷◌, map,
  if◌then◌else◌, ◌==◌, length, get_elem?,
}
use windy_public.KeyMap.{KeyMap}
use windy_public.Ssa.NodeSet.{insert}
use windy_public.Ssa.Types.{SsaOp, SsaBlock, SsaFunction}
use windy_public.Structure.Pcode.{
  PcodeView, is_terminator_view, is_surface_view, is_return_view, kind_is, is_phi, any_op,
  is_param_home_store, is_frame_pointer_adjust, is_noise_stack_reload,
}

-- `sort_unstable` and `dedup`: the distinct numbers, ascending.
unfoldable pub sorted_set : List ℕ → List ℕ
unfolding insert
sorted_set [] = []
sorted_set (x ∷ xs) = insert x (sorted_set xs)

-- The first successor, unless the block stays for a reason, or jumps to itself.
unfoldable pub hop : Bool → ℕ → List ℕ → Option ℕ
hop stays b [] = none
hop stays b (next ∷ rest) = if stays || next == b then none else some next

module _ {Op : Type 0} (view : Op → PcodeView) where
  -- What an operation of a forwarding block may be.
  unfoldable pub is_noise : SsaOp Op → Bool
  unfolding kind_is is_phi is_terminator_view is_frame_pointer_adjust is_param_home_store
      is_noise_stack_reload
  is_noise op =
      (is_phi view op || kind_is view is_terminator_view op)
      || (is_frame_pointer_adjust view op
          || (is_param_home_store view op || is_noise_stack_reload view op))

  unfoldable pub all_noise : List (SsaOp Op) → Bool
  unfolding is_noise
  all_noise [] = true
  all_noise (op ∷ ops) = is_noise op && all_noise ops

  unfoldable pub is_forwarding_block : SsaBlock Op → Bool
  unfolding all_noise
  is_forwarding_block block = all_noise block.ops

  unfoldable pub is_jump_only : SsaBlock Op → Bool
  unfolding is_forwarding_block any_op is_return_view is_surface_view
  is_jump_only block =
      if not (length block.successor_ids == 1)
      then false
      else if any_op view is_return_view block.ops
      then false
      else if any_op view is_surface_view block.ops
      then false
      else is_forwarding_block block

  -- Where one step of `resolve_jump_target` leads; `none` where it stays.
  unfoldable pub jump_from : List (SsaBlock Op) → ℕ → Option ℕ
  unfolding is_jump_only hop
  jump_from blocks b = elim (get_elem? blocks b) [
    | none ↦ none
    | some block ↦ hop (not (is_jump_only block)) b block.successor_ids
  ]

  -- The last argument is the limit of the loop.
  unfoldable pub resolve_jump_target : List (SsaBlock Op) → ℕ → ℕ → ℕ
  unfolding jump_from
  resolve_jump_target blocks b zero = b
  resolve_jump_target blocks b (suc limit) = elim (jump_from blocks b) [
    | none ↦ b
    | some next ↦ resolve_jump_target blocks next limit
  ]

  unfoldable pub presentation_successors : SsaFunction Op → List (List ℕ)
  unfolding resolve_jump_target sorted_set
  presentation_successors ssa =
      map (λ block. sorted_set (map (λ s. resolve_jump_target ssa.blocks s 16) block.successor_ids))
        ssa.blocks

  unfoldable pub canon_from : List (SsaBlock Op) → ℕ → List (SsaBlock Op) → List (ℕ × ℕ)
  unfolding resolve_jump_target
  canon_from blocks i [] = []
  canon_from blocks i (block ∷ rest) =
      (i, resolve_jump_target blocks i 16) ∷ canon_from blocks (suc i) rest

  unfoldable pub presentation_canon : SsaFunction Op → List (ℕ × ℕ)
  unfolding canon_from
  presentation_canon ssa = canon_from ssa.blocks 0 ssa.blocks
