-- ===== src/Structure/Pcode.antt =====
-- What the structuring of src/decompiler/structure reads of an operation of the lifter, whose type is of
-- another package, and the tests of src/decompiler/normalize/mod.rs and src/decompiler/structure/region.rs.
use windy_public.Prelude.{ℕ, Bool, true, false, ◌&&◌, ◌||◌, Option, none, some, List, [], ◌∷◌, ◌==◌}
use windy_public.Prelude.Int.{ℤ, pos, eqb_ℤ}
use windy_public.Ssa.Types.{register, stack_slot, SsaVar, phi, pcode, SsaOp, SsaBlock}

pub data Space : Type 0 where
  registers constants elsewhere : Space

pub record Varnode : Type 0 where
  pub space : Space
  pub offset : ℕ

-- The kinds of `PcodeOp` that are told apart, with the operands that are looked at.
pub data PcodeView : Type 0 where
  branch cbranch branch_ind return_to call call_ind store load other : PcodeView
  int_xor int_mult int_less int_sless : PcodeView
  int_add int_sub int_eq int_not_eq : Varnode → Varnode → PcodeView
  copy : Varnode → PcodeView

unfoldable pub is_win64_home_disp : ℤ → Bool
is_win64_home_disp disp =
    eqb_ℤ disp (pos 8) || (eqb_ℤ disp (pos 16) || (eqb_ℤ disp (pos 24) || eqb_ℤ disp (pos 32)))

-- `gpr_param_rank(base_offset).is_some()`, for RCX, RDX, R8 and R9.
unfoldable pub is_gpr_param : ℕ → Bool
is_gpr_param base_offset =
    base_offset == 8 || (base_offset == 16 || (base_offset == 128 || base_offset == 136))

-- The offsets of RSP and RBP.
unfoldable pub is_frame_offset : ℕ → Bool
is_frame_offset offset = offset == 32 || offset == 40

unfoldable pub is_sp : Varnode → Bool
unfolding is_frame_offset
is_sp v = elim v.space [ registers ↦ is_frame_offset v.offset | _ ↦ false ]

unfoldable pub is_home_slot : Option SsaVar → Bool
unfolding is_win64_home_disp
is_home_slot none = false
is_home_slot (some d) = elim d.location [
  | stack_slot base disp ↦ is_win64_home_disp disp
  | _ ↦ false
]

unfoldable pub is_param_value : List SsaVar → Bool
unfolding is_gpr_param
is_param_value [] = false
is_param_value (u ∷ us) = elim u.location [ register base ↦ is_gpr_param base | _ ↦ false ]

unfoldable pub defines_sp : Option SsaVar → Bool
unfolding is_frame_offset
defines_sp none = false
defines_sp (some d) = elim d.location [ register base ↦ is_frame_offset base | _ ↦ false ]

unfoldable pub is_noise_address : List SsaVar → Bool
unfolding is_frame_offset
is_noise_address [] = false
is_noise_address (u ∷ us) = elim u.location [
  | stack_slot base disp ↦ eqb_ℤ disp (pos 0)
  | register base ↦ is_frame_offset base
  | _ ↦ false
]

unfoldable pub is_cbranch_view : PcodeView → Bool
is_cbranch_view cbranch = true
is_cbranch_view _ = false

unfoldable pub is_branch_ind_view : PcodeView → Bool
is_branch_ind_view branch_ind = true
is_branch_ind_view _ = false

unfoldable pub is_return_view : PcodeView → Bool
is_return_view return_to = true
is_return_view _ = false

unfoldable pub is_load_view : PcodeView → Bool
is_load_view load = true
is_load_view _ = false

-- The kinds that keep a block from being jump-only, a return aside.
unfoldable pub is_surface_view : PcodeView → Bool
is_surface_view cbranch = true
is_surface_view branch_ind = true
is_surface_view call = true
is_surface_view call_ind = true
is_surface_view store = true
is_surface_view _ = false

unfoldable pub is_terminator_view : PcodeView → Bool
is_terminator_view branch = true
is_terminator_view cbranch = true
is_terminator_view branch_ind = true
is_terminator_view return_to = true
is_terminator_view _ = false

unfoldable pub moves_sp : PcodeView → Bool
unfolding is_sp
moves_sp (int_add left right) = is_sp left || is_sp right
moves_sp (int_sub left right) = is_sp left || is_sp right
moves_sp (copy input) = is_sp input
moves_sp _ = false

-- The first two successors, or the only one twice.
unfoldable pub two_arms : List ℕ → Option (ℕ × ℕ)
two_arms [] = none
two_arms (s ∷ []) = some (s, s)
two_arms (s ∷ t ∷ rest) = some (s, t)

module _ {Op : Type 0} (view : Op → PcodeView) where
  -- `matches!(&op.kind, SsaOpKind::Pcode(..))` for the kinds that a test of views tells.
  unfoldable pub kind_is : (PcodeView → Bool) → SsaOp Op → Bool
  kind_is test op = elim op.kind [ phi p ↦ false | pcode o ↦ test (view o) ]

  unfoldable pub is_phi : SsaOp Op → Bool
  is_phi op = elim op.kind [ phi p ↦ true | pcode o ↦ false ]

  unfoldable pub any_op : (PcodeView → Bool) → List (SsaOp Op) → Bool
  unfolding kind_is
  any_op test [] = false
  any_op test (op ∷ ops) = kind_is test op || any_op test ops

  unfoldable pub is_param_home_store : SsaOp Op → Bool
  unfolding is_home_slot is_param_value
  is_param_home_store op = is_home_slot op.def && is_param_value op.uses

  unfoldable pub is_frame_pointer_adjust : SsaOp Op → Bool
  unfolding kind_is moves_sp defines_sp
  is_frame_pointer_adjust op = kind_is moves_sp op && defines_sp op.def

  unfoldable pub is_noise_stack_reload : SsaOp Op → Bool
  unfolding kind_is is_load_view is_noise_address
  is_noise_stack_reload op = kind_is is_load_view op && is_noise_address op.uses

  unfoldable pub is_cbranch : SsaBlock Op → Bool
  unfolding any_op is_cbranch_view
  is_cbranch block = any_op is_cbranch_view block.ops

  unfoldable pub is_branch_ind : SsaBlock Op → Bool
  unfolding any_op is_branch_ind_view
  is_branch_ind block = any_op is_branch_ind_view block.ops

  unfoldable pub is_return : SsaBlock Op → Bool
  unfolding any_op is_return_view
  is_return block = any_op is_return_view block.ops

  -- Where the branch goes when its condition is false, and when it is true.
  unfoldable pub cbranch_arms : SsaBlock Op → Option (ℕ × ℕ)
  unfolding is_cbranch two_arms
  cbranch_arms block = elim (is_cbranch block) [
    | false ↦ none
    | true ↦ two_arms block.successor_ids
  ]
