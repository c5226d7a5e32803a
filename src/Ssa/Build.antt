-- ===== src/Ssa/Build.antt =====
-- src/decompiler/ssa/mod.rs, `build_ssa_with_call_abi_inputs`: the adjacency of the blocks, the blocks that
-- define a location, and the assembly. The flat operations of the blocks, which lifting gives, are an
-- argument.
pub mod Inside
use windy_public.Prelude.{
  ℕ, zero, suc, Bool, true, false, ◌&&◌, ◌||◌, Option, none, some, List, [], ◌∷◌, ◌++◌, map,
  if◌then◌else◌, ltb, ◌==◌, length, get_or, take, ◌>>=◌,
}
use windy_public.Prelude.Int.{ℤ, ltb_ℤ, eqb_ℤ}
use windy_public.Ssa.NodeSet.{elem, insert}
use windy_public.Ssa.Types.{
  Location, register, stack_slot, unique, raw_ram, is_instruction_scoped, location_beq, PhiNode,
  phi, SsaOp, SsaBlock, SsaFunction, FlatOp,
}
use windy_public.Ssa.Cfg.{Run, done, out_of_bounds, out_of_fuel, build_idom, dominance_frontier}
use windy_public.Ssa.Phi.{place_phis}
use windy_public.Ssa.Rename.{Renaming, Input, input_of, rename}

-- The edges by their targets; their kinds are not looked at.
pub record BasicBlock : Type 0 where
  pub entry_va : ℕ
  pub successors : List ℕ
  pub predecessors : List ℕ

pub record Function : Type 0 where
  pub entry_va : ℕ
  pub blocks : List BasicBlock

-- `block_index_map`, from index `i` on; the last block of an address is kept.
unfoldable pub block_index : ℕ → List BasicBlock → ℕ → Option ℕ
block_index i [] va = none
block_index i (block ∷ rest) va = elim (block_index (suc i) rest va) [
  | some j ↦ some j
  | none ↦ if block.entry_va == va then some i else none
]

-- `if !succ[i].contains(&j) { succ[i].push(j) }`
unfoldable pub push_new : Option ℕ → List ℕ → List ℕ
unfolding elem
push_new none found = found
push_new (some j) found = if elem j found then found else found ++ j ∷ []

unfoldable pub neighbours : List BasicBlock → List ℕ → List ℕ → List ℕ
unfolding block_index push_new
neighbours blocks [] found = found
neighbours blocks (target ∷ targets) found =
    neighbours blocks targets
      (if target == 0 then found else push_new (block_index 0 blocks target) found)

unfoldable pub succ_of : List BasicBlock → List (List ℕ)
unfolding neighbours
succ_of blocks = map (λ b. neighbours blocks b.successors []) blocks

unfoldable pub pred_of : List BasicBlock → List (List ℕ)
unfolding neighbours
pred_of blocks = map (λ b. neighbours blocks b.predecessors []) blocks

-- `Ord` of `Location`: the variants in their order, then the fields.
unfoldable pub variant_of : Location → ℕ
variant_of (register a) = 0
variant_of (stack_slot a d) = 1
variant_of (unique a b c) = 2
variant_of raw_ram = 3

unfoldable pub location_before : Location → Location → Bool
unfolding variant_of
location_before (register a) (register b) = ltb a b
location_before (stack_slot a d) (stack_slot b e) = ltb a b || (a == b && ltb_ℤ d e)
location_before (unique a b c) (unique d e f) =
    ltb a d || (a == d && (ltb b e || (b == e && ltb c f)))
location_before l k = ltb (variant_of l) (variant_of k)

-- `def_blocks.entry(loc).or_default().insert(i)`, in the map's order.
unfoldable pub add_def : Location → ℕ → List (Location × List ℕ) → List (Location × List ℕ)
unfolding location_beq location_before insert
add_def loc i [] = (loc, insert i []) ∷ []
add_def loc i ((l, bs) ∷ rest) =
    let later = add_def loc i rest in
    if location_beq loc l
    then (l, insert i bs) ∷ rest
    else if location_before loc l
    then (loc, insert i []) ∷ (l, bs) ∷ rest
    else (l, bs) ∷ later

module _ {Op : Type 0} where
  unfoldable pub add_defs :
      ℕ → List (FlatOp Op) → List (Location × List ℕ) → List (Location × List ℕ)
  unfolding add_def is_instruction_scoped
  add_defs i [] found = found
  add_defs i (op ∷ ops) found = add_defs i ops (elim op.def [
    | none ↦ found
    | some loc ↦ if is_instruction_scoped loc then found else add_def loc i found
  ])

  unfoldable pub defs_from :
      ℕ → List (List (FlatOp Op)) → List (Location × List ℕ) → List (Location × List ℕ)
  unfolding add_defs
  defs_from i [] found = found
  defs_from i (flat ∷ rest) found = defs_from (suc i) rest (add_defs i flat found)

  unfoldable pub collect_def_blocks : List (List (FlatOp Op)) → ℕ → List (Location × List ℕ)
  unfolding defs_from
  collect_def_blocks block_flat n = defs_from 0 (take n block_flat) []

  unfoldable pub phi_op : PhiNode → SsaOp Op
  phi_op p = record { va = 0; kind = phi p; def = some p.out; uses = [] }

  -- The blocks from index `i` on, with their phis in front of their operations.
  unfoldable pub assemble_from :
      List BasicBlock
      → List (List PhiNode)
      → List (List (SsaOp Op))
      → ℕ
      → List BasicBlock
      → List (SsaBlock Op)
  unfolding phi_op neighbours
  assemble_from blocks phis pcode_ops i [] = []
  assemble_from blocks phis pcode_ops i (block ∷ rest) =
      record {
        id = i;
        entry_va = block.entry_va;
        ops = map phi_op (get_or phis i []) ++ get_or pcode_ops i [];
        predecessor_ids = neighbours blocks block.predecessors [];
        successor_ids = neighbours blocks block.successors [];
      }
      ∷ assemble_from blocks phis pcode_ops (suc i) rest

  unfoldable pub assemble :
      Function → ℕ → ℕ → List (List PhiNode) → List (List (SsaOp Op)) → SsaFunction Op
  unfolding assemble_from
  assemble func bitness image_base phis pcode_ops = record {
    entry_va = func.entry_va;
    bitness = bitness;
    blocks = assemble_from func.blocks phis pcode_ops 0 func.blocks;
    image_base = image_base;
  }

  -- The fuel is that of the dominators and of their frontiers; `none` also stands for an index out of
  -- bounds.
  unfoldable pub build_ssa :
      ℕ → Function → ℕ → ℕ → List (List (FlatOp Op)) → Option (SsaFunction Op)
  unfolding succ_of pred_of block_index build_idom dominance_frontier collect_def_blocks place_phis
      rename assemble
  build_ssa fuel func bitness image_base block_flat = do
    let succ = succ_of func.blocks
    let pred = pred_of func.blocks
    let entry_idx : ℕ = elim (block_index 0 func.blocks func.entry_va) [ none ↦ 0 | some i ↦ i ]
    idom ← build_idom fuel succ pred entry_idx
    df ← dominance_frontier fuel succ pred idom
    let def_blocks = collect_def_blocks block_flat (length func.blocks)
    phi_locs ← elim (place_phis def_blocks df) [
      | done table ↦ some table
      | out_of_bounds ↦ none
      | out_of_fuel ↦ none
    ]
    renamed ← rename (input_of block_flat phi_locs succ pred idom)
    some (assemble func bitness image_base renamed.phis renamed.pcode_ops)
