-- ===== src/Structure/Region/Classify.antt =====
-- src/decompiler/structure/region.rs, `classify_with_adj`: its four passes over the blocks.
use windy_public.Prelude.{
  ℕ, suc, Bool, true, false, not, Option, none, some, List, [], ◌∷◌, map, if◌then◌else◌, ltb, ◌==◌,
  length, get_elem?, get_or, ◌>>=◌, nat_eq,
}
use windy_public.Prelude.Int.{ℤ, pos}
use windy_public.KeyMap.{KeyMap, empty, insert}
use windy_public.Ssa.Types.{SsaBlock, SsaFunction}
use windy_public.Ssa.Cfg.{build_idom}
use windy_public.Ssa.Pdom.{build_ipdom, virtual_exit}
use windy_public.Structure.Pcode.{PcodeView, is_return, is_branch_ind, cbranch_arms}
use windy_public.Structure.Jumps.{resolve_jump_target}
use windy_public.Structure.Walk.{natural_loop_nodes}
use windy_public.Structure.Region.{
  Region, return_region, switch, SwitchInfo, back_edges_from, or_else, header_loop, latch_loop,
  residual_loop, reaches_latch, arm_empty, if_region,
}

abbrev pub Regions : Type 0
Regions = KeyMap ℕ Region

unfoldable pub has_region : Regions → ℕ → Bool
has_region regions b = elim (regions b) [ none ↦ false | some r ↦ true ]

unfoldable pub add_region : Regions → ℕ → Option Region → Regions
unfolding insert
add_region regions b none = regions
add_region regions b (some r) = insert regions b r

-- `ipdom.get(i).and_then(|x| *x).unwrap_or(ve)`
unfoldable pub merge_of : List (Option ℕ) → ℕ → ℕ → ℕ
merge_of ipdom ve i = elim (get_or ipdom i none) [ none ↦ ve | some m ↦ m ]

-- The map from addresses to tables keeps the last table of an address.
unfoldable pub switch_at : List SwitchInfo → ℕ → Option SwitchInfo
switch_at [] va = none
switch_at (s ∷ rest) va = elim (switch_at rest va) [
  | some later ↦ some later
  | none ↦ if s.branch_va == va then some s else none
]

unfoldable pub numbered : ℕ → List ℕ → List (ℤ × ℕ)
numbered k [] = []
numbered k (t ∷ ts) = (pos k, t) ∷ numbered (suc k) ts

unfoldable pub position_from : ℕ → (ℕ → Bool) → List ℕ → Option ℕ
position_from i test [] = none
position_from i test (x ∷ xs) =
    let later = position_from (suc i) test xs in if test x then some i else later

module _ {Op : Type 0} (view : Op → PcodeView) where
  -- `map_arm`
  unfoldable pub map_arm : List (SsaBlock Op) → Bool → ℕ → ℕ
  unfolding resolve_jump_target
  map_arm blocks resolve_arms arm =
      if resolve_arms then resolve_jump_target view blocks arm 16 else arm

  -- The arms of a block. One out of range, where the code would panic, has none: headers and latches
  -- are blocks, as successors are.
  unfoldable pub arms_at : List (SsaBlock Op) → ℕ → Option (ℕ × ℕ)
  unfolding cbranch_arms
  arms_at blocks b = elim (get_elem? blocks b) [
    | none ↦ none
    | some block ↦ cbranch_arms view block
  ]

  unfoldable pub returns_from : ℕ → List (SsaBlock Op) → Regions → Regions
  unfolding is_return add_region
  returns_from i [] regions = regions
  returns_from i (block ∷ rest) regions =
      returns_from (suc i) rest
        (if is_return view block then add_region regions i (some return_region) else regions)

  unfoldable pub switch_region :
      List SwitchInfo → List (Option ℕ) → ℕ → ℕ → SsaBlock Op → Option Region
  unfolding is_branch_ind switch_at numbered merge_of
  switch_region switches ipdom ve i block =
      let merge = merge_of ipdom ve i in
      let cases : List (ℤ × ℕ) = elim (switch_at switches block.entry_va) [
        | some info ↦ info.cases
        | none ↦ numbered 0 block.successor_ids
      ] in
      if not (is_branch_ind view block)
      then none
      else if ltb (length block.successor_ids) 2
      then none
      else some (switch cases (if merge == ve then ve else merge))

  unfoldable pub switches_from :
      List SwitchInfo → List (Option ℕ) → ℕ → ℕ → List (SsaBlock Op) → Regions → Regions
  unfolding switch_region add_region
  switches_from switches ipdom ve i [] regions = regions
  switches_from switches ipdom ve i (block ∷ rest) regions =
      switches_from switches ipdom ve (suc i) rest
        (add_region regions i (switch_region switches ipdom ve i block))

  module _ (blocks : List (SsaBlock Op)) (succ pred : List (List ℕ)) (resolve_arms : Bool) where
    -- The region of a loop, `entered` if its header has a region.
    unfoldable pub loop_region : Bool → ℕ → List ℕ → Option (Option Region)
    unfolding arms_at map_arm header_loop latch_loop residual_loop or_else
    loop_region entered header latches = do
      nodes ← natural_loop_nodes header latches pred
      let residual = if entered then none else residual_loop (arms_at blocks) header nodes latches
      let latched = or_else (latch_loop (arms_at blocks) header latches) residual
      elim (arms_at blocks header) [
        | none ↦ some latched
        | some (fall0, taken0) ↦ do
          let fall = map_arm blocks resolve_arms fall0
          let taken = map_arm blocks resolve_arms taken0
          fall_to_latch ← reaches_latch succ header fall latches
          taken_to_latch ← reaches_latch succ header taken latches
          some (or_else (header_loop header nodes fall taken fall_to_latch taken_to_latch) latched)
      ]

    unfoldable pub loops_from : List (ℕ × List ℕ) → Regions → Option Regions
    unfolding loop_region has_region add_region
    loops_from [] regions = some regions
    loops_from ((header, latches) ∷ rest) regions = do
      found ← loop_region (has_region regions header) header latches
      loops_from rest (add_region regions header found)

    unfoldable pub branch_region : ℕ → SsaBlock Op → Option (Option Region)
    unfolding cbranch_arms map_arm if_region
    branch_region merge block = elim (cbranch_arms view block) [
      | none ↦ some none
      | some (fall0, taken0) ↦ do
        let fall = map_arm blocks resolve_arms fall0
        let taken = map_arm blocks resolve_arms taken0
        then_empty ← arm_empty succ taken merge
        else_empty ← arm_empty succ fall merge
        some (if_region then_empty else_empty taken fall merge)
    ]

    unfoldable pub branches_from :
        List (Option ℕ) → ℕ → List (SsaBlock Op) → Regions → Option Regions
    unfolding branch_region has_region add_region merge_of
    branches_from ipdom i [] regions = some regions
    branches_from ipdom i (block ∷ rest) regions = do
      let skip = branches_from ipdom (suc i) rest regions
      let ve = virtual_exit (length blocks)
      let classified = do
        found ← branch_region (merge_of ipdom ve i) block
        branches_from ipdom (suc i) rest (add_region regions i found)
      if has_region regions i then skip else classified

    -- The passes, after the two tables of dominators.
    unfoldable pub classify_regions :
        List SwitchInfo → List (Option ℕ) → List (Option ℕ) → Option Regions
    unfolding returns_from switches_from loops_from branches_from back_edges_from virtual_exit
    classify_regions switches ipdom idom = do
      let ve = virtual_exit (length blocks)
      let headers = back_edges_from 0 succ idom []
      let returned = returns_from 0 blocks empty
      let switched = switches_from switches ipdom ve 0 blocks returned
      looped ← loops_from headers switched
      branches_from ipdom 0 blocks looped

  -- `classify_with_adj`. The fuel is that of the two tables.
  unfoldable pub classify_with_adj :
      ℕ → SsaFunction Op → List SwitchInfo → List (List ℕ) → List (List ℕ) → Bool → Option Regions
  unfolding position_from
  classify_with_adj fuel ssa switches succ pred resolve_arms =
      let entry_idx : ℕ =
        elim (position_from 0 (λ va. va == ssa.entry_va) (map (λ b. b.entry_va) ssa.blocks)) [
          | none ↦ 0
          | some i ↦ i
        ] in
      let classified = (do
        ipdom ← build_ipdom fuel succ pred
        idom ← build_idom fuel succ pred entry_idx
        classify_regions ssa.blocks succ pred resolve_arms switches ipdom idom) in
      elim ssa.blocks [ [] ↦ some empty | block ∷ rest ↦ classified ]

  unfoldable pub classify : ℕ → SsaFunction Op → List SwitchInfo → Option Regions
  unfolding classify_with_adj
  classify fuel ssa switches =
      classify_with_adj fuel ssa switches (map (λ b. b.successor_ids) ssa.blocks)
        (map (λ b. b.predecessor_ids) ssa.blocks) false
