-- ===== src/Structure/Region.antt =====
-- src/decompiler/structure/region.rs: the regions of a function. Headers of loops are gone through in the
-- order of their first back edge; each writes its own entry only, so the order of the map does not
-- matter.
pub mod Classify
pub mod Arms
pub mod Positions
pub mod Passes
pub mod Follow
pub mod ShortCircuit
use windy_public.Prelude.{
  ℕ, zero, suc, Bool, true, false, ◌&&◌, ◌||◌, not, Option, none, some, List, [], ◌∷◌,
  if◌then◌else◌, ◌==◌, length, get_or, ◌>>=◌,
}
use windy_public.Prelude.Int.{ℤ, pos}
use windy_public.Ssa.NodeSet.{elem}
use windy_public.Structure.Walk.{can_reach, reach}

pub data Region : Type 0 where
  if_else : ℕ → ℕ → ℕ → Bool → Region
  if_then : ℕ → ℕ → Bool → Region
  if_then_fallthrough : ℕ → ℕ → ℕ → Bool → Region
  while_loop : ℕ → ℕ → Region
  do_while : ℕ → ℕ → ℕ → Region
  switch : List (ℤ × ℕ) → ℕ → Region
  return_region : Region

pub record SwitchInfo : Type 0 where
  pub branch_va : ℕ
  pub cases : List (ℤ × ℕ)

-- The loop of `dominates`; the first argument is its limit.
unfoldable pub climbs_to : ℕ → ℕ → ℕ → List (Option ℕ) → Bool
climbs_to zero a cur idom = false
climbs_to (suc limit) a cur idom = elim (get_or idom cur none) [
  | none ↦ false
  | some p ↦
      let further = climbs_to limit a p idom in
      if p == cur then false else if p == a then true else further
]

unfoldable pub dominates : ℕ → ℕ → List (Option ℕ) → Bool
unfolding climbs_to
dominates a b idom = if a == b then true else climbs_to (suc (length idom)) a b idom

unfoldable pub is_back_edge : ℕ → ℕ → List (Option ℕ) → Bool
unfolding dominates
is_back_edge from to idom = dominates to from idom

-- `back_edge_preds.entry(header).or_default().push(latch)`
unfoldable pub add_latch : ℕ → ℕ → List (ℕ × List ℕ) → List (ℕ × List ℕ)
add_latch header latch [] = (header, latch ∷ []) ∷ []
add_latch header latch ((h, latches) ∷ rest) =
    let later = add_latch header latch rest in
    if header == h then (h, snoc latches) ∷ rest else (h, latches) ∷ later
  where
    snoc : List ℕ → List ℕ
    snoc [] = latch ∷ []
    snoc (l ∷ ls) = l ∷ snoc ls

unfoldable pub back_edges_of : ℕ → List ℕ → List (Option ℕ) → List (ℕ × List ℕ) → List (ℕ × List ℕ)
unfolding is_back_edge add_latch
back_edges_of b [] idom found = found
back_edges_of b (s ∷ ss) idom found =
    back_edges_of b ss idom (if is_back_edge b s idom then add_latch s b found else found)

unfoldable pub back_edges_from :
    ℕ → List (List ℕ) → List (Option ℕ) → List (ℕ × List ℕ) → List (ℕ × List ℕ)
unfolding back_edges_of
back_edges_from b [] idom found = found
back_edges_from b (ss ∷ rest) idom found =
    back_edges_from (suc b) rest idom (back_edges_of b ss idom found)

unfoldable pub or_else : Option Region → Option Region → Option Region
or_else none r = r
or_else (some a) r = some a

-- One arm stays in the loop and one leaves it.
unfoldable pub pick_body : Bool → Bool → ℕ → ℕ → Option Region
pick_body true false fall taken = some (while_loop fall taken)
pick_body false true fall taken = some (while_loop taken fall)
pick_body _ _ fall taken = none

-- A loop whose header branches to `fall` and `taken`; the last two tell which of them reaches a latch.
unfoldable pub header_loop : ℕ → List ℕ → ℕ → ℕ → Bool → Bool → Option Region
unfolding elem or_else pick_body
header_loop header nodes fall taken fall_to_latch taken_to_latch =
    let fall_in = elem fall nodes || fall == header in
    let taken_in = elem taken nodes || taken == header in
    let again =
      if fall_in && taken_in then pick_body fall_to_latch taken_to_latch fall taken else none in
    if fall == header || taken == header
    then some (do_while header header (if fall == header then taken else fall))
    else or_else (pick_body fall_in taken_in fall taken) again

-- The first latch, other than the header, that branches back to the header.
unfoldable pub latch_loop : (ℕ → Option (ℕ × ℕ)) → ℕ → List ℕ → Option Region
latch_loop arms header [] = none
latch_loop arms header (latch ∷ latches) =
    let later = latch_loop arms header latches in
    if latch == header then later else elim (arms latch) [
      | none ↦ later
      | some (fall, taken) ↦
          if fall == header || taken == header
          then some (do_while header latch (if fall == header then taken else fall))
          else later
    ]

-- The first latch that branches at all.
unfoldable pub residual_loop : (ℕ → Option (ℕ × ℕ)) → ℕ → List ℕ → List ℕ → Option Region
unfolding elem
residual_loop arms header nodes [] = none
residual_loop arms header nodes (latch ∷ latches) = elim (arms latch) [
  | none ↦ residual_loop arms header nodes latches
  | some (fall, taken) ↦ some (
      do_while header latch (
        if fall == header
        then taken
        else if taken == header
        then fall
        else if elem fall nodes
        then taken
        else fall))
]

-- Whether a walk from a node that goes around the header finds a latch.
unfoldable pub reaches_latch : List (List ℕ) → ℕ → ℕ → List ℕ → Option Bool
reaches_latch succ header from [] = some false
reaches_latch succ header from (latch ∷ latches) =
    let later = reaches_latch succ header from latches in
    do found ← can_reach from latch succ (some header); if found then some true else later

unfoldable pub is_nil : List ℕ → Bool
is_nil [] = true
is_nil (x ∷ xs) = false

-- Whether the arm of a branch is empty.
unfoldable pub arm_empty : List (List ℕ) → ℕ → ℕ → Option Bool
unfolding is_nil
arm_empty succ arm merge =
    let walked = (do found ← reach arm merge succ; some (is_nil found)) in
    if arm == merge then some true else walked

unfoldable pub if_region : Bool → Bool → ℕ → ℕ → ℕ → Option Region
if_region false false taken fall merge = some (if_else taken fall merge false)
if_region false true taken fall merge = some (if_then taken merge false)
if_region true false taken fall merge = some (if_then fall merge true)
if_region true true taken fall merge = none
