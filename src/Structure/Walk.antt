-- ===== src/Structure/Walk.antt =====
-- src/decompiler/structure/region.rs: walks over adjacency lists with a stack. The head of a list is the
-- top of the stack.
pub mod Visited
pub mod Edges
pub mod Paths
pub mod Loops
use windy_public.Prelude.{
  ℕ, zero, suc, ◌+◌, Bool, true, false, ◌&&◌, ◌||◌, not, Option, none, some, List, [], ◌∷◌,
  if◌then◌else◌, leb, ◌==◌, length, get_or,
}
use mathlib.Core.List.{reverse}
use windy_public.Ssa.NodeSet.{elem, insert}

-- `for &s in ... { stack.push(s) }`
unfoldable pub push_all : List ℕ → List ℕ → List ℕ
push_all [] stack = stack
push_all (s ∷ ss) stack = push_all ss (s ∷ stack)

-- The nodes of a list that are not `stop`.
unfoldable pub all_but : ℕ → List ℕ → List ℕ
all_but stop [] = []
all_but stop (s ∷ ss) = let rest = all_but stop ss in if s == stop then rest else s ∷ rest

-- The loop of `reach` and of `natural_loop_nodes`: what is popped is left aside where it is blocked or
-- already seen, and otherwise it is seen and its neighbours are pushed.
unfoldable pub walk : ℕ → (ℕ → List ℕ) → (ℕ → Bool) → List ℕ → List ℕ → Option (List ℕ)
unfolding elem insert push_all
walk zero next blocked seen stack = none
walk (suc fuel) next blocked seen [] = some seen
walk (suc fuel) next blocked seen (b ∷ stack) =
    let skip = walk fuel next blocked seen stack in
    let visit = walk fuel next blocked (insert b seen) (push_all (next b) stack) in
    if blocked b || elem b seen then skip else visit

unfoldable pub count_edges : List (List ℕ) → ℕ
count_edges [] = 0
count_edges (ss ∷ rest) = length ss + count_edges rest

-- Each node is pushed for an edge, or at the beginning.
abbrev pub walk_fuel : List (List ℕ) → List ℕ → ℕ
walk_fuel adjacent stack = suc (count_edges adjacent + length stack)

-- `reach`
unfoldable pub reach : ℕ → ℕ → List (List ℕ) → Option (List ℕ)
reach start stop succ =
    let walked =
      walk (walk_fuel succ (start ∷ [])) (λ b. all_but stop (get_or succ b []))
        (λ b. b == stop || leb (length succ) b) [] (start ∷ []) in
    if leb (length succ) start || start == stop then some [] else walked

-- `natural_loop_nodes`. A latch out of range has no predecessors.
unfoldable pub natural_loop_nodes : ℕ → List ℕ → List (List ℕ) → Option (List ℕ)
natural_loop_nodes header latches pred =
    walk (walk_fuel pred (reverse latches)) (λ b. all_but header (get_or pred b [])) (λ b. false)
      (header ∷ []) (reverse latches)

-- The loop of `can_reach`; `avoid` is not gone through, unless the walk starts there.
unfoldable pub find_target : ℕ → List (List ℕ) → (ℕ → Bool) → ℕ → List ℕ → List ℕ → Option Bool
unfolding elem insert push_all
find_target zero succ blocked target seen stack = none
find_target (suc fuel) succ blocked target seen [] = some false
find_target (suc fuel) succ blocked target seen (b ∷ stack) =
    let skip = find_target fuel succ blocked target seen stack in
    let onward =
      find_target fuel succ blocked target (insert b seen) (push_all (get_or succ b []) stack) in
    if blocked b || elem b seen then skip else if b == target then some true else onward

unfoldable pub avoided : Option ℕ → ℕ → ℕ → Bool
avoided none start b = false
avoided (some a) start b = a == b && not (b == start)

unfoldable pub can_reach : ℕ → ℕ → List (List ℕ) → Option ℕ → Option Bool
unfolding find_target avoided count_edges
can_reach start target succ avoid =
    let found =
      find_target (walk_fuel succ (start ∷ [])) succ (avoided avoid start) target [] (start ∷ []) in
    if start == target then some true else found
