-- ===== src/Ssa/Cfg.antt =====
-- src/decompiler/ssa/cfg.rs: dominators and dominance frontiers over adjacency lists. A node is an
-- index into the lists. A read out of bounds, where the code panics, is an empty list or no dominator here,
-- but for the worklist of `iterated_df`, which keeps the panic.
pub mod Frontier
use windy_public.Prelude.{
  ℕ, zero, suc, ◌+◌, ◌*◌, Bool, true, false, not, ◌&&◌, ◌||◌, Option, none, some, List, [], ◌∷◌,
  ◌++◌, if◌then◌else◌, ltb, leb, ◌==◌, length, get_or, get_elem?, set, replicate,
}
use mathlib.Core.List.{reverse}
use windy_public.Ssa.NodeSet.{elem, insert}

-- How a loop over a graph ends: by its test, by an index out of bounds, or by the end of its fuel.
pub data Run {ℓ} (A : Type ℓ) : Type ℓ where
  done : A → Run A
  out_of_bounds out_of_fuel : Run A

-- The pairs on the depth-first stack: a node, and its successors not looked at yet.
abbrev pub DfsStack : Type 0
DfsStack = List (ℕ × List ℕ)

-- The loop of `reverse_postorder`: what was visited, and the finished nodes, the last one first.
unfoldable pub dfs : ℕ → List (List ℕ) → DfsStack → List ℕ → List ℕ → Option (List ℕ)
unfolding elem insert
dfs zero succ stack visited order = none
dfs (suc fuel) succ [] visited order = some order
dfs (suc fuel) succ ((node, []) ∷ stack) visited order =
    dfs fuel succ stack (insert node visited) (node ∷ order)
dfs (suc fuel) succ ((node, s ∷ rest) ∷ stack) visited order =
    let seen = insert node visited in
    let again = dfs fuel succ ((node, rest) ∷ stack) seen order in
    let deeper = dfs fuel succ ((s, get_or succ s []) ∷ (node, rest) ∷ stack) seen order in
    if elem s seen then again else deeper

-- The position of a node in postorder, read off the reverse postorder; `none` stands for `usize::MAX`.
unfoldable pub postorder_of : List ℕ → ℕ → Option ℕ
postorder_of [] node = none
postorder_of (b ∷ rest) node =
    let later = postorder_of rest node in if node == b then some (length rest) else later

-- `a < b` on postorder positions.
unfoldable pub before : Option ℕ → Option ℕ → Bool
before none b = false
before (some i) none = true
before (some i) (some j) = ltb i j

-- `idom[a].unwrap_or(a)`
unfoldable pub parent_or_self : List (Option ℕ) → ℕ → ℕ
parent_or_self idom a = elim (get_or idom a none) [ none ↦ a | some p ↦ p ]

-- Both inner loops and the outer one of `intersect`: one step up at a time.
unfoldable pub intersect : ℕ → List ℕ → List (Option ℕ) → ℕ → ℕ → Option ℕ
unfolding postorder_of before parent_or_self
intersect zero rpo idom a b = none
intersect (suc fuel) rpo idom a b =
    let up_a = intersect fuel rpo idom (parent_or_self idom a) b in
    let up_b = intersect fuel rpo idom a (parent_or_self idom b) in
    let stay = intersect fuel rpo idom a b in
    if a == b
    then some a
    else if before (postorder_of rpo a) (postorder_of rpo b)
    then up_a
    else if before (postorder_of rpo b) (postorder_of rpo a)
    then up_b
    else stay

-- The loop over the predecessors of a node.
unfoldable pub meet_preds : ℕ → List ℕ → List (Option ℕ) → List ℕ → Option ℕ → Option (Option ℕ)
unfolding intersect
meet_preds fuel rpo idom [] found = some found
meet_preds fuel rpo idom (p ∷ ps) found = elim (get_or idom p none) [
  | none ↦ meet_preds fuel rpo idom ps found
  | some q ↦ elim found [
    | none ↦ meet_preds fuel rpo idom ps (some p)
    | some cur ↦ elim (intersect fuel rpo idom p cur) [
      | none ↦ none
      | some m ↦ meet_preds fuel rpo idom ps (some m)
    ]
  ]
]

-- `idom[node] != Some(ni)`
unfoldable pub same_node : Option ℕ → ℕ → Bool
same_node none b = false
same_node (some a) b = a == b

-- One round over the reverse postorder, and whether it changed anything.
unfoldable pub idom_round :
    ℕ
    → List ℕ
    → List (List ℕ)
    → ℕ
    → List ℕ
    → List (Option ℕ)
    → Bool
    → Option (List (Option ℕ) × Bool)
unfolding meet_preds same_node
idom_round fuel rpo pred entry [] idom changed = some (idom, changed)
idom_round fuel rpo pred entry (node ∷ nodes) idom changed = elim (node == entry) [
  | true ↦ idom_round fuel rpo pred entry nodes idom changed
  | false ↦ elim (meet_preds fuel rpo idom (get_or pred node []) none) [
    | none ↦ none
    | some none ↦ idom_round fuel rpo pred entry nodes idom changed
    | some (some ni) ↦ elim (same_node (get_or idom node none) ni) [
      | true ↦ idom_round fuel rpo pred entry nodes idom changed
      | false ↦ idom_round fuel rpo pred entry nodes (set idom node (some ni)) true
    ]
  ]
]

unfoldable pub idom_loop :
    ℕ → ℕ → List ℕ → List (List ℕ) → ℕ → List (Option ℕ) → Option (List (Option ℕ))
unfolding idom_round
idom_loop zero fuel rpo pred entry idom = none
idom_loop (suc rounds) fuel rpo pred entry idom =
    elim (idom_round fuel rpo pred entry rpo idom false) [
      | none ↦ none
      | some (next, true) ↦ idom_loop rounds fuel rpo pred entry next
      | some (next, false) ↦ some next
    ]

-- `build_idom`; the fuel counts the steps of each loop.
unfoldable pub build_idom : ℕ → List (List ℕ) → List (List ℕ) → ℕ → Option (List (Option ℕ))
unfolding dfs idom_loop
build_idom fuel succ pred entry = elim (dfs fuel succ ((entry, get_or succ entry []) ∷ []) [] []) [
  | none ↦ none
  | some rpo ↦
      idom_loop fuel fuel rpo pred entry (set (replicate (length succ) none) entry (some entry))
]

-- `df[runner].insert(b)`
unfoldable pub add_frontier : List (List ℕ) → ℕ → ℕ → List (List ℕ)
unfolding insert
add_frontier df runner b = set df runner (insert b (get_or df runner []))

-- The `while` loop of `dominance_frontier`.
unfoldable pub climb : ℕ → List (Option ℕ) → ℕ → ℕ → List (List ℕ) → Option (List (List ℕ))
unfolding add_frontier same_node
climb zero idom b runner df = none
climb (suc fuel) idom b runner df =
    let added = add_frontier df runner b in
    elim (same_node (get_or idom b none) runner) [
      | true ↦ some df
      | false ↦ elim (get_or idom runner none) [
        | none ↦ some added
        | some r ↦ climb fuel idom b r added
      ]
    ]

unfoldable pub climb_each :
    ℕ → List (Option ℕ) → ℕ → List ℕ → List (List ℕ) → Option (List (List ℕ))
unfolding climb
climb_each fuel idom b [] df = some df
climb_each fuel idom b (p ∷ ps) df = elim (climb fuel idom b p df) [
  | none ↦ none
  | some df' ↦ climb_each fuel idom b ps df'
]

-- The blocks from `b` on, with their predecessors.
unfoldable pub frontier_from :
    ℕ → List (Option ℕ) → ℕ → List (List ℕ) → List (List ℕ) → Option (List (List ℕ))
unfolding climb_each
frontier_from fuel idom b [] df = some df
frontier_from fuel idom b (preds ∷ rest) df = elim (leb 2 (length preds)) [
  | false ↦ frontier_from fuel idom (suc b) rest df
  | true ↦ elim (climb_each fuel idom b preds df) [
    | none ↦ none
    | some df' ↦ frontier_from fuel idom (suc b) rest df'
  ]
]

unfoldable pub dominance_frontier :
    ℕ → List (List ℕ) → List (List ℕ) → List (Option ℕ) → Option (List (List ℕ))
unfolding frontier_from
dominance_frontier fuel succ pred idom = frontier_from fuel idom 0 pred (replicate (length succ) [])

-- The inner loop of `iterated_df`: the result, and the worklist with its end first.
unfoldable pub add_each : List ℕ → List ℕ → List ℕ → List ℕ × List ℕ
unfolding elem insert
add_each [] result work = (result, work)
add_each (y ∷ ys) result work =
    let old = add_each ys result work in
    let new = add_each ys (insert y result) (y ∷ work) in if elem y result then old else new

unfoldable pub idf_loop : ℕ → List (List ℕ) → List ℕ → List ℕ → Run (List ℕ)
unfolding add_each
idf_loop zero df result work = out_of_fuel
idf_loop (suc fuel) df result [] = done result
idf_loop (suc fuel) df result (b ∷ work) = elim (get_elem? df b) [
  | none ↦ out_of_bounds
  | some ys ↦ let next = add_each ys result work in idf_loop fuel df next.0 next.1
]

-- Each round takes a node off the worklist, and a node is put on it once beyond the seed.
unfoldable pub iterated_df : List (List ℕ) → List ℕ → Run (List ℕ)
unfolding idf_loop
iterated_df df seed = idf_loop (suc (length df + length seed)) df [] (reverse seed)
