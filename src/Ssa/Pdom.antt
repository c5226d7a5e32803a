-- ===== src/Ssa/Pdom.antt =====
-- src/decompiler/structure/pdom.rs: postdominators, the dominators of the reversed graph from one
-- virtual exit.
pub mod Children
use windy_public.Prelude.{
  ℕ, zero, suc, Option, none, some, List, [], ◌∷◌, ◌++◌, map, length, get_or, set, replicate,
}
use windy_public.Ssa.Types.{SsaBlock, SsaFunction}
use windy_public.Ssa.Cfg.{build_idom}
use windy_public.Ssa.Rename.{children_from}

unfoldable pub virtual_exit : ℕ → ℕ
virtual_exit n = n

-- The successors, with the virtual exit after each block that has none.
unfoldable pub exit_edges : ℕ → List (List ℕ) → List (List ℕ)
exit_edges ve [] = []
exit_edges ve ([] ∷ rest) = (ve ∷ []) ∷ exit_edges ve rest
exit_edges ve ((s ∷ ss) ∷ rest) = (s ∷ ss) ∷ exit_edges ve rest

-- The blocks from `i` on that have no successor.
unfoldable pub exits_from : ℕ → List (List ℕ) → List ℕ
exits_from i [] = []
exits_from i ([] ∷ rest) = i ∷ exits_from (suc i) rest
exits_from i ((s ∷ ss) ∷ rest) = exits_from (suc i) rest

-- `build_ipdom`. The fuel is that of `build_idom`.
unfoldable pub build_ipdom : ℕ → List (List ℕ) → List (List ℕ) → Option (List (Option ℕ))
unfolding virtual_exit exit_edges exits_from build_idom
build_ipdom fuel succ pred =
    let ve = virtual_exit (length succ) in
    let fwd_succ = exit_edges ve succ ++ [] ∷ [] in
    let fwd_pred = pred ++ exits_from 0 succ ∷ [] in build_idom fuel fwd_pred fwd_succ ve

unfoldable pub pdt_children : List (Option ℕ) → List (List ℕ)
unfolding children_from
pdt_children ipdom = children_from 0 ipdom (replicate (length ipdom) [])

-- The immediate postdominators, the children in their tree, and the virtual exit.
unfoldable pub analyze :
    {Op : Type 0} → ℕ → SsaFunction Op → Option (List (Option ℕ) × List (List ℕ) × ℕ)
unfolding build_ipdom pdt_children virtual_exit
analyze fuel ssa =
    elim (build_ipdom fuel (map (λ b. b.successor_ids) ssa.blocks)
      (map (λ b. b.predecessor_ids) ssa.blocks)) [
        | none ↦ none
        | some ipdom ↦ some (ipdom, pdt_children ipdom, virtual_exit (length ssa.blocks))
      ]
