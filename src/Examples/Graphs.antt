-- ===== src/Examples/Graphs.antt =====
-- Tests and examples for the SSA construction: the diamond of the tests of cfg.rs, and a loop.
use windy_public.Prelude.{
  ℕ, zero, suc, ◌<◌, ◌≤◌, ◌≡◌, ◌↔◌, refl, true, List, [], ◌∷◌, map, get_or, get_elem?, ◌≢◌, Option,
  none, some, arith, length,
}
use windy_public.Ssa.NodeSet.{elem}
use windy_public.Ssa.Types.{Location, register, SsaVar, FlatOp}
use windy_public.Ssa.Cfg.{done, build_idom, dominance_frontier, iterated_df}
use windy_public.Ssa.Cfg.Frontier.{IsInside, Reaches, iterated_df_lem}
use windy_public.Ssa.Phi.{place_phis}
use windy_public.Ssa.Phi.Placed.{has_phi, Asks, place_phis_lem}
use windy_public.Ssa.Pdom.{build_ipdom, pdt_children}
use windy_public.Ssa.Pdom.Children.{elem-pdt_children}
use windy_public.Ssa.Rename.{Input, Renaming, input_of, rename, start}
use windy_public.Ssa.Rename.Fresh.{single_assignment, definitions_of}
use windy_public.Ssa.Rename.Walk.{IsRanked, rename_restores}
use windy_public.Ssa.Rename.Tree.{IsForest, IsSimple}
use windy_public.Ssa.Rename.Unreached.{IsUnder, itself, child, rename_unreached}
use windy_public.Ssa.Rename.Content.{rename_fills}
use windy_public.Ssa.Rename.Written.{written, plain_flat}

abbrev diamond_succ : List (List ℕ)
diamond_succ = (1 ∷ 2 ∷ []) ∷ (3 ∷ []) ∷ (3 ∷ []) ∷ [] ∷ []

abbrev diamond_pred : List (List ℕ)
diamond_pred = [] ∷ (0 ∷ []) ∷ (0 ∷ []) ∷ (1 ∷ 2 ∷ []) ∷ []

abbrev diamond_idom : List (Option ℕ)
diamond_idom = some 0 ∷ some 0 ∷ some 0 ∷ some 0 ∷ []

abbrev diamond_df : List (List ℕ)
diamond_df = [] ∷ (3 ∷ []) ∷ (3 ∷ []) ∷ [] ∷ []

diamond_build_idom : build_idom 40 diamond_succ diamond_pred 0 ≡ some diamond_idom
unfolding build_idom
diamond_build_idom = refl

diamond_dominance_frontier :
    dominance_frontier 40 diamond_succ diamond_pred diamond_idom ≡ some diamond_df
unfolding dominance_frontier
diamond_dominance_frontier = refl

diamond-IsInside : IsInside 4 diamond_df
diamond-IsInside = (tt, ((omega arith, tt), ((omega arith, tt), (tt, tt))))

iterated_df_lem_example :
    (r : List ℕ) × (iterated_df diamond_df (1 ∷ 2 ∷ []) ≡ done r)
    × ((y : ℕ) → (elem y r ≡ true) ↔ Reaches diamond_df (1 ∷ 2 ∷ []) y)
iterated_df_lem_example =
    iterated_df_lem diamond_df (1 ∷ 2 ∷ []) diamond-IsInside (omega arith, (omega arith, tt))

abbrev eax : Location
eax = register 0

place_phis_lem_example :
    (t : List (List Location)) × (place_phis ((eax, 1 ∷ 2 ∷ []) ∷ []) diamond_df ≡ done t)
    × (length t ≡ 4)
    × ((c : ℕ) (l : Location)
        → (has_phi t c l ≡ true) ↔ Asks diamond_df ((eax, 1 ∷ 2 ∷ []) ∷ []) c l)
place_phis_lem_example =
    place_phis_lem ((eax, 1 ∷ 2 ∷ []) ∷ []) diamond_df diamond-IsInside
      ((omega arith, (omega arith, tt)), tt)

-- Both arms define the register, and the join reads it. Block 4 is not reached.
abbrev diamond_ops : List (List (FlatOp ℕ))
diamond_ops =
    []
    ∷ (record { va = 16; op = 1; def = some eax; uses = [] } ∷ [])
    ∷ (record { va = 32; op = 2; def = some eax; uses = eax ∷ [] } ∷ [])
    ∷ (record { va = 48; op = 3; def = none; uses = eax ∷ [] } ∷ [])
    ∷ (record { va = 64; op = 4; def = some eax; uses = [] } ∷ [])
    ∷ []

abbrev diamond : Input ℕ
diamond = record {
  block_flat = diamond_ops;
  phi_locs = [] ∷ [] ∷ [] ∷ (eax ∷ []) ∷ [] ∷ [];
  succ = (1 ∷ 2 ∷ []) ∷ (3 ∷ []) ∷ (3 ∷ []) ∷ [] ∷ [] ∷ [];
  pred = [] ∷ (0 ∷ []) ∷ (0 ∷ []) ∷ (1 ∷ 2 ∷ []) ∷ [] ∷ [];
  dom_children = (1 ∷ 2 ∷ 3 ∷ []) ∷ [] ∷ [] ∷ [] ∷ [] ∷ [];
}

diamond-input_of :
    input_of diamond_ops diamond.phi_locs diamond.succ diamond.pred
      (some 0 ∷ some 0 ∷ some 0 ∷ some 0 ∷ none ∷ [])
    ≡ diamond
unfolding input_of
diamond-input_of = refl

-- The versions that the operations of a block read.
versions_at : Option (Renaming ℕ) → ℕ → List (List ℕ)
versions_at none x = []
versions_at (some t) x = map (λ op. map (λ v. v.version) op.uses) (get_or t.pcode_ops x [])

-- The join reads the version of its phi, which is the last one.
diamond_join : versions_at (rename diamond) 3 ≡ (4 ∷ []) ∷ []
unfolding rename versions_at
diamond_join = refl

rank : ℕ → ℕ
rank zero = 1
rank (suc b) = 0

diamond-IsRanked : IsRanked diamond rank
unfolding elem rank
diamond-IsRanked zero zero h = absurd (ground (arith, h))
diamond-IsRanked zero (suc c) h = omega arith
diamond-IsRanked (suc zero) c h = absurd (ground (arith, h))
diamond-IsRanked (suc (suc zero)) c h = absurd (ground (arith, h))
diamond-IsRanked (suc (suc (suc zero))) c h = absurd (ground (arith, h))
diamond-IsRanked (suc (suc (suc (suc zero)))) c h = absurd (ground (arith, h))
diamond-IsRanked (suc (suc (suc (suc (suc b))))) c h = absurd (ground (arith, h))

diamond_one_parent : (b c : ℕ) → elem c (get_or diamond.dom_children b []) ≡ true → 0 ≡ b
unfolding elem
diamond_one_parent zero c h = refl
diamond_one_parent (suc zero) c h = absurd (ground (arith, h))
diamond_one_parent (suc (suc zero)) c h = absurd (ground (arith, h))
diamond_one_parent (suc (suc (suc zero))) c h = absurd (ground (arith, h))
diamond_one_parent (suc (suc (suc (suc zero)))) c h = absurd (ground (arith, h))
diamond_one_parent (suc (suc (suc (suc (suc b))))) c h = absurd (ground (arith, h))

diamond-IsForest : IsForest diamond rank (λ c. 0)
unfolding elem
diamond-IsForest = record {
  ranked = diamond-IsRanked;
  one_parent = diamond_one_parent;
  simple = diamond_simple;
}
  where
    diamond_simple : (b : ℕ) → IsSimple (get_or diamond.dom_children b [])
    diamond_simple zero = (refl, (refl, (refl, tt)))
    diamond_simple (suc zero) = tt
    diamond_simple (suc (suc zero)) = tt
    diamond_simple (suc (suc (suc zero))) = tt
    diamond_simple (suc (suc (suc (suc zero)))) = tt
    diamond_simple (suc (suc (suc (suc (suc b))))) = tt

rank_enough : rank 0 < suc (length diamond.block_flat)
unfolding rank
rank_enough = omega arith

not_under : (b : ℕ) → IsUnder diamond b 4 → b ≡ 4
unfolding elem
not_under _ (itself _) = refl
not_under zero (child _ c _ m under) = absurd (ground (arith, m, not_under c under))
not_under (suc zero) (child _ c _ m under) = absurd (ground (arith, m))
not_under (suc (suc zero)) (child _ c _ m under) = absurd (ground (arith, m))
not_under (suc (suc (suc zero))) (child _ c _ m under) = absurd (ground (arith, m))
not_under (suc (suc (suc (suc zero)))) (child _ c _ m under) = absurd (ground (arith, m))
not_under (suc (suc (suc (suc (suc b))))) (child _ c _ m under) = absurd (ground (arith, m))

single_assignment_example :
    (t : Renaming ℕ) × (rename diamond ≡ some t)
    × ((v : SsaVar) → 0 < v.version → definitions_of v t ≤ 1)
single_assignment_example = single_assignment diamond rank diamond-IsRanked rank_enough

rename_restores_example :
    (t : Renaming ℕ) × (rename diamond ≡ some t)
    × ((l : Location) → t.current_def l ≡ (start diamond).current_def l)
rename_restores_example = rename_restores diamond rank diamond-IsRanked rank_enough

rename_unreached_example :
    (t : Renaming ℕ) × (rename diamond ≡ some t) × (get_or t.pcode_ops 4 [] ≡ [])
rename_unreached_example =
    rename_unreached diamond rank 4 diamond-IsRanked rank_enough
      (λ under. absurd (omega (arith, not_under 0 under)))

rename_fills_example :
    (t : Renaming ℕ) × (rename diamond ≡ some t)
    × ((x : ℕ)
        → x < length diamond.block_flat
        → IsUnder diamond 0 x
        → written t x ≡ map plain_flat (get_or diamond.block_flat x []))
rename_fills_example = rename_fills diamond rank (λ c. 0) diamond-IsForest rank_enough

-- A loop on a register that is read before it is written: block 1 is its own frontier.
abbrev loop_ops : List (List (FlatOp ℕ))
loop_ops = [] ∷ (record { va = 16; op = 1; def = some eax; uses = eax ∷ [] } ∷ []) ∷ [] ∷ []

abbrev loop_df : List (List ℕ)
loop_df = [] ∷ (1 ∷ []) ∷ [] ∷ []

-- The one definition is in the loop, so there is no phi,
loop_phis : place_phis ((eax, 1 ∷ []) ∷ []) loop_df ≡ done ([] ∷ [] ∷ [] ∷ [])
unfolding place_phis
loop_phis = refl

-- and the loop reads the value from before the loop in each round.
loop_reads :
    versions_at
      (rename (
        input_of loop_ops
          ([] ∷ [] ∷ [] ∷ [])
          ((1 ∷ []) ∷ (1 ∷ 2 ∷ []) ∷ [] ∷ [])
          ([] ∷ (0 ∷ 1 ∷ []) ∷ (1 ∷ []) ∷ [])
          (some 0 ∷ some 0 ∷ some 1 ∷ [])))
      1
    ≡ (1 ∷ []) ∷ []
unfolding versions_at rename input_of
loop_reads = refl

-- The postdominators of the diamond, as in the tests of pdom.rs: the virtual exit is node 4.
abbrev diamond_ipdom : List (Option ℕ)
diamond_ipdom = some 3 ∷ some 3 ∷ some 3 ∷ some 4 ∷ some 4 ∷ []

diamond_build_ipdom : build_ipdom 60 diamond_succ diamond_pred ≡ some diamond_ipdom
unfolding build_ipdom
diamond_build_ipdom = refl

abbrev join : ℕ
join = 3

abbrev arm : ℕ
arm = 1

elem-pdt_children_example :
    (elem arm (get_or (pdt_children diamond_ipdom) join []) ≡ true)
    ↔ ((get_elem? diamond_ipdom arm ≡ some (some join)) × (join ≢ arm))
elem-pdt_children_example = elem-pdt_children diamond_ipdom join arm (omega arith)
