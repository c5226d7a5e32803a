-- ===== src/Structure/Walk/Edges.antt =====
-- The edges of the adjacency lists of src/decompiler/structure/region.rs, which bound its walks.
use windy_public.Prelude.{
  ℕ, zero, suc, ◌+◌, ◌≤◌, ◌<◌, ◌≡◌, refl, ap, ◌∙◌, List, [], ◌∷◌, length, get_or, arith,
}
use windy_public.Structure.Walk.{all_but, count_edges, walk_fuel}
use windy_public.Structure.Walk.Visited.{unseen_edges, length-all_but}

pub get_or_beyond :
    (adjacent : List (List ℕ)) (b : ℕ) → length adjacent ≤ b → get_or adjacent b [] ≡ []
get_or_beyond [] b h = refl
get_or_beyond (ss ∷ rest) zero h = absurd (omega arith)
get_or_beyond (ss ∷ rest) (suc b) h = get_or_beyond rest b (omega arith)

edges_below : List (List ℕ) → ℕ → ℕ
edges_below adjacent zero = 0
edges_below adjacent (suc n) = length (get_or adjacent n []) + edges_below adjacent n

edges_below-cons :
    (ss : List ℕ) (rest : List (List ℕ)) (n : ℕ)
    → edges_below (ss ∷ rest) (suc n) ≡ length ss + edges_below rest n
unfolding edges_below
edges_below-cons ss rest zero = refl
edges_below-cons ss rest (suc n) = omega (arith, edges_below-cons ss rest n)

edges_below_all :
    (adjacent : List (List ℕ)) → edges_below adjacent (length adjacent) ≡ count_edges adjacent
unfolding edges_below count_edges
edges_below_all [] = refl
edges_below_all (ss ∷ rest) =
    edges_below-cons ss rest (length rest) ∙ omega (arith, edges_below_all rest)

module _ (adjacent : List (List ℕ)) (next : ℕ → List ℕ)
    (fewer : (b : ℕ) → length (next b) ≤ length (get_or adjacent b [])) where
  unseen_below : (n : ℕ) (seen : List ℕ) → unseen_edges next n seen ≤ edges_below adjacent n
  unfolding unseen_edges edges_below
  unseen_below zero seen = omega arith
  unseen_below (suc n) seen = ground (arith, unseen_below n seen, fewer n)

  pub enough :
      (seen stack : List ℕ)
      → unseen_edges next (length adjacent) seen + length stack < walk_fuel adjacent stack
  enough seen stack = omega (arith, unseen_below (length adjacent) seen, edges_below_all adjacent)

module _ (adjacent : List (List ℕ)) (stop : ℕ) where
  abbrev pub next : ℕ → List ℕ
  next b = all_but stop (get_or adjacent b [])

  pub next_beyond : (b : ℕ) → length adjacent ≤ b → next b ≡ []
  unfolding all_but
  next_beyond b h = ap (all_but stop) (get_or_beyond adjacent b h)

  pub next_fewer : (b : ℕ) → length (next b) ≤ length (get_or adjacent b [])
  next_fewer b = length-all_but stop (get_or adjacent b [])
