-- ===== src/Structure/Walk/Paths.antt =====
-- What `reach` of src/decompiler/structure/region.rs finds.
use windy_public.Prelude.{
  ℕ, ◌<◌, ◌≡◌, ◌≢◌, ◌↔◌, inl, inr, refl, sym, subst, Bool, true, false, ◌||◌, Bool-cases, some,
  List, [], ◌∷◌, leb, ◌==◌, length, get_or, arith,
}
use windy_public.Ssa.NodeSet.{elem}
use windy_public.Structure.Walk.{walk, walk_fuel, reach}
use windy_public.Structure.Walk.Visited.{Visits, begin, onward, walk_lem, elem-all_but}
use windy_public.Structure.Walk.Edges.{enough, next, next_beyond, next_fewer}

-- The nodes in range on the paths from `start` that do not go through `stop`.
pub data Reached (succ : List (List ℕ)) (start stop : ℕ) : ℕ → Type 0 where
  here : start < length succ → start ≢ stop → Reached succ start stop start
  there :
      (a b : ℕ)
      → Reached succ start stop a
      → elem b (get_or succ a []) ≡ true
      → b < length succ
      → b ≢ stop
      → Reached succ start stop b

module _ (succ : List (List ℕ)) (start stop : ℕ) where
  abbrev shut : ℕ → Bool
  shut b = (b == stop || leb (length succ) b) || elem b []

  shut-inside : (b : ℕ) → shut b ≡ false → b < length succ
  unfolding elem
  shut-inside b o = ground (arith, o)

  shut-apart : (b : ℕ) → shut b ≡ false → b ≢ stop
  unfolding elem
  shut-apart b o = λ e. ground (arith, o, e)

  unshut : (b : ℕ) → b < length succ → b ≢ stop → shut b ≡ false
  unfolding elem
  unshut b h k = ground (arith, h, k)

  Visits→Reached : {z : ℕ} → Visits (next succ stop) shut (start ∷ []) z → Reached succ start stop z
  unfolding elem
  Visits→Reached (begin z s o) =
      let same : z ≡ start = ground (arith, s) in
      subst (Reached succ start stop) (sym same) (
        here (subst (λ k. k < length succ) same (shut-inside z o))
          (subst (λ k. k ≢ stop) same (shut-apart z o)))
  Visits→Reached (onward a z v s o) =
      there a z (Visits→Reached v) (ground (arith, elem-all_but z stop (get_or succ a []), s))
        (shut-inside z o) (shut-apart z o)

  Reached→Visits : {z : ℕ} → Reached succ start stop z → Visits (next succ stop) shut (start ∷ []) z
  unfolding elem
  Reached→Visits (here h k) = begin start (ground arith) (unshut start h k)
  Reached→Visits (there a z v s h k) =
      onward a z (Reached→Visits v) (ground (arith, elem-all_but z stop (get_or succ a []), s, k))
        (unshut z h k)

  Reached-start : {z : ℕ} → Reached succ start stop z → (start < length succ) × (start ≢ stop)
  Reached-start (here h k) = (h, k)
  Reached-start (there a z v s h k) = Reached-start v

  walked :
      (r : List ℕ) × (walk
          (walk_fuel succ (start ∷ []))
          (next succ stop)
          (λ b. b == stop || leb (length succ) b)
          []
          (start ∷ [])
        ≡ some r)
      × ((z : ℕ) → (elem z r ≡ true) ↔ Reached succ start stop z)
  unfolding elem
  walked =
      let (r, e, found) =
        walk_lem (next succ stop) (λ b. b == stop || leb (length succ) b) (start ∷ []) []
          (length succ) (next_beyond succ stop) (walk_fuel succ (start ∷ []))
          (enough succ (next succ stop) (next_fewer succ stop) [] (start ∷ [])) in
      (
        r,
        e,
        λ z. (
          λ h. elim ((found z).0 h) [
            | inl s ↦ absurd (ground (arith, s))
            | inr v ↦ Visits→Reached v
          ],
          λ v. (found z).1 (inr (Reached→Visits v)),
        ),
      )

  -- The walk always ends, and finds exactly the nodes in range on the paths from `start` that do not
  -- go through `stop`.
  pub reach_lem :
      (r : List ℕ) × (reach start stop succ ≡ some r)
      × ((z : ℕ) → (elem z r ≡ true) ↔ Reached succ start stop z)
  unfolding reach elem
  reach_lem = elim (Bool-cases (leb (length succ) start || start == stop)) [
    | inl e ↦ rw (e) (
      [],
      refl,
      λ z. (
        λ h. absurd (ground (arith, h)),
        λ v. absurd (ground (arith, e, (Reached-start v).0, (Reached-start v).1)),
      ),
    )
    | inr e ↦ rw (e) walked
  ]
