-- ===== src/Ssa/NodeSet.antt =====
-- `BTreeSet<u32>` and `HashSet<usize>` of the standard library: an ascending list. The order of a
-- `HashSet` is never observed.
use windy_public.Prelude.{
  ℕ, ◌≡◌, refl, Bool, false, ◌||◌, ◌&&◌, not, List, [], ◌∷◌, if◌then◌else◌, ltb, ◌==◌, arith,
}

unfoldable pub elem : ℕ → List ℕ → Bool
elem x [] = false
elem x (y ∷ ys) = x == y || elem x ys

-- `BTreeSet::insert`, without its answer, which is `not (elem x s)`.
unfoldable pub insert : ℕ → List ℕ → List ℕ
insert x [] = x ∷ []
insert x (y ∷ ys) =
    let rest = insert x ys in if x == y then y ∷ ys else if ltb x y then x ∷ y ∷ ys else y ∷ rest

-- `HashSet::remove`
unfoldable pub remove : ℕ → List ℕ → List ℕ
remove x [] = []
remove x (y ∷ ys) = let rest = remove x ys in if x == y then rest else y ∷ rest

pub elem-remove : (z x : ℕ) (s : List ℕ) → elem z (remove x s) ≡ (not (z == x) && elem z s)
unfolding elem remove
elem-remove z x [] = ground arith
elem-remove z x (y ∷ ys) = ground (arith, elem-remove z x ys)

pub elem-insert : (z x : ℕ) (s : List ℕ) → elem z (insert x s) ≡ (z == x || elem z s)
unfolding elem insert
elem-insert z x [] = refl
elem-insert z x (y ∷ ys) = ground (arith, elem-insert z x ys)
