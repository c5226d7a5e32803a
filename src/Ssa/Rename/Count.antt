-- ===== src/Ssa/Rename/Count.antt =====
-- Counting the definitions of a version, in phis and tables.
use mathlib.Core.Option.{some-injective}
use windy_public.Prelude.{
  ℕ, zero, suc, ◌+◌, ◌<◌, ◌≤◌, ◌≡◌, refl, ap, List, [], ◌∷◌, ◌++◌, map, drop, get_or, get_elem?,
  set, replicate, some, inl, inr, Bool-cases, arith, length, if◌then◌else◌,
}
use windy_public.Ssa.Types.{Location, SsaVar, var_beq, var_beq_iff, PhiNode}
use windy_public.Ssa.Rename.{set_out, blank_phis, blank_table}

abbrev pub sum_by {ℓ} : {A : Type ℓ} → (A → ℕ) → List A → ℕ
sum_by f [] = 0
sum_by f (x ∷ xs) = f x + sum_by f xs

pub sum_by-set {ℓ} :
    {A : Type ℓ} (f : A → ℕ) (xs : List A) (i : ℕ) (y d : A)
    → f d ≡ 0
    → sum_by f (set xs i y) + f (get_or xs i d) ≤ sum_by f xs + f y
sum_by-set f [] i y d h = omega (arith, h)
sum_by-set f (x ∷ xs) zero y d h = omega arith
sum_by-set f (x ∷ xs) (suc i) y d h = omega (arith, sum_by-set f xs i y d h)

pub sum_by-append {ℓ} :
    {A : Type ℓ} (f : A → ℕ) (xs ys : List A) → sum_by f (xs ++ ys) ≡ sum_by f xs + sum_by f ys
sum_by-append f [] ys = omega arith
sum_by-append f (x ∷ xs) ys = omega (arith, sum_by-append f xs ys)

pub sum_by-replicate {ℓ} :
    {A : Type ℓ} (f : A → ℕ) (n : ℕ) (y : A) → f y ≡ 0 → sum_by f (replicate n y) ≡ 0
sum_by-replicate f zero y h = refl
sum_by-replicate f (suc n) y h = omega (arith, h, sum_by-replicate f n y h)

pub image-set {ℓ κ} :
    {A : Type ℓ} {B : Type κ} (g : A → B) (xs : List A) (i j : ℕ) (y d : A)
    → g y ≡ g (get_or xs i d)
    → g (get_or (set xs i y) j d) ≡ g (get_or xs j d)
image-set g [] i j y d h = refl
image-set g (x ∷ xs) zero zero y d h = h
image-set g (x ∷ xs) zero (suc j) y d h = refl
image-set g (x ∷ xs) (suc i) zero y d h = refl
image-set g (x ∷ xs) (suc i) (suc j) y d h = image-set g xs i j y d h

pub drop_next {ℓ} :
    {A : Type ℓ} (i : ℕ) (xs ys : List A) (y : A)
    → drop i xs ≡ y ∷ ys
    → (get_elem? xs i ≡ some y) × (drop (suc i) xs ≡ ys)
drop_next zero [] ys y h = absurd (cc h)
drop_next zero (x ∷ xs) ys y h = (cc h, cc h)
drop_next (suc i) [] ys y h = absurd (cc h)
drop_next (suc i) (x ∷ xs) ys y h = drop_next i xs ys y h

abbrev pub same : SsaVar → SsaVar → ℕ
same v w = if var_beq v w then 1 else 0

-- How many phis of a block define `v`.
abbrev pub count_phi : SsaVar → List PhiNode → ℕ
count_phi v = sum_by (λ p. same v p.out)

pub same_le : (v w : SsaVar) → same v w ≤ 1
same_le v w = ground arith

pub same_other : (v w : SsaVar) → ¬ (v ≡ w) → same v w ≡ 0
same_other v w h = elim (Bool-cases (var_beq v w)) [
  | inl e ↦ absurd (h ((var_beq_iff v w).0 e))
  | inr e ↦ rw e refl
]

abbrev pub locations : List PhiNode → List Location
locations = map (λ p. p.out.location)

pub count_phi-set_out :
    (v : SsaVar) (ps : List PhiNode) (idx : ℕ) (loc : Location) (n : ℕ)
    → get_elem? (locations ps) idx ≡ some loc
    → count_phi v (set_out ps idx n)
      ≤ count_phi v ps + same v (record { location = loc; version = n })
unfolding set_out
count_phi-set_out v [] idx loc n h = omega arith
count_phi-set_out v (p ∷ ps) zero loc n h = omega (
  arith,
  ap (λ l. same v (record { location = l; version = n })) (some-injective p.out.location loc h),
)
count_phi-set_out v (p ∷ ps) (suc idx) loc n h = omega (arith, count_phi-set_out v ps idx loc n h)

pub locations-set_out :
    (ps : List PhiNode) (idx n : ℕ) → locations (set_out ps idx n) ≡ locations ps
unfolding set_out
locations-set_out [] idx n = refl
locations-set_out (p ∷ ps) zero n = refl
locations-set_out (p ∷ ps) (suc idx) n = ap (λ ls. p.out.location ∷ ls) (locations-set_out ps idx n)

pub locations-blank_phis :
    (slots : ℕ) (locs : List Location) → locations (blank_phis slots locs) ≡ locs
unfolding blank_phis
locations-blank_phis slots [] = refl
locations-blank_phis slots (loc ∷ locs) = ap (λ ls. loc ∷ ls) (locations-blank_phis slots locs)

pub locations-blank_table :
    (i b : ℕ) (pred : List (List ℕ)) (table : List (List Location))
    → locations (get_or (blank_table i pred table) b []) ≡ get_or table b []
unfolding blank_table
locations-blank_table i b pred [] = refl
locations-blank_table i zero pred (locs ∷ rest) =
    locations-blank_phis (length (get_or pred i [])) locs
locations-blank_table i (suc b) pred (locs ∷ rest) = locations-blank_table (suc i) b pred rest

pub count_phi-blank_phis :
    (v : SsaVar) (slots : ℕ) (locs : List Location)
    → 0 < v.version
    → count_phi v (blank_phis slots locs) ≡ 0
unfolding blank_phis
count_phi-blank_phis v slots [] h = refl
count_phi-blank_phis v slots (loc ∷ locs) h = omega (
  arith,
  same_other v (record { location = loc; version = 0 })
      (λ e. absurd (omega (arith, h, ap (λ w. w.version) e))),
  count_phi-blank_phis v slots locs h,
)

pub count-blank_table :
    (v : SsaVar) (i : ℕ) (pred : List (List ℕ)) (table : List (List Location))
    → 0 < v.version
    → sum_by (count_phi v) (blank_table i pred table) ≡ 0
unfolding blank_table
count-blank_table v i pred [] h = refl
count-blank_table v i pred (locs ∷ rest) h = omega (
  arith,
  count_phi-blank_phis v (length (get_or pred i [])) locs h,
  count-blank_table v (suc i) pred rest h,
)
