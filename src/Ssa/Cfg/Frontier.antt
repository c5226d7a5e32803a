-- ===== src/Ssa/Cfg/Frontier.antt =====
-- The iterated dominance frontier is the closure of the seed under the frontier.
use mathlib.Core.List.{reverse, reverse-append}
use windy_public.Prelude.{
  ℕ, zero, suc, ◌+◌, ◌≤◌, ◌<◌, ◌≡◌, ◌↔◌, ◌⊎◌, inl, inr, refl, sym, ap, ◌∙◌, subst, Bool, true,
  false, not, ◌&&◌, ◌||◌, some, List, [], ◌∷◌, ◌++◌, if◌then◌else◌, ◌==◌, ==_iff, length,
  length-append, get_elem?, arith, Bool-cases,
}
use windy_public.Ssa.NodeSet.{elem, insert, elem-insert}
use windy_public.Ssa.Cfg.{done, add_each, idf_loop, iterated_df}

pub elem-append : (z : ℕ) (xs ys : List ℕ) → elem z (xs ++ ys) ≡ (elem z xs || elem z ys)
unfolding elem
elem-append z [] ys = refl
elem-append z (x ∷ xs) ys = ground (arith, elem-append z xs ys)

pub elem-reverse : (z : ℕ) (xs : List ℕ) → elem z (reverse xs) ≡ elem z xs
unfolding elem
elem-reverse z [] = refl
elem-reverse z (x ∷ xs) =
    ap (elem z) (reverse-append (x ∷ []) xs)
    ∙ elem-append z (reverse xs) (x ∷ [])
    ∙ ground (arith, elem-reverse z xs)

pub length-reverse_ℕ : (xs : List ℕ) → length (reverse xs) ≡ length xs
length-reverse_ℕ [] = refl
length-reverse_ℕ (x ∷ xs) =
    ap length (reverse-append (x ∷ []) xs)
    ∙ length-append (reverse xs) (x ∷ [])
    ∙ omega (arith, length-reverse_ℕ xs)

pub elem-add_each :
    (z : ℕ) (ys result work : List ℕ)
    → elem z (add_each ys result work).0 ≡ (elem z result || elem z ys)
unfolding add_each elem
elem-add_each z [] result work = ground arith
elem-add_each z (y ∷ ys) result work = ground (
  arith,
  elem-add_each z ys result work,
  elem-add_each z ys (insert y result) (y ∷ work),
  elem-insert z y result,
)

elem-add_each_work :
    (z : ℕ) (ys result work : List ℕ)
    → elem z (add_each ys result work).1 ≡ (elem z work || (elem z ys && not (elem z result)))
unfolding add_each elem
elem-add_each_work z [] result work = ground arith
elem-add_each_work z (y ∷ ys) result work = ground (
  arith,
  elem-add_each_work z ys result work,
  elem-add_each_work z ys (insert y result) (y ∷ work),
  elem-insert z y result,
)

-- The nodes below `n` that are not in the set.
unfoldable pub missing : ℕ → List ℕ → ℕ
missing zero s = 0
missing (suc n) s = if elem n s then missing n s else suc (missing n s)

missing-nil : (n : ℕ) → missing n [] ≡ n
unfolding missing elem
missing-nil zero = refl
missing-nil (suc n) = omega (arith, missing-nil n)

pub missing_le : (n : ℕ) (s : List ℕ) → missing n s ≤ n
unfolding missing
missing_le zero s = omega arith
missing_le (suc n) s = ground (arith, missing_le n s)

missing-insert_above : (n y : ℕ) (s : List ℕ) → n ≤ y → missing n (insert y s) ≡ missing n s
unfolding missing
missing-insert_above zero y s h = refl
missing-insert_above (suc n) y s h = ground (arith, missing-insert_above n y s, elem-insert n y s)

missing-insert :
    (n y : ℕ) (s : List ℕ) → y < n → elem y s ≡ false → suc (missing n (insert y s)) ≡ missing n s
unfolding missing
missing-insert zero y s h e = absurd (omega arith)
missing-insert (suc n) y s h e =
    ground (arith, missing-insert n y s, missing-insert_above n y s, elem-insert n y s)

-- Every node of the list is below `n`.
abbrev pub AllBelow : ℕ → List ℕ → Type 0
AllBelow n [] = Unit
AllBelow n (y ∷ ys) = (y < n) × AllBelow n ys

-- Every frontier names blocks of the function.
abbrev pub IsInside : ℕ → List (List ℕ) → Type 0
IsInside n [] = Unit
IsInside n (ys ∷ rest) = AllBelow n ys × IsInside n rest

pub work-add_each :
    (n : ℕ) (ys result work : List ℕ)
    → AllBelow n ys
    → missing n (add_each ys result work).0 + length (add_each ys result work).1
      ≡ missing n result + length work
unfolding add_each
work-add_each n [] result work h = refl
work-add_each n (y ∷ ys) result work h = ground (
  arith,
  work-add_each n ys result work,
  work-add_each n ys (insert y result) (y ∷ work),
  missing-insert n y result,
)

pub AllBelow-add_each :
    (n : ℕ) (ys result work : List ℕ)
    → AllBelow n ys
    → AllBelow n work
    → AllBelow n (add_each ys result work).1
unfolding add_each
AllBelow-add_each n [] result work h k = k
AllBelow-add_each n (y ∷ ys) result work h k = elim (Bool-cases (elem y result)) [
  | inl e ↦ rw (e, add_each) (AllBelow-add_each n ys result work h.1 k)
  | inr e ↦ rw (e, add_each) (AllBelow-add_each n ys (insert y result) (y ∷ work) h.1 (h.0, k))
]

pub frontier_at :
    (n b : ℕ) (df : List (List ℕ))
    → IsInside n df
    → b < length df
    → (ys : List ℕ) × (get_elem? df b ≡ some ys) × AllBelow n ys
frontier_at n b [] h l = absurd (omega arith)
frontier_at n zero (ys ∷ df) h l = (ys, refl, h.0)
frontier_at n (suc b) (ys ∷ df) h l = frontier_at n b df h.1 (omega arith)

-- The blocks that a chain of frontiers reaches from a block of the seed.
pub data Reaches (df : List (List ℕ)) (seed : List ℕ) : ℕ → Type 0 where
  first :
      (b : ℕ) (ys : List ℕ) {y : ℕ}
      → elem b seed ≡ true
      → get_elem? df b ≡ some ys
      → elem y ys ≡ true
      → Reaches df seed y
  further :
      (b : ℕ) (ys : List ℕ) {y : ℕ}
      → Reaches df seed b
      → get_elem? df b ≡ some ys
      → elem y ys ≡ true
      → Reaches df seed y

or_cases : (a b : Bool) → (a || b) ≡ true → (a ≡ true) ⊎ (b ≡ true)
or_cases true b h = inl refl
or_cases false b h = inr h

and_left : (a b : Bool) → (a && b) ≡ true → a ≡ true
and_left a b h = ground arith

module _ (df : List (List ℕ)) (seed : List ℕ) where
  -- The frontier of `b` is in the result.
  abbrev IsDone : List ℕ → ℕ → Type 0
  IsDone result b =
      (y : ℕ) (ys : List ℕ) → get_elem? df b ≡ some ys → elem y ys ≡ true → elem y result ≡ true

  record Inv (result work : List ℕ) : Type 0 where
    sound : (y : ℕ) → elem y result ≡ true → Reaches df seed y
    queued : (b : ℕ) → elem b work ≡ true → (elem b seed ≡ true) ⊎ (elem b result ≡ true)
    waiting : (b : ℕ) → elem b seed ≡ true → (elem b work ≡ true) ⊎ IsDone result b
    closed : (b : ℕ) → elem b result ≡ true → (elem b work ≡ true) ⊎ IsDone result b

  Inv-start : Inv [] (reverse seed)
  unfolding elem
  Inv-start = record {
    sound = λ y h. absurd (ground (arith, h));
    queued = λ b h. inl (sym (elem-reverse b seed) ∙ h);
    waiting = λ b h. inl (elem-reverse b seed ∙ h);
    closed = λ b h. absurd (ground (arith, h));
  }

  module _ (result work ys : List ℕ) (b : ℕ) (at : get_elem? df b ≡ some ys)
      (inv : Inv result (b ∷ work)) where
    abbrev result' : List ℕ
    result' = (add_each ys result work).0

    abbrev work' : List ℕ
    work' = (add_each ys result work).1

    popped : (elem b seed ≡ true) ⊎ (elem b result ≡ true)
    unfolding elem
    popped = inv.queued b (ground arith)

    kept : (z : ℕ) → elem z result ≡ true → elem z result' ≡ true
    kept z h = ground (arith, elem-add_each z ys result work)

    added : (z : ℕ) → elem z ys ≡ true → elem z result' ≡ true
    added z h = ground (arith, elem-add_each z ys result work)

    still : (z : ℕ) → elem z work ≡ true → elem z work' ≡ true
    still z h = ground (arith, elem-add_each_work z ys result work)

    one_step : (y : ℕ) → elem y ys ≡ true → Reaches df seed y
    one_step y h = elim popped [
      | inl s ↦ first b ys s at h
      | inr r ↦ further b ys (inv.sound b r) at h
    ]

    same_ys : (y : ℕ) (zs : List ℕ) → get_elem? df b ≡ some zs → zs ≡ ys
    same_ys y zs at' = cc (at, at')

    queued_kept : (c : ℕ) → elem c work ≡ true → (elem c seed ≡ true) ⊎ (elem c result' ≡ true)
    unfolding elem
    queued_kept c w = elim (inv.queued c (ground arith)) [ inl x ↦ inl x | inr r ↦ inr (kept c r) ]

    b-IsDone : IsDone result' b
    b-IsDone y zs at' h = added y (subst (λ l. elem y l ≡ true) (same_ys y zs at') h)

    carry :
        (c : ℕ)
        → (elem c (b ∷ work) ≡ true) ⊎ IsDone result c
        → (elem c work' ≡ true) ⊎ IsDone result' c
    unfolding elem
    carry c (inl w) = elim (or_cases (c == b) (elem c work) w) [
      | inl e ↦ inr (subst (IsDone result') (sym ((==_iff c b).0 e)) b-IsDone)
      | inr e ↦ inl (still c e)
    ]
    carry c (inr d) = inr (λ y zs at' h. kept y (d y zs at' h))

    Inv-step : Inv result' work'
    Inv-step = record {
      sound = λ y h.
          elim (or_cases (elem y result) (elem y ys) (sym (elem-add_each y ys result work) ∙ h)) [
            | inl e ↦ inv.sound y e
            | inr e ↦ one_step y e
          ];
      queued = λ c h.
          elim (or_cases (elem c work) (elem c ys && not (elem c result))
            (sym (elem-add_each_work c ys result work) ∙ h)) [
              | inl e ↦ queued_kept c e
              | inr e ↦ inr (added c (and_left (elem c ys) (not (elem c result)) e))
            ];
      waiting = λ c h. carry c (inv.waiting c h);
      closed = λ c h. elim (Bool-cases (elem c result)) [
        | inl r ↦ carry c (inv.closed c r)
        | inr n ↦ inl (
            ground
              (arith, elem-add_each_work c ys result work, elem-add_each c ys result work, n, h))
      ];
    }

  Inv-complete :
      (result : List ℕ) → Inv result [] → (y : ℕ) → Reaches df seed y → elem y result ≡ true
  unfolding elem
  Inv-complete result inv y (first b ys s at h) = elim (inv.waiting b s) [
    | inl w ↦ absurd (ground (arith, w))
    | inr d ↦ d y ys at h
  ]
  Inv-complete result inv y (further b ys r at h) =
      elim (inv.closed b (Inv-complete result inv b r)) [
        | inl w ↦ absurd (ground (arith, w))
        | inr d ↦ d y ys at h
      ]

  idf_loop_lem :
      (fuel : ℕ) (result work : List ℕ)
      → IsInside (length df) df
      → AllBelow (length df) work
      → missing (length df) result + length work < fuel
      → Inv result work
      → (r : List ℕ) × (idf_loop fuel df result work ≡ done r)
        × ((y : ℕ) → (elem y r ≡ true) ↔ Reaches df seed y)
  unfolding idf_loop
  idf_loop_lem zero result work i b m inv = absurd (omega arith)
  idf_loop_lem (suc fuel) result [] i b m inv =
      (result, refl, λ y. (inv.sound y, Inv-complete result inv y))
  idf_loop_lem (suc fuel) result (x ∷ work) i b m inv =
      let (ys, at, below) = frontier_at (length df) x df i b.0 in
      let measure = work-add_each (length df) ys result work below in
      let (r, e, spec) =
        idf_loop_lem fuel (add_each ys result work).0 (add_each ys result work).1 i
          (AllBelow-add_each (length df) ys result work below b.1) (omega (arith, measure))
          (Inv-step result work ys x at inv) in
      (r, rw (at, idf_loop) e, spec)

AllBelow-append : (n : ℕ) (xs ys : List ℕ) → AllBelow n xs → AllBelow n ys → AllBelow n (xs ++ ys)
AllBelow-append n [] ys h k = k
AllBelow-append n (x ∷ xs) ys h k = (h.0, AllBelow-append n xs ys h.1 k)

AllBelow-reverse : (n : ℕ) (xs : List ℕ) → AllBelow n xs → AllBelow n (reverse xs)
AllBelow-reverse n [] h = tt
AllBelow-reverse n (x ∷ xs) h =
    subst (AllBelow n) (sym (reverse-append (x ∷ []) xs))
      (AllBelow-append n (reverse xs) (x ∷ []) (AllBelow-reverse n xs h.1) (h.0, tt))

-- Where the frontiers and the seed name blocks of the function, the iterated frontier is computed,
-- and holds exactly the blocks that a chain of one or more frontiers reaches from the seed.
pub iterated_df_lem :
    (df : List (List ℕ)) (seed : List ℕ)
    → IsInside (length df) df
    → AllBelow (length df) seed
    → (r : List ℕ) × (iterated_df df seed ≡ done r)
      × ((y : ℕ) → (elem y r ≡ true) ↔ Reaches df seed y)
unfolding iterated_df
iterated_df_lem df seed inside below =
    idf_loop_lem df seed (suc (length df + length seed)) [] (reverse seed) inside
      (AllBelow-reverse (length df) seed below)
      (omega (arith, missing-nil (length df), length-reverse_ℕ seed)) (Inv-start df seed)
