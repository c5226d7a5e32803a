-- ===== src/Ssa/Phi/Placed.antt =====
-- A phi stands exactly where an iterated dominance frontier asks for one.
use mathlib.Core.Option.{some-injective}
use windy_public.Prelude.{
  ℕ, zero, suc, ◌≤◌, ◌<◌, ◌≡◌, ◌↔◌, ◌⊎◌, inl, inr, refl, sym, ap, ◌∙◌, subst, Bool, true, false,
  ◌&&◌, ◌||◌, List, [], ◌∷◌, ◌++◌, if◌then◌else◌, leb, leb→le, ◌==◌, length, length-set,
  length-replicate, get_elem?, some, get_or, get_or-replicate, set, replicate, arith, Bool-cases,
}
use windy_public.Ssa.Types.{Location, location_beq, location_beq_iff}
use windy_public.Ssa.NodeSet.{elem}
use windy_public.Ssa.Cfg.{done}
use windy_public.Ssa.Cfg.Frontier.{AllBelow, IsInside, Reaches, first, further, iterated_df_lem}
use windy_public.Ssa.Phi.{has_location, push_phi, push_phis, place_each, place_phis}

pub get_or-set {ℓ} :
    {A : Type ℓ} (xs : List A) (i j : ℕ) (v d : A)
    → i < length xs
    → get_or (set xs i v) j d ≡ (if j == i then v else get_or xs j d)
get_or-set [] i j v d h = absurd (omega arith)
get_or-set (x ∷ xs) zero zero v d h = refl
get_or-set (x ∷ xs) zero (suc j) v d h = ground arith
get_or-set (x ∷ xs) (suc i) zero v d h = ground arith
get_or-set (x ∷ xs) (suc i) (suc j) v d h = ground (arith, get_or-set xs i j v d)

has_location-append :
    (l : Location) (xs ys : List Location)
    → has_location l (xs ++ ys) ≡ (has_location l xs || has_location l ys)
unfolding has_location
has_location-append l [] ys = refl
has_location-append l (x ∷ xs) ys = ground (arith, has_location-append l xs ys)

has_location-single : (l loc : Location) → has_location l (loc ∷ []) ≡ location_beq l loc
unfolding has_location
has_location-single l loc = ground arith

length-push_phi :
    (loc : Location) (b : ℕ) (t : List (List Location)) → length (push_phi loc b t) ≡ length t
unfolding push_phi
length-push_phi loc b t = ground (arith, length-set t b (get_or t b [] ++ loc ∷ []))

-- `l` has a phi at `c`.
abbrev pub has_phi : List (List Location) → ℕ → Location → Bool
has_phi t c l = has_location l (get_or t c [])

has_phi-push_phi :
    (loc l : Location) (b c : ℕ) (t : List (List Location))
    → b < length t
    → has_phi (push_phi loc b t) c l ≡ (has_phi t c l || (location_beq l loc && c == b))
unfolding push_phi
has_phi-push_phi loc l b c t h = ground (
  arith,
  get_or-set t b c (get_or t b [] ++ loc ∷ []) [],
  has_location-append l (get_or t b []) (loc ∷ []),
  has_location-single l loc,
  location_beq_iff l loc,
)

length-push_phis :
    (loc : Location) (bs : List ℕ) (t : List (List Location))
    → length (push_phis loc bs t) ≡ length t
unfolding push_phis
length-push_phis loc [] t = refl
length-push_phis loc (b ∷ bs) t =
    length-push_phis loc bs (push_phi loc b t) ∙ length-push_phi loc b t

has_phi-push_phis :
    (loc l : Location) (bs : List ℕ) (c : ℕ) (t : List (List Location))
    → AllBelow (length t) bs
    → has_phi (push_phis loc bs t) c l ≡ (has_phi t c l || (location_beq l loc && elem c bs))
unfolding push_phis elem
has_phi-push_phis loc l [] c t h = ground arith
has_phi-push_phis loc l (b ∷ bs) c t h =
    let same = length-push_phi loc b t in
    has_phi-push_phis loc l bs c (push_phi loc b t) (subst (λ n. AllBelow n bs) (sym same) h.1)
    ∙ ground (arith, has_phi-push_phi loc l b c t h.0)

-- Some location's definitions, two or more, ask for a phi of `l` at `c`.
abbrev pub Asks : List (List ℕ) → List (Location × List ℕ) → ℕ → Location → Type 0
Asks df [] c l = ⊥
Asks df ((loc, blocks) ∷ rest) c l =
    ((l ≡ loc) × (2 ≤ length blocks) × Reaches df blocks c) ⊎ Asks df rest c l

-- Every defining block is below `n`.
abbrev pub AllInside : ℕ → List (Location × List ℕ) → Type 0
AllInside n [] = Unit
AllInside n ((loc, blocks) ∷ rest) = AllBelow n blocks × AllInside n rest

AllBelow-elem : (n : ℕ) (xs : List ℕ) → ((y : ℕ) → elem y xs ≡ true → y < n) → AllBelow n xs
unfolding elem
AllBelow-elem n [] h = tt
AllBelow-elem n (x ∷ xs) h =
    (h x (ground arith), AllBelow-elem n xs (λ y e. h y (ground (arith, e))))

frontier_below :
    (n b : ℕ) (df : List (List ℕ)) (ys : List ℕ)
    → IsInside n df
    → get_elem? df b ≡ some ys
    → AllBelow n ys
frontier_below n b [] ys i e = absurd (ground (arith, e))
frontier_below n zero (zs ∷ df) ys i e = subst (AllBelow n) (some-injective zs ys e) i.0
frontier_below n (suc b) (zs ∷ df) ys i e = frontier_below n b df ys i.1 e

elem-AllBelow : (n : ℕ) (xs : List ℕ) (y : ℕ) → AllBelow n xs → elem y xs ≡ true → y < n
unfolding elem
elem-AllBelow n [] y h e = absurd (ground (arith, e))
elem-AllBelow n (x ∷ xs) y h e = ground (arith, elem-AllBelow n xs y h.1)

Reaches-lt :
    (df : List (List ℕ)) (seed : List ℕ) (y n : ℕ) → IsInside n df → Reaches df seed y → y < n
Reaches-lt df seed y n i (first b ys s at h) =
    elem-AllBelow n ys y (frontier_below n b df ys i at) h
Reaches-lt df seed y n i (further b ys r at h) =
    elem-AllBelow n ys y (frontier_below n b df ys i at) h

module _ (df : List (List ℕ)) (inside : IsInside (length df) df) where
  abbrev IsPlaced : List (Location × List ℕ) → List (List Location) → List (List Location) → Type 0
  IsPlaced defs t t' =
      (c : ℕ) (l : Location) → (has_phi t' c l ≡ true) ↔ ((has_phi t c l ≡ true) ⊎ Asks df defs c l)

  placed_one :
      (loc : Location) (blocks r : List ℕ) (t : List (List Location))
      → length t ≡ length df
      → ((y : ℕ) → (elem y r ≡ true) ↔ Reaches df blocks y)
      → (c : ℕ) (l : Location)
      → (has_phi (push_phis loc r t) c l ≡ true)
        ↔ ((has_phi t c l ≡ true) ⊎ ((l ≡ loc) × Reaches df blocks c))
  placed_one loc blocks r t size spec c l =
      let below = AllBelow-elem (length t) r (λ y e.
        Reaches-lt df blocks y (length t) (subst (λ n. IsInside n df) (sym size) inside)
          ((spec y).0 e)) in
      ground (arith, has_phi-push_phis loc l r c t below, spec c, location_beq_iff l loc)

  place_each_lem :
      (defs : List (Location × List ℕ)) (t : List (List Location))
      → AllInside (length df) defs
      → length t ≡ length df
      → (t' : List (List Location)) × (place_each defs df t ≡ done t')
        × (length t' ≡ length df)
        × IsPlaced defs t t'
  unfolding place_each
  place_each_lem [] t a size =
      (t, refl, size, λ c l. (λ h. inl h, λ h. elim h [ inl x ↦ x | inr x ↦ absurd x ]))
  place_each_lem ((loc, blocks) ∷ rest) t a size = elim (Bool-cases (leb 2 (length blocks))) [
    | inl many ↦
        let (r, e, spec) = iterated_df_lem df blocks inside a.0 in
        let (t', e', size', spec') =
          place_each_lem rest (push_phis loc r t) a.1 (length-push_phis loc r t ∙ size) in
        (
          t',
          rw (many, place_each) (rw (e, place_each) e'),
          size',
          λ c l. ground (
            arith,
            placed_one loc blocks r t size spec c l,
            spec' c l,
            leb→le 2 (length blocks) many,
          ),
        )
    | inr one ↦
        let (t', e', size', spec') = place_each_lem rest t a.1 size in
        (t', rw (one, place_each) e', size', λ c l. ground (arith, spec' c l))
  ]

nothing_yet : (n c : ℕ) (l : Location) → has_phi (replicate n []) c l ≡ false
unfolding has_location
nothing_yet n c l = ap (has_location l) (get_or-replicate n c [])

-- Where the frontiers and the definitions name blocks of the function, the placement ends with one
-- list of locations for each block, and a location is in the list of a block exactly if it is defined
-- in two blocks or more and a chain of frontiers leads from one of them to the block.
pub place_phis_lem :
    (def_blocks : List (Location × List ℕ)) (df : List (List ℕ))
    → IsInside (length df) df
    → AllInside (length df) def_blocks
    → (t : List (List Location)) × (place_phis def_blocks df ≡ done t)
      × (length t ≡ length df)
      × ((c : ℕ) (l : Location) → (has_phi t c l ≡ true) ↔ Asks df def_blocks c l)
unfolding place_phis
place_phis_lem def_blocks df inside a =
    let (t, e, size, spec) =
      place_each_lem df inside def_blocks (replicate (length df) []) a
        (length-replicate (length df) []) in
    (t, e, size, λ c l. ground (arith, spec c l, nothing_yet (length df) c l))
