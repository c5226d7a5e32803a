-- ===== src/Ssa/Alias/Roots.antt =====
-- Aliases are links to roots: a search for a root has fuel enough.
use mathlib.Core.Option.{some-injective}
use windy_public.Prelude.{
  ℕ, zero, suc, ◌+◌, ◌<◌, ◌≤◌, ◌≡◌, refl, sym, ap, ◌∙◌, Bool, true, false, Bool-cases, Option-cases,
  none, some, if◌then◌else◌, ◌⊎◌, inl, inr, arith,
}
use windy_public.KeyMap.{KeyMap, insert}
use windy_public.Ssa.Types.{SsaVar, var_beq, var_eq, var_beq_iff}
use windy_public.Ssa.Alias.{Aliases, find, find_alias, links, resolve_var, union}

-- Every link goes down in rank, and no rank is above `k`.
pub record IsGrounded (k : ℕ) (parent : KeyMap SsaVar SsaVar) : Type 0 where
  pub rank : SsaVar → ℕ
  pub bounded : (v : SsaVar) → rank v ≤ k
  pub down : (v w : SsaVar) → parent v ≡ some w → rank w < rank v

-- What a search answers and leaves behind.
pub record FindsRoot (rank : SsaVar → ℕ) (parent : KeyMap SsaVar SsaVar) (v : SsaVar)
    (r : SsaVar × KeyMap SsaVar SsaVar) : Type 0 where
  pub root : parent r.0 ≡ none
  pub low : rank r.0 ≤ rank v
  pub still_root : (w : SsaVar) → parent w ≡ none → r.1 w ≡ none
  pub still_down : (u w : SsaVar) → r.1 u ≡ some w → rank w < rank u

insert_other :
    (parent : KeyMap SsaVar SsaVar) (k w v : SsaVar)
    → var_beq k v ≡ false
    → insert parent k w v ≡ parent v
unfolding insert
insert_other parent k w v e = rw e refl

insert_inv :
    (parent : KeyMap SsaVar SsaVar) (k x u w : SsaVar)
    → insert parent k x u ≡ some w
    → ((k ≡ u) × (x ≡ w)) ⊎ (parent u ≡ some w)
unfolding insert
insert_inv parent k x u w h = elim (Bool-cases (var_beq k u)) [
  | inl e ↦ inl ((var_beq_iff k u).0 e, some-injective x w (sym (rw e refl) ∙ h))
  | inr e ↦ inr (sym (rw e refl) ∙ h)
]

find-FindsRoot :
    (rank : SsaVar → ℕ) (fuel : ℕ) (parent : KeyMap SsaVar SsaVar) (v : SsaVar)
    → ((u w : SsaVar) → parent u ≡ some w → rank w < rank u)
    → rank v < fuel
    → FindsRoot rank parent v (find fuel parent v)
unfolding find
find-FindsRoot rank zero parent v down h = absurd (omega arith)
find-FindsRoot rank (suc fuel) parent v down h = elim (Option-cases (parent v)) [
  | inl n ↦
      rw (n, find)
        (record { root = n; low = omega arith; still_root = λ w e. e; still_down = down })
  | inr (next, e) ↦
      let below = down v next e in
      let r = find fuel parent next in
      let deeper = find-FindsRoot rank fuel parent next down (omega (arith, below, h)) in
      elim (Bool-cases (var_beq next v)) [
        | inl same ↦ absurd (omega (arith, below, ap rank ((var_beq_iff next v).0 same)))
        | inr other ↦
            rw (e, other, find)
              (record {
                root = deeper.root;
                low = omega (arith, deeper.low, below);
                still_root = λ w g. elim (Bool-cases (var_beq v w)) [
                  | inl f ↦ absurd (cc (g, e, (var_beq_iff v w).0 f))
                  | inr f ↦ insert_other r.1 v r.0 w f ∙ deeper.still_root w g
                ];
                still_down = λ u w g. elim (insert_inv r.1 v r.0 u w g) [
                  | inl (p, q) ↦ omega (arith, deeper.low, below, ap rank p, ap rank q)
                  | inr f ↦ deeper.still_down u w f
                ];
              })
      ]
]

-- Each alias counted is a link.
abbrev pub HasRoots : Aliases → Type 0
HasRoots s = IsGrounded (s.analysis.copies_propagated + s.analysis.phis_collapsed) s.parent

pub find_alias-FindsRoot :
    (s : Aliases) (g : HasRoots s) (v : SsaVar)
    → FindsRoot g.rank s.parent v ((find_alias s v).0, (find_alias s v).1.parent)
unfolding find_alias links
find_alias-FindsRoot s g v =
    find-FindsRoot g.rank (links s.analysis) s.parent v g.down (omega (arith, g.bounded v))

find_alias-HasRoots : (s : Aliases) (v : SsaVar) → HasRoots s → HasRoots (find_alias s v).1
unfolding find_alias
find_alias-HasRoots s v g = record {
  rank = g.rank;
  bounded = g.bounded;
  down = (find_alias-FindsRoot s g v).still_down;
}

pub resolve_var-HasRoots : (s : Aliases) (v : SsaVar) → HasRoots s → HasRoots (resolve_var s v).1
unfolding resolve_var
resolve_var-HasRoots s v g = find_alias-HasRoots s v g

-- One link more, from a root to another: the ranks of what is not a root go up by one.
module _ (k : ℕ) (parent : KeyMap SsaVar SsaVar) (g : IsGrounded k parent) (rd rt : SsaVar)
    (root_d : parent rd ≡ none) (root_t : parent rt ≡ none) (other : var_beq rd rt ≡ false) where
  raised : SsaVar → ℕ
  raised x = elim (parent x) [
    | none ↦ if var_beq rd x then suc (g.rank x) else 0
    | some w ↦ suc (g.rank x)
  ]

  raised_le : (x : SsaVar) → raised x ≤ suc (g.rank x)
  unfolding raised
  raised_le x = elim (Option-cases (parent x)) [
    | inr (w, e) ↦ rw (e, raised) (omega arith)
    | inl e ↦ elim (Bool-cases (var_beq rd x)) [
      | inl f ↦ rw (e, f, raised) (omega arith)
      | inr f ↦ rw (e, f, raised) (omega arith)
    ]
  ]

  raised_link : (x w : SsaVar) → parent x ≡ some w → raised x ≡ suc (g.rank x)
  unfolding raised
  raised_link x w e = rw (e, raised) refl

  raised_d : raised rd ≡ suc (g.rank rd)
  unfolding raised
  raised_d = rw (root_d, (var_beq_iff rd rd).1 refl, raised) refl

  raised_t : raised rt ≡ 0
  unfolding raised
  raised_t = rw (root_t, other, raised) refl

  IsGrounded-insert : IsGrounded (suc k) (insert parent rd rt)
  IsGrounded-insert = record {
    rank = raised;
    bounded = λ x. omega (arith, raised_le x, g.bounded x);
    down = λ u w h. elim (insert_inv parent rd rt u w h) [
      | inl (p, q) ↦ omega (arith, ap raised p, ap raised q, raised_d, raised_t)
      | inr e ↦ omega (arith, g.down u w e, raised_link u w e, raised_le w)
    ];
  }

-- Two searches, and the link between their roots where these differ.
pub record Joined (s : Aliases) (r : Bool × Aliases) : Type 0 where
  pub same : r.1.analysis ≡ s.analysis
  pub apart : r.0 ≡ false → HasRoots r.1
  pub linked :
      r.0 ≡ true
      → IsGrounded (suc (s.analysis.copies_propagated + s.analysis.phis_collapsed)) r.1.parent

pub union-Joined : (s : Aliases) (d t : SsaVar) → HasRoots s → Joined s (union s d t)
unfolding union find_alias
union-Joined s d t g =
    let first = find_alias-FindsRoot s g d in
    let after_d = find_alias-HasRoots s d g in
    let second = find_alias-FindsRoot (find_alias s d).1 after_d t in
    let after_t = find_alias-HasRoots (find_alias s d).1 t after_d in
    let rd = (find_alias s d).0 in
    let rt = (find_alias (find_alias s d).1 t).0 in
    elim (Bool-cases (var_beq rd rt)) [
      | inl e ↦
          rw (e, union) (record { same = refl; apart = λ h. after_t; linked = λ h. absurd (cc h) })
      | inr e ↦
          rw (e, union)
            (record {
              same = refl;
              apart = λ h. absurd (cc h);
              linked = λ h.
                  IsGrounded-insert _ _ after_t rd rt
                    (second.still_root rd (first.still_root rd first.root))
                    (second.still_root rt second.root) e;
            })
    ]
