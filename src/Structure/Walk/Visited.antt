-- ===== src/Structure/Walk/Visited.antt =====
-- A walk ends, and sees exactly what is on a path that is not blocked.
use windy_public.Prelude.{
  ℕ, zero, suc, ◌+◌, ◌≤◌, ◌<◌, ◌≡◌, ◌↔◌, ◌⊎◌, inl, inr, refl, sym, ap, subst, Bool, true, false,
  ◌||◌, ◌&&◌, not, Bool-cases, some, List, [], ◌∷◌, if◌then◌else◌, leb, leb→le, ◌==◌, ==_iff,
  length, arith,
}
use windy_public.Ssa.NodeSet.{elem, insert, elem-insert}
use windy_public.Structure.Walk.{push_all, all_but, walk}

elem-push_all :
    (z : ℕ) (ss stack : List ℕ) → elem z (push_all ss stack) ≡ (elem z ss || elem z stack)
unfolding elem push_all
elem-push_all z [] stack = refl
elem-push_all z (s ∷ ss) stack = ground (arith, elem-push_all z ss (s ∷ stack))

length-push_all : (ss stack : List ℕ) → length (push_all ss stack) ≡ length ss + length stack
unfolding push_all
length-push_all [] stack = omega arith
length-push_all (s ∷ ss) stack = omega (arith, length-push_all ss (s ∷ stack))

-- The nodes on paths from `starts` through nodes that are not blocked, the ends included.
pub data Visits (next : ℕ → List ℕ) (blocked : ℕ → Bool) (starts : List ℕ) : ℕ → Type 0 where
  begin : (b : ℕ) → elem b starts ≡ true → blocked b ≡ false → Visits next blocked starts b
  onward :
      (a b : ℕ)
      → Visits next blocked starts a
      → elem b (next a) ≡ true
      → blocked b ≡ false
      → Visits next blocked starts b

module _ (next : ℕ → List ℕ) where
  -- The neighbours of the nodes below `n` that are not seen.
  unfoldable pub unseen_edges : ℕ → List ℕ → ℕ
  unseen_edges zero seen = 0
  unseen_edges (suc n) seen =
      let rest = unseen_edges n seen in if elem n seen then rest else length (next n) + rest

  unseen-insert_above :
      (n b : ℕ) (seen : List ℕ) → n ≤ b → unseen_edges n (insert b seen) ≡ unseen_edges n seen
  unfolding unseen_edges
  unseen-insert_above zero b seen h = refl
  unseen-insert_above (suc n) b seen h =
      ground (arith, unseen-insert_above n b seen, elem-insert n b seen)

  unseen-insert :
      (n b : ℕ) (seen : List ℕ)
      → b < n
      → elem b seen ≡ false
      → unseen_edges n (insert b seen) + length (next b) ≡ unseen_edges n seen
  unfolding unseen_edges
  unseen-insert zero b seen h e = absurd (omega arith)
  unseen-insert (suc n) b seen h e = elim (Bool-cases (n == b)) [
    | inl same ↦
        let at = (==_iff n b).0 same in
        let here = unseen-insert_above n b seen (omega (arith, at)) in
        let marked = elem-insert n b seen in
        let fresh = subst (λ k. elem k seen ≡ false) (sym at) e in
        let size = ap (λ k. length (next k)) at in
        rw (marked, same, fresh, unseen_edges) (omega (arith, here, size))
    | inr other ↦ ground (arith, unseen-insert n b seen, elem-insert n b seen, other)
  ]

visited-open :
    {next : ℕ → List ℕ} {blocked : ℕ → Bool} {starts : List ℕ} {b : ℕ}
    → Visits next blocked starts b
    → blocked b ≡ false
visited-open (begin b s o) = o
visited-open (onward a b v s o) = o

module _ (next : ℕ → List ℕ) (blocked : ℕ → Bool) (starts seen0 : List ℕ) where
  -- What the walk does not enter: the blocked, and what was seen before it began.
  abbrev shut : ℕ → Bool
  shut b = blocked b || elem b seen0

  record Inv (seen stack : List ℕ) : Type 0 where
    grown : (z : ℕ) → elem z seen0 ≡ true → elem z seen ≡ true
    sound : (z : ℕ) → elem z seen ≡ true → (elem z seen0 ≡ true) ⊎ Visits next shut starts z
    stacked : (z : ℕ) → elem z stack ≡ true → shut z ≡ false → Visits next shut starts z
    began : (z : ℕ) → elem z starts ≡ true → shut z ≡ false → (elem z seen || elem z stack) ≡ true
    closed :
        (a z : ℕ)
        → elem a seen ≡ true
        → shut a ≡ false
        → elem z (next a) ≡ true
        → shut z ≡ false
        → (elem z seen || elem z stack) ≡ true

  Inv-complete :
      (seen : List ℕ) → Inv seen [] → {z : ℕ} → Visits next shut starts z → elem z seen ≡ true
  unfolding elem
  Inv-complete seen inv (begin z s o) = ground (arith, inv.began z s o)
  Inv-complete seen inv (onward a z v s o) =
      ground (arith, inv.closed a z (Inv-complete seen inv v) (visited-open v) s o)

  module _ (b : ℕ) (seen stack : List ℕ) (inv : Inv seen (b ∷ stack)) where
    module _ (skip : (blocked b || elem b seen) ≡ true) where
      still :
          (z : ℕ)
          → shut z ≡ false
          → (elem z seen || elem z (b ∷ stack)) ≡ true
          → (elem z seen || elem z stack) ≡ true
      unfolding elem
      still z o h = elim (Bool-cases (z == b)) [
        | inl e ↦
            let again =
              subst (λ k. (blocked k || elem k seen) ≡ true) (sym ((==_iff z b).0 e)) skip in
            ground (arith, o, again)
        | inr e ↦ ground (arith, h, e)
      ]

      Inv-skip : Inv seen stack
      unfolding elem
      Inv-skip = record {
        grown = inv.grown;
        sound = inv.sound;
        stacked = λ z h o. inv.stacked z (ground (arith, h)) o;
        began = λ z s o. still z o (inv.began z s o);
        closed = λ a z h k s o. still z o (inv.closed a z h k s o);
      }

    module _ (visit : (blocked b || elem b seen) ≡ false) where
      entered : shut b ≡ false
      entered = ground (arith, inv.grown b, visit)

      visited : Visits next shut starts b
      unfolding elem
      visited = inv.stacked b (ground arith) entered

      ahead :
          (z : ℕ)
          → (elem z seen || elem z (b ∷ stack)) ≡ true
          → (elem z (insert b seen) || elem z (push_all (next b) stack)) ≡ true
      unfolding elem
      ahead z h = ground (arith, elem-insert z b seen, elem-push_all z (next b) stack, h)

      closed_visit :
          (a z : ℕ)
          → elem a (insert b seen) ≡ true
          → shut a ≡ false
          → elem z (next a) ≡ true
          → shut z ≡ false
          → (elem z (insert b seen) || elem z (push_all (next b) stack)) ≡ true
      closed_visit a z h k s o = elim (Bool-cases (a == b)) [
        | inl e ↦
            let pushed = subst (λ k. elem z (next k) ≡ true) ((==_iff a b).0 e) s in
            ground (arith, elem-push_all z (next b) stack, pushed)
        | inr e ↦ ahead z (inv.closed a z (ground (arith, elem-insert a b seen, e, h)) k s o)
      ]

      Inv-visit : Inv (insert b seen) (push_all (next b) stack)
      unfolding elem
      Inv-visit = record {
        grown = λ z h. ground (arith, elem-insert z b seen, inv.grown z h);
        sound = λ z h. elim (Bool-cases (z == b)) [
          | inl e ↦ inr (subst (Visits next shut starts) (sym ((==_iff z b).0 e)) visited)
          | inr e ↦ inv.sound z (ground (arith, elem-insert z b seen, e, h))
        ];
        stacked = λ z h o. elim (Bool-cases (elem z (next b))) [
          | inl s ↦ onward b z visited s o
          | inr s ↦ inv.stacked z (ground (arith, elem-push_all z (next b) stack, s, h)) o
        ];
        began = λ z s o. ahead z (inv.began z s o);
        closed = closed_visit;
      }

  module _ (n : ℕ) (outside : (b : ℕ) → n ≤ b → next b ≡ []) where
    pub room :
        (b : ℕ) (seen stack : List ℕ)
        → elem b seen ≡ false
        → unseen_edges next n (insert b seen) + length (push_all (next b) stack)
          ≡ unseen_edges next n seen + length stack
    room b seen stack fresh = elim (Bool-cases (leb n b)) [
      | inl e ↦
          let above = leb→le n b e in
          let none_here = ap length (outside b above) in
          omega (
            arith,
            length-push_all (next b) stack,
            unseen-insert_above next n b seen above,
            none_here,
          )
      | inr e ↦
          let below : b < n = ground (arith, e) in
          omega (arith, length-push_all (next b) stack, unseen-insert next n b seen below fresh)
    ]

    walk_invariant :
        (fuel : ℕ) (seen stack : List ℕ)
        → unseen_edges next n seen + length stack < fuel
        → Inv seen stack
        → (r : List ℕ) × (walk fuel next blocked seen stack ≡ some r) × Inv r []
    unfolding walk
    walk_invariant zero seen stack h inv = absurd (omega arith)
    walk_invariant (suc fuel) seen [] h inv = (seen, refl, inv)
    walk_invariant (suc fuel) seen (b ∷ stack) h inv =
        elim (Bool-cases (blocked b || elem b seen)) [
          | inl e ↦
              rw (e, walk)
                (walk_invariant fuel seen stack (omega arith) (Inv-skip b seen stack inv e))
          | inr e ↦
              let fresh : elem b seen ≡ false = ground (arith, e) in
              rw (e, walk)
                (walk_invariant fuel (insert b seen) (push_all (next b) stack)
                  (omega (arith, room b seen stack fresh)) (Inv-visit b seen stack inv e))
        ]

    Inv-start : Inv seen0 starts
    Inv-start = record {
      grown = λ z h. h;
      sound = λ z h. inl h;
      stacked = λ z h o. begin z h o;
      began = λ z s o. ground (arith, s);
      closed = λ a z h k s o. absurd (ground (arith, h, k));
    }

    pub walk_lem :
        (fuel : ℕ)
        → unseen_edges next n seen0 + length starts < fuel
        → (r : List ℕ) × (walk fuel next blocked seen0 starts ≡ some r)
          × ((z : ℕ) → (elem z r ≡ true) ↔ ((elem z seen0 ≡ true) ⊎ Visits next shut starts z))
    walk_lem fuel h =
        let (r, e, inv) = walk_invariant fuel seen0 starts h Inv-start in
        (
          r,
          e,
          λ z. (inv.sound z, λ k. elim k [ inl s ↦ inv.grown z s | inr v ↦ Inv-complete r inv v ]),
        )

pub length-all_but : (stop : ℕ) (ss : List ℕ) → length (all_but stop ss) ≤ length ss
unfolding all_but
length-all_but stop [] = omega arith
length-all_but stop (s ∷ ss) = ground (arith, length-all_but stop ss)

pub elem-all_but :
    (z stop : ℕ) (ss : List ℕ) → elem z (all_but stop ss) ≡ (not (z == stop) && elem z ss)
unfolding elem all_but
elem-all_but z stop [] = ground arith
elem-all_but z stop (s ∷ ss) = ground (arith, elem-all_but z stop ss)
