-- ===== src/Structure/Walk/Loops.antt =====
-- What `natural_loop_nodes` of src/decompiler/structure/region.rs finds; `can_reach` ends.
use mathlib.Core.List.{reverse}
use windy_public.Prelude.{
  ℕ, zero, suc, ◌+◌, ◌<◌, ◌≡◌, ◌≢◌, ◌↔◌, ◌⊎◌, inl, inr, refl, sym, ◌∙◌, Bool, true, false, ◌||◌,
  Bool-cases, Option, some, List, [], ◌∷◌, if◌then◌else◌, ◌==◌, length, get_or, arith,
}
use windy_public.Ssa.NodeSet.{elem, insert}
use windy_public.Ssa.Cfg.Frontier.{elem-reverse}
use windy_public.Structure.Walk.{
  push_all, find_target, avoided, can_reach, walk_fuel, natural_loop_nodes,
}
use windy_public.Structure.Walk.Visited.{
  Visits, begin, onward, unseen_edges, walk_lem, room, elem-all_but,
}
use windy_public.Structure.Walk.Edges.{get_or_beyond, enough, next, next_beyond, next_fewer}

-- The nodes on the paths backwards from `latches` that do not go through `header`.
pub data InLoop (pred : List (List ℕ)) (header : ℕ) (latches : List ℕ) : ℕ → Type 0 where
  latch : (b : ℕ) → elem b latches ≡ true → b ≢ header → InLoop pred header latches b
  before :
      (a b : ℕ)
      → InLoop pred header latches a
      → elem b (get_or pred a []) ≡ true
      → b ≢ header
      → InLoop pred header latches b

module _ (pred : List (List ℕ)) (header : ℕ) (latches : List ℕ) where
  abbrev outside : ℕ → Bool
  outside b = false || elem b (header ∷ [])

  abbrev Backwards : ℕ → Type 0
  Backwards = Visits (next pred header) outside (reverse latches)

  apart : (b : ℕ) → outside b ≡ false → b ≢ header
  unfolding elem
  apart b o = λ e. ground (arith, o, e)

  unmarked : (b : ℕ) → b ≢ header → outside b ≡ false
  unfolding elem
  unmarked b k = ground (arith, k)

  Backwards→InLoop : {z : ℕ} → Backwards z → InLoop pred header latches z
  Backwards→InLoop (begin z s o) = latch z (sym (elem-reverse z latches) ∙ s) (apart z o)
  Backwards→InLoop (onward a z v s o) =
      before a z (Backwards→InLoop v) (ground (arith, elem-all_but z header (get_or pred a []), s))
        (apart z o)

  InLoop→Backwards : {z : ℕ} → InLoop pred header latches z → Backwards z
  InLoop→Backwards (latch z s k) = begin z (elem-reverse z latches ∙ s) (unmarked z k)
  InLoop→Backwards (before a z v s k) =
      onward a z (InLoop→Backwards v)
        (ground (arith, elem-all_but z header (get_or pred a []), s, k)) (unmarked z k)

  -- The walk always ends, and finds the header and exactly the nodes from which a latch is reached
  -- without going through the header.
  pub natural_loop_nodes_lem :
      (r : List ℕ) × (natural_loop_nodes header latches pred ≡ some r)
      × ((z : ℕ) → (elem z r ≡ true) ↔ ((z ≡ header) ⊎ InLoop pred header latches z))
  unfolding natural_loop_nodes elem
  natural_loop_nodes_lem =
      let (r, e, found) =
        walk_lem (next pred header) (λ b. false) (reverse latches) (header ∷ []) (length pred)
          (next_beyond pred header) (walk_fuel pred (reverse latches))
          (enough pred (next pred header) (next_fewer pred header) (header ∷ [])
            (reverse latches)) in
      (
        r,
        e,
        λ z. (
          λ h. elim ((found z).0 h) [
            | inl s ↦ inl (ground (arith, s))
            | inr v ↦ inr (Backwards→InLoop v)
          ],
          λ k. elim k [
            | inl s ↦ (found z).1 (inl (ground (arith, s)))
            | inr v ↦ (found z).1 (inr (InLoop→Backwards v))
          ],
        ),
      )

module _ (succ : List (List ℕ)) (blocked : ℕ → Bool) (target : ℕ) where
  find_target_ends :
      (fuel : ℕ) (seen stack : List ℕ)
      → unseen_edges (λ b. get_or succ b []) (length succ) seen + length stack < fuel
      → (found : Bool) × (find_target fuel succ blocked target seen stack ≡ some found)
  unfolding find_target
  find_target_ends zero seen stack h = absurd (omega arith)
  find_target_ends (suc fuel) seen [] h = (false, refl)
  find_target_ends (suc fuel) seen (b ∷ stack) h = elim (Bool-cases (blocked b || elem b seen)) [
    | inl e ↦ rw (e, find_target) (find_target_ends fuel seen stack (omega arith))
    | inr e ↦ elim (Bool-cases (b == target)) [
      | inl t ↦ rw (e, find_target, t) (true, refl)
      | inr t ↦
          let fresh : elem b seen ≡ false = ground (arith, e) in
          let space =
            room (λ c. get_or succ c []) blocked [] [] (length succ) (get_or_beyond succ) b seen
              stack fresh in
          rw (e, find_target, t)
            (find_target_ends fuel (insert b seen) (push_all (get_or succ b []) stack)
              (omega (arith, space)))
    ]
  ]

either_ends :
    (c : Bool) (x y : Option Bool)
    → ((found : Bool) × (x ≡ some found))
    → ((found : Bool) × (y ≡ some found))
    → (found : Bool) × ((if c then x else y) ≡ some found)
either_ends true x y h k = h
either_ends false x y h k = k

pub can_reach_ends :
    (start target : ℕ) (succ : List (List ℕ)) (avoid : Option ℕ)
    → (found : Bool) × (can_reach start target succ avoid ≡ some found)
unfolding can_reach
can_reach_ends start target succ avoid =
    let fuel = walk_fuel succ (start ∷ []) in
    either_ends (start == target) (some true)
      (find_target fuel succ (avoided avoid start) target [] (start ∷ [])) (true, refl)
      (find_target_ends succ (avoided avoid start) target fuel [] (start ∷ [])
        (enough succ (λ b. get_or succ b []) (λ b. omega arith) [] (start ∷ [])))
