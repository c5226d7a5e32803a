-- ===== src/Ssa/Reaching/Merge.antt =====
-- What the search of src/decompiler/ssa/mod.rs merges from the predecessors of a block.
use mathlib.Core.Option.{some-injective}
use windy_public.Prelude.{
  ℕ, ◌<◌, ◌≡◌, ◌⊎◌, inl, inr, refl, sym, subst, ◌∙◌, true, Bool-cases, Option-cases, Option, none,
  some, List, [], ◌∷◌, ◌==◌, ==_iff, arith,
}
use windy_public.Ssa.NodeSet.{elem}
use windy_public.Ssa.Types.{SsaVar, var_beq, var_beq_iff, SsaBlock}
use windy_public.Structure.Pcode.{PcodeView}
use windy_public.Ssa.Reaching.{
  find_block, Search, Answer, merge_incoming, local_value, resolve_block,
}
use windy_public.Ssa.Reaching.Measure.{open_blocks, open_same}

-- The value `v` of the register, defined in the block, or the same one from all its predecessors, of which
-- there is one.
pub data Reaches {Op : Type 0} (view : Op → PcodeView) (blocks : List (SsaBlock Op)) (base : ℕ)
    : ℕ → SsaVar → Type 0 where
  here :
      (id : ℕ) (v : SsaVar) (block : SsaBlock Op)
      → find_block id blocks ≡ some block
      → local_value view base block.ops none ≡ some v
      → Reaches view blocks base id v
  joined :
      (id : ℕ) (v : SsaVar) (block : SsaBlock Op) (p : ℕ)
      → find_block id blocks ≡ some block
      → local_value view base block.ops none ≡ none
      → elem p block.predecessor_ids ≡ true
      → ((q : ℕ) → elem q block.predecessor_ids ≡ true → Reaches view blocks base q v)
      → Reaches view blocks base id v

module _ {Op : Type 0} (view : Op → PcodeView) (blocks : List (SsaBlock Op)) (base : ℕ) where
  abbrev pub IsMemo : Search → Type 0
  IsMemo s = (id : ℕ) (v : SsaVar) → s.memo id ≡ some (some v) → Reaches view blocks base id v

  abbrev pub SameVisiting : Search → Search → Type 0
  SameVisiting t s = (z : ℕ) → elem z t.visiting ≡ elem z s.visiting

  -- An answer that is right for a search.
  abbrev pub IsRight : (SsaVar → Type 0) → Search → Option Answer → Type 0
  IsRight claim s o =
      (a : Answer) × (o ≡ some a)
      × IsMemo a.1
      × SameVisiting a.1 s
      × ((v : SsaVar) → a.0 ≡ some v → claim v)

  module _ (fuel : ℕ) (search : ℕ → Search → Option Answer)
      (right : (p : ℕ) (s : Search)
        → IsMemo s
        → open_blocks blocks s.visiting < fuel
        → IsRight (Reaches view blocks base p) s (search p s)) where
    abbrev Merged : Option SsaVar → List ℕ → SsaVar → Type 0
    Merged common ps v =
        ((q : ℕ) → elem q ps ≡ true → Reaches view blocks base q v)
        × ((common ≡ some v) ⊎ ((p : ℕ) × (elem p ps ≡ true)))
        × ((common ≡ none) ⊎ (common ≡ some v))

    -- A first predecessor joins what is merged from the others.
    extend :
        (p : ℕ) (ps : List ℕ) (common : Option SsaVar) (v w : SsaVar)
        → Reaches view blocks base p v
        → (common ≡ none) ⊎ (common ≡ some v)
        → Merged (some v) ps w
        → Merged common (p ∷ ps) w
    unfolding elem
    extend p ps common v w r c (all, some_one, inl n) = absurd (cc n)
    extend p ps common v w r c (all, some_one, inr e) =
        let same = some-injective v w e in
        (
          λ q h. elim (Bool-cases (q == p)) [
            | inl x ↦
                subst (λ k. Reaches view blocks base k w) (sym ((==_iff q p).0 x))
                  (subst (Reaches view blocks base p) same r)
            | inr x ↦ all q (ground (arith, x, h))
          ],
          inr (p, ground arith),
          elim c [ inl n ↦ inl n | inr k ↦ inr (k ∙ e) ],
        )

    merge_cons :
        (p : ℕ) (ps : List ℕ) (common ans : Option SsaVar) (s t : Search)
        → search p s ≡ some (ans, t)
        → IsMemo t
        → SameVisiting t s
        → ((v : SsaVar) → ans ≡ some v → Reaches view blocks base p v)
        → ((c : Option SsaVar) → IsRight (Merged c ps) t (merge_incoming search ps c t))
        → IsRight (Merged common (p ∷ ps)) s (merge_incoming search (p ∷ ps) common s)
    unfolding merge_incoming
    merge_cons p ps common none s t e memo same claim rest =
        rw (merge_incoming, e) ((none, t), refl, memo, same, λ v h. absurd (cc h))
    merge_cons p ps none (some v) s t e memo same claim rest =
        let (a, ends, memo', same', merged) = rest (some v) in
        rw (merge_incoming, e)
          (
            a,
            ends,
            memo',
            λ z. same' z ∙ same z,
            λ w h. extend p ps none v w (claim v refl) (inl refl) (merged w h),
          )
    merge_cons p ps (some w) (some v) s t e memo same claim rest = elim (Bool-cases (var_beq w v)) [
      | inl b ↦
          let equal = (var_beq_iff w v).0 b in
          let (a, ends, memo', same', merged) = rest (some w) in
          rw (merge_incoming, e, b)
            (
              a,
              ends,
              memo',
              λ z. same' z ∙ same z,
              λ u h.
                  extend p ps (some w) w u
                    (subst (Reaches view blocks base p) (sym equal) (claim v refl)) (inr refl)
                    (merged u h),
            )
      | inr b ↦ rw (merge_incoming, e, b) ((none, t), refl, memo, same, λ u h. absurd (cc h))
    ]

    merge_incoming_lem :
        (ps : List ℕ) (common : Option SsaVar) (s : Search)
        → IsMemo s
        → open_blocks blocks s.visiting < fuel
        → IsRight (Merged common ps) s (merge_incoming search ps common s)
    unfolding merge_incoming elem
    merge_incoming_lem [] common s memo room = (
      (common, s),
      refl,
      memo,
      λ z. refl,
      λ v e. (λ q h. absurd (ground (arith, h)), inl e, inr e),
    )
    merge_incoming_lem (p ∷ ps) common s memo room =
        let ((ans, t), ends, memo', same, claim) = right p s memo room in
        merge_cons p ps common ans s t ends memo' same claim (λ c.
          merge_incoming_lem ps c t memo'
            (subst (λ n. n < fuel) (sym (open_same blocks t.visiting s.visiting same)) room))

    pub resolve_block_lem :
        (id : ℕ) (s : Search)
        → IsMemo s
        → ((block : SsaBlock Op)
            → find_block id blocks ≡ some block
            → open_blocks blocks s.visiting < fuel)
        → IsRight
            (Reaches view blocks base id)
            s
            (resolve_block view search base (find_block id blocks) s)
    unfolding resolve_block
    resolve_block_lem id s memo room = elim (Option-cases (find_block id blocks)) [
      | inl n ↦ rw (n) ((none, s), refl, memo, λ z. refl, λ v h. absurd (cc h))
      | inr (block, at) ↦ elim (Option-cases (local_value view base block.ops none)) [
        | inr (w, l) ↦
            rw (at, resolve_block, l)
              ((some w, s), refl, memo, λ z. refl, λ v h. here id v block at (l ∙ h))
        | inl l ↦
            let (a, ends, memo', same, merged) =
              merge_incoming_lem block.predecessor_ids none s memo (room block at) in
            rw (at, resolve_block, l)
              (
                a,
                ends,
                memo',
                same,
                λ v h. elim (merged v h).1 [
                  | inl none_some ↦ absurd (cc none_some)
                  | inr (p, is) ↦ joined id v block p at l is (merged v h).0
                ],
              )
      ]
    ]
