-- ===== src/Ssa/Reaching/Sound.antt =====
-- The search of src/decompiler/ssa/mod.rs for the value of a register ends, and what it finds is the value
-- on every way backwards.
use mathlib.Core.Option.{some-injective}
use windy_public.Prelude.{
  ℕ, zero, suc, ◌<◌, ◌≡◌, ◌⊎◌, inl, inr, refl, sym, ap, subst, ◌∙◌, true, false, ◌&&◌, ◌||◌, not,
  Bool-cases, Option-cases, Option, none, some, List, [], ◌==◌, ==_iff, length, arith, nat_eq,
}
use windy_public.KeyMap.{empty}
use windy_public.KeyMap.{insert as write}
use windy_public.Ssa.NodeSet.{elem, insert, elem-insert, elem-remove}
use windy_public.Ssa.Types.{SsaVar, SsaBlock, SsaFunction}
use windy_public.Structure.Pcode.{PcodeView, is_return}
use windy_public.Ssa.Reaching.{
  find_block, Search, Answer, leave, local_value, resolve, reaching_register_at_return,
}
use windy_public.Ssa.Reaching.Measure.{open_blocks, open_le, open-insert_found}
use windy_public.Ssa.Reaching.Merge.{
  Reaches, here, joined, IsMemo, SameVisiting, IsRight, resolve_block_lem,
}

module _ {Op : Type 0} (view : Op → PcodeView) (blocks : List (SsaBlock Op)) (base : ℕ) where
  IsRight-leave :
      (id : ℕ) (s : Search) (a : Answer)
      → elem id s.visiting ≡ false
      → IsMemo view blocks base a.1
      → SameVisiting view blocks base a.1 (record s { visiting = insert id s.visiting })
      → ((v : SsaVar) → a.0 ≡ some v → Reaches view blocks base id v)
      → IsRight view blocks base (Reaches view blocks base id) s (some (leave id a))
  unfolding leave write
  IsRight-leave id s (r, t) fresh memo same claim = (
    leave id (r, t),
    refl,
    λ j v h. elim (Bool-cases (id == j)) [
      | inl e ↦
          subst (λ k. Reaches view blocks base k v) ((==_iff id j).0 e)
            (claim v (some-injective r (some v) (rw (e) at h)))
      | inr e ↦ memo j v (rw (e) at h)
    ],
    λ z. elem-remove z id t.visiting ∙ left z,
    claim,
  )
    where
      left : (z : ℕ) → (not (z == id) && elem z t.visiting) ≡ elem z s.visiting
      left z =
          let at_z : elem z t.visiting ≡ (z == id || elem z s.visiting) =
            same z ∙ elem-insert z id s.visiting in
          elim (Bool-cases (z == id)) [
            | inl e ↦
                let gone : elem z s.visiting ≡ false =
                  subst (λ k. elem k s.visiting ≡ false) (sym ((==_iff z id).0 e)) fresh in
                ground (arith, e, gone)
            | inr e ↦ ground (arith, e, at_z)
          ]

  resolve_lem :
      (fuel id : ℕ) (s : Search)
      → IsMemo view blocks base s
      → open_blocks blocks s.visiting < fuel
      → IsRight view blocks base
          (Reaches view blocks base id)
          s
          (resolve view fuel blocks base id s)
  unfolding resolve
  resolve_lem zero id s memo room = absurd (omega arith)
  resolve_lem (suc fuel) id s memo room = elim (Option-cases (s.memo id)) [
    | inr (cached, m) ↦
        rw (resolve, m) ((cached, s), refl, memo, λ z. refl, λ v h. memo id v (m ∙ ap some h))
    | inl m ↦ elim (Bool-cases (elem id s.visiting)) [
      | inl e ↦ rw (resolve, m, e) ((none, s), refl, memo, λ z. refl, λ v h. absurd (cc h))
      | inr e ↦
          let entered : Search = record s { visiting = insert id s.visiting } in
          let (a, ends, memo', same, claim) =
            resolve_block_lem view blocks base fuel (resolve view fuel blocks base)
              (λ p t. resolve_lem fuel p t) id entered memo
              (λ block at.
                omega (arith, room, open-insert_found blocks id block s.visiting at e)) in
          rw (resolve, m, e, ends) (IsRight-leave id s a e memo' same claim)
    ]
  ]

-- The blocks that a block is reached from, going back through blocks that have no value of the register.
pub data Behind {Op : Type 0} (view : Op → PcodeView) (blocks : List (SsaBlock Op)) (base id : ℕ)
    : ℕ → Type 0 where
  standing : Behind view blocks base id id
  back :
      (b : ℕ) (block : SsaBlock Op) (p : ℕ)
      → Behind view blocks base id b
      → find_block b blocks ≡ some block
      → local_value view base block.ops none ≡ none
      → elem p block.predecessor_ids ≡ true
      → Behind view blocks base id p

module _ {Op : Type 0} (view : Op → PcodeView) where
  module _ (blocks : List (SsaBlock Op)) (base : ℕ) where
    onward :
        {b : ℕ} {v : SsaVar} (block : SsaBlock Op) (p : ℕ)
        → find_block b blocks ≡ some block
        → local_value view base block.ops none ≡ none
        → elem p block.predecessor_ids ≡ true
        → Reaches view blocks base b v
        → Reaches view blocks base p v
    onward block p at l is (here b v other at' l') =
        let same = some-injective other block (sym at' ∙ at) in
        let own = subst (λ o. local_value view base o.ops none ≡ some v) same l' in
        absurd (cc (l, own))
    onward block p at l is (joined b v other q at' l' some_one all) =
        let same = some-injective block other (sym at ∙ at') in
        all p (subst (λ o. elem p o.predecessor_ids ≡ true) same is)

    Reaches-Behind :
        {id c : ℕ} {v : SsaVar}
        → Reaches view blocks base id v
        → Behind view blocks base id c
        → Reaches view blocks base c v
    Reaches-Behind r standing = r
    Reaches-Behind r (back b block p w at l is) = onward block p at l is (Reaches-Behind r w)

    -- The value of the register that a block of the function has of its own.
    unfoldable pub own_value : ℕ → Option SsaVar
    own_value c = elim (find_block c blocks) [
      | none ↦ none
      | some block ↦ local_value view base block.ops none
    ]

    -- The predecessors of a block; one that is not of the function has none.
    unfoldable pub preds_at : ℕ → List ℕ
    preds_at c = elim (find_block c blocks) [ none ↦ [] | some block ↦ block.predecessor_ids ]

    own-Reaches :
        {c : ℕ} {v : SsaVar}
        → Reaches view blocks base c v
        → (own_value c ≡ some v) ⊎ ((own_value c ≡ none) × ((p : ℕ) × (elem p (preds_at c) ≡ true)))
    unfolding own_value preds_at
    own-Reaches (here c v block at l) = inl (rw (own_value, at) l)
    own-Reaches (joined c v block p at l is all) = inr (rw (own_value, preds_at, at) (l, (p, is)))

  -- The search for the value of a register at a return always ends. If it finds a value, then, going back
  -- from the return through blocks that have no value of the register, every block that is come to has that
  -- value, or it has none and has a predecessor.
  pub reaching_register_at_return_lem :
      (ssa : SsaFunction Op) (id base : ℕ)
      → (r : Option SsaVar) × (reaching_register_at_return view ssa id base ≡ some r)
        × ((v : SsaVar) (c : ℕ)
            → r ≡ some v
            → Behind view ssa.blocks base id c
            → (own_value ssa.blocks base c ≡ some v)
              ⊎ ((own_value ssa.blocks base c ≡ none)
                  × ((p : ℕ) × (elem p (preds_at ssa.blocks base c) ≡ true))))
  unfolding reaching_register_at_return
  reaching_register_at_return_lem ssa id base =
      let begun : Search = record { memo = empty; visiting = [] } in
      let (a, ends, memo, same, claim) =
        resolve_lem view ssa.blocks base (suc (length ssa.blocks)) id begun (λ j v h. absurd (cc h))
          (omega (arith, open_le ssa.blocks [])) in
      elim (Option-cases (find_block id ssa.blocks)) [
        | inl n ↦ rw (reaching_register_at_return, n) (none, refl, λ v c h w. absurd (cc h))
        | inr (block, at) ↦ elim (Bool-cases (is_return view block)) [
          | inl e ↦
              rw (reaching_register_at_return, at, e, ends)
                (
                  a.0,
                  refl,
                  λ v c h w.
                      own-Reaches ssa.blocks base (Reaches-Behind ssa.blocks base (claim v h) w),
                )
          | inr e ↦ rw (reaching_register_at_return, at, e) (none, refl, λ v c h w. absurd (cc h))
        ]
      ]
