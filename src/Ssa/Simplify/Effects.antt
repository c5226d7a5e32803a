-- ===== src/Ssa/Simplify/Effects.antt =====
-- Simplifying keeps the side effects of each block, with the values they use.
use windy_public.Prelude.{
  ℕ, suc, ◌<◌, ◌≡◌, refl, ap, ap₂, ◌∙◌, true, false, ◌&&◌, Bool-cases, Option, List, [], ◌∷◌, ◌++◌,
  map, if◌then◌else◌, ◌==◌, ==_iff, inl, inr, arith, append-nil,
}
use windy_public.Ssa.Types.{SsaVar, SsaOpKind, phi, pcode, SsaOp, SsaBlock}
use windy_public.Ssa.NodeSet.{elem}
use windy_public.Ssa.Alias.{OpView, Aliases, view_of, repoint, repoint_uses, repoint_kind}
use windy_public.Ssa.Alias.Values.{IsSound, repoint_op-IsSound}
use windy_public.Ssa.Simplify.{
  is_side_effect, is_effect_view, tag, flatten_blocks, keep_live, rebuild,
}
use windy_public.Ssa.Simplify.Live.{EffectsLive}

-- A side effect: the operation, what it defines, and the values that it uses.
pub record Effect (V Op : Type 0) : Type 0 where
  pub va : ℕ
  pub kind : SsaOpKind Op
  pub def : Option SsaVar
  pub values : List V

module _ {V Op : Type 0} (val : SsaVar → V) (view : Op → OpView) where
  abbrev pub effect_of : SsaOp Op → Effect V Op
  effect_of op = record { va = op.va; kind = op.kind; def = op.def; values = map val op.uses }

  -- The side effects of a block, in order.
  unfoldable pub effects : List (SsaOp Op) → List (Effect V Op)
  effects [] = []
  effects (op ∷ ops) =
      let rest = effects ops in if is_side_effect view op then effect_of op ∷ rest else rest

  -- Those of block `b` in the list of all operations.
  unfoldable pub effects_at : ℕ → List (ℕ × SsaOp Op) → List (Effect V Op)
  effects_at b [] = []
  effects_at b ((c, op) ∷ ops) =
      let rest = effects_at b ops in
      if c == b && is_side_effect view op then effect_of op ∷ rest else rest

  view_of-repoint_kind :
      (k : SsaOpKind Op) (s : Aliases) → view_of view (repoint_kind k s).0 ≡ view_of view k
  unfolding view_of repoint_kind
  view_of-repoint_kind (pcode o) s = refl
  view_of-repoint_kind (phi p) s = refl

  kind_of_effect :
      (k : SsaOpKind Op) (s : Aliases)
      → is_effect_view (view_of view k) ≡ true
      → (repoint_kind k s).0 ≡ k
  unfolding view_of repoint_kind is_effect_view
  kind_of_effect (pcode o) s h = refl
  kind_of_effect (phi p) s h = absurd (cc h)

  effects_at-head :
      (b c : ℕ) (op' op : SsaOp Op) (xs ys : List (ℕ × SsaOp Op))
      → is_side_effect view op' ≡ is_side_effect view op
      → (is_side_effect view op ≡ true → effect_of op' ≡ effect_of op)
      → effects_at b xs ≡ effects_at b ys
      → effects_at b ((c, op') ∷ xs) ≡ effects_at b ((c, op) ∷ ys)
  unfolding effects_at
  effects_at-head b c op' op xs ys h k rest = elim (Bool-cases (c == b)) [
    | inr e ↦ rw e rest
    | inl e ↦ elim (Bool-cases (is_side_effect view op)) [
      | inl f ↦ rw (e, h ∙ f, f) (ap₂ (λ x r. x ∷ r) (k f) rest)
      | inr f ↦ rw (e, h ∙ f, f) rest
    ]
  ]

  pub effects_at-repoint :
      (b : ℕ) (ops : List (ℕ × SsaOp Op)) (s : Aliases)
      → IsSound val s.parent
      → (effects_at b (repoint ops s).0 ≡ effects_at b ops) × IsSound val (repoint ops s).1.parent
  unfolding effects_at repoint is_side_effect
  effects_at-repoint b [] s sound = (refl, sound)
  effects_at-repoint b ((c, op) ∷ ops) s sound =
      let (values, next) = repoint_op-IsSound val op s sound in
      let us = repoint_uses op.uses s in
      let k = repoint_kind op.kind us.1 in
      let (rest, after) = effects_at-repoint b ops k.1 next in
      (
        effects_at-head b c (record op { kind = k.0; uses = us.0 }) op _ ops
            (ap is_effect_view (view_of-repoint_kind op.kind us.1))
            (λ h.
              ap₂ (λ kind vals. record { va = op.va; kind = kind; def = op.def; values = vals })
                (kind_of_effect op.kind us.1 h) values)
            rest,
        after,
      )

  -- Every live side effect of a block is kept.
  effects-keep_live :
      (b i : ℕ) (live : List ℕ) (ops : List (ℕ × SsaOp Op))
      → EffectsLive view i ops live
      → effects (keep_live b i live ops) ≡ effects_at b ops
  unfolding effects keep_live effects_at
  effects-keep_live b i live [] h = refl
  effects-keep_live b i live ((c, op) ∷ ops) h =
      let rest = effects-keep_live b (suc i) live ops h.1 in
      elim (Bool-cases (c == b)) [
        | inr e ↦ rw e rest
        | inl e ↦ elim (Bool-cases (is_side_effect view op)) [
          | inl f ↦ rw (e, h.0 f, f) (ap (λ r. effect_of op ∷ r) rest)
          | inr f ↦ elim (Bool-cases (elem i live)) [
            | inl g ↦ rw (e, g, f) rest
            | inr g ↦ rw (e, g, f) rest
          ]
        ]
      ]

  effects_at-append :
      (b : ℕ) (xs ys : List (ℕ × SsaOp Op))
      → effects_at b (xs ++ ys) ≡ effects_at b xs ++ effects_at b ys
  unfolding effects_at
  effects_at-append b [] ys = refl
  effects_at-append b ((c, op) ∷ xs) ys = elim (Bool-cases (c == b && is_side_effect view op)) [
    | inl e ↦ rw (e, effects_at) (ap (λ r. effect_of op ∷ r) (effects_at-append b xs ys))
    | inr e ↦ rw (e, effects_at) (effects_at-append b xs ys)
  ]

  effects_at-tag : (b : ℕ) (ops : List (SsaOp Op)) → effects_at b (tag b ops) ≡ effects ops
  unfolding effects_at tag effects
  effects_at-tag b [] = refl
  effects_at-tag b (op ∷ ops) =
      let rest = effects_at-tag b ops in
      elim (Bool-cases (is_side_effect view op)) [
        | inl f ↦ rw ((==_iff b b).1 refl, f) (ap (λ r. effect_of op ∷ r) rest)
        | inr f ↦ rw ((==_iff b b).1 refl, f) rest
      ]

  effects_at-tag_other :
      (b c : ℕ) (ops : List (SsaOp Op)) → (c == b) ≡ false → effects_at b (tag c ops) ≡ []
  unfolding effects_at tag
  effects_at-tag_other b c [] h = refl
  effects_at-tag_other b c (op ∷ ops) h = rw h (effects_at-tag_other b c ops h)

  effects_at-flatten_below :
      (b c : ℕ) (blocks : List (SsaBlock Op)) → b < c → effects_at b (flatten_blocks c blocks) ≡ []
  unfolding flatten_blocks effects_at
  effects_at-flatten_below b c [] h = refl
  effects_at-flatten_below b c (block ∷ blocks) h =
      effects_at-append b (tag c block.ops) (flatten_blocks (suc c) blocks)
      ∙ ap₂ (λ x y. x ++ y) (effects_at-tag_other b c block.ops (ground (arith, h)))
          (effects_at-flatten_below b (suc c) blocks (omega (arith, h)))

  -- The side effects of each block, the blocks in order.
  abbrev pub block_effects : List (SsaBlock Op) → List (List (Effect V Op))
  block_effects = map (λ block. effects block.ops)

  -- Their list for the blocks from `b` on, read off the list of all operations.
  abbrev pub effects_from : ℕ → List (SsaBlock Op) → List (ℕ × SsaOp Op) → List (List (Effect V Op))
  effects_from b [] work = []
  effects_from b (block ∷ blocks) work = effects_at b work ∷ effects_from (suc b) blocks work

  pub effects-rebuild :
      (b : ℕ) (live : List ℕ) (work : List (ℕ × SsaOp Op)) (blocks : List (SsaBlock Op))
      → EffectsLive view 0 work live
      → block_effects (rebuild b live work blocks) ≡ effects_from b blocks work
  unfolding rebuild
  effects-rebuild b live work [] h = refl
  effects-rebuild b live work (block ∷ blocks) h =
      ap₂ (λ x r. x ∷ r) (effects-keep_live b 0 live work h)
        (effects-rebuild (suc b) live work blocks h)

  pub effects_from_same :
      (b : ℕ) (blocks : List (SsaBlock Op)) (work work' : List (ℕ × SsaOp Op))
      → ((c : ℕ) → effects_at c work' ≡ effects_at c work)
      → effects_from b blocks work' ≡ effects_from b blocks work
  effects_from_same b [] work work' h = refl
  effects_from_same b (block ∷ blocks) work work' h =
      ap₂ (λ x r. x ∷ r) (h b) (effects_from_same (suc b) blocks work work' h)

  -- The blocks before `b` add nothing to the ones from `b` on.
  effects_from-skip :
      (b c : ℕ) (blocks : List (SsaBlock Op)) (ops : List (SsaOp Op)) (work : List (ℕ × SsaOp Op))
      → c < b
      → effects_from b blocks (tag c ops ++ work) ≡ effects_from b blocks work
  effects_from-skip b c [] ops work h = refl
  effects_from-skip b c (block ∷ blocks) ops work h =
      ap₂ (λ x r. x ∷ r)
        (effects_at-append b (tag c ops) work
          ∙ ap (λ x. x ++ effects_at b work) (effects_at-tag_other b c ops (ground (arith, h))))
        (effects_from-skip (suc b) c blocks ops work (omega (arith, h)))

  pub effects_from-flatten :
      (b : ℕ) (blocks : List (SsaBlock Op))
      → effects_from b blocks (flatten_blocks b blocks) ≡ block_effects blocks
  unfolding flatten_blocks
  effects_from-flatten b [] = refl
  effects_from-flatten b (block ∷ blocks) =
      ap₂ (λ x r. x ∷ r)
        (effects_at-append b (tag b block.ops) (flatten_blocks (suc b) blocks)
          ∙ ap₂ (λ x y. x ++ y) (effects_at-tag b block.ops)
              (effects_at-flatten_below b (suc b) blocks (omega arith))
          ∙ append-nil (effects block.ops))
        (effects_from-skip (suc b) b blocks block.ops (flatten_blocks (suc b) blocks) (omega arith)
          ∙ effects_from-flatten (suc b) blocks)
