-- ===== src/Ssa/Simplify/Live.antt =====
-- The side effects are live throughout pass 4.
use windy_public.Prelude.{
  ℕ, suc, ◌+◌, ◌<◌, ◌≤◌, ◌≡◌, refl, ap, ◌∙◌, true, false, ◌||◌, Bool-cases, Option, none, some,
  List, [], ◌∷◌, ◌==◌, inl, inr, arith, length,
}
use windy_public.KeyMap.{KeyMap}
use windy_public.Ssa.Types.{SsaVar, var_eq, SsaOp}
use windy_public.Ssa.NodeSet.{elem, elem-remove}
use windy_public.Ssa.Cfg.Frontier.{AllBelow}
use windy_public.Ssa.Alias.{OpView, Aliases, find_alias, view_of}
use windy_public.Ssa.Simplify.{
  mark, args_of_kind, seed_effects, is_side_effect, seed_live, has_return, drop_self_uses,
  drop_step, drop_def, has_var, is_copy_view,
}
use windy_public.Ssa.Simplify.Marks.{
  IndexBelow, mark-AllBelow, elem-mark, elem-mark_self, IsKept, seed_rax_lem,
}

module _ {Op : Type 0} (view : Op → OpView) where
  -- The side effects of the operations, from index `i` on, are live.
  abbrev pub EffectsLive : ℕ → List (ℕ × SsaOp Op) → List ℕ → Type 0
  EffectsLive i [] live = Unit
  EffectsLive i ((b, op) ∷ rest) live =
      (is_side_effect view op ≡ true → elem i live ≡ true) × EffectsLive (suc i) rest live

  pub EffectsLive-grow :
      (i : ℕ) (ops : List (ℕ × SsaOp Op)) (live more : List ℕ)
      → ((y : ℕ) → elem y live ≡ true → elem y more ≡ true)
      → EffectsLive i ops live
      → EffectsLive i ops more
  EffectsLive-grow i [] live more grows h = tt
  EffectsLive-grow i ((b, op) ∷ rest) live more grows h =
      (λ e. grows i (h.0 e), EffectsLive-grow (suc i) rest live more grows h.1)

  elem-seed_effects :
      (y i : ℕ) (ops : List (ℕ × SsaOp Op)) (marks : List ℕ × List ℕ)
      → elem y marks.0 ≡ true
      → elem y (seed_effects view i ops marks).0 ≡ true
  unfolding seed_effects
  elem-seed_effects y i [] marks h = h
  elem-seed_effects y i ((b, op) ∷ rest) marks h = elim (Bool-cases (is_side_effect view op)) [
    | inl e ↦
        rw (e, seed_effects)
          (elem-seed_effects y (suc i) rest (mark i marks) (elem-mark y i marks h))
    | inr e ↦ rw (e, seed_effects) (elem-seed_effects y (suc i) rest marks h)
  ]

  seed_effects-EffectsLive :
      (i : ℕ) (ops : List (ℕ × SsaOp Op)) (marks : List ℕ × List ℕ)
      → EffectsLive i ops (seed_effects view i ops marks).0
  unfolding seed_effects
  seed_effects-EffectsLive i [] marks = tt
  seed_effects-EffectsLive i ((b, op) ∷ rest) marks = elim (Bool-cases (is_side_effect view op)) [
    | inl e ↦
        rw (e, seed_effects)
          (
            λ h. elem-seed_effects i (suc i) rest (mark i marks) (elem-mark_self i marks),
            seed_effects-EffectsLive (suc i) rest (mark i marks),
          )
    | inr e ↦ rw (e, seed_effects) (λ h. absurd (cc h), seed_effects-EffectsLive (suc i) rest marks)
  ]

  seed_effects-AllBelow :
      (n i : ℕ) (ops : List (ℕ × SsaOp Op)) (marks : List ℕ × List ℕ)
      → i + length ops ≤ n
      → AllBelow n marks.1
      → AllBelow n (seed_effects view i ops marks).1
  unfolding seed_effects
  seed_effects-AllBelow n i [] marks h below = below
  seed_effects-AllBelow n i ((b, op) ∷ rest) marks h below =
      elim (Bool-cases (is_side_effect view op)) [
        | inl e ↦
            rw (e, seed_effects)
              (seed_effects-AllBelow n (suc i) rest (mark i marks) (omega (arith, h))
                (mark-AllBelow n i marks (omega (arith, h)) below))
        | inr e ↦
            rw (e, seed_effects)
              (seed_effects-AllBelow n (suc i) rest marks (omega (arith, h)) below)
      ]

  -- What the worklist starts from.
  pub seed_live_lem :
      (Keeps : Aliases → Type 0)
      → IsKept Keeps
      → (defs : KeyMap SsaVar ℕ) (work : List (ℕ × SsaOp Op)) (s : Aliases)
      → IndexBelow (length work) defs
      → Keeps s
      → AllBelow (length work) (seed_live view defs work s).0.1
        × EffectsLive 0 work (seed_live view defs work s).0.0
        × Keeps (seed_live view defs work s).1
  unfolding seed_live
  seed_live_lem Keeps kept defs work s known keeps =
      let marks = seed_effects view 0 work ([], []) in
      let live = seed_effects-EffectsLive 0 work ([], []) in
      let below = seed_effects-AllBelow (length work) 0 work ([], []) (omega arith) tt in
      elim (Bool-cases (has_return view work)) [
        | inr e ↦ rw (e, seed_live) (below, live, keeps)
        | inl e ↦
            let seeded =
              seed_rax_lem Keeps kept (length work) defs known 0 work s marks (omega arith) below
                keeps in
            rw (e, seed_live)
              (seeded.bounded, EffectsLive-grow 0 work marks.0 _ seeded.grows live, seeded.keeps)
      ]

  elem-drop_def :
      (y i : ℕ) (op : SsaOp Op) (o : Option SsaVar) (s : Aliases) (live : List ℕ)
      → (y == i) ≡ false
      → elem y live ≡ true
      → elem y (drop_def i op o s live).0 ≡ true
  unfolding drop_def
  elem-drop_def y i op none s live h e = e
  elem-drop_def y i op (some d) s live h e =
      elim (Bool-cases
        (has_var (find_alias s d).0 op.uses || has_var (find_alias s d).0 (args_of_kind op.kind))) [
          | inl f ↦ rw (f, drop_def) (ground (arith, elem-remove y i live, e, h))
          | inr f ↦ rw (f, drop_def) e
        ]

  elem-drop_step :
      (y i : ℕ) (op : SsaOp Op) (s : Aliases) (live : List ℕ)
      → (y == i) ≡ false
      → elem y live ≡ true
      → elem y (drop_step view i op s live).0 ≡ true
  unfolding drop_step
  elem-drop_step y i op s live h e =
      elim (Bool-cases (is_side_effect view op || is_copy_view (view_of view op.kind))) [
        | inl f ↦ rw (f, drop_step) e
        | inr f ↦ rw (f, drop_step) (elem-drop_def y i op op.def s live h e)
      ]

  drop_step-effect :
      (i : ℕ) (op : SsaOp Op) (s : Aliases) (live : List ℕ)
      → is_side_effect view op ≡ true
      → drop_step view i op s live ≡ (live, s)
  unfolding drop_step
  drop_step-effect i op s live e = rw (e, drop_step) refl

  elem-drop_self_uses :
      (y i : ℕ) (ops : List (ℕ × SsaOp Op)) (s : Aliases) (live : List ℕ)
      → y < i
      → elem y live ≡ true
      → elem y (drop_self_uses view i ops s live).0 ≡ true
  unfolding drop_self_uses
  elem-drop_self_uses y i [] s live h e = e
  elem-drop_self_uses y i ((b, op) ∷ rest) s live h e =
      elem-drop_self_uses y (suc i) rest _ _ (omega (arith, h))
        (elem-drop_step y i op s live (ground (arith, h)) e)

  -- A step at index `i` does not touch the side effects behind it.
  EffectsLive-drop_step :
      (i j : ℕ) (op : SsaOp Op) (s : Aliases) (ops : List (ℕ × SsaOp Op)) (live : List ℕ)
      → i < j
      → EffectsLive j ops live
      → EffectsLive j ops (drop_step view i op s live).0
  EffectsLive-drop_step i j op s [] live h all = tt
  EffectsLive-drop_step i j op s ((b, o) ∷ rest) live h all = (
    λ e. elem-drop_step j i op s live (ground (arith, h)) (all.0 e),
    EffectsLive-drop_step i (suc j) op s rest live (omega (arith, h)) all.1,
  )

  pub EffectsLive-drop_self_uses :
      (i : ℕ) (ops : List (ℕ × SsaOp Op)) (s : Aliases) (live : List ℕ)
      → EffectsLive i ops live
      → EffectsLive i ops (drop_self_uses view i ops s live).0
  unfolding drop_self_uses
  EffectsLive-drop_self_uses i [] s live all = tt
  EffectsLive-drop_self_uses i ((b, op) ∷ rest) s live all = (
    λ e.
        elem-drop_self_uses i (suc i) rest _ _ (omega arith)
          (ap (λ r. elem i r.0) (drop_step-effect i op s live e) ∙ all.0 e),
    EffectsLive-drop_self_uses (suc i) rest _ _
        (EffectsLive-drop_step i (suc i) op s rest live (omega arith) all.1),
  )
