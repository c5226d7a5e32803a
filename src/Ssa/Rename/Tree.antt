-- ===== src/Ssa/Rename/Tree.antt =====
-- Blocks under blocks in the dominator tree.
use windy_public.Prelude.{
  ℕ, ◌≤◌, ◌≡◌, refl, sym, ap, subst, true, false, List, [], ◌∷◌, get_or, ◌⊎◌, inl, inr, arith,
}
use windy_public.Ssa.NodeSet.{elem}
use windy_public.Ssa.Rename.{Input}
use windy_public.Ssa.Rename.Walk.{IsRanked}
use windy_public.Ssa.Rename.Unreached.{IsUnder, itself, child}

-- No child is listed twice.
abbrev pub IsSimple : List ℕ → Type 0
IsSimple [] = Unit
IsSimple (c ∷ cs) = (elem c cs ≡ false) × IsSimple cs

-- The children of the blocks form a forest: a child has one parent, below which it ranks.
pub record IsForest {Op : Type 0} (input : Input Op) (rank parent : ℕ → ℕ) : Type 0 where
  pub ranked : IsRanked input rank
  pub one_parent : (b c : ℕ) → elem c (get_or input.dom_children b []) ≡ true → parent c ≡ b
  pub simple : (b : ℕ) → IsSimple (get_or input.dom_children b [])

module _ {Op : Type 0} (input : Input Op) (rank parent : ℕ → ℕ)
    (forest : IsForest input rank parent) where
  abbrev IsChild : ℕ → ℕ → Type 0
  IsChild b c = elem c (get_or input.dom_children b []) ≡ true

  -- The way from a block up to one that it is under.
  data Climbs (top : ℕ) : ℕ → Type 0 where
    here : Climbs top top
    up : (x : ℕ) → IsChild (parent x) x → Climbs top (parent x) → Climbs top x

  Climbs-on : (b c x : ℕ) → IsChild b c → Climbs c x → Climbs b x
  Climbs-on b c _ m here =
      let p = forest.one_parent b c m in
      up c (subst (λ d. IsChild d c) (sym p) m) (subst (Climbs b) (sym p) here)
  Climbs-on b c _ m (up x n r) = up x n (Climbs-on b c (parent x) m r)

  climbs : (b x : ℕ) → IsUnder input b x → Climbs b x
  climbs b _ (itself _) = here
  climbs b x (child _ c _ m under) = Climbs-on b c x m (climbs c x under)

  Climbs-rank : (b x : ℕ) → Climbs b x → rank x ≤ rank b
  Climbs-rank b _ here = omega arith
  Climbs-rank b x (up _ m r) =
      omega (arith, forest.ranked (parent x) x m, Climbs-rank b (parent x) r)

  one_above : (c d x : ℕ) → Climbs c x → Climbs d x → Climbs c d ⊎ Climbs d c
  one_above c d _ here s = inr s
  one_above c d _ (up x m r) here = inl (up x m r)
  one_above c d _ (up x m r) (up _ n s) = one_above c d (parent x) r s

  -- A block under a child that is itself a child is the same child.
  child-Climbs : (b c d : ℕ) → IsChild b c → IsChild b d → Climbs c d → c ≡ d
  child-Climbs b c d m n here = refl
  child-Climbs b c d m n (up _ k r) = absurd (
      omega
        (arith, forest.ranked b c m, Climbs-rank c (parent d) r, ap rank (forest.one_parent b d n)))

  pub same_child :
      (b c d x : ℕ) → IsChild b c → IsChild b d → IsUnder input c x → IsUnder input d x → c ≡ d
  same_child b c d x m n r s = elim (one_above c d x (climbs c x r) (climbs d x s)) [
    | inl k ↦ child-Climbs b c d m n k
    | inr k ↦ sym (child-Climbs b d c n m k)
  ]

  pub not-IsUnder_child : (b c : ℕ) → IsChild b c → ¬ IsUnder input c b
  not-IsUnder_child b c m under =
      absurd (omega (arith, forest.ranked b c m, Climbs-rank c b (climbs c b under)))

pub IsUnder-cases :
    {Op : Type 0} (input : Input Op) (b x : ℕ)
    → IsUnder input b x
    → (b ≡ x) ⊎ ((c : ℕ) × (elem c (get_or input.dom_children b []) ≡ true) × IsUnder input c x)
IsUnder-cases input b _ (itself _) = inl refl
IsUnder-cases input b x (child _ c _ m under) = inr (c, m, under)
