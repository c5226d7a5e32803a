-- ===== src/Ssa/Rename/Walk.antt =====
-- The walk over the dominator tree: it ends, what it keeps, and where it does not come.
use mathlib.Core.Option.{some-injective}
use windy_public.Prelude.{
  ℕ, zero, suc, ◌<◌, ◌≡◌, refl, sym, ◌∙◌, subst, true, List, [], ◌∷◌, get_or, Option, none, some,
  inl, inr, Option-cases, arith, length,
}
use windy_public.Ssa.Types.{Location}
use windy_public.Ssa.NodeSet.{elem}
use windy_public.Ssa.Rename.{
  Renaming, Input, pop_all, rename_here, rename_children, rename_block, rename, start,
}
use windy_public.Ssa.Rename.Stacks.{pushed_by, popped_again}

-- The ranks of the children of a block are below its own: the children form a forest.
abbrev pub IsRanked : {Op : Type 0} → Input Op → (ℕ → ℕ) → Type 0
IsRanked input rank = (b c : ℕ) → elem c (get_or input.dom_children b []) ≡ true → rank c < rank b

module _ {Op : Type 0} (input : Input Op) where
  abbrev visit : ℕ → ℕ → Renaming Op → Option (Renaming Op)
  visit fuel = rename_block fuel input

  rename_children-cons :
      (fuel c : ℕ) (cs : List ℕ) (s u : Renaming Op)
      → visit fuel c s ≡ some u
      → rename_children (visit fuel) (c ∷ cs) s ≡ rename_children (visit fuel) cs u
  unfolding rename_children
  rename_children-cons fuel c cs s u e = rw (e, rename_children) refl

  rename_children-none :
      (fuel c : ℕ) (cs : List ℕ) (s : Renaming Op)
      → visit fuel c s ≡ none
      → rename_children (visit fuel) (c ∷ cs) s ≡ none
  unfolding rename_children
  rename_children-none fuel c cs s e = rw (e, rename_children) refl

  abbrev children_of : ℕ → ℕ → Renaming Op → Option (Renaming Op)
  children_of fuel b s =
      rename_children (visit fuel) (get_or input.dom_children b []) (rename_here input b s)

  visit-some :
      (fuel b : ℕ) (s u : Renaming Op)
      → children_of fuel b s ≡ some u
      → visit (suc fuel) b s ≡ some (pop_all (pushed_by input b) u)
  unfolding rename_block
  visit-some fuel b s u e = rw (e, rename_block) refl

  visit-none :
      (fuel b : ℕ) (s : Renaming Op) → children_of fuel b s ≡ none → visit (suc fuel) b s ≡ none
  unfolding rename_block
  visit-none fuel b s e = rw (e, rename_block) refl

  -- A visit with fuel left: the children's end state, and the pops.
  visited :
      (fuel b : ℕ) (s t : Renaming Op)
      → visit (suc fuel) b s ≡ some t
      → (u : Renaming Op) × (children_of fuel b s ≡ some u) × (pop_all (pushed_by input b) u ≡ t)
  visited fuel b s t e = elim (Option-cases (children_of fuel b s)) [
    | inl n ↦ absurd (cc (e, visit-none fuel b s n))
    | inr (u, f) ↦ (u, f, some-injective _ _ (sym (visit-some fuel b s u f) ∙ e))
  ]

  -- What a visit of a block does between two states, a relation that is closed under its steps.
  module _ (Rel : ℕ → Renaming Op → Renaming Op → Type 0) where
    -- The children one after the other.
    pub data Chain : List ℕ → Renaming Op → Renaming Op → Type 0 where
      stop : (s : Renaming Op) → Chain [] s s
      step :
          {c : ℕ} {cs : List ℕ} {s t u : Renaming Op}
          → Rel c s t
          → Chain cs t u
          → Chain (c ∷ cs) s u

    children-Chain :
        (fuel : ℕ)
        → ((c : ℕ) (s t : Renaming Op) → visit fuel c s ≡ some t → Rel c s t)
        → (cs : List ℕ) (s t : Renaming Op) → rename_children (visit fuel) cs s ≡ some t
        → Chain cs s t
    unfolding rename_children
    children-Chain fuel h [] s t e = subst (Chain [] s) (some-injective s t e) (stop s)
    children-Chain fuel h (c ∷ cs) s t e = elim (Option-cases (visit fuel c s)) [
      | inl n ↦ absurd (cc (e, rename_children-none fuel c cs s n))
      | inr (u, v) ↦
          step (h c s u v)
            (children-Chain fuel h cs u t (sym (rename_children-cons fuel c cs s u v) ∙ e))
    ]

    pub visit_ind :
        ((b : ℕ) (s u : Renaming Op)
          → Chain (get_or input.dom_children b []) (rename_here input b s) u
          → Rel b s (pop_all (pushed_by input b) u))
        → (fuel b : ℕ) (s t : Renaming Op) → rename_block fuel input b s ≡ some t
        → Rel b s t
    unfolding rename_block
    visit_ind close zero b s t e = absurd (cc e)
    visit_ind close (suc fuel) b s t e =
        let (u, f, same) = visited fuel b s t e in
        subst (Rel b s) same (
          close b s u
            (children-Chain fuel (visit_ind close fuel) (get_or input.dom_children b []) _ u f))

  -- Enough fuel for each child is enough for the list.
  children_total :
      (fuel : ℕ) (cs : List ℕ)
      → ((c : ℕ) (s : Renaming Op)
          → elem c cs ≡ true
          → (t : Renaming Op) × (visit fuel c s ≡ some t))
      → (s : Renaming Op) → (t : Renaming Op) × (rename_children (visit fuel) cs s ≡ some t)
  unfolding rename_children elem
  children_total fuel [] h s = (s, refl)
  children_total fuel (c ∷ cs) h s =
      let (u, e) = h c s (ground arith) in
      let (t, f) = children_total fuel cs (λ d r m. h d r (ground (arith, m))) u in
      (t, rename_children-cons fuel c cs s u e ∙ f)

  pub visit_total :
      (rank : ℕ → ℕ)
      → IsRanked input rank
      → (fuel b : ℕ) (s : Renaming Op) → rank b < fuel
      → (t : Renaming Op) × (rename_block fuel input b s ≡ some t)
  visit_total rank ranked zero b s h = absurd (omega arith)
  visit_total rank ranked (suc fuel) b s h =
      let (u, e) =
        children_total fuel (get_or input.dom_children b [])
          (λ c r m. visit_total rank ranked fuel c r (omega (arith, ranked b c m, h)))
          (rename_here input b s) in
      (pop_all (pushed_by input b) u, visit-some fuel b s u e)

  -- The stacks of `t` are those of `s`.
  abbrev pub IsRestored : Renaming Op → Renaming Op → Type 0
  IsRestored s t = (l : Location) → t.current_def l ≡ s.current_def l

  IsRestored-Chain :
      (cs : List ℕ) (s t : Renaming Op) → Chain (λ b. IsRestored) cs s t → IsRestored s t
  IsRestored-Chain _ s _ (stop _) l = refl
  IsRestored-Chain _ s u (step {cs = cs} {t = t} r chain) l = IsRestored-Chain cs t u chain l ∙ r l

  pub visit-IsRestored :
      (fuel b : ℕ) (s t : Renaming Op) → rename_block fuel input b s ≡ some t → IsRestored s t
  visit-IsRestored =
      visit_ind (λ b. IsRestored)
        (λ b s u chain. popped_again input b s u (IsRestored-Chain _ _ _ chain))

-- Where ranks fall from each block to its children in the dominator tree, and that of block 0 is at
-- most the number of blocks, renaming ends, and each block has popped what it pushed: every version
-- stack is as it was when the walk began.
pub rename_restores :
    {Op : Type 0} (input : Input Op) (rank : ℕ → ℕ)
    → IsRanked input rank
    → rank 0 < suc (length input.block_flat)
    → (t : Renaming Op) × (rename input ≡ some t)
      × ((l : Location) → t.current_def l ≡ (start input).current_def l)
unfolding rename
rename_restores input rank ranked enough =
    let fuel = suc (length input.block_flat) in
    let (t, e) = visit_total input rank ranked fuel 0 (start input) enough in
    (t, e, visit-IsRestored input fuel 0 (start input) t e)
