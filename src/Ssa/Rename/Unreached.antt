-- ===== src/Ssa/Rename/Unreached.antt =====
-- The blocks that the walk does not reach.
use windy_public.Prelude.{
  ℕ, zero, suc, ◌≡◌, ◌≢◌, ◌<◌, refl, sym, ap, ◌∙◌, subst, true, List, [], ◌∷◌, get_or,
  get_or-replicate, set, Option, none, some, arith, length,
}
use windy_public.Ssa.Types.{Location, SsaOp, FlatOp}
use windy_public.Ssa.NodeSet.{elem}
use windy_public.Ssa.Rename.{
  Renaming, Input, rename_here, rename_phis, rename_op, rename_ops, push_op, fill_successors,
  pop_all, define, seed, start, blank, all_locations, rename,
}
use windy_public.Ssa.Rename.Stacks.{pushed_by}
use windy_public.Ssa.Rename.Walk.{IsRanked, Chain, stop, step, visit_ind, visit_total}

pub get_or-set_other {ℓ} :
    {A : Type ℓ} (xs : List A) (i j : ℕ) (v d : A) → j ≢ i → get_or (set xs i v) j d ≡ get_or xs j d
get_or-set_other [] i j v d h = refl
get_or-set_other (x ∷ xs) zero zero v d h = absurd (h refl)
get_or-set_other (x ∷ xs) zero (suc j) v d h = refl
get_or-set_other (x ∷ xs) (suc i) zero v d h = refl
get_or-set_other (x ∷ xs) (suc i) (suc j) v d h = get_or-set_other xs i j v d (λ e. h (ap suc e))

-- The block itself, its children in the dominator tree, theirs, and so on.
pub data IsUnder {Op : Type 0} (input : Input Op) : ℕ → ℕ → Type 0 where
  itself : (b : ℕ) → IsUnder input b b
  child :
      (b c x : ℕ)
      → elem c (get_or input.dom_children b []) ≡ true
      → IsUnder input c x
      → IsUnder input b x

module _ {Op : Type 0} where
  pub pcode_ops-rename_phis :
      (b idx : ℕ) (locs : List Location) (s : Renaming Op)
      → (rename_phis b idx locs s).pcode_ops ≡ s.pcode_ops
  unfolding rename_phis define
  pcode_ops-rename_phis b idx [] s = refl
  pcode_ops-rename_phis b idx (loc ∷ locs) s = pcode_ops-rename_phis b (suc idx) locs _

  pub pcode_ops-fill_successors :
      (pred : List (List ℕ)) (b : ℕ) (cs : List ℕ) (s : Renaming Op)
      → (fill_successors pred b cs s).pcode_ops ≡ s.pcode_ops
  unfolding fill_successors
  pcode_ops-fill_successors pred b [] s = refl
  pcode_ops-fill_successors pred b (c ∷ cs) s = pcode_ops-fill_successors pred b cs _

  pub pcode_ops-pop_all :
      (locs : List Location) (s : Renaming Op) → (pop_all locs s).pcode_ops ≡ s.pcode_ops
  unfolding pop_all
  pcode_ops-pop_all [] s = refl
  pcode_ops-pop_all (loc ∷ locs) s = pcode_ops-pop_all locs _

  pub pcode_ops-seed :
      (locs : List Location) (s : Renaming Op) → (seed locs s).pcode_ops ≡ s.pcode_ops
  unfolding seed define
  pcode_ops-seed [] s = refl
  pcode_ops-seed (loc ∷ locs) s = pcode_ops-seed locs _

  -- The operations of block `x`.
  abbrev pub ops_at : Renaming Op → ℕ → List (SsaOp Op)
  ops_at s x = get_or s.pcode_ops x []

  rename_op_elsewhere :
      (b x : ℕ) (flat : FlatOp Op) (d : Option Location) (s : Renaming Op)
      → x ≢ b
      → ops_at (rename_op b flat d s) x ≡ ops_at s x
  unfolding rename_op push_op define
  rename_op_elsewhere b x flat none s h = get_or-set_other s.pcode_ops b x _ [] h
  rename_op_elsewhere b x flat (some loc) s h = get_or-set_other s.pcode_ops b x _ [] h

  rename_ops_elsewhere :
      (b x : ℕ) (flats : List (FlatOp Op)) (s : Renaming Op)
      → x ≢ b
      → ops_at (rename_ops b flats s) x ≡ ops_at s x
  unfolding rename_ops
  rename_ops_elsewhere b x [] s h = refl
  rename_ops_elsewhere b x (flat ∷ flats) s h =
      rename_ops_elsewhere b x flats (rename_op b flat flat.def s) h
      ∙ rename_op_elsewhere b x flat flat.def s h

  pub rename_here_elsewhere :
      (input : Input Op) (b x : ℕ) (s : Renaming Op)
      → x ≢ b
      → ops_at (rename_here input b s) x ≡ ops_at s x
  unfolding rename_here
  rename_here_elsewhere input b x s h =
      ap (λ t. get_or t x []) (pcode_ops-fill_successors input.pred b (get_or input.succ b []) _)
      ∙ rename_ops_elsewhere b x (get_or input.block_flat b []) _ h
      ∙ ap (λ t. get_or t x []) (pcode_ops-rename_phis b 0 (get_or input.phi_locs b []) s)

  module _ (input : Input Op) (x : ℕ) where
    abbrev pub Untouched : ℕ → Renaming Op → Renaming Op → Type 0
    Untouched b s t = ¬ IsUnder input b x → ops_at t x ≡ ops_at s x

    pub Untouched-Chain :
        (cs : List ℕ) (s t : Renaming Op)
        → Chain input Untouched cs s t
        → ((c : ℕ) → elem c cs ≡ true → ¬ IsUnder input c x)
        → ops_at t x ≡ ops_at s x
    unfolding elem
    Untouched-Chain _ s _ (stop _) h = refl
    Untouched-Chain _ s u (step {c = c} {cs = cs} {t = t} r chain) h =
        Untouched-Chain cs t u chain (λ d m. h d (ground (arith, m))) ∙ r (h c (ground arith))

    pub Untouched-close :
        (b : ℕ) (s u : Renaming Op)
        → Chain input Untouched (get_or input.dom_children b []) (rename_here input b s) u
        → Untouched b s (pop_all (pushed_by input b) u)
    Untouched-close b s u chain h =
        ap (λ t. get_or t x []) (pcode_ops-pop_all (pushed_by input b) u)
        ∙ Untouched-Chain (get_or input.dom_children b []) _ u chain
            (λ c m under. h (child b c x m under))
        ∙ rename_here_elsewhere input b x s (λ e. h (subst (IsUnder input b) (sym e) (itself b)))

  pub ops_at-start : (input : Input Op) (x : ℕ) → ops_at (start input) x ≡ []
  unfolding start blank
  ops_at-start input x =
      ap (λ t. get_or t x []) (pcode_ops-seed (all_locations input.block_flat []) (blank input))
      ∙ get_or-replicate (length input.block_flat) x []

-- Where ranks fall from each block to its children in the dominator tree, and that of block 0 is at
-- most the number of blocks, renaming ends, and a block that is not block 0 or under it in the
-- dominator tree has no operations afterwards, whatever operations it had.
pub rename_unreached :
    {Op : Type 0} (input : Input Op) (rank : ℕ → ℕ) (x : ℕ)
    → IsRanked input rank
    → rank 0 < suc (length input.block_flat)
    → ¬ IsUnder input 0 x
    → (t : Renaming Op) × (rename input ≡ some t) × (get_or t.pcode_ops x [] ≡ [])
unfolding rename
rename_unreached input rank x ranked enough apart =
    let fuel = suc (length input.block_flat) in
    let (t, e) = visit_total input rank ranked fuel 0 (start input) enough in
    (
      t,
      e,
      visit_ind input (Untouched input x) (Untouched-close input x) fuel 0 (start input) t e apart
          ∙ ops_at-start input x,
    )
