-- ===== src/Ssa/Rename/Fresh.antt =====
-- Single assignment: every version of a location is defined at most once.
use windy_public.Prelude.{
  ℕ, suc, ◌+◌, ◌<◌, ◌≤◌, ◌≡◌, refl, ap, ◌∙◌, true, false, List, [], ◌∷◌, ◌++◌, drop, get_or,
  get_elem?, set, Option, none, some, inl, inr, Bool-cases, arith, length, if◌then◌else◌,
}
use windy_public.Ssa.Types.{
  Location, location_beq, location_beq_iff, SsaVar, var_beq, var_beq_iff, SsaOp, PhiNode, FlatOp,
}
use windy_public.Ssa.Rename.{
  Renaming, Input, update, rename_here, rename_phis, rename_op, rename_ops, push_op, set_out,
  fill_args, fill_successors, pop_all, define, seed, start, blank, all_locations, rename,
  position_or_zero,
}
use windy_public.Ssa.Rename.Count.{
  sum_by, sum_by-set, sum_by-append, sum_by-replicate, image-set, drop_next, same, count_phi,
  same_le, same_other, locations, count_phi-set_out, locations-set_out, locations-blank_table,
  count-blank_table,
}
use windy_public.Ssa.Rename.Stacks.{pushed_by}
use windy_public.Ssa.Rename.Walk.{IsRanked, Chain, stop, step, visit_ind, visit_total}

module _ {Op : Type 0} where
  -- How many operations of a block define `v`.
  abbrev pub count_def : SsaVar → List (SsaOp Op) → ℕ
  count_def v = sum_by (λ op. elim op.def [ none ↦ 0 | some w ↦ same v w ])

  -- How many phis and operations of the function define `v`.
  abbrev pub definitions_of : SsaVar → Renaming Op → ℕ
  definitions_of v s = sum_by (count_phi v) s.phis + sum_by (count_def v) s.pcode_ops

  count_phi-fill_args :
      (v : SsaVar) (s : Renaming Op) (slot : ℕ) (ps : List PhiNode)
      → count_phi v (fill_args s slot ps) ≡ count_phi v ps
  unfolding fill_args
  count_phi-fill_args v s slot [] = refl
  count_phi-fill_args v s slot (p ∷ ps) =
      ap (λ n. same v p.out + n) (count_phi-fill_args v s slot ps)

  locations-fill_args :
      (s : Renaming Op) (slot : ℕ) (ps : List PhiNode)
      → locations (fill_args s slot ps) ≡ locations ps
  unfolding fill_args
  locations-fill_args s slot [] = refl
  locations-fill_args s slot (p ∷ ps) =
      ap (λ ls. p.out.location ∷ ls) (locations-fill_args s slot ps)

  module _ (input : Input Op) where
    record IsFresh (s : Renaming Op) : Type 0 where
      shape : (b : ℕ) → locations (get_or s.phis b []) ≡ get_or input.phi_locs b []
      positive : (l : Location) → 0 < s.next_ver l
      fresh :
          (l : Location) (n : ℕ)
          → s.next_ver l ≤ n
          → definitions_of (record { location = l; version = n }) s ≡ 0
      once : (v : SsaVar) → 0 < v.version → definitions_of v s ≤ 1

    -- A step that takes a new version of `loc` and defines at most that.
    IsFresh-step :
        (loc : Location) (s t : Renaming Op)
        → IsFresh s
        → t.next_ver ≡ update s.next_ver loc (suc (s.next_ver loc))
        → ((b : ℕ) → locations (get_or t.phis b []) ≡ locations (get_or s.phis b []))
        → ((v : SsaVar)
            → definitions_of v t
              ≤ definitions_of v s + same v (record { location = loc; version = s.next_ver loc }))
        → IsFresh t
    unfolding update
    IsFresh-step loc s t inv next keep bound = record {
      shape = λ b. keep b ∙ inv.shape b;
      positive = λ l. ground (arith, next_at l, inv.positive l);
      fresh = λ l n h. elim (Bool-cases (location_beq l loc)) [
        | inl e ↦ omega (
          arith,
          bound (record { location = l; version = n }),
          same_other (record { location = l; version = n }) new
              (λ v. absurd (omega (arith, h, ap (λ w. w.version) v, bumped l e))),
          inv.fresh l n
              (omega (arith, h, bumped l e, ap s.next_ver ((location_beq_iff l loc).0 e))),
        )
        | inr e ↦ omega (
          arith,
          bound (record { location = l; version = n }),
          same_other (record { location = l; version = n }) new
              (λ v. absurd (cc (e, (location_beq_iff l loc).1 (ap (λ w. w.location) v)))),
          inv.fresh l n (omega (arith, h, kept l e)),
        )
      ];
      once = λ v h. elim (Bool-cases (var_beq v new)) [
        | inl e ↦ omega (
          arith,
          bound v,
          same_le v new,
          ap (λ w. definitions_of w s) ((var_beq_iff v new).0 e)
              ∙ inv.fresh loc (s.next_ver loc) (omega arith),
        )
        | inr e ↦ omega (
          arith,
          bound v,
          same_other v new (λ q. absurd (cc (e, (var_beq_iff v new).1 q))),
          inv.once v h,
        )
      ];
    }
      where
        new : SsaVar
        new = record { location = loc; version = s.next_ver loc }

        next_at :
            (l : Location)
            → t.next_ver l ≡ (if location_beq l loc then suc (s.next_ver loc) else s.next_ver l)
        next_at l = ap (λ m. m l) next

        bumped : (l : Location) → location_beq l loc ≡ true → t.next_ver l ≡ suc (s.next_ver loc)
        bumped l e = next_at l ∙ rw e refl

        kept : (l : Location) → location_beq l loc ≡ false → t.next_ver l ≡ s.next_ver l
        kept l e = next_at l ∙ rw e refl

    -- A step that takes no version.
    IsFresh-same :
        (s t : Renaming Op)
        → IsFresh s
        → t.next_ver ≡ s.next_ver
        → ((b : ℕ) → locations (get_or t.phis b []) ≡ locations (get_or s.phis b []))
        → ((v : SsaVar) → definitions_of v t ≤ definitions_of v s)
        → IsFresh t
    IsFresh-same s t inv next keep bound = record {
      shape = λ b. keep b ∙ inv.shape b;
      positive = λ l. omega (arith, ap (λ m. m l) next, inv.positive l);
      fresh = λ l n h. omega (
        arith,
        bound (record { location = l; version = n }),
        inv.fresh l n (omega (arith, h, ap (λ m. m l) next)),
      );
      once = λ v h. omega (arith, bound v, inv.once v h);
    }

    IsFresh-rename_phis :
        (b idx : ℕ) (locs : List Location) (s : Renaming Op)
        → IsFresh s
        → drop idx (get_or input.phi_locs b []) ≡ locs
        → IsFresh (rename_phis b idx locs s)
    unfolding rename_phis define
    IsFresh-rename_phis b idx [] s inv h = inv
    IsFresh-rename_phis b idx (loc ∷ locs) s inv h =
        let (at, next) = drop_next idx (get_or input.phi_locs b []) locs loc h in
        let ps = get_or s.phis b [] in
        let n = s.next_ver loc in
        IsFresh-rename_phis b (suc idx) locs _
          (IsFresh-step loc s (record (define loc s) { phis = set s.phis b (set_out ps idx n) }) inv
            refl
            (λ c. image-set locations s.phis b c (set_out ps idx n) [] (locations-set_out ps idx n))
            (λ v. omega (
              arith,
              sum_by-set (count_phi v) s.phis b (set_out ps idx n) [] refl,
              count_phi-set_out v ps idx loc n (ap (λ ls. get_elem? ls idx) (inv.shape b) ∙ at),
            )))
          next

    definitions_of-push_op :
        (v : SsaVar) (b : ℕ) (op : SsaOp Op) (s : Renaming Op)
        → definitions_of v (push_op b op s) ≤ definitions_of v s + count_def v (op ∷ [])
    unfolding push_op
    definitions_of-push_op v b op s =
        let ops = get_or s.pcode_ops b [] in
        omega (
          arith,
          sum_by-set (count_def v) s.pcode_ops b (ops ++ op ∷ []) [] refl,
          sum_by-append (λ o. elim o.def [ none ↦ 0 | some w ↦ same v w ]) ops (op ∷ []),
        )

    IsFresh-rename_op :
        (b : ℕ) (flat : FlatOp Op) (d : Option Location) (s : Renaming Op)
        → IsFresh s
        → IsFresh (rename_op b flat d s)
    unfolding rename_op define push_op
    IsFresh-rename_op b flat none s inv =
        IsFresh-same s (rename_op b flat none s) inv refl (λ c. refl)
          (λ v. omega (arith, definitions_of-push_op v b _ s))
    IsFresh-rename_op b flat (some loc) s inv =
        IsFresh-step loc s (rename_op b flat (some loc) s) inv refl (λ c. refl)
          (λ v. omega (arith, definitions_of-push_op v b _ (define loc s)))

    IsFresh-rename_ops :
        (b : ℕ) (flats : List (FlatOp Op)) (s : Renaming Op)
        → IsFresh s
        → IsFresh (rename_ops b flats s)
    unfolding rename_ops
    IsFresh-rename_ops b [] s inv = inv
    IsFresh-rename_ops b (flat ∷ flats) s inv =
        IsFresh-rename_ops b flats (rename_op b flat flat.def s)
          (IsFresh-rename_op b flat flat.def s inv)

    IsFresh-fill_successors :
        (b : ℕ) (cs : List ℕ) (s : Renaming Op)
        → IsFresh s
        → IsFresh (fill_successors input.pred b cs s)
    unfolding fill_successors
    IsFresh-fill_successors b [] s inv = inv
    IsFresh-fill_successors b (c ∷ cs) s inv =
        let slot = position_or_zero (get_or input.pred c []) 0 b in
        let ps = get_or s.phis c [] in
        IsFresh-fill_successors b cs _ (
          IsFresh-same s (record s { phis = set s.phis c (fill_args s slot ps) }) inv refl
            (λ d.
              image-set locations s.phis c d (fill_args s slot ps) []
                (locations-fill_args s slot ps))
            (λ v. omega (
              arith,
              sum_by-set (count_phi v) s.phis c (fill_args s slot ps) [] refl,
              count_phi-fill_args v s slot ps,
            )))

    IsFresh-pop_all :
        (locs : List Location) (s : Renaming Op) → IsFresh s → IsFresh (pop_all locs s)
    unfolding pop_all
    IsFresh-pop_all [] s inv = inv
    IsFresh-pop_all (loc ∷ locs) s inv =
        IsFresh-pop_all locs _ (IsFresh-same s _ inv refl (λ c. refl) (λ v. omega arith))

    IsFresh-seed : (locs : List Location) (s : Renaming Op) → IsFresh s → IsFresh (seed locs s)
    unfolding seed define
    IsFresh-seed [] s inv = inv
    IsFresh-seed (loc ∷ locs) s inv =
        IsFresh-seed locs _
          (IsFresh-step loc s (define loc s) inv refl (λ c. refl) (λ v. omega arith))

    IsFresh-rename_here : (b : ℕ) (s : Renaming Op) → IsFresh s → IsFresh (rename_here input b s)
    unfolding rename_here
    IsFresh-rename_here b s inv = IsFresh-fill_successors b (get_or input.succ b []) _ (
        IsFresh-rename_ops b (get_or input.block_flat b []) _
          (IsFresh-rename_phis b 0 (get_or input.phi_locs b []) s inv refl))

    abbrev KeepsFresh : ℕ → Renaming Op → Renaming Op → Type 0
    KeepsFresh b s t = IsFresh s → IsFresh t

    IsFresh-Chain :
        (cs : List ℕ) (s t : Renaming Op) → Chain input KeepsFresh cs s t → IsFresh s → IsFresh t
    IsFresh-Chain _ s _ (stop _) inv = inv
    IsFresh-Chain _ s u (step {cs = cs} {t = t} r chain) inv = IsFresh-Chain cs t u chain (r inv)

    fresh_close :
        (b : ℕ) (s u : Renaming Op)
        → Chain input KeepsFresh (get_or input.dom_children b []) (rename_here input b s) u
        → KeepsFresh b s (pop_all (pushed_by input b) u)
    fresh_close b s u chain inv =
        IsFresh-pop_all (pushed_by input b) u
          (IsFresh-Chain _ _ u chain (IsFresh-rename_here b s inv))

    IsFresh-blank : IsFresh (blank input)
    unfolding blank
    IsFresh-blank = record {
      shape = λ b. locations-blank_table 0 b input.pred input.phi_locs;
      positive = λ l. omega arith;
      fresh = λ l n h. none_yet (record { location = l; version = n }) (omega (arith, h));
      once = λ v h. omega (arith, none_yet v h);
    }
      where
        none_yet : (v : SsaVar) → 0 < v.version → definitions_of v (blank input) ≡ 0
        none_yet v h = omega (
          arith,
          count-blank_table v 0 input.pred input.phi_locs h,
          sum_by-replicate (count_def v) (length input.block_flat) [] refl,
        )

-- Where ranks fall from each block to its children in the dominator tree, and that of block 0 is at
-- most the number of blocks, renaming ends, and afterwards every version above 0 of a location is
-- defined at most once, by a phi or by an operation, in the whole function.
pub single_assignment :
    {Op : Type 0} (input : Input Op) (rank : ℕ → ℕ)
    → IsRanked input rank
    → rank 0 < suc (length input.block_flat)
    → (t : Renaming Op) × (rename input ≡ some t)
      × ((v : SsaVar) → 0 < v.version → definitions_of v t ≤ 1)
unfolding rename start
single_assignment input rank ranked enough =
    let fuel = suc (length input.block_flat) in
    let (t, e) = visit_total input rank ranked fuel 0 (start input) enough in
    let begun =
      IsFresh-seed input (all_locations input.block_flat []) (blank input) (IsFresh-blank input) in
    let inv =
      visit_ind input (KeepsFresh input) (fresh_close input) fuel 0 (start input) t e begun in
    (t, e, inv.once)
