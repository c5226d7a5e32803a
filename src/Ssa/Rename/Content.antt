-- ===== src/Ssa/Rename/Content.antt =====
-- What the walk writes: each block under block 0 gets its operations, once and in order.
use windy_public.Prelude.{
  ℕ, suc, ◌<◌, ◌≡◌, refl, sym, ap, ◌∙◌, subst, true, Bool-cases, ==_iff, ◌==◌, List, [], ◌++◌, map,
  get_or, some, inl, inr, arith, length,
}
use windy_public.Ssa.NodeSet.{elem}
use windy_public.Ssa.Rename.{Renaming, Input, rename_here, rename_phis, pop_all, start, rename}
use windy_public.Ssa.Rename.Stacks.{pushed_by}
use windy_public.Ssa.Rename.Walk.{Chain, stop, step, visit_ind, visit_total}
use windy_public.Ssa.Rename.Unreached.{
  IsUnder, itself, child, rename_here_elsewhere, ops_at-start, pcode_ops-rename_phis,
  pcode_ops-fill_successors, pcode_ops-pop_all,
}
use windy_public.Ssa.Rename.Tree.{IsForest, IsSimple, same_child, not-IsUnder_child, IsUnder-cases}
use windy_public.Ssa.Rename.Written.{
  written, plain_op, plain_flat, length-rename_ops, written-rename_ops, length-start,
}

module _ {Op : Type 0} where
  module _ (input : Input Op) (x : ℕ) where
    length-rename_here :
        (b : ℕ) (s : Renaming Op) → length (rename_here input b s).pcode_ops ≡ length s.pcode_ops
    unfolding rename_here
    length-rename_here b s =
        ap length (pcode_ops-fill_successors input.pred b (get_or input.succ b []) _)
        ∙ length-rename_ops b (get_or input.block_flat b []) _
        ∙ ap length (pcode_ops-rename_phis b 0 (get_or input.phi_locs b []) s)

    written-rename_here :
        (b : ℕ) (s : Renaming Op)
        → b < length s.pcode_ops
        → written (rename_here input b s) b
          ≡ written s b ++ map plain_flat (get_or input.block_flat b [])
    unfolding rename_here
    written-rename_here b s h =
        let phied = rename_phis b 0 (get_or input.phi_locs b []) s in
        let same = pcode_ops-rename_phis b 0 (get_or input.phi_locs b []) s in
        ap (λ t. map plain_op (get_or t b []))
          (pcode_ops-fill_successors input.pred b (get_or input.succ b []) _)
        ∙ written-rename_ops b (get_or input.block_flat b []) phied
            (omega (arith, h, ap length same))
        ∙ ap (λ t. map plain_op (get_or t b []) ++ map plain_flat (get_or input.block_flat b []))
            same

    -- A visit leaves the number of blocks, does not touch `x` apart from it, and appends the operations
    -- of `x` under it.
    record Fills (b : ℕ) (s t : Renaming Op) : Type 0 where
      size : length t.pcode_ops ≡ length s.pcode_ops
      untouched : ¬ IsUnder input b x → written t x ≡ written s x
      filled :
          x < length s.pcode_ops
          → IsUnder input b x
          → written t x ≡ written s x ++ map plain_flat (get_or input.block_flat x [])

    module _ (rank parent : ℕ → ℕ) (forest : IsForest input rank parent) (b : ℕ) where
      abbrev IsChild : ℕ → Type 0
      IsChild c = elem c (get_or input.dom_children b []) ≡ true

      -- A list of children of `b`.
      abbrev AllChildren : List ℕ → Type 0
      AllChildren cs = (c : ℕ) → elem c cs ≡ true → IsChild c

      size-Chain :
          (cs : List ℕ) (s t : Renaming Op)
          → Chain input Fills cs s t
          → length t.pcode_ops ≡ length s.pcode_ops
      size-Chain _ s _ (stop _) = refl
      size-Chain _ s u (step {cs = cs} {t = t} r chain) = size-Chain cs t u chain ∙ r.size

      skip-Chain :
          (cs : List ℕ) (s t : Renaming Op)
          → Chain input Fills cs s t
          → ((c : ℕ) → elem c cs ≡ true → ¬ IsUnder input c x)
          → written t x ≡ written s x
      unfolding elem
      skip-Chain _ s _ (stop _) h = refl
      skip-Chain _ s u (step {c = c} {cs = cs} {t = t} r chain) h =
          skip-Chain cs t u chain (λ d m. h d (ground (arith, m)))
          ∙ r.untouched (h c (ground arith))

      fill-Chain :
          (cs : List ℕ) (s t : Renaming Op)
          → Chain input Fills cs s t
          → AllChildren cs
          → IsSimple cs
          → x < length s.pcode_ops
          → (d : ℕ) → elem d cs ≡ true
          → IsUnder input d x
          → written t x ≡ written s x ++ map plain_flat (get_or input.block_flat x [])
      unfolding elem
      fill-Chain _ s _ (stop _) all simple h d m under = absurd (cc m)
      fill-Chain _ s u (step {c = c} {cs = cs} {t = t} r chain) all simple h d m under =
          elim (Bool-cases (d == c)) [
            | inl e ↦
                let below = subst (λ k. IsUnder input k x) ((==_iff d c).0 e) under in
                skip-Chain cs t u chain (λ k n over.
                  let same =
                    same_child input rank parent forest b k c x (all k (ground (arith, n)))
                      (all c (ground arith)) over below in
                  absurd (cc (simple.0, n, same)))
                ∙ r.filled h below
            | inr e ↦
                fill-Chain cs t u chain (λ k n. all k (ground (arith, n))) simple.1
                  (omega (arith, h, r.size)) d (ground (arith, m, e)) under
                ∙ ap (λ ps. ps ++ map plain_flat (get_or input.block_flat x []))
                    (r.untouched (λ over. absurd (
                      cc (
                        e,
                        (==_iff d c).1 (
                            same_child input rank parent forest b d c x (all d (ground (arith, m)))
                              (all c (ground arith)) under over),
                      ))))
          ]

      children_of_b : AllChildren (get_or input.dom_children b [])
      children_of_b c m = m

      fill_close :
          (s u : Renaming Op)
          → Chain input Fills (get_or input.dom_children b []) (rename_here input b s) u
          → Fills b s (pop_all (pushed_by input b) u)
      fill_close s u chain = record {
        size =
            popped ∙ size-Chain (get_or input.dom_children b []) _ u chain ∙ length-rename_here b s;
        untouched = λ apart.
            written_popped
            ∙ skip-Chain (get_or input.dom_children b []) _ u chain
                (λ c m under. apart (child b c x m under))
            ∙ ap (map plain_op) (
                rename_here_elsewhere input b x s
                  (λ e. apart (subst (IsUnder input b) (sym e) (itself b))));
        filled = λ h under. written_popped ∙ go h under;
      }
        where
          popped : length (pop_all (pushed_by input b) u).pcode_ops ≡ length u.pcode_ops
          popped = ap length (pcode_ops-pop_all (pushed_by input b) u)

          written_popped : written (pop_all (pushed_by input b) u) x ≡ written u x
          written_popped =
              ap (λ t. map plain_op (get_or t x [])) (pcode_ops-pop_all (pushed_by input b) u)

          go :
              x < length s.pcode_ops
              → IsUnder input b x
              → written u x ≡ written s x ++ map plain_flat (get_or input.block_flat x [])
          go h under = elim (IsUnder-cases input b x under) [
            | inl e ↦
                skip-Chain (get_or input.dom_children b []) _ u chain (λ c m over.
                  not-IsUnder_child input rank parent forest b c m
                    (subst (IsUnder input c) (sym e) over))
                ∙ subst
                    (λ y.
                      y < length s.pcode_ops
                      → written (rename_here input b s) y
                        ≡ written s y ++ map plain_flat (get_or input.block_flat y []))
                    e (written-rename_here b s) h
            | inr (c, m, below) ↦
                fill-Chain (get_or input.dom_children b []) _ u chain children_of_b
                  (forest.simple b) (omega (arith, h, length-rename_here b s)) c m below
                ∙ ap (λ ops. map plain_op ops ++ map plain_flat (get_or input.block_flat x []))
                    (rename_here_elsewhere input b x s (λ e. absurd (
                      not-IsUnder_child input rank parent forest b c m
                        (subst (IsUnder input c) e below))))
          ]

-- Where the dominator children form a forest, by parents and by ranks of which that of block 0 is
-- at most the number of blocks, renaming ends, and each block that is block 0 or under it then
-- holds its operations, once and in their order, with the locations they define and use.
pub rename_fills :
    {Op : Type 0} (input : Input Op) (rank parent : ℕ → ℕ)
    → IsForest input rank parent
    → rank 0 < suc (length input.block_flat)
    → (t : Renaming Op) × (rename input ≡ some t)
      × ((x : ℕ)
          → x < length input.block_flat
          → IsUnder input 0 x
          → written t x ≡ map plain_flat (get_or input.block_flat x []))
unfolding rename start
rename_fills input rank parent forest enough =
    let fuel = suc (length input.block_flat) in
    let (t, e) = visit_total input rank forest.ranked fuel 0 (start input) enough in
    (
      t,
      e,
      λ x h under.
          let r =
            visit_ind input (Fills input x) (fill_close input x rank parent forest) fuel 0
              (start input) t e in
          r.filled (omega (arith, h, length-start input)) under
          ∙ ap (λ ops. map plain_op ops ++ map plain_flat (get_or input.block_flat x []))
              (ops_at-start input x),
    )
