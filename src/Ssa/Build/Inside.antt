-- ===== src/Ssa/Build/Inside.antt =====
-- The blocks that src/decompiler/ssa/mod.rs assembles lead to one another, and are structured as they
-- branch.
use windy_public.Prelude.{
  ℕ, suc, ◌+◌, ◌<◌, ◌≡◌, refl, sym, ap, subst, ◌∙◌, inl, inr, true, Bool-cases, Option-cases,
  Option, none, some, List, [], ◌∷◌, ◌++◌, ◌==◌, length, arith, length-map, map,
}
use windy_public.Ssa.NodeSet.{elem}
use windy_public.Ssa.Types.{PhiNode, SsaOp, SsaFunction}
use windy_public.Ssa.Cfg.Frontier.{AllBelow}
use windy_public.Ssa.Build.{
  BasicBlock, Function, block_index, push_new, neighbours, assemble_from, assemble,
}
use windy_public.Structure.Pcode.{PcodeView}
use windy_public.Structure.Jumps.Bounds.{AllInside}
use windy_public.Structure.Effects.{semantic_from_ssa, presented, presented_succ, presented_pred}
use windy_public.Structure.Region.{SwitchInfo}
use windy_public.Structure.Region.Classify.{Regions, classify_regions}
use windy_public.Structure.Region.Follow.{IsFaithful}
use windy_public.Structure.Moves.{RewriteMove, RewriteOutcome, apply_each}
use windy_public.Structure.Moves.Kept.{apply_each-classify_regions}

block_index-lt :
    (i va j : ℕ) (blocks : List BasicBlock)
    → block_index i blocks va ≡ some j
    → j < i + length blocks
unfolding block_index
block_index-lt i va j [] h = absurd (cc h)
block_index-lt i va j (block ∷ rest) h = elim (Option-cases (block_index (suc i) rest va)) [
  | inl n ↦ ground (arith, (rw (block_index, n) at h))
  | inr (k, n) ↦ ground (arith, block_index-lt (suc i) va k rest n, (rw (block_index, n) at h))
]

AllBelow-snoc : (n j : ℕ) (xs : List ℕ) → AllBelow n xs → j < n → AllBelow n (xs ++ j ∷ [])
AllBelow-snoc n j [] h k = (k, tt)
AllBelow-snoc n j (x ∷ xs) h k = (h.0, AllBelow-snoc n j xs h.1 k)

AllBelow-push_new :
    (n : ℕ) (o : Option ℕ) (found : List ℕ)
    → AllBelow n found
    → ((j : ℕ) → o ≡ some j → j < n)
    → AllBelow n (push_new o found)
unfolding push_new
AllBelow-push_new n none found h k = h
AllBelow-push_new n (some j) found h k = elim (Bool-cases (elem j found)) [
  | inl e ↦ rw (push_new, e) h
  | inr e ↦ rw (push_new, e) (AllBelow-snoc n j found h (k j refl))
]

AllBelow-neighbours :
    (blocks : List BasicBlock) (targets found : List ℕ)
    → AllBelow (length blocks) found
    → AllBelow (length blocks) (neighbours blocks targets found)
unfolding neighbours
AllBelow-neighbours blocks [] found h = h
AllBelow-neighbours blocks (t ∷ targets) found h = elim (Bool-cases (t == 0)) [
  | inl e ↦ rw (neighbours, e) (AllBelow-neighbours blocks targets found h)
  | inr e ↦
      rw (neighbours, e)
        (AllBelow-neighbours blocks targets (push_new (block_index 0 blocks t) found) (
          AllBelow-push_new (length blocks) (block_index 0 blocks t) found h
            (λ j at. omega (arith, block_index-lt 0 t j blocks at))))
]

module _ {Op : Type 0} (phis : List (List PhiNode)) (pcode_ops : List (List (SsaOp Op))) where
  AllInside-assemble_from :
      (blocks : List BasicBlock) (i : ℕ) (rest : List BasicBlock)
      → AllInside (length blocks) (assemble_from blocks phis pcode_ops i rest)
  unfolding assemble_from
  AllInside-assemble_from blocks i [] = tt
  AllInside-assemble_from blocks i (block ∷ rest) = (
    AllBelow-neighbours blocks block.successors [] tt,
    AllInside-assemble_from blocks (suc i) rest,
  )

  length-assemble_from :
      (blocks : List BasicBlock) (i : ℕ) (rest : List BasicBlock)
      → length (assemble_from blocks phis pcode_ops i rest) ≡ length rest
  unfolding assemble_from
  length-assemble_from blocks i [] = refl
  length-assemble_from blocks i (block ∷ rest) = ap suc (length-assemble_from blocks (suc i) rest)

-- The successors that are presented for a function.
abbrev pub shown : {Op : Type 0} → (Op → PcodeView) → SsaFunction Op → List (List ℕ)
shown view ssa = presented_succ view ssa (semantic_from_ssa view ssa)

length-shown :
    {Op : Type 0} (view : Op → PcodeView) (ssa : SsaFunction Op)
    → length (shown view ssa) ≡ length ssa.blocks
unfolding presented_succ semantic_from_ssa
length-shown view ssa =
    length-map (map (λ b. b.successor_ids) ssa.blocks)
      (presented view ssa (semantic_from_ssa view ssa))
    ∙ length-map ssa.blocks (λ b. b.successor_ids)

module _ {Op : Type 0} (view : Op → PcodeView) (func : Function) (bitness image_base : ℕ)
    (phis : List (List PhiNode)) (pcode_ops : List (List (SsaOp Op))) where
  abbrev built : SsaFunction Op
  built = assemble func bitness image_base phis pcode_ops

  built-AllInside : AllInside (length built.blocks) built.blocks
  unfolding assemble
  built-AllInside =
      subst (λ n. AllInside n built.blocks)
        (sym (length-assemble_from phis pcode_ops func.blocks 0 func.blocks))
        (AllInside-assemble_from phis pcode_ops func.blocks 0 func.blocks)

  -- Whatever blocks and operations a function is assembled from, classifying its regions on the graph that
  -- is presented ends, with any tables of dominators, and after any moves on the regions, a region of a
  -- branch sends control where the branch of its block does, jump-only blocks left out, and a block without
  -- a region goes to one block whatever its condition.
  pub IsFaithful-assemble :
      (switches : List SwitchInfo) (ipdom idom : List (Option ℕ))
      (selected : List (RewriteMove × RewriteOutcome))
      → (regions : Regions) × (classify_regions view built.blocks
            (shown view built)
            (presented_pred (shown view built))
            true
            switches
            ipdom
            idom
          ≡ some regions)
        × IsFaithful view built.blocks true
            (apply_each (semantic_from_ssa view built) selected regions)
  IsFaithful-assemble switches ipdom idom selected =
      apply_each-classify_regions view built.blocks (shown view built)
        (presented_pred (shown view built)) true (length-shown view built) built-AllInside switches
        ipdom idom (semantic_from_ssa view built) selected
