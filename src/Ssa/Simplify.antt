-- ===== src/Ssa/Simplify.antt =====
-- src/decompiler/ssa/simplify.rs, pass 4 and the whole: what is live, and the blocks that are left.
pub mod Effects
pub mod Live
pub mod Marks
pub mod Whole
use windy_public.Prelude.{
  ℕ, zero, suc, ◌+◌, ◌-◌, Bool, true, false, ◌&&◌, ◌||◌, not, Option, none, some, List, [], ◌∷◌,
  ◌++◌, if◌then◌else◌, ◌==◌, length,
}
use windy_public.KeyMap.{KeyMap, empty}
use windy_public.Ssa.Types.{
  Location, register, SsaVar, var_beq, PhiNode, SsaOpKind, phi, pcode, SsaOp, SsaBlock, SsaFunction,
}
use windy_public.Ssa.NodeSet.{elem, insert, remove}
use windy_public.Ssa.Cfg.{Run, done, out_of_bounds, out_of_fuel, idf_loop}
use windy_public.Ssa.Alias.{
  OpView, copy_constant, copy_storage, returns, effect, computes, Aliases, SsaAnalysis, no_analysis,
  find_alias, index_defs, find_aliases, repoint, view_of,
}

unfoldable pub report : ℕ → ℕ → SsaAnalysis → SsaAnalysis
report before after a = record a {
  op_count_after = after;
  dead_ops_removed = (before - after) - a.copies_propagated - a.phis_collapsed;
}

unfoldable pub is_effect_view : OpView → Bool
is_effect_view returns = true
is_effect_view effect = true
is_effect_view _ = false

unfoldable pub is_copy_view : OpView → Bool
is_copy_view (copy_constant a b) = true
is_copy_view copy_storage = true
is_copy_view _ = false

unfoldable pub is_return_view : OpView → Bool
is_return_view returns = true
is_return_view _ = false

-- `Location::Register { base_offset: 0 }`
unfoldable pub is_rax : Location → Bool
is_rax (register zero) = true
is_rax _ = false

-- `if live.insert(i) { stack.push(i) }`
unfoldable pub mark : ℕ → List ℕ × List ℕ → List ℕ × List ℕ
unfolding elem insert
mark i (live, stack) = if elem i live then (live, stack) else (insert i live, i ∷ stack)

unfoldable pub mark_def : Option ℕ → List ℕ × List ℕ → List ℕ × List ℕ
unfolding mark
mark_def none marks = marks
mark_def (some i) marks = mark i marks

-- The root of the alias of a definition of RAX, unless it is the definition or another one of RAX.
unfoldable pub mark_root : KeyMap SsaVar ℕ → SsaVar → SsaVar → List ℕ × List ℕ → List ℕ × List ℕ
unfolding mark_def is_rax var_beq
mark_root defs d root marks =
    if var_beq root d || is_rax root.location then marks else mark_def (defs root) marks

-- One definition that may be the value a function returns: of RAX itself, and the root of its alias.
unfoldable pub rax_step :
    KeyMap SsaVar ℕ → ℕ → Option SsaVar → Aliases → List ℕ × List ℕ → (List ℕ × List ℕ) × Aliases
unfolding is_rax mark_root mark find_alias
rax_step defs i none s marks = (marks, s)
rax_step defs i (some d) s marks =
    let root = find_alias s d in
    if is_rax d.location then (mark_root defs d root.0 (mark i marks), root.1) else (marks, s)

-- The indices of the definitions of what is used.
unfoldable pub defs_of_uses : KeyMap SsaVar ℕ → List SsaVar → List ℕ
defs_of_uses defs [] = []
defs_of_uses defs (u ∷ us) =
    let rest = defs_of_uses defs us in elim (defs u) [ none ↦ rest | some i ↦ i ∷ rest ]

unfoldable pub some_args : List (Option SsaVar) → List SsaVar
some_args [] = []
some_args (none ∷ args) = some_args args
some_args (some v ∷ args) = v ∷ some_args args

unfoldable pub has_var : SsaVar → List SsaVar → Bool
unfolding var_beq
has_var v [] = false
has_var v (w ∷ ws) = var_beq w v || has_var v ws

module _ {Op : Type 0} where
  unfoldable pub args_of_kind : SsaOpKind Op → List SsaVar
  unfolding some_args
  args_of_kind (phi p) = some_args p.args
  args_of_kind (pcode o) = []

  -- For each operation, the indices of the definitions of its uses and its arguments.
  unfoldable pub needs : KeyMap SsaVar ℕ → List (ℕ × SsaOp Op) → List (List ℕ)
  unfolding defs_of_uses args_of_kind
  needs defs [] = []
  needs defs ((b, op) ∷ rest) =
      defs_of_uses defs (op.uses ++ args_of_kind op.kind) ∷ needs defs rest

  -- `work` and `block_of`, for the blocks from `b` on.
  unfoldable pub tag : ℕ → List (SsaOp Op) → List (ℕ × SsaOp Op)
  tag b [] = []
  tag b (op ∷ ops) = (b, op) ∷ tag b ops

  unfoldable pub flatten_blocks : ℕ → List (SsaBlock Op) → List (ℕ × SsaOp Op)
  unfolding tag
  flatten_blocks b [] = []
  flatten_blocks b (block ∷ blocks) = tag b block.ops ++ flatten_blocks (suc b) blocks

  -- The live operations of block `b`; `i` is the index of the first one.
  unfoldable pub keep_live : ℕ → ℕ → List ℕ → List (ℕ × SsaOp Op) → List (SsaOp Op)
  unfolding elem
  keep_live b i live [] = []
  keep_live b i live ((c, op) ∷ rest) =
      let kept = keep_live b (suc i) live rest in if c == b && elem i live then op ∷ kept else kept

  unfoldable pub rebuild :
      ℕ → List ℕ → List (ℕ × SsaOp Op) → List (SsaBlock Op) → List (SsaBlock Op)
  unfolding keep_live
  rebuild b live work [] = []
  rebuild b live work (block ∷ blocks) =
      record block { id = b; ops = keep_live b 0 live work } ∷ rebuild (suc b) live work blocks

  unfoldable pub count_ops : List (SsaBlock Op) → ℕ
  count_ops [] = 0
  count_ops (block ∷ blocks) = length block.ops + count_ops blocks

  unfoldable pub seed_rax :
      KeyMap SsaVar ℕ
      → ℕ
      → List (ℕ × SsaOp Op)
      → Aliases
      → List ℕ × List ℕ
      → (List ℕ × List ℕ) × Aliases
  unfolding rax_step
  seed_rax defs i [] s marks = (marks, s)
  seed_rax defs i ((b, op) ∷ rest) s marks =
      let r = rax_step defs i op.def s marks in seed_rax defs (suc i) rest r.1 r.0

  unfoldable pub drop_def : ℕ → SsaOp Op → Option SsaVar → Aliases → List ℕ → List ℕ × Aliases
  unfolding find_alias has_var args_of_kind remove
  drop_def i op none s live = (live, s)
  drop_def i op (some d) s live =
      let root = find_alias s d in
      (
        if has_var root.0 op.uses || has_var root.0 (args_of_kind op.kind)
            then remove i live
            else live,
        root.1,
      )

  module _ (view : Op → OpView) where
    unfoldable pub is_side_effect : SsaOp Op → Bool
    unfolding is_effect_view view_of
    is_side_effect op = is_effect_view (view_of view op.kind)

    unfoldable pub seed_effects : ℕ → List (ℕ × SsaOp Op) → List ℕ × List ℕ → List ℕ × List ℕ
    unfolding is_side_effect mark
    seed_effects i [] marks = marks
    seed_effects i ((b, op) ∷ rest) marks =
        seed_effects (suc i) rest (if is_side_effect op then mark i marks else marks)

    unfoldable pub has_return : List (ℕ × SsaOp Op) → Bool
    unfolding is_return_view view_of
    has_return [] = false
    has_return ((b, op) ∷ rest) = is_return_view (view_of view op.kind) || has_return rest

    -- An operation that uses what it defines, copies and side effects apart, is taken out.
    unfoldable pub drop_step : ℕ → SsaOp Op → Aliases → List ℕ → List ℕ × Aliases
    unfolding is_side_effect is_copy_view view_of drop_def
    drop_step i op s live =
        if is_side_effect op || is_copy_view (view_of view op.kind)
        then (live, s)
        else drop_def i op op.def s live

    unfoldable pub drop_self_uses : ℕ → List (ℕ × SsaOp Op) → Aliases → List ℕ → List ℕ × Aliases
    unfolding drop_step
    drop_self_uses i [] s live = (live, s)
    drop_self_uses i ((b, op) ∷ rest) s live =
        let r = drop_step i op s live in drop_self_uses (suc i) rest r.1 r.0

    -- The marks before the worklist of pass 4 runs, and the aliases after it.
    unfoldable pub seed_live :
        KeyMap SsaVar ℕ → List (ℕ × SsaOp Op) → Aliases → (List ℕ × List ℕ) × Aliases
    unfolding seed_effects has_return seed_rax
    seed_live defs work s =
        let effects = seed_effects 0 work ([], []) in
        if has_return work then seed_rax defs 0 work s effects else (effects, s)

    -- `simplify`. The worklist takes an index once, so it has at most one round for each operation.
    unfoldable pub simplify : SsaFunction Op → Run (SsaFunction Op × SsaAnalysis)
    unfolding flatten_blocks index_defs find_aliases repoint seed_live needs idf_loop drop_self_uses
        rebuild count_ops report
    simplify ssa =
        let flat = flatten_blocks 0 ssa.blocks in
        let defs = index_defs 0 flat empty in
        let before = count_ops ssa.blocks in
        let pointed = repoint flat (find_aliases view defs flat before) in
        let seeds = seed_live defs pointed.0 pointed.1 in
        let stack = seeds.0.1 in
        elim (idf_loop (suc (length flat + length stack)) (needs defs pointed.0) seeds.0.0 stack) [
          | out_of_bounds ↦ out_of_bounds
          | out_of_fuel ↦ out_of_fuel
          | done live ↦
              let left = drop_self_uses 0 pointed.0 seeds.1 live in
              let blocks = rebuild 0 left.0 pointed.0 ssa.blocks in
              done
                (record ssa { blocks = blocks }, report before (count_ops blocks) left.1.analysis)
        ]
