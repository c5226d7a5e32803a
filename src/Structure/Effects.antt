-- ===== src/Structure/Effects.antt =====
-- src/decompiler/structure/rd_model.rs: the effects of the blocks, and the graph that is presented.
use windy_public.Prelude.{
  ℕ, suc, Bool, true, false, ◌&&◌, ◌||◌, not, Option, none, some, List, [], ◌∷◌, ◌++◌, map,
  if◌then◌else◌, ltb, leb, ◌==◌, length, get_or, set, replicate,
}
use windy_public.Ssa.NodeSet.{elem}
use windy_public.Ssa.Types.{SsaOp, SsaBlock, SsaFunction, phi, pcode}
use windy_public.Structure.Pcode.{
  PcodeView, call, call_ind, store, load, return_to, int_xor, any_op, is_branch_ind,
}
use windy_public.Structure.Jumps.{resolve_jump_target, sorted_set}

pub data EffectKind : Type 0 where
  call_effect : Option ℕ → EffectKind
  store_effect return_effect throwish volatile_access barrier : EffectKind

pub record Effect : Type 0 where
  pub block : ℕ
  pub kind : EffectKind

pub record SemanticGraph : Type 0 where
  pub n_blocks : ℕ
  pub entry : ℕ
  pub succ : List (List ℕ)
  pub pred : List (List ℕ)
  pub effects : List (ℕ × List Effect)
  pub cookie_overlay : List ℕ
  pub exception_overlay : List ℕ

unfoldable pub effect_of : PcodeView → Option EffectKind
effect_of call = some (call_effect none)
effect_of call_ind = some (call_effect none)
effect_of store = some store_effect
effect_of return_to = some return_effect
effect_of _ = none

unfoldable pub is_xor_view : PcodeView → Bool
is_xor_view int_xor = true
is_xor_view _ = false

unfoldable pub is_call_view : PcodeView → Bool
is_call_view call = true
is_call_view call_ind = true
is_call_view _ = false

unfoldable pub is_memory_view : PcodeView → Bool
is_memory_view load = true
is_memory_view store = true
is_memory_view _ = false

-- `BTreeMap::get`
unfoldable pub effects_at : List (ℕ × List Effect) → ℕ → List Effect
effects_at [] b = []
effects_at ((i, list) ∷ rest) b = let later = effects_at rest b in if i == b then list else later

unfoldable pub block_effect_kinds : SemanticGraph → ℕ → List EffectKind
unfolding effects_at
block_effect_kinds sem b = map (λ e. e.kind) (effects_at sem.effects b)

unfoldable pub is_overlay : SemanticGraph → ℕ → Bool
unfolding elem
is_overlay sem b = elem b sem.cookie_overlay || elem b sem.exception_overlay

unfoldable pub push_effect : ℕ → Option EffectKind → List Effect → List Effect
push_effect b none list = list
push_effect b (some k) list = record { block = b; kind = k } ∷ list

module _ {Op : Type 0} (view : Op → PcodeView) where
  unfoldable pub effects_of : ℕ → List (SsaOp Op) → List Effect
  unfolding push_effect effect_of
  effects_of b [] = []
  effects_of b (op ∷ ops) =
      let later = effects_of b ops in
      elim op.kind [ phi p ↦ later | pcode o ↦ push_effect b (effect_of (view o)) later ]

  -- The blocks with an effect, from block `i` on.
  unfoldable pub effects_from : ℕ → List (SsaBlock Op) → List (ℕ × List Effect)
  unfolding effects_of
  effects_from i [] = []
  effects_from i (block ∷ rest) = elim (effects_of i block.ops) [
    | [] ↦ effects_from (suc i) rest
    | e ∷ es ↦ (i, e ∷ es) ∷ effects_from (suc i) rest
  ]

  unfoldable pub is_cookie_scaffold_block : SsaBlock Op → Bool
  unfolding any_op is_xor_view is_call_view is_memory_view
  is_cookie_scaffold_block block =
      not (any_op view is_call_view block.ops)
      && (any_op view is_xor_view block.ops
          && (any_op view is_memory_view block.ops && leb (length block.ops) 12))

  unfoldable pub is_exception_scaffold_block : SsaBlock Op → Bool
  unfolding is_branch_ind
  is_exception_scaffold_block block = is_branch_ind view block && leb 4 (length block.successor_ids)

  -- The blocks from `i` on that pass a test.
  unfoldable pub blocks_where : (SsaBlock Op → Bool) → ℕ → List (SsaBlock Op) → List ℕ
  blocks_where test i [] = []
  blocks_where test i (block ∷ rest) =
      let later = blocks_where test (suc i) rest in if test block then i ∷ later else later

  -- `SemanticGraph::from_ssa`
  unfoldable pub semantic_from_ssa : SsaFunction Op → SemanticGraph
  unfolding effects_from blocks_where is_cookie_scaffold_block is_exception_scaffold_block
  semantic_from_ssa ssa = record {
    n_blocks = length ssa.blocks;
    entry = 0;
    succ = map (λ b. b.successor_ids) ssa.blocks;
    pred = map (λ b. b.predecessor_ids) ssa.blocks;
    effects = effects_from 0 ssa.blocks;
    cookie_overlay = blocks_where is_cookie_scaffold_block 0 ssa.blocks;
    exception_overlay = blocks_where is_exception_scaffold_block 0 ssa.blocks;
  }

  -- The successors of a block that are kept: those on a cookie overlay are not if there are others.
  unfoldable pub keep_ordinary : Bool → SemanticGraph → List ℕ → List ℕ
  unfolding elem
  keep_ordinary several sem [] = []
  keep_ordinary several sem (s ∷ ss) =
      let rest = keep_ordinary several sem ss in
      if elem s sem.cookie_overlay && several then rest else s ∷ rest

  unfoldable pub presented : SsaFunction Op → SemanticGraph → List ℕ → List ℕ
  unfolding resolve_jump_target keep_ordinary sorted_set
  presented ssa sem raw =
      let resolved = map (λ s. resolve_jump_target view ssa.blocks s 16) raw in
      sorted_set (elim (keep_ordinary (ltb 1 (length raw)) sem resolved) as (λ k. List ℕ) [
        | [] ↦ resolved
        | s ∷ ss ↦ s ∷ ss
      ])

  unfoldable pub presented_succ : SsaFunction Op → SemanticGraph → List (List ℕ)
  unfolding presented
  presented_succ ssa sem = map (presented ssa sem) sem.succ

-- `pred[s].push(i)` for the successors of a block that are in range.
unfoldable pub push_preds : ℕ → List ℕ → List (List ℕ) → List (List ℕ)
push_preds i [] pred = pred
push_preds i (s ∷ ss) pred =
    push_preds i ss (if ltb s (length pred) then set pred s (get_or pred s [] ++ i ∷ []) else pred)

unfoldable pub preds_from : ℕ → List (List ℕ) → List (List ℕ) → List (List ℕ)
unfolding push_preds
preds_from i [] pred = pred
preds_from i (ss ∷ rest) pred = preds_from (suc i) rest (push_preds i ss pred)

unfoldable pub presented_pred : List (List ℕ) → List (List ℕ)
unfolding preds_from sorted_set
presented_pred succ = map sorted_set (preds_from 0 succ (replicate (length succ) []))
