-- ===== src/Structure/Dual.antt =====
-- src/decompiler/structure/rd_model.rs: the two graphs of a function with their regions and contracts.
-- The numbers of a function fit 32 bits, so that the cost, an `i32`, does not overflow.
use windy_public.Prelude.{
  ℕ, suc, ◌+◌, ◌*◌, true, Option, none, some, List, [], ◌∷◌, if◌then◌else◌, length, get_or, ◌>>=◌,
}
use windy_public.Prelude.Int.{ℤ, sub_nat}
use windy_public.Ssa.Types.{SsaFunction}
use windy_public.Ssa.Pdom.{build_ipdom, virtual_exit}
use windy_public.Structure.Pcode.{PcodeView}
use windy_public.Structure.Effects.{
  SemanticGraph, semantic_from_ssa, presented_succ, presented_pred,
}
use windy_public.Structure.Region.{SwitchInfo}
use windy_public.Structure.Region.Classify.{Regions, has_region, classify_with_adj}
use windy_public.Structure.Contracts.{ReturnClass, ContractSet, from_regions}

pub record PresentationGraph : Type 0 where
  pub n_blocks : ℕ
  pub entry : ℕ
  pub succ : List (List ℕ)
  pub pred : List (List ℕ)
  pub virtual_exit : ℕ
  pub ipdom : List (Option ℕ)

pub record DualDecompModel : Type 0 where
  pub semantic : SemanticGraph
  pub presentation : PresentationGraph
  pub regions : Regions
  pub contracts : ContractSet

unfoldable pub ipdom_of : PresentationGraph → ℕ → Option ℕ
ipdom_of p b = get_or p.ipdom b none

-- The cost of the blocks from `i` on that have no region.
unfoldable pub edge_cost : Regions → ℕ → List (List ℕ) → ℕ
unfolding has_region
edge_cost regions i [] = 0
edge_cost regions i (ss ∷ rest) =
    let later = edge_cost regions (suc i) rest in
    let here = elim ss as (λ l. ℕ) [ [] ↦ 0 | s ∷ more ↦ elim more [ [] ↦ 1 | t ∷ ts ↦ 3 ] ] in
    if has_region regions i then later else here + later

unfoldable pub return_reward : Option ReturnClass → ℕ
return_reward none = 0
return_reward (some r) = if r.has_return then 1 else 0

unfoldable pub presentation_cost : DualDecompModel → ℤ
unfolding edge_cost return_reward
presentation_cost dual =
    let c = dual.contracts in
    sub_nat
      (edge_cost dual.regions 0 dual.presentation.succ
        + length dual.semantic.cookie_overlay
        + 2 * length dual.semantic.exception_overlay)
      (2 * length c.loops + 2 * length c.cases + return_reward c.returns)

module _ {Op : Type 0} (view : Op → PcodeView) where
  -- `PresentationGraph::from_semantic`, with the fuel of the postdominators.
  unfoldable pub from_semantic : ℕ → SsaFunction Op → SemanticGraph → Option PresentationGraph
  unfolding presented_succ presented_pred build_ipdom virtual_exit
  from_semantic fuel ssa sem = do
    let succ = presented_succ view ssa sem
    let pred = presented_pred succ
    ipdom ← build_ipdom fuel succ pred
    some record {
      n_blocks = sem.n_blocks;
      entry = sem.entry;
      succ = succ;
      pred = pred;
      virtual_exit = virtual_exit sem.n_blocks;
      ipdom = ipdom;
    }

  -- `DualDecompModel::build`; `keys` is the order in which the map of the regions gives its keys.
  unfoldable pub build_dual : ℕ → SsaFunction Op → List SwitchInfo → List ℕ → Option DualDecompModel
  unfolding semantic_from_ssa from_semantic classify_with_adj from_regions
  build_dual fuel ssa switches keys = do
    let semantic = semantic_from_ssa view ssa
    presentation ← from_semantic fuel ssa semantic
    regions ← classify_with_adj view fuel ssa switches presentation.succ presentation.pred true
    some record {
      semantic = semantic;
      presentation = presentation;
      regions = regions;
      contracts = from_regions view ssa keys regions;
    }
