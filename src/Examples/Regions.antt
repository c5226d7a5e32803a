-- ===== src/Examples/Regions.antt =====
-- Tests and examples for the structuring. An operation is what the structuring reads of it.
use windy_public.Prelude.{
  ℕ, ◌+◌, ◌*◌, ◌≡◌, ◌↔◌, refl, true, false, Option, none, some, List, [], ◌∷◌, map, if◌then◌else◌,
}
use windy_public.Prelude.Int.{pos}
use windy_public.Ssa.NodeSet.{elem}
use windy_public.Ssa.Types.{SsaOp, pcode, SsaBlock, SsaFunction}
use windy_public.Ssa.Cfg.{build_idom}
use windy_public.Ssa.Pdom.{build_ipdom}
use windy_public.Structure.Pcode.{PcodeView, branch, cbranch, return_to, store, load, cbranch_arms}
use windy_public.Structure.Walk.{reach, walk, count_edges, all_but, natural_loop_nodes, can_reach}
use windy_public.Structure.Walk.Paths.{Reached, reach_lem}
use windy_public.Structure.Jumps.{presentation_successors}
use windy_public.Structure.Region.{Region, if_else, if_then, while_loop, arm_empty, reaches_latch}
use windy_public.Structure.Region.Classify.{Regions, arms_at, classify, classify_regions}
use windy_public.Structure.Region.ShortCircuit.{
  ShortCircuit, and_op, detect_short_circuit, entered_on, printed, runs_to,
  detect_short_circuit_lem,
}
use windy_public.Structure.Effects.{semantic_from_ssa}
use windy_public.Structure.Contracts.{while_kind, xor_class, ContractSet}
use windy_public.Structure.Contracts.Validate.{
  loop_header_oob, wrong_return_class_xor, incomplete_case_partition, validate_against_semantic,
  sanitize_contracts,
}
use windy_public.Structure.Contracts.Sanitized.{validate-sanitize_contracts}
use windy_public.Structure.Dual.{DualDecompModel, build_dual}
use windy_public.Structure.Moves.{
  RewriteMove, invert_branch, early_return_extract, RewriteOutcome, applied, rejected, apply_each,
}

reading : PcodeView → PcodeView
reading o = o

abbrev step : ℕ → PcodeView → SsaOp PcodeView
step va o = record { va = va; kind = pcode o; def = none; uses = [] }

abbrev block_of : ℕ → List PcodeView → List ℕ → List ℕ → SsaBlock PcodeView
block_of i os before after = record {
  id = i;
  entry_va = 4096 + 16 * i;
  ops = map (step (4096 + 16 * i)) os;
  predecessor_ids = before;
  successor_ids = after;
}

abbrev function_of : List (SsaBlock PcodeView) → SsaFunction PcodeView
function_of blocks = record { entry_va = 4096; bitness = 64; blocks = blocks; image_base = 0 }

-- A branch, a store on one arm, a return on the other, and a return where they would meet.
abbrev diamond : List (SsaBlock PcodeView)
diamond =
    block_of 0 (cbranch ∷ []) [] (2 ∷ 1 ∷ [])
    ∷ block_of 1 (store ∷ []) (0 ∷ []) (3 ∷ [])
    ∷ block_of 2 (load ∷ []) (0 ∷ []) (3 ∷ [])
    ∷ block_of 3 (return_to ∷ []) (1 ∷ 2 ∷ []) []
    ∷ []

abbrev diamond_succ : List (List ℕ)
diamond_succ = (2 ∷ 1 ∷ []) ∷ (3 ∷ []) ∷ (3 ∷ []) ∷ [] ∷ []

reach_lem_example :
    (r : List ℕ) × (reach 1 3 diamond_succ ≡ some r)
    × ((z : ℕ) → (elem z r ≡ true) ↔ Reached diamond_succ 1 3 z)
reach_lem_example = reach_lem diamond_succ 1 3

reach_stops : reach 1 3 diamond_succ ≡ some (1 ∷ [])
unfolding reach walk count_edges all_but
reach_stops = refl

abbrev inverted : List (RewriteMove × RewriteOutcome)
inverted =
    (early_return_extract 0, rejected "no_pure_return_arm")
    ∷ (invert_branch 0, applied (pos 1) (pos 0))
    ∷ []

moved_at : Option Regions → ℕ → Option Region
moved_at none b = none
moved_at (some regions) b =
    apply_each (semantic_from_ssa reading (function_of diamond)) inverted regions b

inverted_region :
    moved_at (classify reading 40 (function_of diamond) []) 0 ≡ some (if_else 2 1 3 true)
unfolding moved_at classify reading apply_each semantic_from_ssa build_ipdom build_idom
    classify_regions arm_empty reach walk count_edges all_but natural_loop_nodes reaches_latch
    can_reach
inverted_region = refl

region_at : Option Regions → ℕ → Option Region
region_at none b = none
region_at (some regions) b = regions b

diamond_region :
    region_at (classify reading 40 (function_of diamond) []) 0 ≡ some (if_else 1 2 3 false)
unfolding region_at classify reading build_ipdom build_idom classify_regions arm_empty reach walk
    count_edges all_but natural_loop_nodes reaches_latch can_reach
diamond_region = refl

-- The empty arm of the presented graph is gone: what is left is an if without an else.
abbrev forwarding : List (SsaBlock PcodeView)
forwarding =
    block_of 0 (cbranch ∷ []) [] (2 ∷ 1 ∷ [])
    ∷ block_of 1 (store ∷ []) (0 ∷ []) (3 ∷ [])
    ∷ block_of 2 (branch ∷ []) (0 ∷ []) (3 ∷ [])
    ∷ block_of 3 (return_to ∷ []) (1 ∷ 2 ∷ []) []
    ∷ []

forwarding_successors :
    presentation_successors reading (function_of forwarding)
    ≡ (1 ∷ 3 ∷ []) ∷ (3 ∷ []) ∷ (3 ∷ []) ∷ [] ∷ []
unfolding presentation_successors reading
forwarding_successors = refl

dual_region : Option DualDecompModel → ℕ → Option Region
dual_region none b = none
dual_region (some dual) b = dual.regions b

forwarding_region :
    dual_region (build_dual reading 40 (function_of forwarding) [] (0 ∷ 3 ∷ [])) 0
    ≡ some (if_then 1 3 false)
unfolding dual_region build_dual reading build_ipdom build_idom classify_regions arm_empty reach
    walk count_edges all_but natural_loop_nodes reaches_latch can_reach
forwarding_region = refl

-- A loop whose header leaves it on a true condition.
abbrev looping : List (SsaBlock PcodeView)
looping =
    block_of 0 (branch ∷ []) [] (1 ∷ [])
    ∷ block_of 1 (cbranch ∷ []) (0 ∷ 2 ∷ []) (2 ∷ 3 ∷ [])
    ∷ block_of 2 (store ∷ []) (1 ∷ []) (1 ∷ [])
    ∷ block_of 3 (return_to ∷ []) (1 ∷ []) []
    ∷ []

looping_region : region_at (classify reading 40 (function_of looping) []) 1 ≡ some (while_loop 2 3)
unfolding region_at classify reading build_ipdom build_idom classify_regions arm_empty reach walk
    count_edges all_but natural_loop_nodes reaches_latch can_reach
looping_region = refl

-- The blocks of the test of emit.rs: both branches take block 3, and block 2 is printed under `&&`.
abbrev chained : List (SsaBlock PcodeView)
chained =
    block_of 0 (cbranch ∷ []) [] (1 ∷ 3 ∷ [])
    ∷ block_of 1 (cbranch ∷ []) (0 ∷ []) (2 ∷ 3 ∷ [])
    ∷ block_of 2 (store ∷ []) (1 ∷ []) (4 ∷ [])
    ∷ block_of 3 (load ∷ []) (0 ∷ 1 ∷ []) (4 ∷ [])
    ∷ block_of 4 (return_to ∷ []) (2 ∷ 3 ∷ []) []
    ∷ []

abbrev chained_first : SsaBlock PcodeView
chained_first = block_of 0 (cbranch ∷ []) [] (1 ∷ 3 ∷ [])

abbrev chained_pair : ShortCircuit
chained_pair = record { op = and_op; second = 1; shared = 3; true_target = 2 }

chained_found : detect_short_circuit reading chained_first chained ≡ some chained_pair
unfolding detect_short_circuit reading
chained_found = refl

detect_short_circuit_lem_example :
    runs_to (arms_at reading chained) 1 (cbranch_arms reading chained_first) true true
    ≡ some (if entered_on and_op true true then 2 else 3)
detect_short_circuit_lem_example =
    detect_short_circuit_lem reading chained_first chained chained_pair true true chained_found

-- With both conditions true the body is printed as running, and control goes past it.
chained_printed : printed and_op true true ≡ true
unfolding printed
chained_printed = refl

chained_entered : entered_on and_op true true ≡ false
unfolding entered_on
chained_entered = refl

abbrev doubtful : ContractSet
doubtful = record {
  loops = record { header = 9; body_entry = 1; exit = 3; kind = while_kind } ∷ [];
  returns = some record { class_tag = xor_class; has_return = true };
  cases =
      record { switch_block = 0; case_values = []; merge = 3 }
      ∷ record { switch_block = 0; case_values = pos 1 ∷ []; merge = 3 }
      ∷ [];
}

doubtful_issues :
    validate_against_semantic reading doubtful
      (semantic_from_ssa reading (function_of diamond))
      (function_of diamond)
    ≡ loop_header_oob ∷ wrong_return_class_xor ∷ incomplete_case_partition ∷ []
unfolding validate_against_semantic semantic_from_ssa reading
doubtful_issues = refl

validate-sanitize_contracts_example :
    validate_against_semantic reading
      (sanitize_contracts reading
        (semantic_from_ssa reading (function_of diamond))
        (function_of diamond)
        doubtful)
      (semantic_from_ssa reading (function_of diamond))
      (function_of diamond)
    ≡ []
validate-sanitize_contracts_example =
    validate-sanitize_contracts reading (semantic_from_ssa reading (function_of diamond))
      (function_of diamond) doubtful
