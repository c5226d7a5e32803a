-- ===== src/Structure/Moves.antt =====
-- src/decompiler/structure/rewrite.rs: moves on the regions, their check, selection and application.
pub mod Kept
use windy_public.Prelude.{
  ℕ, zero, suc, ◌+◌, Bool, true, false, ◌&&◌, ◌||◌, not, Option, none, some, List, [], ◌∷◌, ◌++◌,
  if◌then◌else◌, ltb, ◌==◌, length, nat_eq, String,
}
use windy_public.Prelude.Int.{ℤ, pos, negsuc, ltb_ℤ, ◌+ℤ◌}
use windy_public.KeyMap.{insert}
use windy_public.Ssa.Types.{SsaFunction}
use windy_public.Structure.Pcode.{PcodeView}
use windy_public.Structure.Effects.{
  EffectKind, call_effect, store_effect, return_effect, throwish, volatile_access, barrier,
  SemanticGraph, block_effect_kinds,
}
use windy_public.Structure.Region.{
  Region, if_else, if_then, if_then_fallthrough, while_loop, do_while,
}
use windy_public.Structure.Region.Classify.{Regions}
use windy_public.Structure.Contracts.{from_regions}
use windy_public.Structure.Dual.{DualDecompModel, presentation_cost}

pub data RewriteMove : Type 0 where
  invert_branch early_return_extract factor_pure_shared_tail duplicate_pure_block : ℕ → RewriteMove

pub data RewriteOutcome : Type 0 where
  applied : ℤ → ℤ → RewriteOutcome
  rejected : String → RewriteOutcome

pub data CheckResult : Type 0 where
  accept : CheckResult
  reject : String → CheckResult

unfoldable pub moves_of : ℕ → Region → List RewriteMove
moves_of b (if_else t e m i) = invert_branch b ∷ early_return_extract b ∷ []
moves_of b (if_then body merge i) = factor_pure_shared_tail merge ∷ []
moves_of b (while_loop body exit) = duplicate_pure_block body ∷ []
moves_of b (do_while body cond exit) = duplicate_pure_block body ∷ []
moves_of b _ = []

-- The moves for the regions, in the order in which the map gives its keys.
unfoldable pub propose_moves : Regions → List ℕ → List RewriteMove
unfolding moves_of
propose_moves regions [] = []
propose_moves regions (b ∷ keys) = elim (regions b) [
  | none ↦ propose_moves regions keys
  | some r ↦ moves_of b r ++ propose_moves regions keys
]

unfoldable pub is_return_effect : EffectKind → Bool
is_return_effect return_effect = true
is_return_effect _ = false

unfoldable pub all_effects : (EffectKind → Bool) → List EffectKind → Bool
all_effects test [] = true
all_effects test (k ∷ ks) = test k && all_effects test ks

unfoldable pub is_pure_return_arm : List EffectKind → Bool
unfolding is_return_effect all_effects
is_pure_return_arm [] = false
is_pure_return_arm (k ∷ ks) = all_effects is_return_effect (k ∷ ks)

unfoldable pub is_critical : EffectKind → Bool
is_critical volatile_access = false
is_critical _ = true

unfoldable pub critical_effects : List EffectKind → List EffectKind
unfolding is_critical
critical_effects [] = []
critical_effects (k ∷ ks) =
    let rest = critical_effects ks in if is_critical k then k ∷ rest else rest

-- A number for the text of an effect, another one for another text.
unfoldable pub effect_code : EffectKind → ℕ
effect_code barrier = 0
effect_code return_effect = 1
effect_code store_effect = 2
effect_code throwish = 3
effect_code volatile_access = 4
effect_code (call_effect none) = 5
effect_code (call_effect (some target)) = 6 + target

unfoldable pub insert_code : ℕ → List ℕ → List ℕ
insert_code c [] = c ∷ []
insert_code c (d ∷ ds) = let rest = insert_code c ds in if ltb d c then d ∷ rest else c ∷ d ∷ ds

-- The texts of effects, sorted.
unfoldable pub sorted_codes : List EffectKind → List ℕ
unfolding effect_code insert_code
sorted_codes [] = []
sorted_codes (k ∷ ks) = insert_code (effect_code k) (sorted_codes ks)

unfoldable pub same_codes : List ℕ → List ℕ → Bool
same_codes [] [] = true
same_codes (a ∷ more) (b ∷ others) = a == b && same_codes more others
same_codes _ _ = false

unfoldable pub has_effects : List EffectKind → Bool
has_effects [] = false
has_effects (k ∷ ks) = true

unfoldable pub check_inversion : List EffectKind → List EffectKind → CheckResult
unfolding sorted_codes same_codes is_pure_return_arm critical_effects has_effects
check_inversion t e =
    let heavier = ltb (length (critical_effects e)) (length (critical_effects t)) in
    if not (same_codes (sorted_codes (t ++ e)) (sorted_codes (e ++ t)))
    then reject "inversion_effect_mismatch"
    else if is_pure_return_arm e || (heavier && has_effects e)
    then accept
    else reject "no_presentation_gain"

unfoldable pub check_early_return : List EffectKind → List EffectKind → CheckResult
unfolding sorted_codes same_codes is_pure_return_arm critical_effects
check_early_return t e =
    let after = if is_pure_return_arm t then t ++ e else e ++ t in
    if not (is_pure_return_arm t) && not (is_pure_return_arm e)
    then reject "no_pure_return_arm"
    else if same_codes (sorted_codes (critical_effects (t ++ e)))
        (sorted_codes (critical_effects after))
    then accept
    else reject "early_return_effect_mismatch"

unfoldable pub may_duplicate : EffectKind → Bool
may_duplicate return_effect = true
may_duplicate volatile_access = true
may_duplicate _ = false

unfoldable pub check_pure_duplication_allowed : List EffectKind → CheckResult
unfolding all_effects may_duplicate
check_pure_duplication_allowed effects =
    if all_effects may_duplicate effects then accept else reject "cannot_duplicate_effectful_block"

-- A check of the arms of the region of a block, which must be an if with an else.
unfoldable pub check_arms :
    (List EffectKind → List EffectKind → CheckResult) → SemanticGraph → Option Region → CheckResult
unfolding block_effect_kinds
check_arms check sem (some (if_else t e m i)) =
    check (block_effect_kinds sem t) (block_effect_kinds sem e)
check_arms check sem _ = reject "not_if_else"

unfoldable pub check_move : DualDecompModel → RewriteMove → CheckResult
unfolding check_arms check_inversion check_early_return check_pure_duplication_allowed
    block_effect_kinds
check_move dual (invert_branch header) =
    check_arms check_inversion dual.semantic (dual.regions header)
check_move dual (early_return_extract header) =
    check_arms check_early_return dual.semantic (dual.regions header)
check_move dual (factor_pure_shared_tail merge) = accept
check_move dual (duplicate_pure_block block) =
    check_pure_duplication_allowed (block_effect_kinds dual.semantic block)

unfoldable pub delta_of : RewriteMove → ℤ
delta_of (invert_branch h) = negsuc 0
delta_of (early_return_extract h) = negsuc 1
delta_of (factor_pure_shared_tail m) = negsuc 1
delta_of (duplicate_pure_block b) = pos 1

unfoldable pub outcome_of : ℤ → CheckResult → RewriteMove → RewriteOutcome
unfolding delta_of
outcome_of base accept mv =
    let after = base +ℤ delta_of mv in
    if ltb_ℤ base after then rejected "cost_increase" else applied base after
outcome_of base (reject r) mv = rejected r

unfoldable pub select_each :
    DualDecompModel → ℤ → List RewriteMove → List (RewriteMove × RewriteOutcome)
unfolding check_move outcome_of
select_each dual base [] = []
select_each dual base (mv ∷ mvs) =
    (mv, outcome_of base (check_move dual mv) mv) ∷ select_each dual base mvs

unfoldable pub select_improving_moves :
    DualDecompModel → List ℕ → List (RewriteMove × RewriteOutcome)
unfolding propose_moves select_each presentation_cost
select_improving_moves dual keys =
    select_each dual (presentation_cost dual) (propose_moves dual.regions keys)

unfoldable pub invert_region : Option Region → Option Region
invert_region (some (if_else t e m i)) = some (if_else e t m (not i))
invert_region r = r

unfoldable pub extract_region : SemanticGraph → Option Region → Option Region
unfolding is_pure_return_arm block_effect_kinds
extract_region sem (some (if_else t e m i)) =
    if is_pure_return_arm (block_effect_kinds sem t)
    then some (if_then_fallthrough t e m i)
    else if is_pure_return_arm (block_effect_kinds sem e)
    then some (if_then_fallthrough e t m (not i))
    else some (if_else t e m i)
extract_region sem r = r

-- `regions.get_mut(&header)` or `regions.insert(header, ..)`
unfoldable pub update_region : Regions → ℕ → Option Region → Regions
unfolding insert
update_region regions header none = regions
update_region regions header (some r) = insert regions header r

unfoldable pub apply_move : SemanticGraph → RewriteMove → Regions → Regions
unfolding invert_region extract_region update_region
apply_move sem (invert_branch header) regions =
    update_region regions header (invert_region (regions header))
apply_move sem (early_return_extract header) regions =
    update_region regions header (extract_region sem (regions header))
apply_move sem (factor_pure_shared_tail merge) regions = regions
apply_move sem (duplicate_pure_block block) regions = regions

unfoldable pub apply_each : SemanticGraph → List (RewriteMove × RewriteOutcome) → Regions → Regions
unfolding apply_move
apply_each sem [] regions = regions
apply_each sem ((mv, outcome) ∷ rest) regions =
    apply_each sem rest
      (elim outcome [ applied before after ↦ apply_move sem mv regions | rejected r ↦ regions ])

module _ {Op : Type 0} (view : Op → PcodeView) where
  -- `keys` is the order in which the map of the regions gives its keys.
  unfoldable pub apply_moves :
      List (RewriteMove × RewriteOutcome)
      → SsaFunction Op
      → List ℕ
      → DualDecompModel
      → DualDecompModel
  unfolding apply_each from_regions
  apply_moves selected ssa keys dual =
      let regions = apply_each dual.semantic selected dual.regions in
      record dual { regions = regions; contracts = from_regions view ssa keys regions }
