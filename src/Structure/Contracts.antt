-- ===== src/Structure/Contracts.antt =====
-- src/decompiler/structure/rd_model.rs: the contracts of loops, returns and cases. The order in which a
-- map gives its keys is an argument. Tags and issues are texts in the program.
pub mod Validate
pub mod Sanitized
use windy_public.Prelude.{
  ℕ, zero, suc, ◌+◌, ◌-◌, ◌^◌, Bool, true, false, ◌&&◌, ◌||◌, not, Option, none, some, List, [],
  ◌∷◌, ◌++◌, map, if◌then◌else◌, ltb, leb, ◌==◌, length, get_elem?, get_or,
}
use windy_public.Prelude.Int.{ℤ, pos, negsuc, ltb_ℤ}
use windy_public.Ssa.NodeSet.{elem}
use windy_public.Ssa.Types.{SsaOp, SsaBlock, SsaFunction, phi, pcode}
use windy_public.Structure.Pcode.{
  Varnode, registers, constants, elsewhere, PcodeView, int_xor, int_add, int_mult, int_sub,
  int_sless, int_less, int_eq, int_not_eq, any_op, is_cbranch, is_branch_ind, is_return,
}
use windy_public.Structure.Jumps.{sorted_set}
use windy_public.Structure.Effects.{EffectKind, return_effect, Effect, SemanticGraph, is_xor_view}
use windy_public.Structure.Region.{Region, while_loop, do_while, switch, return_region}
use windy_public.Structure.Region.Classify.{Regions}

pub data LoopKind : Type 0 where
  while_kind do_while_kind : LoopKind

pub record LoopContract : Type 0 where
  pub header : ℕ
  pub body_entry : ℕ
  pub exit : ℕ
  pub kind : LoopKind

pub data ClassTag : Type 0 where
  xor_class arg_select arith_class return_class no_class : ClassTag

pub record ReturnClass : Type 0 where
  pub class_tag : ClassTag
  pub has_return : Bool

pub record CasePartition : Type 0 where
  pub switch_block : ℕ
  pub case_values : List ℤ
  pub merge : ℕ

pub record ContractSet : Type 0 where
  pub loops : List LoopContract
  pub returns : Option ReturnClass
  pub cases : List CasePartition

-- `sort_unstable` on the values of the cases.
unfoldable pub insert_value : ℤ → List ℤ → List ℤ
insert_value v [] = v ∷ []
insert_value v (w ∷ ws) = let rest = insert_value v ws in if ltb_ℤ w v then w ∷ rest else v ∷ w ∷ ws

unfoldable pub sorted_values : List (ℤ × ℕ) → List ℤ
unfolding insert_value
sorted_values [] = []
sorted_values ((v, t) ∷ rest) = insert_value v (sorted_values rest)

unfoldable pub loop_contracts : Regions → List ℕ → List LoopContract
loop_contracts regions [] = []
loop_contracts regions (b ∷ keys) =
    let rest = loop_contracts regions keys in
    elim (regions b) [
      | none ↦ rest
      | some r ↦ elim r [
        | while_loop body exit ↦
            record { header = b; body_entry = body; exit = exit; kind = while_kind } ∷ rest
        | do_while body cond exit ↦
            record { header = b; body_entry = body; exit = exit; kind = do_while_kind } ∷ rest
        | _ ↦ rest
      ]
    ]

unfoldable pub case_partitions : Regions → List ℕ → List CasePartition
unfolding sorted_values
case_partitions regions [] = []
case_partitions regions (b ∷ keys) =
    let rest = case_partitions regions keys in
    elim (regions b) [
      | none ↦ rest
      | some r ↦ elim r [
        | switch cs merge ↦
            record { switch_block = b; case_values = sorted_values cs; merge = merge } ∷ rest
        | _ ↦ rest
      ]
    ]

unfoldable pub any_return_region : Regions → List ℕ → Bool
any_return_region regions [] = false
any_return_region regions (b ∷ keys) =
    let rest = any_return_region regions keys in
    elim (regions b) [ none ↦ rest | some r ↦ elim r [ return_region ↦ true | _ ↦ rest ] ]

-- `v.offset as i64`, for a constant.
unfoldable pub varnode_const : Varnode → Option ℤ
varnode_const v =
    let value = if ltb v.offset (2 ^ 63) then pos v.offset else negsuc (2 ^ 64 - 1 - v.offset) in
    elim v.space [ constants ↦ some value | _ ↦ none ]

unfoldable pub later_const : Option ℤ → Option ℤ → Option ℤ
later_const found none = found
later_const found (some k) = some k

unfoldable pub const_of : PcodeView → Option ℤ
unfolding varnode_const
const_of (int_eq left right) = elim (varnode_const left) [
  | none ↦ varnode_const right
  | some k ↦ some k
]
const_of (int_not_eq left right) = elim (varnode_const left) [
  | none ↦ varnode_const right
  | some k ↦ some k
]
const_of (int_sub left right) = varnode_const right
const_of _ = none

-- A label like those of a switch.
unfoldable pub dense_label : Option ℤ → Option ℕ
dense_label (some (pos k)) = if ltb k 256 then some k else none
dense_label _ = none

unfoldable pub indices_below : ℕ → List ℤ
indices_below zero = []
indices_below (suc n) = indices_below n ++ pos n ∷ []

unfoldable pub last_or : ℕ → List ℕ → ℕ
last_or d [] = d
last_or d (x ∷ xs) = last_or x xs

-- The tests on the operations of a block with a return.
unfoldable pub is_cmp_view : PcodeView → Bool
is_cmp_view int_sless = true
is_cmp_view int_less = true
is_cmp_view _ = false

unfoldable pub is_arith_view : PcodeView → Bool
is_arith_view (int_add a b) = true
is_arith_view (int_sub a b) = true
is_arith_view int_mult = true
is_arith_view _ = false

module _ {Op : Type 0} (view : Op → PcodeView) where
  unfoldable pub scan_block : List (SsaOp Op) → Option ℤ → Option ℤ
  unfolding const_of later_const
  scan_block [] found = found
  scan_block (op ∷ ops) found =
      scan_block ops
        (elim op.kind [ phi p ↦ found | pcode o ↦ later_const found (const_of (view o)) ])

  unfoldable pub scan_preds : List (SsaBlock Op) → List ℕ → Option ℤ → Option ℤ
  unfolding scan_block
  scan_preds blocks [] found = found
  scan_preds blocks (p ∷ ps) found =
      scan_preds blocks ps
        (elim (get_elem? blocks p) [ none ↦ found | some block ↦ scan_block block.ops found ])

  unfoldable pub eq_consts_from : List (SsaBlock Op) → ℕ → List (SsaBlock Op) → List (ℕ × ℕ)
  unfolding is_cbranch scan_preds dense_label
  eq_consts_from blocks i [] = []
  eq_consts_from blocks i (block ∷ rest) =
      let later = eq_consts_from blocks (suc i) rest in
      let found = scan_preds blocks block.predecessor_ids (scan_block block.ops none) in
      elim (dense_label (if is_cbranch view block then found else none)) as (λ o. List (ℕ × ℕ)) [
        | none ↦ later
        | some k ↦ (i, k) ∷ later
      ]

  unfoldable pub multiway_from : ℕ → List (SsaBlock Op) → List CasePartition
  unfolding is_branch_ind indices_below last_or
  multiway_from i [] = []
  multiway_from i (block ∷ rest) =
      let later = multiway_from (suc i) rest in
      let count = length block.successor_ids in
      if is_branch_ind view block && leb 2 count
      then record {
        switch_block = i;
        case_values = indices_below count;
        merge = last_or i block.successor_ids;
      }
        ∷ later
      else later

  unfoldable pub first_return : ℕ → ℕ → List (SsaBlock Op) → ℕ
  unfolding is_return
  first_return d i [] = d
  first_return d i (block ∷ rest) =
      let later = first_return d (suc i) rest in if is_return view block then i else later

  unfoldable pub ladder : List (SsaBlock Op) → List (ℕ × ℕ) → List CasePartition
  unfolding sorted_set first_return
  ladder blocks [] = []
  ladder blocks ((switch_block, k) ∷ rest) =
      let vals = sorted_set (k ∷ map (λ e. e.1) rest) in
      if ltb (length rest) 2
      then []
      else if ltb (length vals) 2
      then []
      else record {
        switch_block = switch_block;
        case_values = map pos vals;
        merge = first_return switch_block 0 blocks;
      }
        ∷ []

  unfoldable pub recover_eq_ladder_cases : List (SsaBlock Op) → List CasePartition
  unfolding multiway_from ladder eq_consts_from
  recover_eq_ladder_cases blocks = elim (multiway_from 0 blocks) [
    | [] ↦ ladder blocks (eq_consts_from blocks 0 blocks)
    | c ∷ cs ↦ c ∷ cs
  ]

  -- Whether a block with a return has an operation of a kind.
  unfoldable pub returns_with : (PcodeView → Bool) → List (SsaBlock Op) → Bool
  unfolding is_return any_op
  returns_with test [] = false
  returns_with test (block ∷ rest) =
      (is_return view block && any_op view test block.ops) || returns_with test rest

  unfoldable pub any_block : (SsaBlock Op → Bool) → List (SsaBlock Op) → Bool
  any_block test [] = false
  any_block test (block ∷ rest) = test block || any_block test rest

  unfoldable pub class_of : List (SsaBlock Op) → Bool → ClassTag
  unfolding returns_with is_xor_view is_cmp_view is_arith_view
  class_of blocks has_return =
      if returns_with is_xor_view blocks
      then xor_class
      else if returns_with is_cmp_view blocks
      then arg_select
      else if returns_with is_arith_view blocks
      then arith_class
      else if has_return
      then return_class
      else no_class

  -- `ContractSet::from_regions`
  unfoldable pub from_regions : SsaFunction Op → List ℕ → Regions → ContractSet
  unfolding loop_contracts case_partitions recover_eq_ladder_cases any_return_region any_block
      is_return class_of
  from_regions ssa keys regions =
      let has_return = any_return_region regions keys || any_block (is_return view) ssa.blocks in
      record {
        loops = loop_contracts regions keys;
        returns =
            some record { class_tag = class_of ssa.blocks has_return; has_return = has_return };
        cases = elim (case_partitions regions keys) as (λ o. List CasePartition) [
          | [] ↦ recover_eq_ladder_cases ssa.blocks
          | c ∷ cs ↦ c ∷ cs
        ];
      }
