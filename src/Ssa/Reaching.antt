-- ===== src/Ssa/Reaching.antt =====
-- src/decompiler/ssa/mod.rs, `reaching_register_at_return`: the value of a register at a return.
pub mod Measure
pub mod Merge
pub mod Sound
use windy_public.Prelude.{
  ℕ, zero, suc, Bool, true, false, Option, none, some, List, [], ◌∷◌, if◌then◌else◌, ◌==◌, length,
  ◌>>=◌, nat_eq,
}
use windy_public.KeyMap.{KeyMap, empty}
use windy_public.KeyMap.{insert as write}
use windy_public.Ssa.NodeSet.{elem, insert, remove}
use windy_public.Ssa.Types.{Location, register, SsaVar, var_beq, SsaOp, SsaBlock, SsaFunction}
use windy_public.Structure.Pcode.{PcodeView, is_return_view, kind_is, is_return}

unfoldable pub is_register : ℕ → SsaVar → Bool
is_register base v = elim v.location [ register offset ↦ offset == base | _ ↦ false ]

-- `uses.iter().find(..)`
unfoldable pub find_use : ℕ → List SsaVar → Option SsaVar
unfolding is_register
find_use base [] = none
find_use base (u ∷ us) =
    let later = find_use base us in if is_register base u then some u else later

-- The definition if it is of the register, or else the one before.
unfoldable pub later_def : ℕ → Option SsaVar → Option SsaVar → Option SsaVar
unfolding is_register
later_def base none last = last
later_def base (some d) last = if is_register base d then some d else last

unfoldable pub or_last : Option SsaVar → Option SsaVar → Option SsaVar
or_last none last = last
or_last (some v) last = some v

unfoldable pub find_block : {Op : Type 0} → ℕ → List (SsaBlock Op) → Option (SsaBlock Op)
find_block id [] = none
find_block id (block ∷ rest) =
    let later = find_block id rest in if block.id == id then some block else later

-- `memo` and `visiting`
pub record Search : Type 0 where
  pub memo : KeyMap ℕ (Option SsaVar)
  pub visiting : List ℕ

-- What a search answers, with what it leaves.
abbrev pub Answer : Type 0
Answer = Option SsaVar × Search

-- The loop over the predecessors, with the search of one of them.
unfoldable pub merge_incoming :
    (ℕ → Search → Option Answer) → List ℕ → Option SsaVar → Search → Option Answer
unfolding var_beq
merge_incoming search [] common s = some (common, s)
merge_incoming search (p ∷ ps) common s = elim (search p s) [
  | none ↦ none
  | some (none, t) ↦ some (none, t)
  | some (some v, t) ↦ elim common [
    | none ↦ merge_incoming search ps (some v) t
    | some w ↦ elim (var_beq w v) [
      | true ↦ merge_incoming search ps (some w) t
      | false ↦ some (none, t)
    ]
  ]
]

-- `visiting.remove`, `memo.insert`
unfoldable pub leave : ℕ → Answer → Answer
unfolding remove write
leave id (r, s) = (r, record { memo = write s.memo id r; visiting = remove id s.visiting })

module _ {Op : Type 0} (view : Op → PcodeView) where
  -- The use of the first return, or the last definition before it.
  unfoldable pub local_value : ℕ → List (SsaOp Op) → Option SsaVar → Option SsaVar
  unfolding kind_is is_return_view find_use later_def or_last
  local_value base [] last = last
  local_value base (op ∷ ops) last =
      let further = local_value base ops (later_def base op.def last) in
      if kind_is view is_return_view op then or_last (find_use base op.uses) last else further

  unfoldable pub resolve_block :
      (ℕ → Search → Option Answer) → ℕ → Option (SsaBlock Op) → Search → Option Answer
  unfolding local_value merge_incoming
  resolve_block search base none s = some (none, s)
  resolve_block search base (some block) s = elim (local_value base block.ops none) [
    | some v ↦ some (some v, s)
    | none ↦ merge_incoming search block.predecessor_ids none s
  ]

  unfoldable pub resolve : ℕ → List (SsaBlock Op) → ℕ → ℕ → Search → Option Answer
  unfolding elem insert find_block resolve_block leave
  resolve zero blocks base id s = none
  resolve (suc fuel) blocks base id s = elim (s.memo id) [
    | some cached ↦ some (cached, s)
    | none ↦ elim (elem id s.visiting) [
      | true ↦ some (none, s)
      | false ↦
          elim (resolve_block (resolve fuel blocks base) base (find_block id blocks)
            (record s { visiting = insert id s.visiting })) [
              | none ↦ none
              | some answer ↦ some (leave id answer)
            ]
    ]
  ]

  -- The fuel is the depth of the search: blocks on the way do not come twice.
  unfoldable pub reaching_register_at_return : SsaFunction Op → ℕ → ℕ → Option (Option SsaVar)
  unfolding find_block is_return resolve
  reaching_register_at_return ssa id base = elim (find_block id ssa.blocks) [
    | none ↦ some none
    | some block ↦ elim (is_return view block) [
      | false ↦ some none
      | true ↦
          elim (resolve (suc (length ssa.blocks)) ssa.blocks base id
            (record { memo = empty; visiting = [] })) [ none ↦ none | some answer ↦ some answer.0 ]
    ]
  ]
