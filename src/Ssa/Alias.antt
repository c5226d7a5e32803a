-- ===== src/Ssa/Alias.antt =====
-- src/decompiler/ssa/simplify.rs, passes 1 to 3: aliases of copies and trivial phis. What the passes read
-- of a lifter's operation is the parameter `view`.
pub mod Ends
pub mod Roots
pub mod Values
use windy_public.Prelude.{
  ℕ, zero, suc, ◌+◌, Bool, true, false, ◌&&◌, ◌||◌, not, Option, none, some, List, [], ◌∷◌, ◌++◌,
  if◌then◌else◌, ◌==◌, length, get_elem?,
}
use windy_public.KeyMap.{KeyMap, empty, insert}
use windy_public.Ssa.Types.{
  Location, SsaVar, var_beq, var_eq, PhiNode, SsaOpKind, phi, pcode, SsaOp,
}

-- A copy of a constant, with its value and size; a copy of anything else; a return; another
-- operation that is a side effect; or one that only computes.
pub data OpView : Type 0 where
  copy_constant : ℕ → ℕ → OpView
  copy_storage returns effect computes : OpView

pub record SsaConstant : Type 0 where
  pub va : ℕ
  pub value : ℕ
  pub size : ℕ

pub record SsaCopy : Type 0 where
  pub def_va : ℕ
  pub target_va : ℕ

pub record SsaAnalysis : Type 0 where
  pub op_count_before : ℕ
  pub op_count_after : ℕ
  pub copies_propagated : ℕ
  pub constants_propagated : ℕ
  pub phis_collapsed : ℕ
  pub dead_ops_removed : ℕ
  pub constants : List SsaConstant
  pub copies : List SsaCopy

unfoldable pub no_analysis : ℕ → SsaAnalysis
no_analysis before = record {
  op_count_before = before;
  op_count_after = 0;
  copies_propagated = 0;
  constants_propagated = 0;
  phis_collapsed = 0;
  dead_ops_removed = 0;
  constants = [];
  copies = [];
}

pub data Resolved : Type 0 where
  resolved_var : SsaVar → Resolved
  resolved_const : ℕ → ℕ → Resolved

-- `PartialEq` of `Resolved`
unfoldable pub resolved_beq : Resolved → Resolved → Bool
unfolding var_beq
resolved_beq (resolved_var v) (resolved_var w) = var_beq v w
resolved_beq (resolved_const a b) (resolved_const c d) = a == c && b == d
resolved_beq _ _ = false

-- The maps and the report that the first passes change.
pub record Aliases : Type 0 where
  pub parent : KeyMap SsaVar SsaVar
  pub const_val : KeyMap SsaVar (ℕ × ℕ)
  pub analysis : SsaAnalysis

unfoldable pub no_aliases : ℕ → Aliases
unfolding no_analysis
no_aliases before = record { parent = empty; const_val = empty; analysis = no_analysis before }

-- `find`, with path compression. The fuel counts the steps to the root.
unfoldable pub find : ℕ → KeyMap SsaVar SsaVar → SsaVar → SsaVar × KeyMap SsaVar SsaVar
unfolding var_beq insert
find zero parent v = (v, parent)
find (suc fuel) parent v = elim (parent v) [
  | none ↦ (v, parent)
  | some next ↦
      let deeper = find fuel parent next in
      if var_beq next v then (v, parent) else (deeper.0, insert deeper.1 v deeper.0)
]

-- Each alias is one link, and there is one alias for each copy or phi counted, so a path to a root
-- has at most so many steps.
unfoldable pub links : SsaAnalysis → ℕ
links analysis = suc (analysis.copies_propagated + analysis.phis_collapsed)

-- `find` on the aliases.
unfoldable pub find_alias : Aliases → SsaVar → SsaVar × Aliases
unfolding find links
find_alias s v = let r = find (links s.analysis) s.parent v in (r.0, record s { parent = r.1 })

unfoldable pub resolve_var : Aliases → SsaVar → Resolved × Aliases
unfolding find_alias
resolve_var s v =
    let f = find_alias s v in
    (
      elim (s.const_val f.0) [
        | some c ↦ resolved_const c.0 c.1
        | none ↦ elim (s.const_val v) [ some c ↦ resolved_const c.0 c.1 | none ↦ resolved_var f.0 ]
      ],
      f.1,
    )

-- The roots of both, and whether they differ: then the first gets the second as its parent.
unfoldable pub union : Aliases → SsaVar → SsaVar → Bool × Aliases
unfolding find_alias var_beq insert
union s def target =
    let rd = find_alias s def in
    let rt = find_alias rd.1 target in
    if var_beq rd.0 rt.0
    then (false, rt.1)
    else (true, record rt.1 { parent = insert rt.1.parent rd.0 rt.0 })

unfoldable pub first_use : List SsaVar → Option SsaVar
first_use [] = none
first_use (u ∷ us) = some u

-- Pass 1 on the view of a copy, its definition and its first use.
unfoldable pub record_copy : ℕ → ℕ → OpView → SsaVar → Option SsaVar → Aliases → Aliases
unfolding union insert var_beq
record_copy va target_va (copy_constant offset size) def first s = record s {
  const_val = insert s.const_val def (offset, size);
  analysis = record s.analysis {
    constants_propagated = suc s.analysis.constants_propagated;
    constants = s.analysis.constants ++ record { va = va; value = offset; size = size } ∷ [];
  };
}
record_copy va target_va copy_storage def (some target) s =
    let joined = union s def target in
    if joined.0
    then record joined.1 {
      analysis = record joined.1.analysis {
        copies_propagated = suc joined.1.analysis.copies_propagated;
        copies = joined.1.analysis.copies ++ record { def_va = va; target_va = target_va } ∷ [];
      };
    }
    else joined.1
record_copy va target_va _ def first s = s

-- The arguments of a phi in turn: what all resolve to, `none` where two differ or one is missing.
unfoldable pub common_value : List (Option SsaVar) → Resolved → Aliases → Option Resolved × Aliases
unfolding resolve_var resolved_beq
common_value [] r s = (some r, s)
common_value (none ∷ args) r s = (none, s)
common_value (some v ∷ args) r s =
    let rv = resolve_var s v in
    let rest = common_value args r rv.1 in if resolved_beq r rv.0 then rest else (none, rv.1)

unfoldable pub trivial_value : List (Option SsaVar) → Aliases → Option Resolved × Aliases
unfolding common_value
trivial_value [] s = (none, s)
trivial_value (none ∷ args) s = (none, s)
trivial_value (some v ∷ args) s = let rv = resolve_var s v in common_value args rv.0 rv.1

-- What pass 2 does with a phi's output once its arguments are resolved, and whether this changed an alias.
unfoldable pub collapse : SsaVar → Option Resolved → Aliases → Bool × Aliases
unfolding union insert var_beq
collapse out none s = (false, s)
collapse out (some (resolved_const value size)) s =
    (false, record s { const_val = insert s.const_val out (value, size) })
collapse out (some (resolved_var t)) s =
    let joined = union s out t in
    (
      joined.0,
      if joined.0
          then record joined.1 {
            analysis = record joined.1.analysis {
              phis_collapsed = suc joined.1.analysis.phis_collapsed;
            };
          }
          else joined.1,
    )

-- Pass 3.
unfoldable pub repoint_uses : List SsaVar → Aliases → List SsaVar × Aliases
unfolding find_alias
repoint_uses [] s = ([], s)
repoint_uses (u ∷ us) s =
    let f = find_alias s u in let rest = repoint_uses us f.1 in (f.0 ∷ rest.0, rest.1)

unfoldable pub repoint_args : List (Option SsaVar) → Aliases → List (Option SsaVar) × Aliases
unfolding find_alias
repoint_args [] s = ([], s)
repoint_args (none ∷ args) s = let rest = repoint_args args s in (none ∷ rest.0, rest.1)
repoint_args (some v ∷ args) s =
    let f = find_alias s v in let rest = repoint_args args f.1 in (some f.0 ∷ rest.0, rest.1)

module _ {Op : Type 0} where
  -- The operations of the function stand in one list, `work`, each with the index of its block, `block_of`.
  -- `def_to_idx`, for the operations from index `i` on.
  unfoldable pub index_defs : ℕ → List (ℕ × SsaOp Op) → KeyMap SsaVar ℕ → KeyMap SsaVar ℕ
  unfolding insert var_beq
  index_defs i [] m = m
  index_defs i ((b, op) ∷ rest) m =
      index_defs (suc i) rest (elim op.def [ none ↦ m | some d ↦ insert m d i ])

  unfoldable pub va_of_def : List (ℕ × SsaOp Op) → KeyMap SsaVar ℕ → SsaVar → ℕ
  va_of_def work defs v = elim (defs v) [
    | none ↦ 0
    | some i ↦ elim (get_elem? work i) [ none ↦ 0 | some p ↦ p.1.va ]
  ]

  -- One round of pass 2.
  unfoldable pub phi_round : List (ℕ × SsaOp Op) → Bool → Aliases → Bool × Aliases
  unfolding trivial_value collapse
  phi_round [] changed s = (changed, s)
  phi_round ((b, op) ∷ rest) changed s = elim op.kind [
    | pcode o ↦ phi_round rest changed s
    | phi p ↦
        let r = trivial_value p.args s in
        let done = collapse p.out r.0 r.1 in phi_round rest (changed || done.0) done.1
  ]

  -- `while changed && guard <= work.len()`: the number is of the rounds that the guard still allows.
  unfoldable pub phi_rounds : ℕ → List (ℕ × SsaOp Op) → Aliases → Aliases
  unfolding phi_round
  phi_rounds zero work s = s
  phi_rounds (suc rounds) work s =
      let r = phi_round work false s in
      let more = phi_rounds rounds work r.1 in if r.0 then more else r.1

  unfoldable pub repoint_kind : SsaOpKind Op → Aliases → SsaOpKind Op × Aliases
  unfolding repoint_args
  repoint_kind (pcode o) s = (pcode o, s)
  repoint_kind (phi p) s = let r = repoint_args p.args s in (phi (record p { args = r.0 }), r.1)

  unfoldable pub repoint : List (ℕ × SsaOp Op) → Aliases → List (ℕ × SsaOp Op) × Aliases
  unfolding repoint_uses repoint_kind
  repoint [] s = ([], s)
  repoint ((b, op) ∷ rest) s =
      let us = repoint_uses op.uses s in
      let k = repoint_kind op.kind us.1 in
      let done = repoint rest k.1 in ((b, record op { kind = k.0; uses = us.0 }) ∷ done.0, done.1)

  module _ (view : Op → OpView) where
    unfoldable pub view_of : SsaOpKind Op → OpView
    view_of (phi p) = computes
    view_of (pcode o) = view o

    -- Pass 1, over the operations in order.
    unfoldable pub copy_pass :
        List (ℕ × SsaOp Op) → KeyMap SsaVar ℕ → List (ℕ × SsaOp Op) → Aliases → Aliases
    unfolding record_copy va_of_def first_use view_of
    copy_pass work defs [] s = s
    copy_pass work defs ((b, op) ∷ rest) s = copy_pass work defs rest (elim op.def [
      | none ↦ s
      | some d ↦
          record_copy op.va (target_va (first_use op.uses)) (view_of op.kind) d (first_use op.uses)
            s
    ])
      where
        target_va : Option SsaVar → ℕ
        target_va none = 0
        target_va (some t) = va_of_def work defs t

    -- Passes 1 and 2.
    unfoldable pub find_aliases : KeyMap SsaVar ℕ → List (ℕ × SsaOp Op) → ℕ → Aliases
    unfolding copy_pass phi_rounds no_aliases
    find_aliases defs work before =
        phi_rounds (suc (length work)) work (copy_pass work defs work (no_aliases before))
