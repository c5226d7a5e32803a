-- ===== src/Examples/Built.antt =====
-- Tests and examples for the assembly of a function and the search for what it returns.
use windy_public.Prelude.{ℕ, ◌≡◌, ◌⊎◌, refl, true, Option, none, some, List, [], ◌∷◌, map}
use windy_public.Prelude.Int.{pos}
use windy_public.Ssa.NodeSet.{elem}
use windy_public.Ssa.Types.{Location, register, SsaVar, pcode, SsaOp, SsaFunction, FlatOp}
use windy_public.Ssa.Cfg.{iterated_df}
use windy_public.Ssa.Rename.{input_of}
use windy_public.Ssa.Build.{Function, assemble, build_ssa, collect_def_blocks}
use windy_public.Ssa.Build.Inside.{shown, IsFaithful-assemble}
use windy_public.Ssa.Reaching.{reaching_register_at_return}
use windy_public.Ssa.Reaching.Sound.{Behind, own_value, preds_at, reaching_register_at_return_lem}
use windy_public.Structure.Pcode.{PcodeView, cbranch, store, load, return_to, other}
use windy_public.Structure.Effects.{semantic_from_ssa, presented_pred}
use windy_public.Structure.Region.Classify.{Regions, classify_regions}
use windy_public.Structure.Region.Follow.{IsFaithful}
use windy_public.Structure.Moves.{
  RewriteMove, invert_branch, early_return_extract, RewriteOutcome, applied, rejected, apply_each,
}

as_is : PcodeView → PcodeView
as_is o = o

-- Two arms that meet at a return.
abbrev meeting : Function
meeting = record {
  entry_va = 4096;
  blocks =
      record { entry_va = 4096; successors = 4128 ∷ 4112 ∷ []; predecessors = [] }
      ∷ record { entry_va = 4112; successors = 4144 ∷ 9999 ∷ []; predecessors = 4096 ∷ [] }
      ∷ record { entry_va = 4128; successors = 4144 ∷ 4144 ∷ []; predecessors = 4096 ∷ [] }
      ∷ record { entry_va = 4144; successors = []; predecessors = 4112 ∷ 4128 ∷ [] }
      ∷ [];
}

abbrev flat : ℕ → PcodeView → Option Location → FlatOp PcodeView
flat va o def = record { va = va; op = o; def = def; uses = [] }

-- Both arms define RAX.
abbrev meeting_flat : List (List (FlatOp PcodeView))
meeting_flat =
    (flat 4096 cbranch none ∷ [])
    ∷ (flat 4112 other (some (register 0)) ∷ [])
    ∷ (flat 4128 load (some (register 0)) ∷ [])
    ∷ (flat 4144 return_to none ∷ [])
    ∷ []

meeting_defs : collect_def_blocks meeting_flat 4 ≡ (register 0, 1 ∷ 2 ∷ []) ∷ []
unfolding collect_def_blocks
meeting_defs = refl

abbrev edges_of : Option (SsaFunction PcodeView) → List (List ℕ)
edges_of none = []
edges_of (some ssa) = map (λ b. b.successor_ids) ssa.blocks

-- An edge out of the function and the second edge to a block are left out.
meeting_edges :
    edges_of (build_ssa 60 meeting 64 0 meeting_flat) ≡ (2 ∷ 1 ∷ []) ∷ (3 ∷ []) ∷ (3 ∷ []) ∷ [] ∷ []
unfolding build_ssa iterated_df input_of
meeting_edges = refl

abbrev rax : ℕ → SsaVar
rax version = record { location = register 0; version = version }

abbrev found_in : Option (SsaFunction PcodeView) → ℕ → Option (Option SsaVar)
found_in none id = none
found_in (some ssa) id = reaching_register_at_return as_is ssa id 0

-- What reaches the return is the phi.
meeting_phi : found_in (build_ssa 60 meeting 64 0 meeting_flat) 3 ≡ some (some (rax 4))
unfolding build_ssa reaching_register_at_return as_is iterated_df input_of
meeting_phi = refl

abbrev plain : ℕ → PcodeView → Option SsaVar → SsaOp PcodeView
plain va o def = record { va = va; kind = pcode o; def = def; uses = [] }

abbrev meeting_ops : List (List (SsaOp PcodeView))
meeting_ops =
    (plain 4096 other (some (rax 1)) ∷ plain 4098 cbranch none ∷ [])
    ∷ (plain 4112 store none ∷ [])
    ∷ (plain 4128 load none ∷ [])
    ∷ (plain 4144 return_to none ∷ [])
    ∷ []

abbrev assembled : SsaFunction PcodeView
assembled = assemble meeting 64 0 [] meeting_ops

abbrev chosen : List (RewriteMove × RewriteOutcome)
chosen =
    (early_return_extract 0, rejected "no_pure_return_arm")
    ∷ (invert_branch 0, applied (pos 1) (pos 0))
    ∷ []

IsFaithful-assemble_example :
    (regions : Regions) × (classify_regions as_is assembled.blocks
        (shown as_is assembled)
        (presented_pred (shown as_is assembled))
        true
        []
        (some 3 ∷ some 3 ∷ some 3 ∷ some 4 ∷ [])
        (some 0 ∷ some 0 ∷ some 0 ∷ some 0 ∷ [])
      ≡ some regions)
    × IsFaithful as_is assembled.blocks true
        (apply_each (semantic_from_ssa as_is assembled) chosen regions)
IsFaithful-assemble_example =
    IsFaithful-assemble as_is meeting 64 0 [] meeting_ops []
      (some 3 ∷ some 3 ∷ some 3 ∷ some 4 ∷ []) (some 0 ∷ some 0 ∷ some 0 ∷ some 0 ∷ []) chosen

reaching_register_at_return_lem_example :
    (r : Option SsaVar) × (reaching_register_at_return as_is assembled 3 0 ≡ some r)
    × ((v : SsaVar) (c : ℕ)
        → r ≡ some v
        → Behind as_is assembled.blocks 0 3 c
        → (own_value as_is assembled.blocks 0 c ≡ some v)
          ⊎ ((own_value as_is assembled.blocks 0 c ≡ none)
              × ((p : ℕ) × (elem p (preds_at as_is assembled.blocks 0 c) ≡ true))))
reaching_register_at_return_lem_example = reaching_register_at_return_lem as_is assembled 3 0

-- Both arms leave the register as the branch had it.
assembled_found : reaching_register_at_return as_is assembled 3 0 ≡ some (some (rax 1))
unfolding reaching_register_at_return as_is assemble
assembled_found = refl

-- A loop goes back to the entry, and only it defines the register: the value that the function is entered
-- with is not looked at.
abbrev reentered : SsaFunction PcodeView
reentered =
    assemble
      (record {
        entry_va = 4096;
        blocks =
            record { entry_va = 4096; successors = 4112 ∷ 4128 ∷ []; predecessors = 4112 ∷ [] }
            ∷ record { entry_va = 4112; successors = 4096 ∷ []; predecessors = 4096 ∷ [] }
            ∷ record { entry_va = 4128; successors = []; predecessors = 4096 ∷ [] }
            ∷ [];
      })
      64 0 []
      ((plain 4096 cbranch none ∷ [])
        ∷ (plain 4112 other (some (rax 2)) ∷ [])
        ∷ (plain 4128 return_to none ∷ [])
        ∷ [])

reentered_found : reaching_register_at_return as_is reentered 2 0 ≡ some (some (rax 2))
unfolding reaching_register_at_return as_is assemble
reentered_found = refl
