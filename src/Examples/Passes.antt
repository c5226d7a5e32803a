-- ===== src/Examples/Passes.antt =====
-- Tests and examples for the simplification. An operation is what the passes read of it.
use mathlib.Core.Option.{some-injective}
use windy_public.Prelude.{ℕ, ◌≡◌, refl, sym, ap, List, [], ◌∷◌, map, Option, none, some}
use windy_public.Ssa.Types.{register, SsaVar, SsaOp, phi, pcode, SsaFunction}
use windy_public.Ssa.Cfg.{Run, done, out_of_bounds, out_of_fuel}
use windy_public.Ssa.Alias.{
  OpView, copy_storage, returns, effect, computes, SsaAnalysis, view_of, first_use, find_alias,
  find_aliases,
}
use windy_public.Ssa.Alias.Ends.{find_alias-find_aliases}
use windy_public.KeyMap.{empty}
use windy_public.Ssa.Alias.Values.{AllHold}
use windy_public.Ssa.Simplify.{simplify, flatten_blocks}
use windy_public.Ssa.Simplify.Effects.{block_effects}
use windy_public.Ssa.Simplify.Whole.{simplify-effects}

reading : OpView → OpView
reading o = o

abbrev reg : ℕ → ℕ → SsaVar
reg offset version = record { location = register offset; version = version }

abbrev plain_step : ℕ → OpView → Option SsaVar → List SsaVar → SsaOp OpView
plain_step va o def us = record { va = va; kind = pcode o; def = def; uses = us }

-- A computation, a copy of it, a store of the copy, and the return.
abbrev straight : SsaFunction OpView
straight = record {
  entry_va = 4096;
  bitness = 64;
  image_base = 0;
  blocks =
      record {
        id = 0;
        entry_va = 4096;
        ops =
            plain_step 8 computes (some (reg 8 1)) []
            ∷ plain_step 16 copy_storage (some (reg 16 1)) (reg 8 1 ∷ [])
            ∷ plain_step 24 effect none (reg 16 1 ∷ [])
            ∷ plain_step 32 returns none []
            ∷ [];
        predecessor_ids = [];
        successor_ids = [];
      }
      ∷ [];
}

version_of : SsaVar → ℕ
version_of v = v.version

straight_holds : AllHold version_of reading (flatten_blocks 0 straight.blocks)
unfolding flatten_blocks reading version_of view_of first_use
straight_holds = (
  (λ d h. tt, λ p h. absurd (cc h)),
  (
    (λ d h. sym (ap (λ v. v.version) (some-injective (reg 16 1) d h)), λ p h. absurd (cc h)),
    (
      (λ d h. absurd (cc h), λ p h. absurd (cc h)),
      ((λ d h. absurd (cc h), λ p h. absurd (cc h)), tt),
    ),
  ),
)

simplify-effects_example :
    (out : SsaFunction OpView × SsaAnalysis) × (simplify reading straight ≡ done out)
    × (block_effects version_of reading out.0.blocks
        ≡ block_effects version_of reading straight.blocks)
simplify-effects_example = simplify-effects version_of reading straight straight_holds

-- The addresses of the operations that are left.
left_at : Run (SsaFunction OpView × SsaAnalysis) → List (List ℕ)
left_at (done out) = map (λ block. map (λ op. op.va) block.ops) out.0.blocks
left_at out_of_bounds = []
left_at out_of_fuel = []

-- The copy is gone; the store now uses what was copied.
straight_left : left_at (simplify reading straight) ≡ (8 ∷ 24 ∷ 32 ∷ []) ∷ []
unfolding left_at simplify reading
straight_left = refl

-- A loop that saves a register in another one and restores it: the phi's second argument is a copy of
-- a copy of the phi.
abbrev saving : SsaFunction OpView
saving = record {
  entry_va = 4096;
  bitness = 64;
  image_base = 0;
  blocks =
      record {
        id = 0;
        entry_va = 4096;
        ops = plain_step 8 computes (some (reg 8 1)) [] ∷ [];
        predecessor_ids = [];
        successor_ids = 1 ∷ [];
      }
      ∷ record {
        id = 1;
        entry_va = 4112;
        ops =
            record {
              va = 0;
              kind = phi (record { out = reg 8 2; args = some (reg 8 1) ∷ some (reg 8 3) ∷ [] });
              def = some (reg 8 2);
              uses = [];
            }
            ∷ plain_step 16 effect none (reg 8 2 ∷ [])
            ∷ plain_step 24 copy_storage (some (reg 16 1)) (reg 8 2 ∷ [])
            ∷ plain_step 32 copy_storage (some (reg 8 3)) (reg 16 1 ∷ [])
            ∷ [];
        predecessor_ids = 0 ∷ 1 ∷ [];
        successor_ids = 1 ∷ [];
      }
      ∷ [];
}

-- The phi is gone, although the store at 16 uses what it defines.
saving_left : left_at (simplify reading saving) ≡ (8 ∷ []) ∷ (16 ∷ []) ∷ []
unfolding left_at simplify reading
saving_left = refl

find_alias-find_aliases_example :
    ((find_aliases reading empty (flatten_blocks 0 saving.blocks) 5).parent
        (find_alias (find_aliases reading empty (flatten_blocks 0 saving.blocks) 5) (reg 8 3)).0
      ≡ none)
    × ((find_alias
          (find_alias (find_aliases reading empty (flatten_blocks 0 saving.blocks) 5) (reg 8 3)).1
          (find_alias
            (find_aliases reading empty (flatten_blocks 0 saving.blocks) 5)
            (reg 8 3)).0).0
        ≡ (find_alias (find_aliases reading empty (flatten_blocks 0 saving.blocks) 5) (reg 8 3)).0)
find_alias-find_aliases_example =
    find_alias-find_aliases reading empty (flatten_blocks 0 saving.blocks) 5 (reg 8 3)
