-- ===== src/Structure/Region/Positions.antt =====
-- The blocks and the regions that the passes of src/decompiler/structure/region.rs come to.
use windy_public.Prelude.{
  ℕ, suc, ◌+◌, ◌<◌, ◌≡◌, inl, inr, refl, subst, true, Bool-cases, Option, none, some, List, [], ◌∷◌,
  get_elem?, arith, nat_eq,
}
use windy_public.KeyMap.{insert}
use windy_public.Ssa.Types.{SsaBlock}
use windy_public.Ssa.Cfg.Frontier.{AllBelow}
use windy_public.Structure.Pcode.{PcodeView, two_arms, is_cbranch, cbranch_arms}
use windy_public.Structure.Region.{Region}
use windy_public.Structure.Region.Classify.{Regions, has_region, add_region}

two_inside :
    (n fall taken : ℕ) (ss : List ℕ)
    → AllBelow n ss
    → two_arms ss ≡ some (fall, taken)
    → (fall < n) × (taken < n)
unfolding two_arms
two_inside n fall taken [] h e = absurd (cc e)
two_inside n fall taken (s ∷ []) h e = ground (arith, h.0, e)
two_inside n fall taken (s ∷ t ∷ rest) h e = ground (arith, h.0, h.1.0, e)

pub entered : (regions : Regions) (i : ℕ) → has_region regions i ≡ true → ¬ (regions i ≡ none)
unfolding has_region
entered regions i e n = absurd (ground (arith, e, n))

pub add_region-none :
    (regions : Regions) (i : ℕ) (o : Option Region) (b : ℕ)
    → add_region regions i o b ≡ none
    → regions b ≡ none
unfolding add_region insert
add_region-none regions i none b n = n
add_region-none regions i (some r) b n = ground (arith, n)

pub add_region_same :
    (regions : Regions) (i : ℕ) (o : Option Region) → add_region regions i o i ≡ none → o ≡ none
unfolding add_region insert
add_region_same regions i none n = refl
add_region_same regions i (some r) n = absurd (ground (arith, n))

module _ {Op : Type 0} where
  pub arms_inside :
      (view : Op → PcodeView) (n : ℕ) (block : SsaBlock Op) (fall taken : ℕ)
      → AllBelow n block.successor_ids
      → cbranch_arms view block ≡ some (fall, taken)
      → (fall < n) × (taken < n)
  unfolding cbranch_arms
  arms_inside view n block fall taken h e = elim (Bool-cases (is_cbranch view block)) [
    | inl b ↦ two_inside n fall taken block.successor_ids h (rw (cbranch_arms, b) at e)
    | inr b ↦ absurd (cc (rw (cbranch_arms, b) at e))
  ]

  pub first :
      (blocks : List (SsaBlock Op)) (i : ℕ) (block : SsaBlock Op) (rest : List (SsaBlock Op))
      → ((k : ℕ) → get_elem? blocks (i + k) ≡ get_elem? (block ∷ rest) k)
      → get_elem? blocks i ≡ some block
  first blocks i block rest at = subst (λ k. get_elem? blocks k ≡ some block) (omega arith) (at 0)

  pub later :
      (blocks : List (SsaBlock Op)) (i : ℕ) (block : SsaBlock Op) (rest : List (SsaBlock Op))
      → ((k : ℕ) → get_elem? blocks (i + k) ≡ get_elem? (block ∷ rest) k)
      → (k : ℕ) → get_elem? blocks (suc i + k) ≡ get_elem? rest k
  later blocks i block rest at k =
      subst (λ j. get_elem? blocks j ≡ get_elem? rest k) (omega arith) (at (suc k))
