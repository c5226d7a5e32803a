-- ===== src/Ssa/Reaching/Measure.antt =====
-- The blocks that the search of src/decompiler/ssa/mod.rs has not come to.
use windy_public.Prelude.{
  ℕ, suc, ◌<◌, ◌≤◌, ◌≡◌, inl, inr, refl, sym, subst, false, Bool-cases, some, List, [], ◌∷◌,
  if◌then◌else◌, ◌==◌, ==_iff, length, arith,
}
use windy_public.Ssa.NodeSet.{elem, insert, elem-insert}
use windy_public.Ssa.Types.{SsaBlock}
use windy_public.Ssa.Reaching.{find_block}

module _ {Op : Type 0} where
  -- The blocks whose numbers are not in the set.
  unfoldable pub open_blocks : List (SsaBlock Op) → List ℕ → ℕ
  open_blocks [] seen = 0
  open_blocks (block ∷ rest) seen =
      let more = open_blocks rest seen in if elem block.id seen then more else suc more

  pub open_le :
      (blocks : List (SsaBlock Op)) (seen : List ℕ) → open_blocks blocks seen ≤ length blocks
  unfolding open_blocks
  open_le [] seen = omega arith
  open_le (block ∷ rest) seen = ground (arith, open_le rest seen)

  pub open_same :
      (blocks : List (SsaBlock Op)) (a b : List ℕ)
      → ((z : ℕ) → elem z a ≡ elem z b)
      → open_blocks blocks a ≡ open_blocks blocks b
  unfolding open_blocks
  open_same [] a b same = refl
  open_same (block ∷ rest) a b same = ground (arith, same block.id, open_same rest a b same)

  open-insert :
      (blocks : List (SsaBlock Op)) (id : ℕ) (seen : List ℕ)
      → open_blocks blocks (insert id seen) ≤ open_blocks blocks seen
  unfolding open_blocks
  open-insert [] id seen = omega arith
  open-insert (block ∷ rest) id seen =
      ground (arith, elem-insert block.id id seen, open-insert rest id seen)

  pub open-insert_found :
      (blocks : List (SsaBlock Op)) (id : ℕ) (block : SsaBlock Op) (seen : List ℕ)
      → find_block id blocks ≡ some block
      → elem id seen ≡ false
      → open_blocks blocks (insert id seen) < open_blocks blocks seen
  unfolding open_blocks find_block
  open-insert_found [] id block seen at fresh = absurd (cc at)
  open-insert_found (b ∷ rest) id block seen at fresh = elim (Bool-cases (b.id == id)) [
    | inl e ↦
        let same = (==_iff b.id id).0 e in
        let here : elem b.id seen ≡ false = subst (λ k. elem k seen ≡ false) (sym same) fresh in
        ground (arith, here, e, elem-insert b.id id seen, open-insert rest id seen)
    | inr e ↦ ground (
      arith,
      e,
      elem-insert b.id id seen,
      open-insert_found rest id block seen (rw (find_block, e) at at) fresh,
    )
  ]
