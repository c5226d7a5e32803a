-- ===== src/Structure/Jumps/Bounds.antt =====
-- Where `resolve_jump_target` of src/decompiler/structure/cfg_norm.rs leads.
use mathlib.Core.Option.{some-injective}
use windy_public.Prelude.{
  ℕ, zero, suc, ◌<◌, ◌≡◌, inl, inr, subst, Bool, not, Option-cases, some, List, [], ◌∷◌, get_elem?,
  arith,
}
use windy_public.Ssa.Types.{SsaBlock}
use windy_public.Ssa.Cfg.Frontier.{AllBelow}
use windy_public.Structure.Pcode.{PcodeView}
use windy_public.Structure.Jumps.{is_jump_only, hop, jump_from, resolve_jump_target}

hop_inside :
    (n : ℕ) (stays : Bool) (b next : ℕ) (ss : List ℕ)
    → AllBelow n ss
    → hop stays b ss ≡ some next
    → next < n
unfolding hop
hop_inside n stays b next [] inside h = absurd (cc h)
hop_inside n stays b next (s ∷ ss) inside h = ground (arith, h, inside.0)

module _ {Op : Type 0} where
  -- Every successor is a block of the function.
  abbrev pub AllInside : ℕ → List (SsaBlock Op) → Type 0
  AllInside n [] = Unit
  AllInside n (block ∷ rest) = AllBelow n block.successor_ids × AllInside n rest

  pub AllInside-at :
      (n b : ℕ) (blocks : List (SsaBlock Op)) (block : SsaBlock Op)
      → AllInside n blocks
      → get_elem? blocks b ≡ some block
      → AllBelow n block.successor_ids
  AllInside-at n b [] block inside at = absurd (cc at)
  AllInside-at n zero (c ∷ rest) block inside at =
      subst (λ o. AllBelow n o.successor_ids) (some-injective c block at) inside.0
  AllInside-at n (suc b) (c ∷ rest) block inside at = AllInside-at n b rest block inside.1 at

  module _ (view : Op → PcodeView) (blocks : List (SsaBlock Op)) where
    jump_inside :
        (n b next : ℕ) → AllInside n blocks → jump_from view blocks b ≡ some next → next < n
    unfolding jump_from
    jump_inside n b next inside h = elim (Option-cases (get_elem? blocks b)) [
      | inl e ↦ absurd (cc (rw (e, jump_from) at h))
      | inr (block, e) ↦
          hop_inside n (not (is_jump_only view block)) b next block.successor_ids
            (AllInside-at n b blocks block inside e) (rw (e, jump_from) at h)
    ]

    -- Where the successors are blocks of the function, so is where a block leads.
    pub resolve_inside :
        (n b limit : ℕ) → AllInside n blocks → b < n → resolve_jump_target view blocks b limit < n
    unfolding resolve_jump_target
    resolve_inside n b zero inside h = h
    resolve_inside n b (suc limit) inside h = elim (Option-cases (jump_from view blocks b)) [
      | inl e ↦ rw (e, resolve_jump_target) h
      | inr (next, e) ↦
          rw (e, resolve_jump_target)
            (resolve_inside n next limit inside (jump_inside n b next inside e))
    ]
