-- ===== src/Structure/Moves/Kept.antt =====
-- The moves of src/decompiler/structure/rewrite.rs keep where the regions send control.
use windy_public.Prelude.{
  ℕ, ◌≡◌, refl, sym, ◌∙◌, subst, inl, inr, Bool, Bool-cases, Option-cases, Option, none, some, List,
  [], ◌∷◌, ◌==◌, ==_iff, length, nat_eq, arith,
}
use windy_public.KeyMap.{insert}
use windy_public.Ssa.Types.{SsaBlock}
use windy_public.Structure.Pcode.{PcodeView}
use windy_public.Structure.Effects.{SemanticGraph}
use windy_public.Structure.Region.{
  Region, if_else, if_then, if_then_fallthrough, while_loop, do_while, switch, return_region,
  SwitchInfo,
}
use windy_public.Structure.Region.Classify.{Regions, classify_regions}
use windy_public.Structure.Region.Follow.{goes_to, IsRight, IsFaithful}
use windy_public.Structure.Region.Arms.{classify_regions_lem}
use windy_public.Structure.Jumps.Bounds.{AllInside}
use windy_public.Structure.Moves.{
  RewriteMove, invert_branch, early_return_extract, factor_pure_shared_tail, duplicate_pure_block,
  RewriteOutcome, applied, rejected, invert_region, extract_region, update_region, apply_move,
  apply_each,
}

-- Where a region sends control, if there is one.
abbrev goes : Option Region → Bool → Option ℕ
goes none c = none
goes (some r) c = goes_to r c

goes-invert_region : (o : Option Region) (c : Bool) → goes (invert_region o) c ≡ goes o c
unfolding goes_to invert_region
goes-invert_region none c = refl
goes-invert_region (some (if_else t e m i)) c = ground arith
goes-invert_region (some (if_then body m i)) c = refl
goes-invert_region (some (if_then_fallthrough t e m i)) c = refl
goes-invert_region (some (while_loop b x)) c = refl
goes-invert_region (some (do_while b d x)) c = refl
goes-invert_region (some (switch cs m)) c = refl
goes-invert_region (some return_region) c = refl

goes-extract_region :
    (sem : SemanticGraph) (o : Option Region) (c : Bool) → goes (extract_region sem o) c ≡ goes o c
unfolding goes_to extract_region
goes-extract_region sem none c = refl
goes-extract_region sem (some (if_else t e m i)) c = ground arith
goes-extract_region sem (some (if_then body m i)) c = refl
goes-extract_region sem (some (if_then_fallthrough t e m i)) c = refl
goes-extract_region sem (some (while_loop b x)) c = refl
goes-extract_region sem (some (do_while b d x)) c = refl
goes-extract_region sem (some (switch cs m)) c = refl
goes-extract_region sem (some return_region) c = refl

goes-update_region :
    (regions : Regions) (header : ℕ) (o : Option Region)
    → ((c : Bool) → goes o c ≡ goes (regions header) c)
    → (b : ℕ) (c : Bool) → goes (update_region regions header o b) c ≡ goes (regions b) c
unfolding update_region
goes-update_region regions header none same b c = refl
goes-update_region regions header (some r) same b c = elim (Bool-cases (header == b)) [
  | inl e ↦
      rw (insert, e)
        (subst (λ k. goes (some r) c ≡ goes (regions k) c) ((==_iff header b).0 e) (same c))
  | inr e ↦ rw (insert, e)
]

goes-apply_move :
    (sem : SemanticGraph) (mv : RewriteMove) (regions : Regions) (b : ℕ) (c : Bool)
    → goes (apply_move sem mv regions b) c ≡ goes (regions b) c
unfolding apply_move
goes-apply_move sem (invert_branch h) regions b c =
    goes-update_region regions h (invert_region (regions h)) (goes-invert_region (regions h)) b c
goes-apply_move sem (early_return_extract h) regions b c =
    goes-update_region regions h (extract_region sem (regions h))
      (goes-extract_region sem (regions h)) b c
goes-apply_move sem (factor_pure_shared_tail m) regions b c = refl
goes-apply_move sem (duplicate_pure_block k) regions b c = refl

goes-apply_each :
    (sem : SemanticGraph) (selected : List (RewriteMove × RewriteOutcome)) (regions : Regions)
    (b : ℕ) (c : Bool)
    → goes (apply_each sem selected regions b) c ≡ goes (regions b) c
unfolding apply_each
goes-apply_each sem [] regions b c = refl
goes-apply_each sem ((mv, applied before after) ∷ rest) regions b c =
    goes-apply_each sem rest (apply_move sem mv regions) b c ∙ goes-apply_move sem mv regions b c
goes-apply_each sem ((mv, rejected r) ∷ rest) regions b c = goes-apply_each sem rest regions b c

update_region-none :
    (regions : Regions) (header : ℕ) (o : Option Region) (b : ℕ)
    → update_region regions header o b ≡ none
    → regions b ≡ none
unfolding update_region insert
update_region-none regions header none b n = n
update_region-none regions header (some r) b n = ground (arith, n)

apply_each-none :
    (sem : SemanticGraph) (selected : List (RewriteMove × RewriteOutcome)) (regions : Regions)
    (b : ℕ)
    → apply_each sem selected regions b ≡ none
    → regions b ≡ none
unfolding apply_each apply_move
apply_each-none sem [] regions b n = n
apply_each-none sem ((invert_branch h, applied before after) ∷ rest) regions b n =
    update_region-none regions h (invert_region (regions h)) b (apply_each-none sem rest _ b n)
apply_each-none sem ((early_return_extract h, applied before after) ∷ rest) regions b n =
    update_region-none regions h (extract_region sem (regions h)) b (apply_each-none sem rest _ b n)
apply_each-none sem ((factor_pure_shared_tail m, applied before after) ∷ rest) regions b n =
    apply_each-none sem rest regions b n
apply_each-none sem ((duplicate_pure_block k, applied before after) ∷ rest) regions b n =
    apply_each-none sem rest regions b n
apply_each-none sem ((mv, rejected r) ∷ rest) regions b n = apply_each-none sem rest regions b n

kept :
    {Op : Type 0} (view : Op → PcodeView) (blocks : List (SsaBlock Op)) (resolve_arms : Bool)
    (o after : Option Region) (b : ℕ)
    → IsRight view blocks resolve_arms b o
    → ((c : Bool) → goes after c ≡ goes o c)
    → IsRight view blocks resolve_arms b after
kept view blocks resolve_arms o after b right same r at c t g =
    let went : goes o c ≡ some t = sym (same c) ∙ subst (λ x. goes x c ≡ some t) (sym at) g in
    elim (Option-cases o) [
      | inl n ↦ absurd (cc (subst (λ x. goes x c ≡ some t) n went))
      | inr (s, n) ↦ right s n c t (subst (λ x. goes x c ≡ some t) n went)
    ]

module _ {Op : Type 0} (view : Op → PcodeView) (blocks : List (SsaBlock Op))
    (succ pred : List (List ℕ)) (resolve_arms : Bool) where
  -- Where there is a list of successors for each block, and the successors of the blocks are blocks of the
  -- function, the classification ends, with any tables of dominators, and after any moves on the regions
  -- that it gives, a region of a branch sends control where the branch of its block does, on both values
  -- of the condition, and a block without a region goes to one block whatever its condition.
  pub apply_each-classify_regions :
      length succ ≡ length blocks
      → AllInside (length blocks) blocks
      → (switches : List SwitchInfo) (ipdom idom : List (Option ℕ)) (sem : SemanticGraph)
        (selected : List (RewriteMove × RewriteOutcome))
      → (regions : Regions) × (classify_regions view blocks succ pred resolve_arms switches ipdom
            idom
          ≡ some regions)
        × IsFaithful view blocks resolve_arms (apply_each sem selected regions)
  apply_each-classify_regions whole inside switches ipdom idom sem selected =
      let (regions, ends, (right, straight)) =
        classify_regions_lem view blocks succ pred resolve_arms whole inside switches ipdom idom in
      (
        regions,
        ends,
        (
          λ b.
              kept view blocks resolve_arms (regions b) (apply_each sem selected regions b) b
                (right b) (goes-apply_each sem selected regions b),
          λ b n. straight b (apply_each-none sem selected regions b n),
        ),
      )
