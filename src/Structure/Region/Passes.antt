-- ===== src/Structure/Region/Passes.antt =====
-- The passes over returns, switches and loops of src/decompiler/structure/region.rs end, and add no region
-- of a branch.
use windy_public.Prelude.{
  ℕ, suc, ◌≡◌, inl, inr, refl, subst, Bool, true, false, not, Bool-cases, Option-cases, Option,
  none, some, List, [], ◌∷◌, if◌then◌else◌, ltb, ◌==◌, ==_iff, length, nat_eq,
}
use windy_public.KeyMap.{insert}
use windy_public.Ssa.Types.{SsaBlock}
use windy_public.Structure.Pcode.{PcodeView, is_return, is_branch_ind}
use windy_public.Structure.Walk.Loops.{natural_loop_nodes_lem, can_reach_ends}
use windy_public.Structure.Region.{
  Region, return_region, SwitchInfo, or_else, header_loop, latch_loop, residual_loop, reaches_latch,
}
use windy_public.Structure.Region.Classify.{
  Regions, has_region, add_region, map_arm, arms_at, returns_from, switch_region, switches_from,
  loop_region, loops_from,
}
use windy_public.Structure.Region.Follow.{
  goes_to, IsRight, AllRight, IsQuiet, IsQuiet-none, IsQuiet-if, IsQuiet-some, IsQuiet-or_else,
  IsQuiet-header_loop, IsQuiet-latch_loop, IsQuiet-residual_loop,
}

reaches_latch_ends :
    (succ : List (List ℕ)) (header from : ℕ) (latches : List ℕ)
    → (found : Bool) × (reaches_latch succ header from latches ≡ some found)
unfolding reaches_latch
reaches_latch_ends succ header from [] = (false, refl)
reaches_latch_ends succ header from (latch ∷ latches) =
    let (found, e) = can_reach_ends from latch succ (some header) in
    rw (reaches_latch, e)
      (elim found
        as (λ f.
          (x : Bool) × ((if f then some true else reaches_latch succ header from latches)
            ≡ some x)) [
              | true ↦ (true, refl)
              | false ↦ reaches_latch_ends succ header from latches
            ])

module _ {Op : Type 0} (view : Op → PcodeView) (blocks : List (SsaBlock Op))
    (succ pred : List (List ℕ)) (resolve_arms : Bool) where
  pub quiet-IsRight : (b : ℕ) (o : Option Region) → IsQuiet o → IsRight view blocks resolve_arms b o
  quiet-IsRight b o q r h c t g = absurd (cc (q r h c, g))

  pub add_right :
      (regions : Regions) (b : ℕ) (o : Option Region)
      → AllRight view blocks resolve_arms regions
      → IsRight view blocks resolve_arms b o
      → AllRight view blocks resolve_arms (add_region regions b o)
  unfolding add_region
  add_right regions b none all right j = all j
  add_right regions b (some s) all right j = elim (Bool-cases (b == j)) [
    | inl e ↦
        rw (insert, e)
          (subst (λ k. IsRight view blocks resolve_arms k (some s)) ((==_iff b j).0 e) right)
    | inr e ↦ rw (insert, e) (all j)
  ]

  pub returns_right :
      (i : ℕ) (rest : List (SsaBlock Op)) (regions : Regions)
      → AllRight view blocks resolve_arms regions
      → AllRight view blocks resolve_arms (returns_from view i rest regions)
  unfolding returns_from goes_to
  returns_right i [] regions all = all
  returns_right i (block ∷ rest) regions all = elim (Bool-cases (is_return view block)) [
    | inl e ↦
        rw (returns_from, e)
          (returns_right (suc i) rest (add_region regions i (some return_region)) (
            add_right regions i (some return_region) all
              (quiet-IsRight i (some return_region) (IsQuiet-some return_region (λ c. refl)))))
    | inr e ↦ rw (returns_from, e) (returns_right (suc i) rest regions all)
  ]

  switch-IsQuiet :
      (switches : List SwitchInfo) (ipdom : List (Option ℕ)) (ve i : ℕ) (block : SsaBlock Op)
      → IsQuiet (switch_region view switches ipdom ve i block)
  unfolding switch_region goes_to
  switch-IsQuiet switches ipdom ve i block =
      IsQuiet-if (not (is_branch_ind view block)) none _ IsQuiet-none (
        IsQuiet-if (ltb (length block.successor_ids) 2) none _ IsQuiet-none
          (IsQuiet-some _ (λ c. refl)))

  pub switches_right :
      (switches : List SwitchInfo) (ipdom : List (Option ℕ)) (ve i : ℕ) (rest : List (SsaBlock Op))
      (regions : Regions)
      → AllRight view blocks resolve_arms regions
      → AllRight view blocks resolve_arms (switches_from view switches ipdom ve i rest regions)
  unfolding switches_from
  switches_right switches ipdom ve i [] regions all = all
  switches_right switches ipdom ve i (block ∷ rest) regions all =
      let found = switch_region view switches ipdom ve i block in
      switches_right switches ipdom ve (suc i) rest (add_region regions i found) (
        add_right regions i found all
          (quiet-IsRight i found (switch-IsQuiet switches ipdom ve i block)))

  loop_region_lem :
      (entered : Bool) (header : ℕ) (latches : List ℕ)
      → (found : Option Region) × (loop_region view blocks succ pred resolve_arms entered header
            latches
          ≡ some found)
        × IsQuiet found
  unfolding loop_region
  loop_region_lem entered header latches =
      let (nodes, n, members) = natural_loop_nodes_lem pred header latches in
      let arms = arms_at view blocks in
      let residual : Option Region =
        if entered then none else residual_loop arms header nodes latches in
      let latched : IsQuiet (or_else (latch_loop arms header latches) residual) =
        IsQuiet-or_else (latch_loop arms header latches) residual
          (IsQuiet-latch_loop arms header latches)
          (IsQuiet-if entered none (residual_loop arms header nodes latches) IsQuiet-none
            (IsQuiet-residual_loop arms header nodes latches)) in
      elim (Option-cases (arms header)) [
        | inl at ↦ rw (n, at) (or_else (latch_loop arms header latches) residual, refl, latched)
        | inr ((fall0, taken0), at) ↦
            let fall = map_arm view blocks resolve_arms fall0 in
            let taken = map_arm view blocks resolve_arms taken0 in
            let (f, f_ends) = reaches_latch_ends succ header fall latches in
            let (t, t_ends) = reaches_latch_ends succ header taken latches in
            rw (n, at, f_ends, t_ends)
              (
                or_else (header_loop header nodes fall taken f t)
                    (or_else (latch_loop arms header latches) residual),
                refl,
                IsQuiet-or_else (header_loop header nodes fall taken f t)
                    (or_else (latch_loop arms header latches) residual)
                    (IsQuiet-header_loop header nodes fall taken f t) latched,
              )
      ]

  pub loops_right :
      (headers : List (ℕ × List ℕ)) (regions : Regions)
      → AllRight view blocks resolve_arms regions
      → (looped : Regions) × (loops_from view blocks succ pred resolve_arms headers regions
          ≡ some looped)
        × AllRight view blocks resolve_arms looped
  unfolding loops_from
  loops_right [] regions all = (regions, refl, all)
  loops_right ((header, latches) ∷ rest) regions all =
      let (found, at, quiet) = loop_region_lem (has_region regions header) header latches in
      rw (loops_from, at)
        (loops_right rest (add_region regions header found)
          (add_right regions header found all (quiet-IsRight header found quiet)))
