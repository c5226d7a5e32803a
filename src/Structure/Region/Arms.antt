-- ===== src/Structure/Region/Arms.antt =====
-- The regions of src/decompiler/structure/region.rs send control where the branches of the blocks do.
use mathlib.Core.Option.{some-injective}
use windy_public.Prelude.{
  ℕ, suc, ◌+◌, ◌-◌, ◌≤◌, ◌<◌, ◌≡◌, inl, inr, refl, sym, ap, ◌∙◌, subst, Bool, true, false,
  Bool-cases, Option-cases, Option, none, some, List, [], ◌∷◌, ◌==◌, ==_iff, length, get_elem?,
  arith, nat_eq,
}
use windy_public.KeyMap.{empty}
use windy_public.Ssa.Types.{SsaBlock}
use windy_public.Ssa.Pdom.{virtual_exit}
use windy_public.Structure.Pcode.{PcodeView, cbranch_arms}
use windy_public.Structure.Jumps.Bounds.{AllInside, AllInside-at, resolve_inside}
use windy_public.Structure.Region.{Region, if_else, if_then, SwitchInfo, back_edges_from, if_region}
use windy_public.Structure.Region.Classify.{
  Regions, has_region, add_region, map_arm, arms_at, merge_of, returns_from, switches_from,
  branch_region, branches_from, classify_regions,
}
use windy_public.Structure.Region.Passes.{
  quiet-IsRight, add_right, returns_right, switches_right, loops_right,
}
use windy_public.Structure.Region.Follow.{
  goes_to, arm_target, IsRight, AllRight, IsStraight, IsFaithful, IsQuiet-none, arm_empty_lem,
}
use windy_public.Structure.Region.Positions.{
  entered, add_region-none, add_region_same, arms_inside, first, later,
}

module _ {Op : Type 0} (view : Op → PcodeView) (blocks : List (SsaBlock Op))
    (succ pred : List (List ℕ)) (resolve_arms : Bool) where
  IsRight-of :
      (b : ℕ) (s : Region)
      → ((c : Bool) → goes_to s c ≡ arm_target view blocks resolve_arms b c)
      → IsRight view blocks resolve_arms b (some s)
  IsRight-of b s each r h c t g =
      sym (each c) ∙ subst (λ x. goes_to x c ≡ some t) (sym (some-injective s r h)) g

  if_IsRight :
      (b fall0 taken0 merge : ℕ) (then_empty else_empty : Bool)
      → arms_at view blocks b ≡ some (fall0, taken0)
      → then_empty ≡ (map_arm view blocks resolve_arms taken0 == merge)
      → else_empty ≡ (map_arm view blocks resolve_arms fall0 == merge)
      → IsRight view blocks resolve_arms b (
          if_region then_empty else_empty
            (map_arm view blocks resolve_arms taken0)
            (map_arm view blocks resolve_arms fall0)
            merge)
  unfolding if_region goes_to arm_target
  if_IsRight b fall0 taken0 merge true true at te ee =
      quiet-IsRight view blocks succ pred resolve_arms b none IsQuiet-none
  if_IsRight b fall0 taken0 merge false false at te ee =
      let arm = map_arm view blocks resolve_arms in
      IsRight-of b (if_else (arm taken0) (arm fall0) merge false) (λ c.
        elim c
          as (λ k.
            goes_to (if_else (arm taken0) (arm fall0) merge false) k
            ≡ arm_target view blocks resolve_arms b k) [
              | true ↦ rw (arm_target, at)
              | false ↦ rw (arm_target, at)
            ])
  if_IsRight b fall0 taken0 merge false true at te ee =
      let arm = map_arm view blocks resolve_arms in
      let same = (==_iff (arm fall0) merge).0 (sym ee) in
      IsRight-of b (if_then (arm taken0) merge false) (λ c.
        elim c
          as (λ k.
            goes_to (if_then (arm taken0) merge false) k
            ≡ arm_target view blocks resolve_arms b k) [
              | true ↦ rw (arm_target, at)
              | false ↦ rw (arm_target, at) (ap some (sym same))
            ])
  if_IsRight b fall0 taken0 merge true false at te ee =
      let arm = map_arm view blocks resolve_arms in
      let same = (==_iff (arm taken0) merge).0 (sym te) in
      IsRight-of b (if_then (arm fall0) merge true) (λ c.
        elim c
          as (λ k.
            goes_to (if_then (arm fall0) merge true) k ≡ arm_target view blocks resolve_arms b k) [
              | true ↦ rw (arm_target, at) (ap some (sym same))
              | false ↦ rw (arm_target, at)
            ])

  if_none-IsStraight :
      (b fall0 taken0 merge : ℕ) (then_empty else_empty : Bool)
      → arms_at view blocks b ≡ some (fall0, taken0)
      → then_empty ≡ (map_arm view blocks resolve_arms taken0 == merge)
      → else_empty ≡ (map_arm view blocks resolve_arms fall0 == merge)
      → if_region then_empty else_empty
          (map_arm view blocks resolve_arms taken0)
          (map_arm view blocks resolve_arms fall0)
          merge
        ≡ none
      → IsStraight view blocks resolve_arms b
  unfolding if_region arm_target
  if_none-IsStraight b fall0 taken0 merge true true at te ee n =
      let arm = map_arm view blocks resolve_arms in
      let taken_merge = (==_iff (arm taken0) merge).0 (sym te) in
      let fall_merge = (==_iff (arm fall0) merge).0 (sym ee) in
      rw (arm_target, at) (ap some (taken_merge ∙ sym fall_merge))
  if_none-IsStraight b fall0 taken0 merge false false at te ee n = absurd (cc n)
  if_none-IsStraight b fall0 taken0 merge false true at te ee n = absurd (cc n)
  if_none-IsStraight b fall0 taken0 merge true false at te ee n = absurd (cc n)

  beyond :
      (i b : ℕ)
      → ((k : ℕ) → get_elem? blocks (i + k) ≡ get_elem? {A = SsaBlock Op} [] k)
      → i ≤ b
      → IsStraight view blocks resolve_arms b
  unfolding arm_target arms_at
  beyond i b at h =
      let outside : get_elem? blocks b ≡ none =
        subst (λ k. get_elem? blocks k ≡ none) (omega (arith, h)) (at (b - i)) in
      rw (arm_target, arms_at, outside)

  module _ (whole : length succ ≡ length blocks) (inside : AllInside (length blocks) blocks) where
    arm_inside :
        (arm : ℕ) → arm < length blocks → map_arm view blocks resolve_arms arm < length succ
    unfolding map_arm
    arm_inside arm h = elim resolve_arms as (λ r. map_arm view blocks r arm < length succ) [
      | true ↦ omega (arith, whole, resolve_inside view blocks (length blocks) arm 16 inside h)
      | false ↦ omega (arith, whole, h)
    ]

    branch_lem :
        (b merge : ℕ) (block : SsaBlock Op)
        → get_elem? blocks b ≡ some block
        → (found : Option Region) × (branch_region view blocks succ pred resolve_arms merge block
            ≡ some found)
          × IsRight view blocks resolve_arms b found
          × (found ≡ none → IsStraight view blocks resolve_arms b)
    unfolding branch_region arms_at arm_target
    branch_lem b merge block at = elim (Option-cases (cbranch_arms view block)) [
      | inl n ↦
          rw (branch_region, n)
            (
              none,
              refl,
              quiet-IsRight view blocks succ pred resolve_arms b none IsQuiet-none,
              λ h. rw (arm_target, arms_at, at, n),
            )
      | inr ((fall0, taken0), n) ↦
          let inside_at = AllInside-at (length blocks) b blocks block inside at in
          let (fall_in, taken_in) =
            arms_inside view (length blocks) block fall0 taken0 inside_at n in
          let fall = map_arm view blocks resolve_arms fall0 in
          let taken = map_arm view blocks resolve_arms taken0 in
          let (te, te_at, te_lem) = arm_empty_lem succ taken merge (arm_inside taken0 taken_in) in
          let (ee, ee_at, ee_lem) = arm_empty_lem succ fall merge (arm_inside fall0 fall_in) in
          let arms : arms_at view blocks b ≡ some (fall0, taken0) = rw (arms_at, at) n in
          rw (branch_region, n, te_at, ee_at)
            (
              if_region te ee taken fall merge,
              refl,
              if_IsRight b fall0 taken0 merge te ee arms te_lem ee_lem,
              λ h. if_none-IsStraight b fall0 taken0 merge te ee arms te_lem ee_lem h,
            )
    ]

    branches_right :
        (ipdom : List (Option ℕ)) (i : ℕ) (rest : List (SsaBlock Op)) (regions : Regions)
        → ((k : ℕ) → get_elem? blocks (i + k) ≡ get_elem? rest k)
        → AllRight view blocks resolve_arms regions
        → (out : Regions) × (branches_from view blocks succ pred resolve_arms ipdom i rest regions
            ≡ some out)
          × AllRight view blocks resolve_arms out
          × ((b : ℕ)
              → out b ≡ none
              → (regions b ≡ none) × (i ≤ b → IsStraight view blocks resolve_arms b))
    unfolding branches_from has_region
    branches_right ipdom i [] regions at all = (regions, refl, all, λ b n. (n, beyond i b at))
    branches_right ipdom i (block ∷ rest) regions at all =
        elim (Bool-cases (has_region regions i)) [
          | inl e ↦
              let (out, ends, right, straight) =
                branches_right ipdom (suc i) rest regions (later blocks i block rest at) all in
              rw (branches_from, e)
                (
                  out,
                  ends,
                  right,
                  λ b n. (
                    (straight b n).0,
                    λ h. elim (Bool-cases (b == i)) [
                      | inl same ↦ absurd (
                          entered regions i e
                            (subst (λ k. regions k ≡ none) ((==_iff b i).0 same) (straight b n).0))
                      | inr other ↦ (straight b n).1 (ground (arith, h, other))
                    ],
                  ),
                )
          | inr e ↦
              let merge = merge_of ipdom (virtual_exit (length blocks)) i in
              let (found, n, right_here, straight_here) =
                branch_lem i merge block (first blocks i block rest at) in
              let (out, ends, right, straight) =
                branches_right ipdom (suc i) rest (add_region regions i found)
                  (later blocks i block rest at)
                  (add_right view blocks succ pred resolve_arms regions i found all right_here) in
              rw (branches_from, e, n)
                (
                  out,
                  ends,
                  right,
                  λ b m. (
                    add_region-none regions i found b (straight b m).0,
                    λ h. elim (Bool-cases (b == i)) [
                      | inl same ↦
                          let at_i =
                            subst (λ k. add_region regions i found k ≡ none) ((==_iff b i).0 same)
                              (straight b m).0 in
                          subst (λ k. IsStraight view blocks resolve_arms k)
                            (sym ((==_iff b i).0 same))
                            (straight_here (add_region_same regions i found at_i))
                      | inr other ↦ (straight b m).1 (ground (arith, h, other))
                    ],
                  ),
                )
        ]

    -- Where the successors are blocks of the function, the classification ends, whatever tables of
    -- dominators it is given, and it is faithful to the branches.
    pub classify_regions_lem :
        (switches : List SwitchInfo) (ipdom idom : List (Option ℕ))
        → (regions : Regions) × (classify_regions view blocks succ pred resolve_arms switches ipdom
              idom
            ≡ some regions)
          × IsFaithful view blocks resolve_arms regions
    unfolding classify_regions
    classify_regions_lem switches ipdom idom =
        let ve = virtual_exit (length blocks) in
        let returned = returns_from view 0 blocks empty in
        let switched = switches_from view switches ipdom ve 0 blocks returned in
        let switched_right =
          switches_right view blocks succ pred resolve_arms switches ipdom ve 0 blocks returned (
            returns_right view blocks succ pred resolve_arms 0 blocks empty
              (λ b r h c t g. absurd (cc h))) in
        let (looped, l, looped_right) =
          loops_right view blocks succ pred resolve_arms (back_edges_from 0 succ idom []) switched
            switched_right in
        let (out, ends, right, straight) =
          branches_right ipdom 0 blocks looped (λ k. ap (get_elem? blocks) (omega arith))
            looped_right in
        rw (l) (out, ends, (right, λ b n. (straight b n).1 (omega arith)))
