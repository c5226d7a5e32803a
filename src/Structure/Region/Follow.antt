-- ===== src/Structure/Region/Follow.antt =====
-- Where the regions of src/decompiler/structure/region.rs send control.
use mathlib.Core.Option.{some-injective}
use windy_public.Prelude.{
  ℕ, ◌<◌, ◌≡◌, inl, inr, refl, subst, Bool, true, false, ◌||◌, ◌&&◌, not, Bool-cases, Option-cases,
  Option, none, some, List, [], ◌∷◌, if◌then◌else◌, ◌==◌, length, arith, nat_eq,
}
use windy_public.Ssa.Types.{SsaBlock}
use windy_public.Ssa.NodeSet.{elem}
use windy_public.Structure.Pcode.{PcodeView}
use windy_public.Structure.Walk.Paths.{here, reach_lem}
use windy_public.Structure.Region.{
  Region, if_else, if_then, if_then_fallthrough, while_loop, do_while, or_else, pick_body,
  header_loop, latch_loop, residual_loop, is_nil, arm_empty,
}
use windy_public.Structure.Region.Classify.{Regions, map_arm, arms_at}

-- The block that is entered on a condition, for the regions of a branch.
unfoldable pub goes_to : Region → Bool → Option ℕ
goes_to (if_else then_entry else_entry merge invert) c =
    some (if (if invert then not c else c) then then_entry else else_entry)
goes_to (if_then body_entry merge invert) c =
    some (if (if invert then not c else c) then body_entry else merge)
goes_to (if_then_fallthrough then_entry cont_entry merge invert) c =
    some (if (if invert then not c else c) then then_entry else cont_entry)
goes_to _ c = none

-- A region of no branch.
abbrev pub IsQuiet : Option Region → Type 0
IsQuiet o = (r : Region) → o ≡ some r → (c : Bool) → goes_to r c ≡ none

pub IsQuiet-none : IsQuiet none
IsQuiet-none r h c = absurd (cc h)

pub IsQuiet-some : (s : Region) → ((c : Bool) → goes_to s c ≡ none) → IsQuiet (some s)
IsQuiet-some s q r h c = subst (λ x. goes_to x c ≡ none) (some-injective s r h) (q c)

pub IsQuiet-if :
    (t : Bool) (a b : Option Region) → IsQuiet a → IsQuiet b → IsQuiet (if t then a else b)
IsQuiet-if true a b h k = h
IsQuiet-if false a b h k = k

pub IsQuiet-or_else : (a b : Option Region) → IsQuiet a → IsQuiet b → IsQuiet (or_else a b)
unfolding or_else
IsQuiet-or_else none b h k = k
IsQuiet-or_else (some a) b h k = h

IsQuiet-do_while : (body latch exit : ℕ) → IsQuiet (some (do_while body latch exit))
unfolding goes_to
IsQuiet-do_while body latch exit = IsQuiet-some (do_while body latch exit) (λ c. refl)

IsQuiet-pick_body : (a b : Bool) (fall taken : ℕ) → IsQuiet (pick_body a b fall taken)
unfolding pick_body goes_to
IsQuiet-pick_body true false fall taken = IsQuiet-some (while_loop fall taken) (λ c. refl)
IsQuiet-pick_body false true fall taken = IsQuiet-some (while_loop taken fall) (λ c. refl)
IsQuiet-pick_body true true fall taken = IsQuiet-none
IsQuiet-pick_body false false fall taken = IsQuiet-none

pub IsQuiet-header_loop :
    (header : ℕ) (nodes : List ℕ) (fall taken : ℕ) (f t : Bool)
    → IsQuiet (header_loop header nodes fall taken f t)
unfolding header_loop
IsQuiet-header_loop header nodes fall taken f t =
    let fall_in = elem fall nodes || fall == header in
    let taken_in = elem taken nodes || taken == header in
    IsQuiet-if (fall == header || taken == header)
      (some (do_while header header (if fall == header then taken else fall)))
      (or_else (pick_body fall_in taken_in fall taken)
        (if fall_in && taken_in then pick_body f t fall taken else none))
      (IsQuiet-do_while header header (if fall == header then taken else fall))
      (IsQuiet-or_else (pick_body fall_in taken_in fall taken)
        (if fall_in && taken_in then pick_body f t fall taken else none)
        (IsQuiet-pick_body fall_in taken_in fall taken)
        (IsQuiet-if (fall_in && taken_in) (pick_body f t fall taken) none
          (IsQuiet-pick_body f t fall taken) IsQuiet-none))

module _ (arms : ℕ → Option (ℕ × ℕ)) (header : ℕ) where
  pub IsQuiet-latch_loop : (latches : List ℕ) → IsQuiet (latch_loop arms header latches)
  unfolding latch_loop
  IsQuiet-latch_loop [] = IsQuiet-none
  IsQuiet-latch_loop (latch ∷ latches) = elim (Bool-cases (latch == header)) [
    | inl e ↦ rw (e, latch_loop) (IsQuiet-latch_loop latches)
    | inr e ↦ elim (Option-cases (arms latch)) [
      | inl n ↦ rw (e, latch_loop, n) (IsQuiet-latch_loop latches)
      | inr ((fall, taken), at) ↦
          rw (e, latch_loop, at)
            (IsQuiet-if (fall == header || taken == header)
              (some (do_while header latch (if fall == header then taken else fall)))
              (latch_loop arms header latches)
              (IsQuiet-do_while header latch (if fall == header then taken else fall))
              (IsQuiet-latch_loop latches))
    ]
  ]

  pub IsQuiet-residual_loop :
      (nodes latches : List ℕ) → IsQuiet (residual_loop arms header nodes latches)
  unfolding residual_loop
  IsQuiet-residual_loop nodes [] = IsQuiet-none
  IsQuiet-residual_loop nodes (latch ∷ latches) = elim (Option-cases (arms latch)) [
    | inl n ↦ rw (residual_loop, n) (IsQuiet-residual_loop nodes latches)
    | inr ((fall, taken), at) ↦ rw (residual_loop, at) (IsQuiet-do_while header latch _)
  ]

-- An arm is empty exactly if it is the merge.
pub arm_empty_lem :
    (succ : List (List ℕ)) (arm merge : ℕ)
    → arm < length succ
    → (e : Bool) × (arm_empty succ arm merge ≡ some e) × (e ≡ (arm == merge))
unfolding arm_empty is_nil elem
arm_empty_lem succ arm merge h = elim (Bool-cases (arm == merge)) [
  | inl e ↦ rw (e) (true, refl, refl)
  | inr e ↦
      let (r, at, found) = reach_lem succ arm merge in
      let inside = (found arm).1 (here h (λ same. ground (arith, e, same))) in
      rw (e, at)
        (elim r
            as (λ s. elem arm s ≡ true → (x : Bool) × (some (is_nil s) ≡ some x) × (x ≡ false)) [
              | [] ↦ λ k. absurd (ground (arith, k))
              | y ∷ ys ↦ λ k. (false, refl, refl)
            ]
          inside)
]

module _ {Op : Type 0} (view : Op → PcodeView) (blocks : List (SsaBlock Op))
    (resolve_arms : Bool) where
  -- The block that the branch of `b` enters on a condition, jumps followed if asked for.
  unfoldable pub arm_target : ℕ → Bool → Option ℕ
  arm_target b c = elim (arms_at view blocks b) [
    | none ↦ none
    | some (fall, taken) ↦ some (map_arm view blocks resolve_arms (if c then taken else fall))
  ]

  -- A region, if there is one, that goes where the branch of the block goes.
  abbrev pub IsRight : ℕ → Option Region → Type 0
  IsRight b o =
      (r : Region)
      → o ≡ some r
      → (c : Bool) (t : ℕ) → goes_to r c ≡ some t
      → arm_target b c ≡ some t

  abbrev pub AllRight : Regions → Type 0
  AllRight regions = (b : ℕ) → IsRight b (regions b)

  -- The branch of a block goes to one place, whatever its condition, or the block has none.
  abbrev pub IsStraight : ℕ → Type 0
  IsStraight b = arm_target b true ≡ arm_target b false

  -- Every region of a branch goes where the branch goes, and a block without a region is straight.
  abbrev pub IsFaithful : Regions → Type 0
  IsFaithful regions = AllRight regions × ((b : ℕ) → regions b ≡ none → IsStraight b)
