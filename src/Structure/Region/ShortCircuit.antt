-- ===== src/Structure/Region/ShortCircuit.antt =====
-- src/decompiler/structure/region.rs: pairs of branches that are printed as one.
use mathlib.Core.Option.{some-injective}
use windy_public.Prelude.{
  ℕ, ◌≡◌, sym, ap, ◌∙◌, subst, inl, inr, Bool, true, false, ◌&&◌, ◌||◌, not, Bool-cases,
  Option-cases, Option, none, some, List, if◌then◌else◌, ◌==◌, arith,
}
use windy_public.Ssa.Types.{SsaBlock}
use windy_public.Structure.Pcode.{PcodeView, cbranch_arms}
use windy_public.Structure.Region.Classify.{arms_at}

pub data Connective : Type 0 where
  and_op or_op : Connective

-- The connective, the second block, the shared target, and the one of the body.
pub record ShortCircuit : Type 0 where
  pub op : Connective
  pub second : ℕ
  pub shared : ℕ
  pub true_target : ℕ

-- The second branch is the fallthrough of the first, and both take the same target.
unfoldable pub and_pair : ℕ → ℕ → ℕ → Option (ℕ × ℕ) → Option ShortCircuit
and_pair id f1 t1 none = none
and_pair id f1 t1 (some (f2, t2)) =
    if not (f1 == id) && (t1 == t2 && (not (f1 == t1) && not (f2 == id)))
    then some record { op = and_op; second = f1; shared = t1; true_target = f2 }
    else none

-- The second branch is the taken one of the first, and both fall to the same target.
unfoldable pub or_pair : ℕ → ℕ → ℕ → Option (ℕ × ℕ) → Option ShortCircuit
or_pair id f1 t1 none = none
or_pair id f1 t1 (some (f2, t2)) =
    if not (t1 == id) && (f1 == f2 && (not (t1 == f1) && not (t2 == id)))
    then some record { op = or_op; second = t1; shared = f1; true_target = t2 }
    else none

module _ {Op : Type 0} (view : Op → PcodeView) where
  unfoldable pub detect_short_circuit : SsaBlock Op → List (SsaBlock Op) → Option ShortCircuit
  unfolding cbranch_arms arms_at and_pair or_pair
  detect_short_circuit b1 blocks = elim (cbranch_arms view b1) [
    | none ↦ none
    | some (f1, t1) ↦ elim (and_pair b1.id f1 t1 (arms_at view blocks f1)) [
      | some found ↦ some found
      | none ↦ or_pair b1.id f1 t1 (arms_at view blocks t1)
    ]
  ]

-- Where a branch goes.
abbrev pub branch_to : Option (ℕ × ℕ) → Bool → Option ℕ
branch_to none c = none
branch_to (some (fall, taken)) c = some (if c then taken else fall)

-- The condition that is printed for the body.
unfoldable pub printed : Connective → Bool → Bool → Bool
printed and_op c1 c2 = c1 && c2
printed or_op c1 c2 = c1 || c2

-- The condition on which control gets to the body.
unfoldable pub entered_on : Connective → Bool → Bool → Bool
entered_on and_op c1 c2 = not c1 && not c2
entered_on or_op c1 c2 = c1 && c2

-- Where control is after a branch, and after the second one if that is where it is.
unfoldable pub runs_to : (ℕ → Option (ℕ × ℕ)) → ℕ → Option (ℕ × ℕ) → Bool → Bool → Option ℕ
runs_to arms second none c1 c2 = none
runs_to arms second (some (fall, taken)) c1 c2 =
    let b = if c1 then taken else fall in
    let further = branch_to (arms b) c2 in if b == second then further else some b

-- What is found says where control goes.
abbrev IsPair : (ℕ → Option (ℕ × ℕ)) → ℕ → ℕ → Bool → Bool → ShortCircuit → Type 0
IsPair arms f1 t1 c1 c2 s =
    runs_to arms s.second (some (f1, t1)) c1 c2
    ≡ some (if entered_on s.op c1 c2 then s.true_target else s.shared)

module _ (arms : ℕ → Option (ℕ × ℕ)) (id f1 t1 : ℕ) where
  and_runs :
      (f2 t2 : ℕ) (c1 c2 : Bool)
      → arms f1 ≡ some (f2, t2)
      → t1 ≡ t2
      → (f1 == t1) ≡ false
      → IsPair arms f1 t1 c1 c2 record { op = and_op; second = f1; shared = t1; true_target = f2 }
  unfolding runs_to entered_on
  and_runs f2 t2 true c2 n same apart =
      let other : (t1 == f1) ≡ false = ground (arith, apart) in rw (other)
  and_runs f2 t2 false true n same apart =
      let self : (f1 == f1) ≡ true = ground arith in rw (self, n) (ap some (sym same))
  and_runs f2 t2 false false n same apart =
      let self : (f1 == f1) ≡ true = ground arith in rw (self, n)

  or_runs :
      (f2 t2 : ℕ) (c1 c2 : Bool)
      → arms t1 ≡ some (f2, t2)
      → f1 ≡ f2
      → (t1 == f1) ≡ false
      → IsPair arms f1 t1 c1 c2 record { op = or_op; second = t1; shared = f1; true_target = t2 }
  unfolding runs_to entered_on
  or_runs f2 t2 false c2 n same apart =
      let other : (f1 == t1) ≡ false = ground (arith, apart) in rw (other)
  or_runs f2 t2 true true n same apart = let self : (t1 == t1) ≡ true = ground arith in rw (self, n)
  or_runs f2 t2 true false n same apart =
      let self : (t1 == t1) ≡ true = ground arith in rw (self, n) (ap some (sym same))

  and_pair_lem :
      (c1 c2 : Bool) (s : ShortCircuit)
      → and_pair id f1 t1 (arms f1) ≡ some s
      → IsPair arms f1 t1 c1 c2 s
  unfolding and_pair
  and_pair_lem c1 c2 s h = elim (Option-cases (arms f1)) [
    | inl n ↦ absurd (cc (rw (and_pair, n) at h))
    | inr ((f2, t2), n) ↦
        let test = not (f1 == id) && (t1 == t2 && (not (f1 == t1) && not (f2 == id))) in
        elim (Bool-cases test) [
          | inl e ↦
              let found : ShortCircuit = record {
                op = and_op;
                second = f1;
                shared = t1;
                true_target = f2;
              } in
              let same : t1 ≡ t2 = ground (arith, e) in
              subst (IsPair arms f1 t1 c1 c2) (some-injective found s (rw (and_pair, n, e) at h))
                (and_runs f2 t2 c1 c2 n same (ground (arith, e)))
          | inr e ↦ absurd (cc (rw (and_pair, n, e) at h))
        ]
  ]

  or_pair_lem :
      (c1 c2 : Bool) (s : ShortCircuit)
      → or_pair id f1 t1 (arms t1) ≡ some s
      → IsPair arms f1 t1 c1 c2 s
  unfolding or_pair
  or_pair_lem c1 c2 s h = elim (Option-cases (arms t1)) [
    | inl n ↦ absurd (cc (rw (or_pair, n) at h))
    | inr ((f2, t2), n) ↦
        let test = not (t1 == id) && (f1 == f2 && (not (t1 == f1) && not (t2 == id))) in
        elim (Bool-cases test) [
          | inl e ↦
              let found : ShortCircuit = record {
                op = or_op;
                second = t1;
                shared = f1;
                true_target = t2;
              } in
              let same : f1 ≡ f2 = ground (arith, e) in
              subst (IsPair arms f1 t1 c1 c2) (some-injective found s (rw (or_pair, n, e) at h))
                (or_runs f2 t2 c1 c2 n same (ground (arith, e)))
          | inr e ↦ absurd (cc (rw (or_pair, n, e) at h))
        ]
  ]

module _ {Op : Type 0} (view : Op → PcodeView) where
  -- From the first block of a pair that is found, control gets to the body exactly if neither condition
  -- holds, for a pair printed with `&&`, or both hold, for one printed with `||`, and otherwise to the
  -- shared target.
  pub detect_short_circuit_lem :
      (b1 : SsaBlock Op) (blocks : List (SsaBlock Op)) (s : ShortCircuit) (c1 c2 : Bool)
      → detect_short_circuit view b1 blocks ≡ some s
      → runs_to (arms_at view blocks) s.second (cbranch_arms view b1) c1 c2
        ≡ some (if entered_on s.op c1 c2 then s.true_target else s.shared)
  unfolding detect_short_circuit
  detect_short_circuit_lem b1 blocks s c1 c2 h = elim (Option-cases (cbranch_arms view b1)) [
    | inl n ↦ absurd (cc (rw (detect_short_circuit, n) at h))
    | inr ((f1, t1), n) ↦
        let arms = arms_at view blocks in
        elim (Option-cases (and_pair b1.id f1 t1 (arms f1))) [
          | inl a ↦
              rw (n) (or_pair_lem arms b1.id f1 t1 c1 c2 s (rw (detect_short_circuit, n, a) at h))
          | inr (found, a) ↦
              rw (n)
                (and_pair_lem arms b1.id f1 t1 c1 c2 s (a ∙ (rw (detect_short_circuit, n, a) at h)))
        ]
  ]
