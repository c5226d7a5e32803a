-- ===== src/Ssa/Alias/Values.antt =====
-- Aliases keep values: a variable and its root have the same one.
use mathlib.Core.Option.{some-injective}
use windy_public.Prelude.{
  ℕ, zero, suc, ◌≡◌, refl, sym, ap, ap₂, ◌∙◌, subst, Bool, true, false, Bool-cases, Option-cases,
  Option, none, some, List, [], ◌∷◌, map, inl, inr, length,
}
use windy_public.KeyMap.{KeyMap, insert}
use windy_public.Ssa.Types.{
  SsaVar, var_beq, var_eq, var_beq_iff, PhiNode, SsaOpKind, phi, pcode, SsaOp,
}
use windy_public.Ssa.Alias.{
  OpView, copy_constant, copy_storage, returns, effect, computes, Aliases, Resolved, resolved_var,
  resolved_const, resolved_beq, find, find_alias, resolve_var, union, record_copy, first_use,
  common_value, trivial_value, collapse, phi_round, phi_rounds, repoint_uses, repoint_args,
  repoint_kind, copy_pass, view_of, links, find_aliases, no_aliases,
}

module _ {V : Type 0} (val : SsaVar → V) where
  -- Every link of the map is between variables of the same value.
  abbrev pub IsSound : KeyMap SsaVar SsaVar → Type 0
  IsSound parent = (v w : SsaVar) → parent v ≡ some w → val v ≡ val w

  IsSound-insert :
      (parent : KeyMap SsaVar SsaVar) (k w : SsaVar)
      → IsSound parent
      → val k ≡ val w
      → IsSound (insert parent k w)
  unfolding insert
  IsSound-insert parent k w sound same v u h = elim (Bool-cases (var_beq k v)) [
    | inl e ↦
        sym (ap val ((var_beq_iff k v).0 e))
        ∙ same
        ∙ ap val (some-injective w u (sym (rw e refl) ∙ h))
    | inr e ↦ sound v u (sym (rw e refl) ∙ h)
  ]

  find-IsSound :
      (fuel : ℕ) (parent : KeyMap SsaVar SsaVar) (v : SsaVar)
      → IsSound parent
      → (val (find fuel parent v).0 ≡ val v) × IsSound (find fuel parent v).1
  unfolding find
  find-IsSound zero parent v sound = (refl, sound)
  find-IsSound (suc fuel) parent v sound = elim (Option-cases (parent v)) [
    | inl n ↦ rw (n, find) (refl, sound)
    | inr (next, e) ↦ elim (Bool-cases (var_beq next v)) [
      | inl same ↦ rw (e, same, find) (refl, sound)
      | inr other ↦
          let (keeps, deeper) = find-IsSound fuel parent next sound in
          let value = keeps ∙ sym (sound v next e) in
          rw (e, other, find)
            (
              value,
              IsSound-insert (find fuel parent next).1 v (find fuel parent next).0 deeper
                  (sym value),
            )
    ]
  ]

  pub find_alias-IsSound :
      (s : Aliases) (v : SsaVar)
      → IsSound s.parent
      → (val (find_alias s v).0 ≡ val v) × IsSound (find_alias s v).1.parent
  unfolding find_alias
  find_alias-IsSound s v sound = find-IsSound (links s.analysis) s.parent v sound

  union-IsSound :
      (s : Aliases) (d t : SsaVar)
      → IsSound s.parent
      → val d ≡ val t
      → IsSound (union s d t).1.parent
  unfolding union
  union-IsSound s d t sound same =
      let (keeps_d, sound_d) = find_alias-IsSound s d sound in
      let (keeps_t, sound_t) = find_alias-IsSound (find_alias s d).1 t sound_d in
      elim (Bool-cases (var_beq (find_alias s d).0 (find_alias (find_alias s d).1 t).0)) [
        | inl e ↦ rw e sound_t
        | inr e ↦ rw e (IsSound-insert _ _ _ sound_t (keeps_d ∙ same ∙ sym keeps_t))
      ]

  -- What `r` says of a value: a variable has it; a constant says nothing.
  abbrev Says : Resolved → V → Type 0
  Says (resolved_var t) x = val t ≡ x
  Says (resolved_const a b) x = Unit

  resolve_var-IsSound :
      (s : Aliases) (v : SsaVar)
      → IsSound s.parent
      → Says (resolve_var s v).0 (val v) × IsSound (resolve_var s v).1.parent
  unfolding resolve_var
  resolve_var-IsSound s v sound =
      let (keeps, after) = find_alias-IsSound s v sound in
      elim (Option-cases (s.const_val (find_alias s v).0)) [
        | inr (c, e) ↦ rw e (tt, after)
        | inl n ↦ elim (Option-cases (s.const_val v)) [
          | inr (c, e) ↦ rw (n, e) (tt, after)
          | inl m ↦ rw (n, m) (keeps, after)
        ]
      ]

  -- All arguments are there and have the value `x`.
  abbrev pub AllHave : V → List (Option SsaVar) → Type 0
  AllHave x [] = Unit
  AllHave x (none ∷ args) = ⊥
  AllHave x (some v ∷ args) = (val v ≡ x) × AllHave x args

  same_var :
      (r : Resolved) (t : SsaVar) → resolved_beq (resolved_var t) r ≡ true → r ≡ resolved_var t
  unfolding resolved_beq
  same_var (resolved_var v) t h = ap resolved_var (sym ((var_beq_iff t v).0 h))
  same_var (resolved_const a b) t h = absurd (cc h)

  common_value-IsSound :
      (args : List (Option SsaVar)) (r : Resolved) (s : Aliases)
      → IsSound s.parent
      → IsSound (common_value args r s).1.parent
  unfolding common_value
  common_value-IsSound [] r s sound = sound
  common_value-IsSound (none ∷ args) r s sound = sound
  common_value-IsSound (some v ∷ args) r s sound =
      let (says, after) = resolve_var-IsSound s v sound in
      elim (Bool-cases (resolved_beq r (resolve_var s v).0)) [
        | inl e ↦ rw (e, common_value) (common_value-IsSound args r (resolve_var s v).1 after)
        | inr e ↦ rw (e, common_value) after
      ]

  common_value-AllHave :
      (args : List (Option SsaVar)) (t : SsaVar) (s : Aliases) (q : Resolved)
      → IsSound s.parent
      → (common_value args (resolved_var t) s).0 ≡ some q
      → AllHave (val t) args
  unfolding common_value
  common_value-AllHave [] t s q sound h = tt
  common_value-AllHave (none ∷ args) t s q sound h = absurd (cc h)
  common_value-AllHave (some v ∷ args) t s q sound h =
      let (says, after) = resolve_var-IsSound s v sound in
      elim (Bool-cases (resolved_beq (resolved_var t) (resolve_var s v).0)) [
        | inl e ↦ (
          sym (subst (λ r. Says r (val v)) (same_var (resolve_var s v).0 t e) says),
          common_value-AllHave args t (resolve_var s v).1 q after (rw (e, common_value) at h),
        )
        | inr e ↦ absurd (cc (rw (e, common_value) at h))
      ]

  common_value-some :
      (args : List (Option SsaVar)) (r q : Resolved) (s : Aliases)
      → (common_value args r s).0 ≡ some q
      → r ≡ q
  unfolding common_value
  common_value-some [] r q s h = some-injective r q h
  common_value-some (none ∷ args) r q s h = absurd (cc h)
  common_value-some (some v ∷ args) r q s h =
      elim (Bool-cases (resolved_beq r (resolve_var s v).0)) [
        | inl e ↦ common_value-some args r q (resolve_var s v).1 (rw (e, common_value) at h)
        | inr e ↦ absurd (cc (rw (e, common_value) at h))
      ]

  -- Where all of its arguments have one value, the phi has it.
  abbrev pub PhiHolds : SsaVar → List (Option SsaVar) → Type 0
  PhiHolds out [] = Unit
  PhiHolds out (a ∷ args) = (x : V) → AllHave x (a ∷ args) → val out ≡ x

  trivial_value-IsSound :
      (args : List (Option SsaVar)) (s : Aliases)
      → IsSound s.parent
      → IsSound (trivial_value args s).1.parent
  unfolding trivial_value
  trivial_value-IsSound [] s sound = sound
  trivial_value-IsSound (none ∷ args) s sound = sound
  trivial_value-IsSound (some v ∷ args) s sound =
      common_value-IsSound args (resolve_var s v).0 (resolve_var s v).1
        (resolve_var-IsSound s v sound).1

  trivial_value-same :
      (out : SsaVar) (args : List (Option SsaVar)) (s : Aliases) (t : SsaVar)
      → IsSound s.parent
      → PhiHolds out args
      → (trivial_value args s).0 ≡ some (resolved_var t)
      → val out ≡ val t
  unfolding trivial_value
  trivial_value-same out [] s t sound holds h = absurd (cc h)
  trivial_value-same out (none ∷ args) s t sound holds h = absurd (cc h)
  trivial_value-same out (some v ∷ args) s t sound holds h =
      let (says, after) = resolve_var-IsSound s v sound in
      let first =
        common_value-some args (resolve_var s v).0 (resolved_var t) (resolve_var s v).1 h in
      holds (val t) (
        sym (subst (λ r. Says r (val v)) first says),
        common_value-AllHave args t (resolve_var s v).1 (resolved_var t) after (
            subst (λ r. (common_value args r (resolve_var s v).1).0 ≡ some (resolved_var t)) first
              h),
      )

  collapse-IsSound :
      (out : SsaVar) (o : Option Resolved) (s : Aliases)
      → IsSound s.parent
      → ((t : SsaVar) → o ≡ some (resolved_var t) → val out ≡ val t)
      → IsSound (collapse out o s).1.parent
  unfolding collapse
  collapse-IsSound out none s sound same = sound
  collapse-IsSound out (some (resolved_const a b)) s sound same = sound
  collapse-IsSound out (some (resolved_var t)) s sound same =
      let joined = union-IsSound s out t sound (same t refl) in
      elim (Bool-cases (union s out t).0) [ inl e ↦ rw e joined | inr e ↦ rw e joined ]

  -- A copy has the value of what it copies.
  abbrev pub CopyHolds : OpView → SsaVar → Option SsaVar → Type 0
  CopyHolds copy_storage d (some t) = val d ≡ val t
  CopyHolds _ d o = Unit

  record_copy-IsSound :
      (va target_va : ℕ) (o : OpView) (d : SsaVar) (t : Option SsaVar) (s : Aliases)
      → CopyHolds o d t
      → IsSound s.parent
      → IsSound (record_copy va target_va o d t s).parent
  unfolding record_copy
  record_copy-IsSound va tva (copy_constant a b) d t s holds sound = sound
  record_copy-IsSound va tva copy_storage d none s holds sound = sound
  record_copy-IsSound va tva copy_storage d (some t) s holds sound =
      let joined = union-IsSound s d t sound holds in
      elim (Bool-cases (union s d t).0) [ inl e ↦ rw e joined | inr e ↦ rw e joined ]
  record_copy-IsSound va tva returns d t s holds sound = sound
  record_copy-IsSound va tva effect d t s holds sound = sound
  record_copy-IsSound va tva computes d t s holds sound = sound

  module _ {Op : Type 0} (view : Op → OpView) where
    -- The values satisfy the copies and the phis of the function.
    abbrev pub OpHolds : SsaOp Op → Type 0
    OpHolds op =
        ((d : SsaVar) → op.def ≡ some d → CopyHolds (view_of view op.kind) d (first_use op.uses))
        × ((p : PhiNode) → op.kind ≡ phi p → PhiHolds p.out p.args)

    abbrev pub AllHold : List (ℕ × SsaOp Op) → Type 0
    AllHold [] = Unit
    AllHold ((b, op) ∷ rest) = OpHolds op × AllHold rest

    copy_pass-IsSound :
        (work : List (ℕ × SsaOp Op)) (defs : KeyMap SsaVar ℕ) (ops : List (ℕ × SsaOp Op))
        (s : Aliases)
        → AllHold ops
        → IsSound s.parent
        → IsSound (copy_pass view work defs ops s).parent
    unfolding copy_pass
    copy_pass-IsSound work defs [] s holds sound = sound
    copy_pass-IsSound work defs ((b, op) ∷ rest) s holds sound = elim (Option-cases op.def) [
      | inl n ↦ rw n (copy_pass-IsSound work defs rest s holds.1 sound)
      | inr (d, e) ↦ rw e (
          copy_pass-IsSound work defs rest _ holds.1 (
            record_copy-IsSound op.va _ (view_of view op.kind) d (first_use op.uses) s
              (holds.0.0 d e) sound))
    ]

    phi_round-IsSound :
        (ops : List (ℕ × SsaOp Op)) (changed : Bool) (s : Aliases)
        → AllHold ops
        → IsSound s.parent
        → IsSound (phi_round ops changed s).1.parent
    unfolding phi_round
    phi_round-IsSound [] changed s holds sound = sound
    phi_round-IsSound ((b, op) ∷ rest) changed s holds sound =
        go op.kind refl (λ c t h. phi_round-IsSound rest c t holds.1 h)
      where
        go :
            (k : SsaOpKind Op)
            → op.kind ≡ k
            → ((c : Bool) (t : Aliases) → IsSound t.parent → IsSound (phi_round rest c t).1.parent)
            → IsSound (phi_round ((b, op) ∷ rest) changed s).1.parent
        go (pcode o) e next = rw (e, phi_round) (next changed s sound)
        go (phi p) e next =
            rw (e, phi_round)
              (next _ _ (
                collapse-IsSound p.out (trivial_value p.args s).0 (trivial_value p.args s).1
                  (trivial_value-IsSound p.args s sound)
                  (λ t h. trivial_value-same p.out p.args s t sound (holds.0.1 p e) h)))

    phi_rounds-IsSound :
        (rounds : ℕ) (ops : List (ℕ × SsaOp Op)) (s : Aliases)
        → AllHold ops
        → IsSound s.parent
        → IsSound (phi_rounds rounds ops s).parent
    unfolding phi_rounds
    phi_rounds-IsSound zero ops s holds sound = sound
    phi_rounds-IsSound (suc rounds) ops s holds sound =
        let after = phi_round-IsSound ops false s holds sound in
        elim (Bool-cases (phi_round ops false s).0) [
          | inl e ↦
              rw (e, phi_rounds)
                (phi_rounds-IsSound rounds ops (phi_round ops false s).1 holds after)
          | inr e ↦ rw (e, phi_rounds) after
        ]

    pub find_aliases-IsSound :
        (defs : KeyMap SsaVar ℕ) (work : List (ℕ × SsaOp Op)) (before : ℕ)
        → AllHold work
        → IsSound (find_aliases view defs work before).parent
    unfolding find_aliases no_aliases
    find_aliases-IsSound defs work before holds =
        phi_rounds-IsSound (suc (length work)) work
          (copy_pass view work defs work (no_aliases before)) holds
          (copy_pass-IsSound work defs work (no_aliases before) holds (λ v w h. absurd (cc h)))

  repoint_uses-IsSound :
      (us : List SsaVar) (s : Aliases)
      → IsSound s.parent
      → (map val (repoint_uses us s).0 ≡ map val us) × IsSound (repoint_uses us s).1.parent
  unfolding repoint_uses
  repoint_uses-IsSound [] s sound = (refl, sound)
  repoint_uses-IsSound (u ∷ us) s sound =
      let (keeps, next) = find_alias-IsSound s u sound in
      let (rest, after) = repoint_uses-IsSound us (find_alias s u).1 next in
      (ap₂ (λ x xs. x ∷ xs) keeps rest, after)

  repoint_args-IsSound :
      (args : List (Option SsaVar)) (s : Aliases)
      → IsSound s.parent
      → IsSound (repoint_args args s).1.parent
  unfolding repoint_args
  repoint_args-IsSound [] s sound = sound
  repoint_args-IsSound (none ∷ args) s sound = repoint_args-IsSound args s sound
  repoint_args-IsSound (some v ∷ args) s sound =
      repoint_args-IsSound args (find_alias s v).1 (find_alias-IsSound s v sound).1

  repoint_kind-IsSound :
      {Op : Type 0} (k : SsaOpKind Op) (s : Aliases)
      → IsSound s.parent
      → IsSound (repoint_kind k s).1.parent
  unfolding repoint_kind
  repoint_kind-IsSound (pcode o) s sound = sound
  repoint_kind-IsSound (phi p) s sound = repoint_args-IsSound p.args s sound

  pub repoint_op-IsSound :
      {Op : Type 0} (op : SsaOp Op) (s : Aliases)
      → IsSound s.parent
      → (map val (repoint_uses op.uses s).0 ≡ map val op.uses)
        × IsSound (repoint_kind op.kind (repoint_uses op.uses s).1).1.parent
  repoint_op-IsSound op s sound =
      let (values, next) = repoint_uses-IsSound op.uses s sound in
      (values, repoint_kind-IsSound op.kind (repoint_uses op.uses s).1 next)
