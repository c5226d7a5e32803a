-- ===== src/Ssa/Alias/Ends.antt =====
-- The passes over copies and phis keep links to roots, so that a search ends.
use windy_public.Prelude.{
  ℕ, zero, suc, ◌≡◌, refl, ap, subst, Bool, false, Bool-cases, Option-cases, Option, none, some,
  List, [], ◌∷◌, inl, inr, arith, length,
}
use windy_public.KeyMap.{KeyMap}
use windy_public.Ssa.Types.{SsaVar, var_eq, SsaOpKind, phi, pcode, SsaOp}
use windy_public.Ssa.Alias.{
  OpView, copy_constant, copy_storage, returns, effect, computes, Aliases, Resolved, resolved_var,
  resolved_const, resolved_beq, find, find_alias, links, resolve_var, union, record_copy,
  common_value, trivial_value, collapse, phi_round, phi_rounds, copy_pass, find_aliases, no_aliases,
}
use windy_public.Ssa.Alias.Roots.{
  IsGrounded, HasRoots, find_alias-FindsRoot, resolve_var-HasRoots, union-Joined,
}

IsGrounded-counted :
    (k n : ℕ) (parent : KeyMap SsaVar SsaVar) → k ≡ n → IsGrounded k parent → IsGrounded n parent
IsGrounded-counted k n parent e g = subst (λ m. IsGrounded m parent) e g

record_copy-HasRoots :
    (va target_va : ℕ) (o : OpView) (d : SsaVar) (t : Option SsaVar) (s : Aliases)
    → HasRoots s
    → HasRoots (record_copy va target_va o d t s)
unfolding record_copy
record_copy-HasRoots va tva (copy_constant a b) d t s g = g
record_copy-HasRoots va tva copy_storage d none s g = g
record_copy-HasRoots va tva copy_storage d (some t) s g =
    let j = union-Joined s d t g in
    elim (Bool-cases (union s d t).0) [
      | inl e ↦ rw e (
          IsGrounded-counted _ _ (union s d t).1.parent
            (omega (arith, ap (λ a. a.copies_propagated) j.same, ap (λ a. a.phis_collapsed) j.same))
            (j.linked e))
      | inr e ↦ rw e (j.apart e)
    ]
record_copy-HasRoots va tva returns d t s g = g
record_copy-HasRoots va tva effect d t s g = g
record_copy-HasRoots va tva computes d t s g = g

common_value-HasRoots :
    (args : List (Option SsaVar)) (r : Resolved) (s : Aliases)
    → HasRoots s
    → HasRoots (common_value args r s).1
unfolding common_value
common_value-HasRoots [] r s g = g
common_value-HasRoots (none ∷ args) r s g = g
common_value-HasRoots (some v ∷ args) r s g =
    let after = resolve_var-HasRoots s v g in
    elim (Bool-cases (resolved_beq r (resolve_var s v).0)) [
      | inl e ↦ rw (e, common_value) (common_value-HasRoots args r (resolve_var s v).1 after)
      | inr e ↦ rw (e, common_value) after
    ]

trivial_value-HasRoots :
    (args : List (Option SsaVar)) (s : Aliases) → HasRoots s → HasRoots (trivial_value args s).1
unfolding trivial_value
trivial_value-HasRoots [] s g = g
trivial_value-HasRoots (none ∷ args) s g = g
trivial_value-HasRoots (some v ∷ args) s g =
    common_value-HasRoots args (resolve_var s v).0 (resolve_var s v).1 (resolve_var-HasRoots s v g)

collapse-HasRoots :
    (out : SsaVar) (o : Option Resolved) (s : Aliases) → HasRoots s → HasRoots (collapse out o s).1
unfolding collapse
collapse-HasRoots out none s g = g
collapse-HasRoots out (some (resolved_const a b)) s g = g
collapse-HasRoots out (some (resolved_var t)) s g =
    let j = union-Joined s out t g in
    elim (Bool-cases (union s out t).0) [
      | inl e ↦ rw e (
          IsGrounded-counted _ _ (union s out t).1.parent
            (omega (arith, ap (λ a. a.copies_propagated) j.same, ap (λ a. a.phis_collapsed) j.same))
            (j.linked e))
      | inr e ↦ rw e (j.apart e)
    ]

module _ {Op : Type 0} (view : Op → OpView) where
  copy_pass-HasRoots :
      (work : List (ℕ × SsaOp Op)) (defs : KeyMap SsaVar ℕ) (ops : List (ℕ × SsaOp Op))
      (s : Aliases)
      → HasRoots s
      → HasRoots (copy_pass view work defs ops s)
  unfolding copy_pass
  copy_pass-HasRoots work defs [] s g = g
  copy_pass-HasRoots work defs ((b, op) ∷ rest) s g = elim (Option-cases op.def) [
    | inl n ↦ rw n (copy_pass-HasRoots work defs rest s g)
    | inr (d, e) ↦
        rw e (copy_pass-HasRoots work defs rest _ (record_copy-HasRoots op.va _ _ d _ s g))
  ]

  phi_round-HasRoots :
      (ops : List (ℕ × SsaOp Op)) (changed : Bool) (s : Aliases)
      → HasRoots s
      → HasRoots (phi_round ops changed s).1
  unfolding phi_round
  phi_round-HasRoots [] changed s g = g
  phi_round-HasRoots ((b, op) ∷ rest) changed s g =
      go op.kind refl (λ c t h. phi_round-HasRoots rest c t h)
    where
      go :
          (k : SsaOpKind Op)
          → op.kind ≡ k
          → ((c : Bool) (t : Aliases) → HasRoots t → HasRoots (phi_round rest c t).1)
          → HasRoots (phi_round ((b, op) ∷ rest) changed s).1
      go (pcode o) e next = rw (e, phi_round) (next changed s g)
      go (phi p) e next =
          rw (e, phi_round)
            (next _ _ (
              collapse-HasRoots p.out (trivial_value p.args s).0 (trivial_value p.args s).1
                (trivial_value-HasRoots p.args s g)))

  phi_rounds-HasRoots :
      (rounds : ℕ) (ops : List (ℕ × SsaOp Op)) (s : Aliases)
      → HasRoots s
      → HasRoots (phi_rounds rounds ops s)
  unfolding phi_rounds
  phi_rounds-HasRoots zero ops s g = g
  phi_rounds-HasRoots (suc rounds) ops s g =
      let after = phi_round-HasRoots ops false s g in
      elim (Bool-cases (phi_round ops false s).0) [
        | inl e ↦
            rw (e, phi_rounds) (phi_rounds-HasRoots rounds ops (phi_round ops false s).1 after)
        | inr e ↦ rw (e, phi_rounds) after
      ]

  no_aliases-HasRoots : (before : ℕ) → HasRoots (no_aliases before)
  unfolding no_aliases
  no_aliases-HasRoots before = record {
    rank = λ v. 0;
    bounded = λ v. omega arith;
    down = λ v w h. absurd (cc h);
  }

find_aliases-HasRoots :
    {Op : Type 0} (view : Op → OpView) (defs : KeyMap SsaVar ℕ) (work : List (ℕ × SsaOp Op))
    (before : ℕ)
    → HasRoots (find_aliases view defs work before)
unfolding find_aliases
find_aliases-HasRoots view defs work before =
    phi_rounds-HasRoots view (suc (length work)) work
      (copy_pass view work defs work (no_aliases before))
      (copy_pass-HasRoots view work defs work (no_aliases before) (no_aliases-HasRoots view before))

find_alias-root : (s : Aliases) (v : SsaVar) → s.parent v ≡ none → (find_alias s v).0 ≡ v
unfolding find_alias links find
find_alias-root s v e = rw (e, find) refl

-- After the passes over the copies and the phis, a search from any variable ends at a variable that
-- is no alias, and a search from there, in what the first one leaves, stays there.
pub find_alias-find_aliases :
    {Op : Type 0} (view : Op → OpView) (defs : KeyMap SsaVar ℕ) (work : List (ℕ × SsaOp Op))
    (before : ℕ) (v : SsaVar)
    → ((find_aliases view defs work before).parent
          (find_alias (find_aliases view defs work before) v).0
        ≡ none)
      × ((find_alias
            (find_alias (find_aliases view defs work before) v).1
            (find_alias (find_aliases view defs work before) v).0).0
          ≡ (find_alias (find_aliases view defs work before) v).0)
find_alias-find_aliases view defs work before v =
    let s = find_aliases view defs work before in
    let r = find_alias-FindsRoot s (find_aliases-HasRoots view defs work before) v in
    (
      r.root,
      find_alias-root (find_alias s v).1 (find_alias s v).0
          (r.still_root (find_alias s v).0 r.root),
    )
