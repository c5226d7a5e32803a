-- ===== src/Ssa/Simplify/Marks.antt =====
-- The worklist of pass 4: it runs empty, and what was marked stays marked.
use mathlib.Core.Option.{some-injective}
use windy_public.Prelude.{
  ℕ, zero, suc, ◌+◌, ◌<◌, ◌≤◌, ◌≡◌, refl, sym, ap, ◌∙◌, subst, true, ◌||◌, Bool-cases, Option-cases,
  Option, none, some, List, [], ◌∷◌, ◌++◌, inl, inr, arith, length,
}
use windy_public.KeyMap.{KeyMap, insert}
use windy_public.Ssa.Types.{SsaVar, var_beq, var_eq, SsaOp}
use windy_public.Ssa.NodeSet.{elem, elem-insert}
use windy_public.Ssa.Cfg.{done, add_each, idf_loop}
use windy_public.Ssa.Cfg.Frontier.{
  AllBelow, IsInside, elem-add_each, missing, work-add_each, AllBelow-add_each, frontier_at,
}
use windy_public.Ssa.Alias.{Aliases, find_alias, index_defs}
use windy_public.Ssa.Simplify.{
  mark, mark_def, defs_of_uses, args_of_kind, needs, is_rax, mark_root, rax_step, seed_rax,
}

-- Where every need is the index of an operation, the loop ends with all that was live still live.
pub live_loop :
    (needs : List (List ℕ)) (fuel : ℕ) (live stack : List ℕ)
    → IsInside (length needs) needs
    → AllBelow (length needs) stack
    → missing (length needs) live + length stack < fuel
    → (r : List ℕ) × (idf_loop fuel needs live stack ≡ done r)
      × ((y : ℕ) → elem y live ≡ true → elem y r ≡ true)
unfolding idf_loop
live_loop needs zero live stack inside below h = absurd (omega arith)
live_loop needs (suc fuel) live [] inside below h = (live, refl, λ y m. m)
live_loop needs (suc fuel) live (i ∷ stack) inside below h =
    let (ys, at, ok) = frontier_at (length needs) i needs inside below.0 in
    let measure = work-add_each (length needs) ys live stack ok in
    let (r, e, grows) =
      live_loop needs fuel (add_each ys live stack).0 (add_each ys live stack).1 inside
        (AllBelow-add_each (length needs) ys live stack ok below.1) (omega (arith, measure, h)) in
    (r, rw (at, idf_loop) e, λ y m. grows y (ground (arith, elem-add_each y ys live stack, m)))

-- The indices of definitions are below `n`.
abbrev pub IndexBelow : ℕ → KeyMap SsaVar ℕ → Type 0
IndexBelow n defs = (v : SsaVar) (i : ℕ) → defs v ≡ some i → i < n

AllBelow-defs_of_uses :
    (n : ℕ) (defs : KeyMap SsaVar ℕ) (us : List SsaVar)
    → IndexBelow n defs
    → AllBelow n (defs_of_uses defs us)
unfolding defs_of_uses
AllBelow-defs_of_uses n defs [] h = tt
AllBelow-defs_of_uses n defs (u ∷ us) h = elim (Option-cases (defs u)) [
  | inl e ↦ rw (e, defs_of_uses) (AllBelow-defs_of_uses n defs us h)
  | inr (i, e) ↦ rw (e, defs_of_uses) (h u i e, AllBelow-defs_of_uses n defs us h)
]

IndexBelow-insert :
    (n i : ℕ) (defs : KeyMap SsaVar ℕ) (d : SsaVar)
    → i < n
    → IndexBelow n defs
    → IndexBelow n (insert defs d i)
unfolding insert
IndexBelow-insert n i defs d h below v j e = elim (Bool-cases (var_beq d v)) [
  | inl same ↦ subst (λ k. k < n) (some-injective i j (sym (rw same refl) ∙ e)) h
  | inr other ↦ below v j (sym (rw other refl) ∙ e)
]

module _ {Op : Type 0} where
  pub IsInside-needs :
      (n : ℕ) (defs : KeyMap SsaVar ℕ) (work : List (ℕ × SsaOp Op))
      → IndexBelow n defs
      → IsInside n (needs defs work)
  unfolding needs
  IsInside-needs n defs [] h = tt
  IsInside-needs n defs ((b, op) ∷ rest) h = (
    AllBelow-defs_of_uses n defs (op.uses ++ args_of_kind op.kind) h,
    IsInside-needs n defs rest h,
  )

  pub length-needs :
      (defs : KeyMap SsaVar ℕ) (work : List (ℕ × SsaOp Op)) → length (needs defs work) ≡ length work
  unfolding needs
  length-needs defs [] = refl
  length-needs defs ((b, op) ∷ rest) = ap suc (length-needs defs rest)

  pub IndexBelow-index_defs :
      (n i : ℕ) (work : List (ℕ × SsaOp Op)) (defs : KeyMap SsaVar ℕ)
      → i + length work ≤ n
      → IndexBelow n defs
      → IndexBelow n (index_defs i work defs)
  unfolding index_defs
  IndexBelow-index_defs n i [] defs h below = below
  IndexBelow-index_defs n i ((b, op) ∷ rest) defs h below = elim (Option-cases op.def) [
    | inl e ↦ rw e (IndexBelow-index_defs n (suc i) rest defs (omega (arith, h)) below)
    | inr (d, e) ↦ rw e (
        IndexBelow-index_defs n (suc i) rest (insert defs d i) (omega (arith, h))
          (IndexBelow-insert n i defs d (omega (arith, h)) below))
  ]

-- The stack names operations.
pub mark-AllBelow :
    (n i : ℕ) (marks : List ℕ × List ℕ) → i < n → AllBelow n marks.1 → AllBelow n (mark i marks).1
unfolding mark
mark-AllBelow n i (live, stack) h below = elim (Bool-cases (elem i live)) [
  | inl e ↦ rw (e, mark) below
  | inr e ↦ rw (e, mark) (h, below)
]

pub elem-mark :
    (y i : ℕ) (marks : List ℕ × List ℕ) → elem y marks.0 ≡ true → elem y (mark i marks).0 ≡ true
unfolding mark
elem-mark y i (live, stack) h = elim (Bool-cases (elem i live)) [
  | inl e ↦ rw (e, mark) h
  | inr e ↦ rw (e, mark) (ground (arith, elem-insert y i live, h))
]

pub elem-mark_self : (i : ℕ) (marks : List ℕ × List ℕ) → elem i (mark i marks).0 ≡ true
unfolding mark
elem-mark_self i (live, stack) = elim (Bool-cases (elem i live)) [
  | inl e ↦ rw (e, mark) e
  | inr e ↦ rw (e, mark) (ground (arith, elem-insert i i live))
]

mark_def-AllBelow :
    (n : ℕ) (o : Option ℕ) (marks : List ℕ × List ℕ)
    → ((i : ℕ) → o ≡ some i → i < n)
    → AllBelow n marks.1
    → AllBelow n (mark_def o marks).1
unfolding mark_def
mark_def-AllBelow n none marks h below = below
mark_def-AllBelow n (some i) marks h below = mark-AllBelow n i marks (h i refl) below

elem-mark_def :
    (y : ℕ) (o : Option ℕ) (marks : List ℕ × List ℕ)
    → elem y marks.0 ≡ true
    → elem y (mark_def o marks).0 ≡ true
unfolding mark_def
elem-mark_def y none marks h = h
elem-mark_def y (some i) marks h = elem-mark y i marks h

-- A property of the aliases that `find` keeps.
abbrev pub IsKept : (Aliases → Type 0) → Type 0
IsKept Keeps = (s : Aliases) (v : SsaVar) → Keeps s → Keeps (find_alias s v).1

module _ (Keeps : Aliases → Type 0) (kept : IsKept Keeps) (n : ℕ) (defs : KeyMap SsaVar ℕ)
    (known : IndexBelow n defs) where
  -- The stack is still bounded, what was live is live, and the aliases keep the property.
  pub record StillMarked (marks : List ℕ × List ℕ) (r : (List ℕ × List ℕ) × Aliases) : Type 0 where
    pub bounded : AllBelow n r.0.1
    pub grows : (y : ℕ) → elem y marks.0 ≡ true → elem y r.0.0 ≡ true
    pub keeps : Keeps r.1

  mark_root-AllBelow :
      (d root : SsaVar) (marks : List ℕ × List ℕ)
      → AllBelow n marks.1
      → AllBelow n (mark_root defs d root marks).1
  unfolding mark_root
  mark_root-AllBelow d root marks below =
      elim (Bool-cases (var_beq root d || is_rax root.location)) [
        | inl e ↦ rw (e, mark_root) below
        | inr e ↦
            rw (e, mark_root) (mark_def-AllBelow n (defs root) marks (λ i h. known root i h) below)
      ]

  elem-mark_root :
      (y : ℕ) (d root : SsaVar) (marks : List ℕ × List ℕ)
      → elem y marks.0 ≡ true
      → elem y (mark_root defs d root marks).0 ≡ true
  unfolding mark_root
  elem-mark_root y d root marks h = elim (Bool-cases (var_beq root d || is_rax root.location)) [
    | inl e ↦ rw (e, mark_root) h
    | inr e ↦ rw (e, mark_root) (elem-mark_def y (defs root) marks h)
  ]

  rax_step_lem :
      (i : ℕ) (o : Option SsaVar) (s : Aliases) (marks : List ℕ × List ℕ)
      → i < n
      → AllBelow n marks.1
      → Keeps s
      → StillMarked marks (rax_step defs i o s marks)
  unfolding rax_step
  rax_step_lem i none s marks h below keeps = record {
    bounded = below;
    grows = λ y e. e;
    keeps = keeps;
  }
  rax_step_lem i (some d) s marks h below keeps = elim (Bool-cases (is_rax d.location)) [
    | inr e ↦ rw (e, rax_step) (record { bounded = below; grows = λ y f. f; keeps = keeps })
    | inl e ↦
        rw (e, rax_step)
          (record {
            bounded =
                mark_root-AllBelow d (find_alias s d).0 (mark i marks)
                  (mark-AllBelow n i marks h below);
            grows =
                λ y f. elem-mark_root y d (find_alias s d).0 (mark i marks) (elem-mark y i marks f);
            keeps = kept s d keeps;
          })
  ]

  pub seed_rax_lem :
      {Op : Type 0} (i : ℕ) (ops : List (ℕ × SsaOp Op)) (s : Aliases) (marks : List ℕ × List ℕ)
      → i + length ops ≤ n
      → AllBelow n marks.1
      → Keeps s
      → StillMarked marks (seed_rax defs i ops s marks)
  unfolding seed_rax
  seed_rax_lem i [] s marks h below keeps = record {
    bounded = below;
    grows = λ y e. e;
    keeps = keeps;
  }
  seed_rax_lem i ((b, op) ∷ rest) s marks h below keeps =
      let first = rax_step_lem i op.def s marks (omega (arith, h)) below keeps in
      let r = rax_step defs i op.def s marks in
      let next = seed_rax_lem (suc i) rest r.1 r.0 (omega (arith, h)) first.bounded first.keeps in
      record {
        bounded = next.bounded;
        grows = λ y e. next.grows y (first.grows y e);
        keeps = next.keeps;
      }
