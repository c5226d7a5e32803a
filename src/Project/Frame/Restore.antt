-- ===== src/Project/Frame/Restore.antt =====
-- Writing a stack variable and writing back what it was.
use windy_public.Prelude.{
  ◌≡◌, refl, sym, ◌∙◌, Bool, true, false, none, some, List, [], ◌∷◌, ◌++◌, arith, if◌then◌else◌,
  Bool-cases, inl, inr,
}
use windy_public.Prelude.Int.{ℤ, pos, ltb_ℤ, eqb_ℤ, eqb_ℤ_iff}
use windy_public.Project.Types.{StackVariable, StackFrame}
use windy_public.Project.Frame.{find_var, update_var, upsert_in, upsert_stack_var, find_in_frame}

abbrev pub All : (StackVariable → Type 0) → List StackVariable → Type 0
All P [] = Unit
All P (v ∷ vs) = P v × All P vs

-- Locals are at or below the frame pointer and arguments above it.
abbrev pub IsSplit : StackFrame → Type 0
IsSplit f =
    All (λ v. ltb_ℤ (pos 0) v.offset ≡ false) f.locals
    × All (λ v. ltb_ℤ (pos 0) v.offset ≡ true) f.args

-- The list in which `upsert_stack_var` looks for an offset.
abbrev pub side : StackFrame → ℤ → List StackVariable
side f o = if ltb_ℤ (pos 0) o then f.args else f.locals

find_var-append :
    (o : ℤ) (xs ys : List StackVariable)
    → find_var o (xs ++ ys) ≡ elim (find_var o xs) [ none ↦ find_var o ys | some v ↦ some v ]
unfolding find_var
find_var-append o [] ys = refl
find_var-append o (x ∷ xs) ys = ground (arith, find_var-append o xs ys)

find_var-none :
    (o : ℤ) (b : Bool) (vs : List StackVariable)
    → All (λ v. ltb_ℤ (pos 0) v.offset ≡ b) vs
    → (ltb_ℤ (pos 0) o ≡ b → ⊥)
    → find_var o vs ≡ none
unfolding find_var
find_var-none o b [] all h = refl
find_var-none o b (v ∷ vs) all h = elim (Bool-cases (eqb_ℤ v.offset o)) [
  | inl e ↦ absurd (h (rw (← (eqb_ℤ_iff v.offset o).0 e) all.0))
  | inr e ↦ rw e (find_var-none o b vs all.1 h)
]

pub find-side :
    (f : StackFrame) (o : ℤ) (v : StackVariable)
    → IsSplit f
    → find_in_frame f o ≡ some v
    → find_var o (side f o) ≡ some v
unfolding find_in_frame
find-side f o v s h =
    let h' : elim (find_var o f.locals) [ none ↦ find_var o f.args | some w ↦ some w ] ≡ some v =
      sym (find_var-append o f.locals f.args) ∙ h in
    elim (Bool-cases (ltb_ℤ (pos 0) o)) [
      | inl e ↦ ground (arith, e, h', find_var-none o false f.locals s.0 (λ q. cc (e, q)))
      | inr e ↦ ground (arith, e, h', find_var-none o true f.args s.1 (λ q. cc (e, q)))
    ]

upsert_in_hit :
    (o : ℤ) (f : StackVariable → StackVariable) (v : StackVariable) (vs : List StackVariable)
    → find_var o vs ≡ some v
    → upsert_in o f vs ≡ update_var o f vs
unfolding upsert_in
upsert_in_hit o f v vs h = ground arith

upsert_args :
    (o : ℤ) (f : StackVariable → StackVariable) (r : StackFrame)
    → ltb_ℤ (pos 0) o ≡ true
    → upsert_stack_var r o f ≡ record r { args = upsert_in o f r.args }
unfolding upsert_stack_var
upsert_args o f r e = rw e

upsert_locals :
    (o : ℤ) (f : StackVariable → StackVariable) (r : StackFrame)
    → ltb_ℤ (pos 0) o ≡ false
    → upsert_stack_var r o f ≡ record r { locals = upsert_in o f r.locals }
unfolding upsert_stack_var
upsert_locals o f r e = rw e

module _ (o : ℤ) (f g : StackVariable → StackVariable)
    (keeps : (v : StackVariable) → (f v).offset ≡ v.offset) where
  find-update :
      (v : StackVariable) (vs : List StackVariable)
      → find_var o vs ≡ some v
      → find_var o (update_var o f vs) ≡ some (f v)
  unfolding find_var update_var
  find-update v [] h = cc
  find-update v (x ∷ xs) h = ground (arith, keeps x, find-update v xs)

  update_back :
      (v : StackVariable) (vs : List StackVariable)
      → find_var o vs ≡ some v
      → g (f v) ≡ v
      → update_var o g (update_var o f vs) ≡ vs
  unfolding find_var update_var
  update_back v [] h e = refl
  update_back v (x ∷ xs) h e = ground (arith, keeps x, update_back v xs)

  upsert_in_back :
      (v : StackVariable) (vs : List StackVariable)
      → find_var o vs ≡ some v
      → g (f v) ≡ v
      → upsert_in o g (upsert_in o f vs) ≡ vs
  upsert_in_back v vs h e =
      rw (upsert_in_hit o f v vs h, upsert_in_hit o g (f v) _ (find-update v vs h))
        (update_back v vs h e)

  pub upsert_back :
      (frame : StackFrame) (v : StackVariable)
      → find_var o (side frame o) ≡ some v
      → g (f v) ≡ v
      → upsert_stack_var (upsert_stack_var frame o f) o g ≡ frame
  upsert_back frame v h e = elim (Bool-cases (ltb_ℤ (pos 0) o)) [
    | inl b ↦
        rw (upsert_args o f frame b, upsert_args o g _ b)
          (λ i. record frame { args = upsert_in_back v frame.args (rw b at h) e i })
    | inr b ↦
        rw (upsert_locals o f frame b, upsert_locals o g _ b)
          (λ i. record frame { locals = upsert_in_back v frame.locals (rw b at h) e i })
  ]
