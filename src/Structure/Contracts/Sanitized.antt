-- ===== src/Structure/Contracts/Sanitized.antt =====
-- What src/decompiler/structure/rd_model.rs leaves of contracts has no issues.
use windy_public.Prelude.{
  ℕ, ◌≡◌, refl, ap, ap₂, ◌∙◌, Bool, true, false, ◌||◌, Option, none, some, List, [], ◌∷◌, ◌++◌,
  if◌then◌else◌, arith,
}
use windy_public.Ssa.Types.{SsaFunction}
use windy_public.Structure.Pcode.{PcodeView}
use windy_public.Structure.Effects.{SemanticGraph}
use windy_public.Structure.Contracts.{LoopContract, ReturnClass, CasePartition, ContractSet}
use windy_public.Structure.Contracts.Validate.{
  Issue, loop_header_oob, missing_loop_recurrence, return_contract_without_return_effect,
  wrong_return_class_xor, incomplete_case_partition, case_switch_oob, issue_code, has_issue,
  loop_issue, loop_issues, case_issues, retain_cases, return_issues, validate_against_semantic,
  sanitize_contracts,
}

has_issue-append :
    (i : Issue) (xs ys : List Issue) → has_issue i (xs ++ ys) ≡ (has_issue i xs || has_issue i ys)
unfolding has_issue
has_issue-append i [] ys = refl
has_issue-append i (x ∷ xs) ys = ground (arith, has_issue-append i xs ys)

-- The flags of the three groups.
abbrev bad_loop : List Issue → Bool
bad_loop issues = has_issue missing_loop_recurrence issues || has_issue loop_header_oob issues

abbrev bad_return : List Issue → Bool
bad_return issues =
    has_issue return_contract_without_return_effect issues
    || has_issue wrong_return_class_xor issues

abbrev bad_case : List Issue → Bool
bad_case issues = has_issue incomplete_case_partition issues || has_issue case_switch_oob issues

loop_issue_flag :
    (sem : SemanticGraph) (l : LoopContract)
    → bad_loop (loop_issue sem l) ≡ false
    → loop_issue sem l ≡ []
unfolding loop_issue has_issue issue_code
loop_issue_flag sem l h = ground (arith, h)

loop_issues_flag :
    (sem : SemanticGraph) (ls : List LoopContract)
    → bad_loop (loop_issues sem ls) ≡ false
    → loop_issues sem ls ≡ []
unfolding loop_issues
loop_issues_flag sem [] h = refl
loop_issues_flag sem (l ∷ ls) h =
    let split_a =
      has_issue-append missing_loop_recurrence (loop_issue sem l) (loop_issues sem ls) in
    let split_b = has_issue-append loop_header_oob (loop_issue sem l) (loop_issues sem ls) in
    ap₂ (λ xs ys. xs ++ ys) (loop_issue_flag sem l (ground (arith, h, split_a, split_b)))
      (loop_issues_flag sem ls (ground (arith, h, split_a, split_b)))

case_issues_flag :
    (n : ℕ) (cs : List CasePartition) → bad_case (case_issues n cs) ≡ false → case_issues n cs ≡ []
unfolding case_issues has_issue issue_code
case_issues_flag n [] h = refl
case_issues_flag n (c ∷ cs) h = ground (arith, h, case_issues_flag n cs)

case_issues-retain_cases :
    (n : ℕ) (cs : List CasePartition) → case_issues n (retain_cases n cs) ≡ []
unfolding case_issues retain_cases
case_issues-retain_cases n [] = refl
case_issues-retain_cases n (c ∷ cs) = ground (arith, case_issues-retain_cases n cs)

module _ {Op : Type 0} (view : Op → PcodeView) (sem : SemanticGraph) (ssa : SsaFunction Op) where
  return_issues_flag :
      (r : Option ReturnClass)
      → bad_return (return_issues view sem ssa r) ≡ false
      → return_issues view sem ssa r ≡ []
  unfolding return_issues has_issue issue_code
  return_issues_flag none h = refl
  return_issues_flag (some r) h = ground (arith, h)

  loops_left :
      (b : Bool) (ls : List LoopContract)
      → (b ≡ false → bad_loop (loop_issues sem ls) ≡ false)
      → loop_issues sem (if b then [] else ls) ≡ []
  unfolding loop_issues
  loops_left true ls h = refl
  loops_left false ls h = loop_issues_flag sem ls (h refl)

  returns_left :
      (b : Bool) (r : Option ReturnClass)
      → (b ≡ false → bad_return (return_issues view sem ssa r) ≡ false)
      → return_issues view sem ssa (if b then none else r) ≡ []
  unfolding return_issues
  returns_left true r h = refl
  returns_left false r h = return_issues_flag r (h refl)

  cases_left :
      (b : Bool) (cs : List CasePartition)
      → (b ≡ false → bad_case (case_issues sem.n_blocks cs) ≡ false)
      → case_issues sem.n_blocks (if b then retain_cases sem.n_blocks cs else cs) ≡ []
  cases_left true cs h = case_issues-retain_cases sem.n_blocks cs
  cases_left false cs h = case_issues_flag sem.n_blocks cs (h refl)

  -- Dropping what contradicts the semantics leaves contracts that validate without an issue.
  pub validate-sanitize_contracts :
      (c : ContractSet)
      → validate_against_semantic view (sanitize_contracts view sem ssa c) sem ssa ≡ []
  unfolding validate_against_semantic sanitize_contracts
  validate-sanitize_contracts c =
      let ls = loop_issues sem c.loops in
      let rs = return_issues view sem ssa c.returns in
      let cs = case_issues sem.n_blocks c.cases in
      let issues = ls ++ rs ++ cs in
      let split : (i : Issue)
          → has_issue i issues ≡ ((has_issue i ls || has_issue i rs) || has_issue i cs) =
        λ i.
          has_issue-append i (ls ++ rs) cs
          ∙ ap (λ b. b || has_issue i cs) (has_issue-append i ls rs) in
      ap₂ (λ xs ys. xs ++ ys)
        (ap₂ (λ xs ys. xs ++ ys)
          (loops_left (bad_loop issues) c.loops
            (λ h. ground (arith, h, split missing_loop_recurrence, split loop_header_oob)))
          (returns_left (bad_return issues) c.returns (λ h.
            ground (
              arith,
              h,
              split return_contract_without_return_effect,
              split wrong_return_class_xor,
            ))))
        (cases_left (bad_case issues) c.cases
          (λ h. ground (arith, h, split incomplete_case_partition, split case_switch_oob)))
