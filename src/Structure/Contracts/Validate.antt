-- ===== src/Structure/Contracts/Validate.antt =====
-- src/decompiler/structure/rd_model.rs: the issues of contracts, and what is dropped for them.
use windy_public.Prelude.{
  ℕ, suc, Bool, true, false, ◌&&◌, ◌||◌, not, Option, none, some, List, [], ◌∷◌, ◌++◌,
  if◌then◌else◌, ltb, leb, ◌==◌, get_or,
}
use windy_public.Prelude.Int.{ℤ}
use windy_public.Ssa.NodeSet.{elem}
use windy_public.Ssa.Types.{SsaFunction}
use windy_public.Structure.Pcode.{PcodeView, any_op, is_return}
use windy_public.Structure.Effects.{return_effect, Effect, SemanticGraph, is_xor_view}
use windy_public.Structure.Contracts.{
  LoopContract, ClassTag, xor_class, ReturnClass, CasePartition, ContractSet, any_block,
}

pub data Issue : Type 0 where
  loop_header_oob missing_loop_recurrence : Issue
  return_contract_without_return_effect wrong_return_class_xor : Issue
  incomplete_case_partition case_switch_oob : Issue

unfoldable pub issue_code : Issue → ℕ
issue_code loop_header_oob = 0
issue_code missing_loop_recurrence = 1
issue_code return_contract_without_return_effect = 2
issue_code wrong_return_class_xor = 3
issue_code incomplete_case_partition = 4
issue_code case_switch_oob = 5

-- `issues.contains(&issue)`
unfoldable pub has_issue : Issue → List Issue → Bool
unfolding issue_code
has_issue issue [] = false
has_issue issue (i ∷ is) = issue_code issue == issue_code i || has_issue issue is

-- An edge back to the header of a loop, from block `i` on.
unfoldable pub has_back_from : ℕ → ℕ → ℕ → List (List ℕ) → Bool
unfolding elem
has_back_from header body i [] = false
has_back_from header body i (ss ∷ rest) =
    (elem header ss && (i == header || (i == body || elem body ss)))
    || has_back_from header body (suc i) rest

unfoldable pub is_empty : List ℕ → Bool
is_empty [] = true
is_empty (x ∷ xs) = false

unfoldable pub loop_issue : SemanticGraph → LoopContract → List Issue
unfolding has_back_from is_empty
loop_issue sem l =
    if leb sem.n_blocks l.header || leb sem.n_blocks l.body_entry
    then loop_header_oob ∷ []
    else if has_back_from l.header l.body_entry 0 sem.succ
    then []
    else if is_empty (get_or sem.pred l.header [])
    then missing_loop_recurrence ∷ []
    else []

unfoldable pub loop_issues : SemanticGraph → List LoopContract → List Issue
unfolding loop_issue
loop_issues sem [] = []
loop_issues sem (l ∷ ls) = loop_issue sem l ++ loop_issues sem ls

unfoldable pub has_return_effect : List Effect → Bool
has_return_effect [] = false
has_return_effect (e ∷ es) = elim e.kind [ return_effect ↦ true | _ ↦ has_return_effect es ]

unfoldable pub any_return_effect : List (ℕ × List Effect) → Bool
unfolding has_return_effect
any_return_effect [] = false
any_return_effect ((b, es) ∷ rest) = has_return_effect es || any_return_effect rest

unfoldable pub is_xor_class : ClassTag → Bool
is_xor_class xor_class = true
is_xor_class _ = false

unfoldable pub no_values : List ℤ → Bool
no_values [] = true
no_values (v ∷ vs) = false

unfoldable pub case_issues : ℕ → List CasePartition → List Issue
unfolding no_values
case_issues n [] = []
case_issues n (c ∷ cs) =
    let empty = if no_values c.case_values then incomplete_case_partition ∷ [] else [] in
    let outside = if leb n c.switch_block then case_switch_oob ∷ [] else [] in
    empty ++ outside ++ case_issues n cs

-- `cases.retain(..)`
unfoldable pub retain_cases : ℕ → List CasePartition → List CasePartition
unfolding no_values
retain_cases n [] = []
retain_cases n (c ∷ cs) =
    let rest = retain_cases n cs in
    if not (no_values c.case_values) && ltb c.switch_block n then c ∷ rest else rest

module _ {Op : Type 0} (view : Op → PcodeView) where
  unfoldable pub return_issues : SemanticGraph → SsaFunction Op → Option ReturnClass → List Issue
  unfolding any_return_effect any_block is_return is_xor_class is_xor_view any_op
  return_issues sem ssa none = []
  return_issues sem ssa (some r) =
      let seen = any_return_effect sem.effects || any_block view (is_return view) ssa.blocks in
      let has_xor = any_block view (λ b. any_op view is_xor_view b.ops) ssa.blocks in
      (if r.has_return && not seen then return_contract_without_return_effect ∷ [] else [])
      ++ (if is_xor_class r.class_tag && not has_xor then wrong_return_class_xor ∷ [] else [])

  unfoldable pub validate_against_semantic :
      ContractSet → SemanticGraph → SsaFunction Op → List Issue
  unfolding loop_issues return_issues case_issues
  validate_against_semantic c sem ssa =
      loop_issues sem c.loops ++ return_issues sem ssa c.returns ++ case_issues sem.n_blocks c.cases

  unfoldable pub sanitize_contracts : SemanticGraph → SsaFunction Op → ContractSet → ContractSet
  unfolding validate_against_semantic has_issue retain_cases
  sanitize_contracts sem ssa c =
      let issues = validate_against_semantic c sem ssa in
      let bad_return =
        has_issue return_contract_without_return_effect issues
        || has_issue wrong_return_class_xor issues in
      let bad_case =
        has_issue incomplete_case_partition issues || has_issue case_switch_oob issues in
      let bad_loop = has_issue missing_loop_recurrence issues || has_issue loop_header_oob issues in
      record {
        loops = if bad_loop then [] else c.loops;
        returns = if bad_return then none else c.returns;
        cases = if bad_case then retain_cases sem.n_blocks c.cases else c.cases;
      }
