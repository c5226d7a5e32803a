-- ===== src/Ssa/Pdom/Children.antt =====
-- The children in a tree of immediate dominators, or postdominators, are its edges turned round.
use mathlib.Core.Option.{some-injective}
use windy_public.Prelude.{
  ℕ, zero, suc, ◌+◌, ◌<◌, ◌≡◌, ◌≢◌, ◌↔◌, ◌⊎◌, inl, inr, sym, ap, ◌∙◌, subst, true, ◌||◌, ◌&&◌,
  Bool-cases, Option, none, some, List, [], ◌∷◌, ◌++◌, if◌then◌else◌, ◌==◌, ==_iff, get_elem?,
  get_or, get_or-replicate, set, replicate, length, length-set, length-replicate, arith,
}
use windy_public.Ssa.NodeSet.{elem}
use windy_public.Ssa.Cfg.Frontier.{elem-append}
use windy_public.Ssa.Phi.Placed.{get_or-set}
use windy_public.Ssa.Rename.{children_from}
use windy_public.Ssa.Rename.Unreached.{get_or-set_other}
use windy_public.Ssa.Pdom.{pdt_children}

-- In the list of parents of the nodes from `i` on, the parent of `c` is `p`, another node.
abbrev ParentAt : ℕ → List (Option ℕ) → ℕ → ℕ → Type 0
ParentAt i [] c p = ⊥
ParentAt i (o ∷ rest) c p = ((c ≡ i) × (o ≡ some p) × (p ≢ c)) ⊎ ParentAt (suc i) rest c p

elem-push :
    (c i p q : ℕ) (table : List (List ℕ))
    → p < length table
    → elem c (get_or (set table q (get_or table q [] ++ i ∷ [])) p [])
      ≡ (elem c (get_or table p []) || (p == q && c == i))
unfolding elem
elem-push c i p q table h = elim (Bool-cases (p == q)) [
  | inl e ↦
      let same = (==_iff p q).0 e in
      ground (
        arith,
        get_or-set table q p (get_or table q [] ++ i ∷ []) [] (omega (arith, h, same)),
        elem-append c (get_or table q []) (i ∷ []),
        same,
      )
  | inr e ↦
      ap (elem c) (
        get_or-set_other table q p (get_or table q [] ++ i ∷ []) []
          (λ same. absurd (cc (e, (==_iff p q).1 same))))
      ∙ ground (arith, e)
]

-- One child, the node `i` under its parent `q`.
abbrev add_child : ℕ → ℕ → List (List ℕ) → List (List ℕ)
add_child i q table = if q == i then table else set table q (get_or table q [] ++ i ∷ [])

length-add_child : (i q : ℕ) (table : List (List ℕ)) → length (add_child i q table) ≡ length table
length-add_child i q table = ground (arith, length-set table q (get_or table q [] ++ i ∷ []))

elem-add_child :
    (c i p q : ℕ) (table : List (List ℕ))
    → p < length table
    → (elem c (get_or (add_child i q table) p []) ≡ true)
      ↔ ((elem c (get_or table p []) ≡ true) ⊎ ((c ≡ i) × (some q ≡ some p) × (p ≢ c)))
elem-add_child c i p q table h = ground (arith, elem-push c i p q table h, some-injective q p)

elem-children_from :
    (i : ℕ) (parents : List (Option ℕ)) (table : List (List ℕ)) (c p : ℕ)
    → p < length table
    → (elem c (get_or (children_from i parents table) p []) ≡ true)
      ↔ ((elem c (get_or table p []) ≡ true) ⊎ ParentAt i parents c p)
unfolding children_from
elem-children_from i [] table c p h = (λ e. inl e, λ x. elim x [ inl e ↦ e | inr y ↦ absurd y ])
elem-children_from i (none ∷ rest) table c p h =
    let (to, from) = elem-children_from (suc i) rest table c p h in
    (
      λ e. elim (to e) [ inl x ↦ inl x | inr y ↦ inr (inr y) ],
      λ x. elim x [
        | inl y ↦ from (inl y)
        | inr (inl (a, b, d)) ↦ absurd (cc b)
        | inr (inr y) ↦ from (inr y)
      ],
    )
elem-children_from i (some q ∷ rest) table c p h =
    let next =
      elem-children_from (suc i) rest (add_child i q table) c p
        (omega (arith, h, length-add_child i q table)) in
    ground (arith, next, elem-add_child c i p q table h)

ParentAt-listed :
    (i : ℕ) (parents : List (Option ℕ)) (c p : ℕ)
    → ParentAt i parents c p
    → (k : ℕ) × (c ≡ i + k) × (get_elem? parents k ≡ some (some p)) × (p ≢ c)
ParentAt-listed i [] c p h = absurd h
ParentAt-listed i (o ∷ rest) c p (inl (a, b, d)) = (0, omega (arith, a), ap some b, d)
ParentAt-listed i (o ∷ rest) c p (inr h) =
    let (k, a, b, d) = ParentAt-listed (suc i) rest c p h in (suc k, omega (arith, a), b, d)

listed-ParentAt :
    (i k : ℕ) (parents : List (Option ℕ)) (c p : ℕ)
    → c ≡ i + k
    → get_elem? parents k ≡ some (some p)
    → p ≢ c
    → ParentAt i parents c p
listed-ParentAt i k [] c p a b d = absurd (cc b)
listed-ParentAt i zero (o ∷ rest) c p a b d = inl (omega (arith, a), some-injective o (some p) b, d)
listed-ParentAt i (suc k) (o ∷ rest) c p a b d =
    inr (listed-ParentAt (suc i) k rest c p (omega (arith, a)) b d)

-- A node is among the children of a node of the tree exactly if that is its immediate postdominator
-- and another node.
pub elem-pdt_children :
    (ipdom : List (Option ℕ)) (p c : ℕ)
    → p < length ipdom
    → (elem c (get_or (pdt_children ipdom) p []) ≡ true)
      ↔ ((get_elem? ipdom c ≡ some (some p)) × (p ≢ c))
unfolding pdt_children elem
elem-pdt_children ipdom p c h =
    let empty_table = replicate (length ipdom) [] in
    let (to, from) =
      elem-children_from 0 ipdom empty_table c p
        (omega (arith, h, length-replicate {A = List ℕ} (length ipdom) [])) in
    (
      λ e. elim (to e) [
        | inl x ↦ absurd (cc (x, ap (elem c) (get_or-replicate (length ipdom) p [])))
        | inr y ↦
            let (k, a, b, d) = ParentAt-listed 0 ipdom c p y in
            (subst (λ j. get_elem? ipdom j ≡ some (some p)) (sym (a ∙ omega arith)) b, d)
      ],
      λ (b, d). from (inr (listed-ParentAt 0 c ipdom c p (omega arith) b d)),
    )
