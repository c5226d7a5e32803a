-- ===== src/Project/Params.antt =====
-- src/project/op.rs: what naming a parameter makes of the parameters of a signature.
use mathlib.Core.Option
use windy_public.Prelude.{
  ℕ, zero, suc, ◌+◌, ◌≤◌, ◌<◌, ◌≡◌, refl, ap, ◌∙◌, String, Option, none, some, List, [], ◌∷◌, ◌++◌,
  arith, nat_eq, length, get_elem?, ltb, leb, ◌==◌, if◌then◌else◌, leb→le, Bool-cases, Option-cases,
  inl, inr,
}
use windy_public.KeyMap.{insert, get-insert_self}
use windy_public.Project.Types.{DataType, unknown, FunctionSignature}
use windy_public.Project.State.{Project}
use windy_public.Project.Op.{set_param_name, capture}
use windy_public.Project.Apply.{
  apply_to, param_name, placeholder, pad_params, rename_param, new_signature, padded_signature,
}

get_elem?-snoc_lt :
    (ps : List (String × DataType)) (q : String × DataType) (j : ℕ)
    → j < length ps
    → get_elem? (ps ++ q ∷ []) j ≡ get_elem? ps j
get_elem?-snoc_lt [] q j h = absurd (omega arith)
get_elem?-snoc_lt (p ∷ ps) q zero h = refl
get_elem?-snoc_lt (p ∷ ps) q (suc j) h = get_elem?-snoc_lt ps q j (omega arith)

get_elem?-snoc_at :
    (ps : List (String × DataType)) (q : String × DataType)
    → get_elem? (ps ++ q ∷ []) (length ps) ≡ some q
get_elem?-snoc_at [] q = refl
get_elem?-snoc_at (p ∷ ps) q = get_elem?-snoc_at ps q

get_elem?-past : (ps : List (String × DataType)) (j : ℕ) → length ps ≤ j → get_elem? ps j ≡ none
get_elem?-past [] j h = refl
get_elem?-past (p ∷ ps) zero h = absurd (omega arith)
get_elem?-past (p ∷ ps) (suc j) h = get_elem?-past ps j (omega arith)

length-snoc :
    (ps : List (String × DataType)) (q : String × DataType) → length (ps ++ q ∷ []) ≡ length ps + 1
length-snoc [] q = refl
length-snoc (p ∷ ps) q = omega (arith, length-snoc ps q)

-- The parameter at `j` once there is one at each place up to `i`.
abbrev pub filled : List (String × DataType) → ℕ → ℕ → Option (String × DataType)
filled ps i j =
    if ltb j (length ps) then get_elem? ps j else if leb j i then some (placeholder j) else none

filled-snoc :
    (ps : List (String × DataType)) (i j : ℕ)
    → length ps ≤ i
    → filled (ps ++ placeholder (length ps) ∷ []) i j ≡ filled ps i j
filled-snoc ps i j h = grind (
  arith,
  get_elem?-snoc_lt ps (placeholder (length ps)) j,
  get_elem?-snoc_at ps (placeholder (length ps)),
  length-snoc ps (placeholder (length ps)),
  get_elem?-past,
)

get_elem?-pad_params :
    (fuel i j : ℕ) (ps : List (String × DataType))
    → i < length ps + fuel
    → get_elem? (pad_params fuel i ps) j ≡ filled ps i j
unfolding pad_params
get_elem?-pad_params zero i j ps h = grind (arith, get_elem?-past ps j)
get_elem?-pad_params (suc fuel) i j ps h = elim (Bool-cases (leb (length ps) i)) [
  | inl e ↦ rw e (
      get_elem?-pad_params fuel i j (ps ++ placeholder (length ps) ∷ [])
        (omega (arith, length-snoc ps (placeholder (length ps))))
      ∙ filled-snoc ps i j (leb→le (length ps) i e))
  | inr e ↦ rw e (grind (arith, get_elem?-past ps j))
]

get_elem?-rename_param :
    (i j : ℕ) (name : String) (ps : List (String × DataType))
    → get_elem? (rename_param i name ps) j
      ≡ (if j == i then Option.map (λ q. (name, q.1)) (get_elem? ps i) else get_elem? ps j)
unfolding rename_param
get_elem?-rename_param i j name [] = ground arith
get_elem?-rename_param zero zero name (q ∷ ps) = ground arith
get_elem?-rename_param zero (suc j) name (q ∷ ps) = ground arith
get_elem?-rename_param (suc i) zero name (q ∷ ps) = ground arith
get_elem?-rename_param (suc i) (suc j) name (q ∷ ps) =
    get_elem?-rename_param i j name ps ∙ ground arith

get_elem?-or :
    (ps : List (String × DataType)) (j : ℕ) (d : Option (String × DataType))
    → (if ltb j (length ps) then get_elem? ps j else d)
      ≡ elim (get_elem? ps j) [ some q ↦ some q | none ↦ d ]
get_elem?-or [] j d = ground arith
get_elem?-or (p ∷ ps) zero d = ground arith
get_elem?-or (p ∷ ps) (suc j) d = ground arith ∙ get_elem?-or ps j d

-- The parameters of the function at an address.
abbrev pub params_at : Project → ℕ → List (String × DataType)
params_at p va = elim (p.function_signatures va) [ none ↦ [] | some s ↦ s.params ]

-- Of the parameters `before`, the one at `i` named: what then is at `j`.
abbrev pub named : List (String × DataType) → ℕ → String → ℕ → Option (String × DataType)
named before i name j =
    if j == i
    then some (name, elim (get_elem? before i) [ some q ↦ q.1 | none ↦ unknown 0 ])
    else elim (get_elem? before j) [
      | some q ↦ some q
      | none ↦ if ltb j i then some (placeholder j) else none
    ]

padded_params :
    (p : Project) (va i : ℕ)
    → (padded_signature p va i).params ≡ pad_params (suc i) i (params_at p va)
unfolding padded_signature new_signature
padded_params p va i = elim (Option-cases (p.function_signatures va)) [
  | inl e ↦ rw (e, params_at) refl
  | inr (s, e) ↦ rw (e, params_at) refl
]

get_elem?-padded :
    (p : Project) (va i j : ℕ)
    → get_elem? (padded_signature p va i).params j ≡ elim (get_elem? (params_at p va) j) [
      | some q ↦ some q
      | none ↦ if leb j i then some (placeholder j) else none
    ]
get_elem?-padded p va i j =
    ap (λ ps. get_elem? ps j) (padded_params p va i)
    ∙ get_elem?-pad_params (suc i) i j (params_at p va) (omega arith)
    ∙ get_elem?-or (params_at p va) j _

pointwise :
    (i j : ℕ) (name : String) (at_i at_j : Option (String × DataType))
    → (if j == i
        then Option.map
            (λ (q : String × DataType). (name, q.1))
            (elim at_i [ some q ↦ some q | none ↦ if leb i i then some (placeholder i) else none ])
        else elim at_j [ some q ↦ some q | none ↦ if leb j i then some (placeholder j) else none ])
      ≡ (if j == i then some (name, elim at_i [ some q ↦ q.1 | none ↦ unknown 0 ]) else elim at_j [
        | some q ↦ some q
        | none ↦ if ltb j i then some (placeholder j) else none
      ])
unfolding placeholder
pointwise i j name none none = ground arith
pointwise i j name none (some q) = ground arith
pointwise i j name (some q) none = ground arith
pointwise i j name (some q) (some r) = ground arith

params_at-insert :
    (p : Project) (va : ℕ) (s : FunctionSignature)
    → params_at (record p { function_signatures = insert p.function_signatures va s }) va ≡ s.params
params_at-insert p va s = rw (get-insert_self p.function_signatures va s, params_at) refl

captured_name :
    (p : Project) (va i : ℕ)
    → param_name (padded_signature p va i).params i
      ≡ some (elim (get_elem? (params_at p va) i) [ some q ↦ q.0 | none ↦ (placeholder i).0 ])
captured_name p va i = elim (Option-cases (get_elem? (params_at p va) i)) [
  | inl e ↦ ap (Option.map (λ q. q.0)) (get_elem?-padded p va i i) ∙ rw e (ground arith)
  | inr (q, e) ↦ ap (Option.map (λ q. q.0)) (get_elem?-padded p va i i) ∙ rw e refl
]

named_padded :
    (p : Project) (va i j : ℕ) (name : String)
    → get_elem? (rename_param i name (padded_signature p va i).params) j
      ≡ named (params_at p va) i name j
named_padded p va i j name =
    get_elem?-rename_param i j name (padded_signature p va i).params
    ∙ rw (get_elem?-padded p va i i) (
        rw (get_elem?-padded p va i j)
          (pointwise i j name (get_elem? (params_at p va) i) (get_elem? (params_at p va) j)))

-- Naming the parameter at an index: that parameter has the name afterwards, with its type (unknown if
-- there was no such parameter); every other parameter of the function is as it was, the indices
-- between the old parameters and this one are filled with `arg<j>` of an unknown type, and there are
-- no further ones. An operation with nothing captured captures the name that was there, or `arg<i>`.
pub apply_to-params :
    (p : Project) (va i j : ℕ) (name : String) (old : Option String)
    → (get_elem? (params_at (apply_to (set_param_name va i name old) p).1 va) j
        ≡ named (params_at p va) i name j)
      × ((apply_to (set_param_name va i name none) p).0
          ≡ set_param_name va i name (
              some
                (elim (get_elem? (params_at p va) i) [ some q ↦ q.0 | none ↦ (placeholder i).0 ])))
unfolding apply_to capture
apply_to-params p va i j name old = (
  ap (λ ps. get_elem? ps j) (params_at-insert p va _) ∙ named_padded p va i j name,
  ap (set_param_name va i name) (captured_name p va i),
)
