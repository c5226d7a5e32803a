-- ===== src/Project/TypeManager/Resolve.antt =====
-- Resolving a type leaves nothing to resolve.
use mathlib.Core.Option
use windy_public.Prelude.{
  subst, ◌≡◌, refl, sym, ap, ap₂, String, Bool, true, false, ◌&&◌, Option, none, some, List, [],
  ◌∷◌, string_eq, arith, Bool-cases, Option-cases, inl, inr,
}
use windy_public.KeyMap.{KeyMap, insert, get-insert, get-insert_self}
use windy_public.Project.Types.{
  DataType, DataTypes, void, bool, float, double, int, uint, unknown, ptr, array, func_ptr, named,
  nil, cons,
}
use windy_public.Project.TypeManager.Primitives.{primitives}
use windy_public.Project.TypeManager.{
  DataTypeManager, CompositeType, add, add_each, no_types, seed_primitives, new_manager, resolve,
  resolve_each, add_composite,
}

-- Every name in the type is its own meaning, as a composite's is.
unfoldable mutual
  pub IsSettled : KeyMap String DataType → DataType → Type 0
  IsSettled m (named n) = m n ≡ some (named n)
  IsSettled m (ptr t) = IsSettled m t
  IsSettled m (array t count) = IsSettled m t
  IsSettled m (func_ptr ts t) = AllSettled m ts × IsSettled m t
  IsSettled m _ = Unit

  pub AllSettled : KeyMap String DataType → DataTypes → Type 0
  AllSettled m nil = Unit
  AllSettled m (cons t ts) = IsSettled m t × AllSettled m ts

abbrev pub IsSettledOption : KeyMap String DataType → Option DataType → Type 0
IsSettledOption m none = Unit
IsSettledOption m (some t) = IsSettled m t

-- What a name means is settled, for every name.
abbrev pub IsConsistent : KeyMap String DataType → Type 0
IsConsistent m = (n : String) → IsSettledOption m (m n)

mutual
  unfolding resolve IsSettled

  resolve-IsSettled :
      (m : DataTypeManager) (t : DataType) → IsConsistent m.names → IsSettled m.names (resolve m t)
  resolve-IsSettled m (named n) h = elim (Option-cases (m.names n)) [
    | inl e ↦ rw (e, resolve) tt
    | inr (t, e) ↦ rw (e, resolve) (subst (IsSettledOption m.names) e (h n))
  ]
  resolve-IsSettled m (ptr t) h = resolve-IsSettled m t h
  resolve-IsSettled m (array t count) h = resolve-IsSettled m t h
  resolve-IsSettled m (func_ptr ts t) h = (resolve_each-AllSettled m ts h, resolve-IsSettled m t h)
  resolve-IsSettled m void h = tt
  resolve-IsSettled m bool h = tt
  resolve-IsSettled m float h = tt
  resolve-IsSettled m double h = tt
  resolve-IsSettled m (int b) h = tt
  resolve-IsSettled m (uint b) h = tt
  resolve-IsSettled m (unknown b) h = tt

  resolve_each-AllSettled :
      (m : DataTypeManager) (ts : DataTypes)
      → IsConsistent m.names
      → AllSettled m.names (resolve_each m ts)
  resolve_each-AllSettled m nil h = tt
  resolve_each-AllSettled m (cons t ts) h =
      (resolve-IsSettled m t h, resolve_each-AllSettled m ts h)

mutual
  unfolding resolve IsSettled

  resolve_settled : (m : DataTypeManager) (t : DataType) → IsSettled m.names t → resolve m t ≡ t
  resolve_settled m (named n) h = ap (λ o. Option.get_or o (unknown 0)) h
  resolve_settled m (ptr t) h = ap ptr (resolve_settled m t h)
  resolve_settled m (array t count) h = ap (λ u. array u count) (resolve_settled m t h)
  resolve_settled m (func_ptr ts t) h =
      ap₂ func_ptr (resolve_each_settled m ts h.0) (resolve_settled m t h.1)
  resolve_settled m void h = refl
  resolve_settled m bool h = refl
  resolve_settled m float h = refl
  resolve_settled m double h = refl
  resolve_settled m (int b) h = refl
  resolve_settled m (uint b) h = refl
  resolve_settled m (unknown b) h = refl

  resolve_each_settled :
      (m : DataTypeManager) (ts : DataTypes) → AllSettled m.names ts → resolve_each m ts ≡ ts
  resolve_each_settled m nil h = refl
  resolve_each_settled m (cons t ts) h =
      ap₂ cons (resolve_settled m t h.0) (resolve_each_settled m ts h.1)

mutual
  unfolding IsSettled

  settled_still :
      (m : KeyMap String DataType) (n : String) (t : DataType)
      → IsSettled m t
      → IsSettled (insert m n (named n)) t
  settled_still m n (named k) h = elim (Bool-cases (string_eq.beq n k)) [
    | inl e ↦ rw get-insert (rw e (ap (λ x. some (named x)) ((string_eq.beq_iff n k).0 e)))
    | inr e ↦ rw get-insert (rw e h)
  ]
  settled_still m n (ptr t) h = settled_still m n t h
  settled_still m n (array t count) h = settled_still m n t h
  settled_still m n (func_ptr ts t) h = (AllSettled-still m n ts h.0, settled_still m n t h.1)
  settled_still m n void h = tt
  settled_still m n bool h = tt
  settled_still m n float h = tt
  settled_still m n double h = tt
  settled_still m n (int b) h = tt
  settled_still m n (uint b) h = tt
  settled_still m n (unknown b) h = tt

  AllSettled-still :
      (m : KeyMap String DataType) (n : String) (ts : DataTypes)
      → AllSettled m ts
      → AllSettled (insert m n (named n)) ts
  AllSettled-still m n nil h = tt
  AllSettled-still m n (cons t ts) h = (settled_still m n t h.0, AllSettled-still m n ts h.1)

still_option :
    (m : KeyMap String DataType) (c : String) (o : Option DataType)
    → IsSettledOption m o
    → IsSettledOption (insert m c (named c)) o
still_option m c none h = tt
still_option m c (some t) h = settled_still m c t h

insert_named :
    (m : KeyMap String DataType) (c n : String)
    → IsConsistent m
    → IsSettledOption (insert m c (named c)) (insert m c (named c) n)
unfolding IsSettled
insert_named m c n h = elim (Bool-cases (string_eq.beq c n)) [
  | inl e ↦
      let at_n : insert m c (named c) n ≡ some (named c) = rw get-insert (rw e) in
      subst (IsSettledOption (insert m c (named c))) (sym at_n) (get-insert_self m c (named c))
  | inr e ↦
      let at_n : insert m c (named c) n ≡ m n = rw get-insert (rw e) in
      subst (IsSettledOption (insert m c (named c))) (sym at_n) (still_option m c (m n) (h n))
]

-- Adding a composite keeps every name's meaning settled.
pub add_composite-IsConsistent :
    (m : DataTypeManager) (c : CompositeType)
    → IsConsistent m.names
    → IsConsistent (add_composite m c).names
unfolding add_composite
add_composite-IsConsistent m c h n = insert_named m.names c.name n h

-- Types without a name in them.
unfoldable is_plain : DataType → Bool
is_plain (named n) = false
is_plain (ptr t) = is_plain t
is_plain (array t count) = is_plain t
is_plain (func_ptr ts t) = false
is_plain _ = true

plain_settled : (m : KeyMap String DataType) (t : DataType) → is_plain t ≡ true → IsSettled m t
unfolding is_plain IsSettled
plain_settled m (named n) h = absurd (ground arith)
plain_settled m (ptr t) h = plain_settled m t h
plain_settled m (array t count) h = plain_settled m t h
plain_settled m (func_ptr ts t) h = absurd (ground arith)
plain_settled m void h = tt
plain_settled m bool h = tt
plain_settled m float h = tt
plain_settled m double h = tt
plain_settled m (int b) h = tt
plain_settled m (uint b) h = tt
plain_settled m (unknown b) h = tt

unfoldable all_plain : List (String × DataType) → Bool
unfolding is_plain
all_plain [] = true
all_plain ((n, t) ∷ rest) = is_plain t && all_plain rest

abbrev IsPlainOption : Option DataType → Type 0
IsPlainOption none = Unit
IsPlainOption (some t) = is_plain t ≡ true

abbrev ArePlain : KeyMap String DataType → Type 0
ArePlain m = (n : String) → IsPlainOption (m n)

insert_plain :
    (m : KeyMap String DataType) (n : String) (t : DataType)
    → is_plain t ≡ true
    → ArePlain m
    → ArePlain (insert m n t)
insert_plain m n t p h k = elim (Bool-cases (string_eq.beq n k)) [
  | inl e ↦ rw get-insert (rw e p)
  | inr e ↦ rw get-insert (rw e (h k))
]

and_split : (a b : Bool) → (a && b) ≡ true → (a ≡ true) × (b ≡ true)
and_split a b h = ground arith

add_each-ArePlain :
    (m : DataTypeManager) (entries : List (String × DataType))
    → all_plain entries ≡ true
    → ArePlain m.names
    → ArePlain (add_each m entries).names
unfolding add_each add all_plain
add_each-ArePlain m [] p h = h
add_each-ArePlain m ((n, t) ∷ rest) p h =
    let (now, later) = and_split (is_plain t) (all_plain rest) p in
    add_each-ArePlain (add m n t) rest later (insert_plain m.names n t now h)

plain_option :
    (m : KeyMap String DataType) (o : Option DataType) → IsPlainOption o → IsSettledOption m o
plain_option m none h = tt
plain_option m (some t) h = plain_settled m t h

-- In a new manager every name's meaning is settled.
pub new_manager-IsConsistent : IsConsistent new_manager.names
unfolding new_manager seed_primitives all_plain
new_manager-IsConsistent n =
    plain_option new_manager.names (new_manager.names n)
      (add_each-ArePlain no_types primitives refl (λ k. tt) n)
