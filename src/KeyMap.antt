-- ===== src/KeyMap.antt =====
-- `HashMap` and `BTreeMap` of the standard library, as functions from keys to values. The program's
-- modelled operations look keys up, write them and remove them; where it copies every entry of one
-- map into another (loading a snapshot) the order of the copies does not matter, since keys differ.
use windy_public.Prelude.{◌≡◌, refl, ◌∙◌, fun_ext, Option, none, some, arith, Eq, if◌then◌else◌}

abbrev pub KeyMap {ℓ κ} : Type ℓ → Type κ → Type (ℓ ⊔ κ)
KeyMap K V = K → Option V

module _ {ℓ κ} {K : Type ℓ} {V : Type κ} where
  abbrev pub empty : KeyMap K V
  empty k = none

  -- Each entry of `new` is inserted into `base`.
  unfoldable pub extend : KeyMap K V → KeyMap K V → KeyMap K V
  extend base new k = elim (new k) [ none ↦ base k | some v ↦ some v ]

module _ {ℓ κ} {K : Type ℓ} {V : Type κ} ⦃e : Eq K⦄ where
  unfoldable pub insert : KeyMap K V → K → V → KeyMap K V
  insert m k v j = if e.beq k j then some v else m j

  unfoldable pub remove : KeyMap K V → K → KeyMap K V
  remove m k j = if e.beq k j then none else m j

  pub get-insert :
      (m : KeyMap K V) (k j : K) (v : V) → insert m k v j ≡ (if e.beq k j then some v else m j)
  unfolding insert
  get-insert m k j v = refl

  pub get-insert_self : (m : KeyMap K V) (k : K) (v : V) → insert m k v k ≡ some v
  unfolding insert
  get-insert_self m k v = ground (arith, e.beq_iff k k)

  -- Writing a key twice leaves the second value.
  pub insert-insert : (m : KeyMap K V) (k : K) (v w : V) → insert (insert m k v) k w ≡ insert m k w
  unfolding insert
  insert-insert m k v w = fun_ext λ j. ground arith

  -- Writing back the value that was there changes nothing.
  pub insert-get : (m : KeyMap K V) (k : K) (v : V) → m k ≡ some v → insert m k v ≡ m
  unfolding insert
  insert-get m k v h = fun_ext λ j. ground (arith, e.beq_iff k j)

  pub insert_back :
      (m : KeyMap K V) (k : K) (v w : V) → m k ≡ some w → insert (insert m k v) k w ≡ m
  insert_back m k v w h = insert-insert m k v w ∙ insert-get m k w h

  pub remove-insert : (m : KeyMap K V) (k : K) (v : V) → m k ≡ none → remove (insert m k v) k ≡ m
  unfolding insert remove
  remove-insert m k v h = fun_ext λ j. ground (arith, e.beq_iff k j)

  pub remove_back : (m : KeyMap K V) (k : K) (v : V) → m k ≡ some v → insert (remove m k) k v ≡ m
  unfolding insert remove
  remove_back m k v h = fun_ext λ j. ground (arith, e.beq_iff k j)

  pub remove_absent : (m : KeyMap K V) (k : K) → m k ≡ none → remove m k ≡ m
  unfolding remove
  remove_absent m k h = fun_ext λ j. ground (arith, e.beq_iff k j)

  pub insert-remove : (m : KeyMap K V) (k : K) (v : V) → insert (remove m k) k v ≡ insert m k v
  unfolding insert remove
  insert-remove m k v = fun_ext λ j. ground arith

  pub remove-remove : (m : KeyMap K V) (k : K) → remove (remove m k) k ≡ remove m k
  unfolding remove
  remove-remove m k = fun_ext λ j. ground arith
