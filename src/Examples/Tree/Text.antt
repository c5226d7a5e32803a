-- ===== src/Examples/Tree/Text.antt =====
-- Numbers, texts, options, lists and pairs as trees.
use Prim.Native.Nat.{Ordering, compare}
use Prim.Native.Char.{Char, char, code, nul, IsLt, IsScalar}
use Prim.Native.String.{String, [] as empty_text, ◌∷◌ as after}
use text.Mathlib.TextEquality.{Char-path}
use windy_public.Prelude.{
  ℕ, zero, suc, ◌≡◌, ◌⊎◌, inl, inr, refl, ap, ap₂, ◌∙◌, Option, none, some, List, [], ◌∷◌,
}
use windy_public.Examples.Tree.{Tree, num, node}

pub record Pack (A : Type 0) : Type 0 where
  pub pack : A → Tree
  pub unpack : Tree → A
  pub unpack-pack : (a : A) → unpack (pack a) ≡ a

unfoldable pub number : Tree → ℕ
number (num n) = n
number (node a b) = 0

instance abbrev pub pack_nat : Pack ℕ
unfolding number
pack_nat = record { pack = num; unpack = number; unpack-pack = λ n. refl }

abbrev pub BothLt : Ordering → Ordering → Type 0
BothLt Ordering.lt o = IsLt o
BothLt Ordering.eq _ = ⊥
BothLt Ordering.gt _ = ⊥

abbrev pub Scalar : Ordering → Ordering → Ordering → Type 0
Scalar Ordering.lt _ _ = Unit
Scalar Ordering.eq o p = BothLt o p
Scalar Ordering.gt o p = BothLt o p

abbrev pub lt_dec : (o : Ordering) → Dec (IsLt o)
lt_dec Ordering.lt = yes tt
lt_dec Ordering.eq = no (λ x. x)
lt_dec Ordering.gt = no (λ x. x)

abbrev pub both_dec : (o p : Ordering) → Dec (BothLt o p)
both_dec Ordering.lt p = lt_dec p
both_dec Ordering.eq _ = no (λ x. x)
both_dec Ordering.gt _ = no (λ x. x)

abbrev pub scalar_dec : (o p q : Ordering) → Dec (Scalar o p q)
scalar_dec Ordering.lt _ _ = yes tt
scalar_dec Ordering.eq p q = both_dec p q
scalar_dec Ordering.gt p q = both_dec p q

unfoldable pub char_at : (n : ℕ) → Dec (IsScalar n) → Char
char_at n (yes p) = char n p
char_at n (no _) = nul

code-char_at : (n : ℕ) (d : Dec (IsScalar n)) → IsScalar n → code (char_at n d) ≡ n
unfolding char_at
code-char_at n (yes p) _ = refl
code-char_at n (no np) p = absurd (np p)

unfoldable pub to_char : ℕ → Char
unfolding char_at
to_char n = char_at n (scalar_dec (compare n 55296) (compare 57343 n) (compare n 1114112))

to_char-code : (c : Char) → to_char (code c) ≡ c
unfolding to_char
to_char-code (char n p) =
    Char-path _ (char n p)
      (code-char_at n (scalar_dec (compare n 55296) (compare 57343 n) (compare n 1114112)) p)

unfoldable pub text_tree : String → Tree
text_tree empty_text = num 0
text_tree (after c s) = node (num (code c)) (text_tree s)

unfoldable pub tree_text : Tree → String
unfolding number to_char
tree_text (num n) = empty_text
tree_text (node a b) = after (to_char (number a)) (tree_text b)

pub tree_text-text_tree : (s : String) → tree_text (text_tree s) ≡ s
unfolding tree_text text_tree number
tree_text-text_tree empty_text = refl
tree_text-text_tree (after c s) = ap₂ after (to_char-code c) (tree_text-text_tree s)

instance abbrev pub pack_text : Pack String
pack_text = record { pack = text_tree; unpack = tree_text; unpack-pack = tree_text-text_tree }

module _ {A : Type 0} ⦃p : Pack A⦄ where
  unfoldable pub option_tree : Option A → Tree
  option_tree none = num 0
  option_tree (some a) = node (num 0) (p.pack a)

  unfoldable pub tree_option : Tree → Option A
  tree_option (num n) = none
  tree_option (node a b) = some (p.unpack b)

  pub tree_option-option_tree : (o : Option A) → tree_option (option_tree o) ≡ o
  unfolding tree_option option_tree
  tree_option-option_tree none = refl
  tree_option-option_tree (some a) = ap some (p.unpack-pack a)

  unfoldable pub list_tree : List A → Tree
  list_tree [] = num 0
  list_tree (a ∷ l) = node (p.pack a) (list_tree l)

  unfoldable pub tree_list : Tree → List A
  tree_list (num n) = []
  tree_list (node a b) = p.unpack a ∷ tree_list b

  pub tree_list-list_tree : (l : List A) → tree_list (list_tree l) ≡ l
  unfolding tree_list list_tree
  tree_list-list_tree [] = refl
  tree_list-list_tree (a ∷ l) = ap₂ ◌∷◌ (p.unpack-pack a) (tree_list-list_tree l)

  instance abbrev pub pack_option : Pack (Option A)
  pack_option = record {
    pack = option_tree;
    unpack = tree_option;
    unpack-pack = tree_option-option_tree;
  }

  instance abbrev pub pack_list : Pack (List A)
  pack_list = record { pack = list_tree; unpack = tree_list; unpack-pack = tree_list-list_tree }

module _ {A B : Type 0} ⦃p : Pack A⦄ ⦃q : Pack B⦄ where
  unfoldable pub pair_tree : A × B → Tree
  pair_tree (a, b) = node (p.pack a) (q.pack b)

  unfoldable pub tree_pair : Tree → A × B
  tree_pair (num n) = (p.unpack (num n), q.unpack (num n))
  tree_pair (node a b) = (p.unpack a, q.unpack b)

  pub tree_pair-pair_tree : (x : A × B) → tree_pair (pair_tree x) ≡ x
  unfolding tree_pair pair_tree
  tree_pair-pair_tree (a, b) = λ i. (p.unpack-pack a i, q.unpack-pack b i)

  instance abbrev pub pack_pair : Pack (A × B)
  pack_pair = record { pack = pair_tree; unpack = tree_pair; unpack-pack = tree_pair-pair_tree }

module _ {A B : Type 0} ⦃p : Pack A⦄ ⦃q : Pack B⦄ where
  unfoldable pub sum_tree : A ⊎ B → Tree
  sum_tree (inl a) = node (num 0) (p.pack a)
  sum_tree (inr b) = node (num 1) (q.pack b)

  unfoldable pub tree_sum : Tree → A ⊎ B
  tree_sum (num n) = inl (p.unpack (num n))
  tree_sum (node (node a b) t) = inl (p.unpack t)
  tree_sum (node (num zero) t) = inl (p.unpack t)
  tree_sum (node (num (suc n)) t) = inr (q.unpack t)

  pub tree_sum-sum_tree : (x : A ⊎ B) → tree_sum (sum_tree x) ≡ x
  unfolding tree_sum sum_tree
  tree_sum-sum_tree (inl a) = ap inl (p.unpack-pack a)
  tree_sum-sum_tree (inr b) = ap inr (q.unpack-pack b)

  instance abbrev pub pack_sum : Pack (A ⊎ B)
  pack_sum = record { pack = sum_tree; unpack = tree_sum; unpack-pack = tree_sum-sum_tree }

-- A type that another one stands for.
abbrev pub pack_as :
    {A B : Type 0} (f : A → B) (g : B → A) → ((b : B) → f (g b) ≡ b) → ⦃p : Pack A⦄ → Pack B
pack_as f g fg ⦃p⦄ = record {
  pack = λ b. p.pack (g b);
  unpack = λ t. f (p.unpack t);
  unpack-pack = λ b. ap f (p.unpack-pack (g b)) ∙ fg b;
}
