-- ===== src/Examples/Tree/Values.antt =====
-- Types, signatures and memory cards as trees.
use windy_public.Prelude.{ℕ, zero, suc, ◌≡◌, ◌⊎◌, inl, inr, refl, ap, ap₂, String, Option, List}
use windy_public.Prelude.Int.{ℤ, pos, negsuc}
use windy_public.Project.Types.{
  DataType, DataTypes, void, bool, float, double, int, uint, unknown, ptr, array, func_ptr, named,
  FunctionSignature,
}
use windy_public.Project.Tables.{
  SymbolKind, import, export, function, data_symbol, user, CommentScope, address_scope,
  function_scope, FunctionMemoryCard,
}
use windy_public.Examples.Tree.{Tree, num, node}
use windy_public.Examples.Tree.Text.{
  Pack, pack_nat, pack_text, pack_option, pack_list, pack_pair, pack_sum, pack_as,
}

unfoldable pub to_int : ℕ ⊎ ℕ → ℤ
to_int (inl n) = pos n
to_int (inr n) = negsuc n

unfoldable pub of_int : ℤ → ℕ ⊎ ℕ
of_int (pos n) = inl n
of_int (negsuc n) = inr n

pub to_int-of_int : (z : ℤ) → to_int (of_int z) ≡ z
unfolding to_int of_int
to_int-of_int (pos n) = refl
to_int-of_int (negsuc n) = refl

instance abbrev pub pack_int : Pack ℤ
pack_int = pack_as to_int of_int to_int-of_int

unfoldable pub to_kind : ℕ → SymbolKind
to_kind zero = import
to_kind (suc zero) = export
to_kind (suc (suc zero)) = function
to_kind (suc (suc (suc zero))) = data_symbol
to_kind (suc (suc (suc (suc n)))) = user

unfoldable pub of_kind : SymbolKind → ℕ
of_kind import = 0
of_kind export = 1
of_kind function = 2
of_kind data_symbol = 3
of_kind user = 4

pub to_kind-of_kind : (k : SymbolKind) → to_kind (of_kind k) ≡ k
unfolding to_kind of_kind
to_kind-of_kind import = refl
to_kind-of_kind export = refl
to_kind-of_kind function = refl
to_kind-of_kind data_symbol = refl
to_kind-of_kind user = refl

instance abbrev pub pack_kind : Pack SymbolKind
pack_kind = pack_as to_kind of_kind to_kind-of_kind

unfoldable pub to_scope : ℕ → CommentScope
to_scope zero = address_scope
to_scope (suc n) = function_scope

unfoldable pub of_scope : CommentScope → ℕ
of_scope address_scope = 0
of_scope function_scope = 1

pub to_scope-of_scope : (k : CommentScope) → to_scope (of_scope k) ≡ k
unfolding to_scope of_scope
to_scope-of_scope address_scope = refl
to_scope-of_scope function_scope = refl

instance abbrev pub pack_scope : Pack CommentScope
pack_scope = pack_as to_scope of_scope to_scope-of_scope

-- The four types without a field, by number.
unfoldable pub to_plain : ℕ → DataType
to_plain zero = void
to_plain (suc zero) = bool
to_plain (suc (suc zero)) = float
to_plain (suc (suc (suc n))) = double

abbrev pub Leaf : Type 0
Leaf = ℕ ⊎ (ℕ ⊎ (ℕ ⊎ String))

unfoldable pub to_leaf : Leaf → DataType
to_leaf (inl n) = int n
to_leaf (inr (inl n)) = uint n
to_leaf (inr (inr (inl n))) = unknown n
to_leaf (inr (inr (inr s))) = named s

abbrev pub pack_leaf : Pack Leaf
pack_leaf = pack_sum

unfoldable mutual
  pub tree_type : Tree → DataType
  tree_type (num n) = to_plain n
  tree_type (node (num zero) t) = to_leaf (pack_leaf.unpack t)
  tree_type (node (num (suc zero)) t) = ptr (tree_type t)
  tree_type (node (num (suc (suc n))) t) = array (tree_type t) n
  tree_type (node (node ts u) t) = func_ptr (tree_types ts) (tree_type t)

  pub tree_types : Tree → DataTypes
  tree_types (num n) = DataTypes.nil
  tree_types (node a b) = DataTypes.cons (tree_type a) (tree_types b)

unfoldable mutual
  pub type_tree : DataType → Tree
  type_tree void = num 0
  type_tree bool = num 1
  type_tree float = num 2
  type_tree double = num 3
  type_tree (int b) = node (num 0) (pack_leaf.pack (inl b))
  type_tree (uint b) = node (num 0) (pack_leaf.pack (inr (inl b)))
  type_tree (unknown b) = node (num 0) (pack_leaf.pack (inr (inr (inl b))))
  type_tree (named s) = node (num 0) (pack_leaf.pack (inr (inr (inr s))))
  type_tree (ptr t) = node (num 1) (type_tree t)
  type_tree (array t n) = node (num (suc (suc n))) (type_tree t)
  type_tree (func_ptr ts t) = node (node (types_tree ts) (num 0)) (type_tree t)

  pub types_tree : DataTypes → Tree
  types_tree DataTypes.nil = num 0
  types_tree (DataTypes.cons t ts) = node (type_tree t) (types_tree ts)

mutual
  unfolding to_plain to_leaf tree_type type_tree

  pub tree_type-type_tree : (t : DataType) → tree_type (type_tree t) ≡ t
  tree_type-type_tree void = refl
  tree_type-type_tree bool = refl
  tree_type-type_tree float = refl
  tree_type-type_tree double = refl
  tree_type-type_tree (int b) = ap to_leaf (pack_leaf.unpack-pack (inl b))
  tree_type-type_tree (uint b) = ap to_leaf (pack_leaf.unpack-pack (inr (inl b)))
  tree_type-type_tree (unknown b) = ap to_leaf (pack_leaf.unpack-pack (inr (inr (inl b))))
  tree_type-type_tree (named s) = ap to_leaf (pack_leaf.unpack-pack (inr (inr (inr s))))
  tree_type-type_tree (ptr t) = ap ptr (tree_type-type_tree t)
  tree_type-type_tree (array t n) = ap (λ x. array x n) (tree_type-type_tree t)
  tree_type-type_tree (func_ptr ts t) =
      ap₂ func_ptr (tree_types-types_tree ts) (tree_type-type_tree t)

  pub tree_types-types_tree : (ts : DataTypes) → tree_types (types_tree ts) ≡ ts
  tree_types-types_tree DataTypes.nil = refl
  tree_types-types_tree (DataTypes.cons t ts) =
      ap₂ DataTypes.cons (tree_type-type_tree t) (tree_types-types_tree ts)

instance abbrev pub pack_type : Pack DataType
pack_type = record { pack = type_tree; unpack = tree_type; unpack-pack = tree_type-type_tree }

abbrev pub SignatureFields : Type 0
SignatureFields = String × (List (String × DataType) × (DataType × Option String))

unfoldable pub to_signature : SignatureFields → FunctionSignature
to_signature (n, (ps, (r, c))) = record { name = n; params = ps; ret = r; calling_conv = c }

unfoldable pub of_signature : FunctionSignature → SignatureFields
of_signature s = (s.name, (s.params, (s.ret, s.calling_conv)))

pub to_signature-of_signature : (s : FunctionSignature) → to_signature (of_signature s) ≡ s
unfolding to_signature of_signature
to_signature-of_signature s = refl

instance abbrev pub pack_signature : Pack FunctionSignature
pack_signature = pack_as to_signature of_signature to_signature-of_signature

abbrev pub CardFields : Type 0
CardFields =
    (ℕ × (Option String × List String)) × ((List String × List String) × (Option String × (ℕ × ℕ)))

unfoldable pub to_card : CardFields → FunctionMemoryCard
to_card ((va, (p, ts)), ((ks, ss), (pu, (c, u)))) = record {
  va = va;
  purpose = p;
  tags = ts;
  key_apis = ks;
  key_strings = ss;
  purity = pu;
  confidence = c;
  updated_seq = u;
}

unfoldable pub of_card : FunctionMemoryCard → CardFields
of_card c = (
  (c.va, (c.purpose, c.tags)),
  ((c.key_apis, c.key_strings), (c.purity, (c.confidence, c.updated_seq))),
)

pub to_card-of_card : (c : FunctionMemoryCard) → to_card (of_card c) ≡ c
unfolding to_card of_card
to_card-of_card c = refl

instance abbrev pub pack_card : Pack FunctionMemoryCard
pack_card = pack_as to_card of_card to_card-of_card
