-- ===== src/Project/TypeManager.antt =====
-- src/project/types.rs: the repository of named and composite types of a project.
pub mod Primitives
pub mod Resolve
use Prim.Native.String.{◌++◌ as str_append}
use mathlib.Core.Option
use windy_public.Prelude.{ℕ, String, Option, List, [], ◌∷◌, string_eq}
use windy_public.Prelude.Int.{ℤ}
use windy_public.KeyMap.{KeyMap, insert, empty}
use windy_public.Project.Types.{
  DataType, DataTypes, void, bool, float, double, int, uint, unknown, ptr, array, func_ptr, named,
  nil, cons, FunctionSignature,
}
use windy_public.Project.Decimal.{decimal}
use windy_public.Project.TypeManager.Primitives.{primitives}

pub record Field : Type 0 where
  pub name : String
  pub ty : DataType
  pub offset : ℕ
  pub bit_offset : Option ℕ

pub record EnumVariant : Type 0 where
  pub name : String
  pub value : ℤ

pub data CompositeKind : Type 0 where
  structure union enumeration : CompositeKind

pub record CompositeType : Type 0 where
  pub kind : CompositeKind
  pub name : String
  pub size : ℕ
  pub align : ℕ
  pub fields : List Field
  pub variants : List EnumVariant

pub record DataTypeManager : Type 0 where
  pub names : KeyMap String DataType
  pub composites : KeyMap String CompositeType
  pub signatures : KeyMap String FunctionSignature

unfoldable pub add : DataTypeManager → String → DataType → DataTypeManager
add m name ty = record m { names = insert m.names name ty }

unfoldable pub add_each : DataTypeManager → List (String × DataType) → DataTypeManager
unfolding add
add_each m [] = m
add_each m ((name, ty) ∷ rest) = add_each (add m name ty) rest

-- `DataTypeManager::default()`
abbrev pub no_types : DataTypeManager
no_types = record { names = empty; composites = empty; signatures = empty }

unfoldable pub seed_primitives : DataTypeManager → DataTypeManager
unfolding add_each
seed_primitives m = add_each m primitives

-- `DataTypeManager::new`
unfoldable pub new_manager : DataTypeManager
unfolding seed_primitives
new_manager = seed_primitives no_types

unfoldable pub get : DataTypeManager → String → Option DataType
get m name = m.names name

unfoldable mutual
  pub resolve : DataTypeManager → DataType → DataType
  resolve m (named n) = Option.get_or (m.names n) (unknown 0)
  resolve m (ptr t) = ptr (resolve m t)
  resolve m (array t count) = array (resolve m t) count
  resolve m (func_ptr ts t) = func_ptr (resolve_each m ts) (resolve m t)
  resolve m void = void
  resolve m bool = bool
  resolve m float = float
  resolve m double = double
  resolve m (int b) = int b
  resolve m (uint b) = uint b
  resolve m (unknown b) = unknown b

  pub resolve_each : DataTypeManager → DataTypes → DataTypes
  resolve_each m nil = nil
  resolve_each m (cons t ts) = cons (resolve m t) (resolve_each m ts)

unfoldable pub add_composite : DataTypeManager → CompositeType → DataTypeManager
add_composite m c = record m {
  composites = insert m.composites c.name c;
  names = insert m.names c.name (named c.name);
}

unfoldable pub composite : DataTypeManager → String → Option CompositeType
composite m name = m.composites name

unfoldable pub add_signature : DataTypeManager → FunctionSignature → DataTypeManager
add_signature m sig = record m { signatures = insert m.signatures sig.name sig }

unfoldable pub signature : DataTypeManager → String → Option FunctionSignature
signature m name = m.signatures name

-- `DataType::pointer_to` and `DataType::array_of`
unfoldable pub pointer_to : DataType → DataType
pointer_to t = ptr t

unfoldable pub array_of : DataType → ℕ → DataType
array_of t count = array t count

-- `collect::<Vec<_>>().join(",")`
unfoldable pub join_comma : List String → String
join_comma [] = ""
join_comma (s ∷ []) = s
join_comma (s ∷ t ∷ rest) = str_append s (str_append "," (join_comma (t ∷ rest)))

-- A `u64` has at most 20 digits.
unfoldable pub digits_of : ℕ → String
unfolding decimal
digits_of n = decimal 20 n

unfoldable mutual
  unfolding digits_of join_comma

  pub render : DataType → String
  render void = "void"
  render bool = "bool"
  render float = "float"
  render double = "double"
  render (int b) = str_append "int" (digits_of b)
  render (uint b) = str_append "uint" (digits_of b)
  render (unknown b) = str_append "unknown" (digits_of b)
  render (ptr t) = str_append (render t) "*"
  render (array t count) = str_append (render t) (str_append "[" (str_append (digits_of count) "]"))
  render (func_ptr ts t) =
      str_append (render t) (str_append "(*)(" (str_append (join_comma (render_each ts)) ")"))
  render (named n) = n

  pub render_each : DataTypes → List String
  render_each nil = []
  render_each (cons t ts) = render t ∷ render_each ts
