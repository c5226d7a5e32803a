-- ===== src/Project/Types.antt =====
-- src/project/types.rs: type nodes, function signatures and recovered stack frames.
use windy_public.Prelude.{ℕ, ◌-◌, ◌*◌, ◌/◌, ◌^◌, min, String, List, [], Option}
use windy_public.Prelude.Int.{ℤ, pos}

-- A `Vec<DataType>` inside `DataType` is the second type of the block.
mutual
  pub data DataType : Type 0 where
    void bool float double : DataType
    int uint unknown : ℕ → DataType
    ptr : DataType → DataType
    array : DataType → ℕ → DataType
    func_ptr : DataTypes → DataType → DataType
    named : String → DataType

  pub data DataTypes : Type 0 where
    nil : DataTypes
    cons : DataType → DataTypes → DataTypes

-- `u64::saturating_mul`
unfoldable pub saturating_mul : ℕ → ℕ → ℕ
saturating_mul a b = min (a * b) (2 ^ 64 - 1)

unfoldable pub size : ℕ → DataType → ℕ
size bitness void = 0
size bitness bool = 1
size bitness float = 4
size bitness double = 8
size bitness (int b) = b / 8
size bitness (uint b) = b / 8
size bitness (unknown b) = b / 8
size bitness (ptr t) = bitness / 8
size bitness (array t count) = saturating_mul (size bitness t) count
size bitness (func_ptr ts t) = bitness / 8
size bitness (named s) = 0

pub record FunctionSignature : Type 0 where
  pub name : String
  pub params : List (String × DataType)
  pub ret : DataType
  pub calling_conv : Option String

pub record StackVariable : Type 0 where
  pub name : Option String
  pub ty : DataType
  pub offset : ℤ
  pub size : ℕ

pub record StackFrame : Type 0 where
  pub local_size : ℕ
  pub arg_size : ℕ
  pub return_addr_offset : ℤ
  pub locals : List StackVariable
  pub args : List StackVariable

-- `StackFrame::default()`
abbrev pub default_frame : StackFrame
default_frame = record {
  local_size = 0;
  arg_size = 0;
  return_addr_offset = pos 0;
  locals = [];
  args = [];
}
