-- ===== src/Ssa/Types.antt =====
-- src/decompiler/ssa/mod.rs: locations, versioned variables, operations and blocks.
use windy_public.Prelude.{ℕ, ◌≡◌, ◌↔◌, Bool, true, false, ◌&&◌, Option, List, ◌==◌, arith, Eq}
use windy_public.Prelude.Int.{ℤ, eqb_ℤ, eqb_ℤ_iff}

pub data Location : Type 0 where
  register : ℕ → Location
  stack_slot : ℕ → ℤ → Location
  unique : ℕ → ℕ → ℕ → Location
  raw_ram : Location

unfoldable pub is_instruction_scoped : Location → Bool
is_instruction_scoped (unique va offset size) = true
is_instruction_scoped _ = false

-- `PartialEq` of `Location`
unfoldable pub location_beq : Location → Location → Bool
location_beq (register a) (register b) = a == b
location_beq (stack_slot a d) (stack_slot b e) = a == b && eqb_ℤ d e
location_beq (unique a b c) (unique d e f) = a == d && (b == e && c == f)
location_beq raw_ram raw_ram = true
location_beq _ _ = false

pub location_beq_iff : (a b : Location) → (location_beq a b ≡ true) ↔ (a ≡ b)
unfolding location_beq
location_beq_iff (register a) (register b) = ground arith
location_beq_iff (stack_slot a d) (stack_slot b e) = ground (arith, eqb_ℤ_iff d e)
location_beq_iff (unique a b c) (unique d e f) = ground arith
location_beq_iff raw_ram raw_ram = ground arith
location_beq_iff _ _ = ground arith

instance abbrev pub location_eq : Eq Location
location_eq = record { beq = location_beq; beq_iff = location_beq_iff }

pub record SsaVar : Type 0 where
  pub location : Location
  pub version : ℕ

unfoldable pub var_beq : SsaVar → SsaVar → Bool
unfolding location_beq
var_beq a b = location_beq a.location b.location && a.version == b.version

pub var_beq_iff : (a b : SsaVar) → (var_beq a b ≡ true) ↔ (a ≡ b)
unfolding var_beq
var_beq_iff a b = ground (arith, location_beq_iff a.location b.location)

instance abbrev pub var_eq : Eq SsaVar
var_eq = record { beq = var_beq; beq_iff = var_beq_iff }

pub record PhiNode : Type 0 where
  pub out : SsaVar
  pub args : List (Option SsaVar)

-- An operation of the lifter, of the library type `Op`, or a phi.
pub data SsaOpKind (Op : Type 0) : Type 0 where
  phi : PhiNode → SsaOpKind Op
  pcode : Op → SsaOpKind Op

pub record SsaOp (Op : Type 0) : Type 0 where
  pub va : ℕ
  pub kind : SsaOpKind Op
  pub def : Option SsaVar
  pub uses : List SsaVar

pub record SsaBlock (Op : Type 0) : Type 0 where
  pub id : ℕ
  pub entry_va : ℕ
  pub ops : List (SsaOp Op)
  pub predecessor_ids : List ℕ
  pub successor_ids : List ℕ

pub record SsaFunction (Op : Type 0) : Type 0 where
  pub entry_va : ℕ
  pub bitness : ℕ
  pub blocks : List (SsaBlock Op)
  pub image_base : ℕ

-- An operation with locations that have no versions yet.
pub record FlatOp (Op : Type 0) : Type 0 where
  pub va : ℕ
  pub op : Op
  pub def : Option Location
  pub uses : List Location
