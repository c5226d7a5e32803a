-- ===== src/Structure.antt =====
-- src/decompiler/structure: regions of a function in single-assignment form, and their rewriting.
pub mod Walk
pub mod Pcode
pub mod Jumps
pub mod Region
pub mod Effects
pub mod Contracts
pub mod Dual
pub mod Moves
