-- ===== src/Ssa.antt =====
-- src/decompiler: the single-assignment form of a function and the passes on it.
pub mod NodeSet
pub mod Alias
pub mod Types
pub mod Cfg
pub mod Phi
pub mod Pdom
pub mod Rename
pub mod Simplify
pub mod Build
pub mod Reaching
