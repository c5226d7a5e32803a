-- ===== src/Project.antt =====
-- src/project: the state of an opened image that agents edit, and the reversible edits.
pub mod Types
pub mod Tables
pub mod Decimal
pub mod State
pub mod Frame
pub mod Op
pub mod Apply
pub mod Params
pub mod Inverse
pub mod View
pub mod Undo
pub mod Command
pub mod Snapshot
pub mod TypeManager
