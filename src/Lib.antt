-- ===== src/Lib.antt =====
-- Windy: the project state of a reverse-engineering server, the memory under it, and the single-assignment
-- form that its decompiler works on.
--
-- Several clients edit an opened image at once: they rename, comment, retype, annotate. One writer
-- task for each project applies their operations, keeps an undo and a redo stack for each client,
-- appends each applied operation to a journal, and now and then saves a snapshot and truncates the
-- journal. Opening a project replays what the snapshot does not hold.
--
-- The parts, and where they are:
--   src/project/types.rs                  Project/Types, Project/TypeManager
--   src/project/symbols.rs, comments.rs, memory.rs  Project/Tables
--   src/project/mod.rs                    Project/State (fields and setters), Manager (opening, saving)
--   src/project/op.rs                     Project/Op, Frame, Apply (apply_to), Params, Inverse (inverse)
--   src/project/command.rs                Project/Command
--   src/project/persistence.rs            Project/Snapshot
--   src/project/op_log.rs                 Journal
--   src/project_manager.rs                Manager (writer_loop, apply_one, undo_one, redo_one)
--                                         and Manager/Cache (decompile_cache_get, _put), Manager/Activity
--   src/loader/address_space.rs           Loader/AddressSpace
--   src/loader/dump/memory_map.rs         Loader/MemoryMap
--   src/decompiler/ssa/mod.rs             Ssa/Types, Ssa/Build (build_ssa_with_call_abi_inputs),
--                                         Ssa/Reaching (reaching_register_at_return)
--   src/decompiler/ssa/cfg.rs             Ssa/Cfg (build_idom, dominance_frontier, iterated_df)
--   src/decompiler/ssa/phi.rs             Ssa/Phi (place_phis)
--   src/decompiler/ssa/rename.rs          Ssa/Rename (rename, rename_block)
--   src/decompiler/ssa/simplify.rs        Ssa/Alias (find, passes 1 to 3), Ssa/Simplify (pass 4, simplify)
--   src/decompiler/structure/pdom.rs      Ssa/Pdom
--   src/decompiler/structure/region.rs    Structure/Walk (reach, natural_loop_nodes, can_reach),
--                                         Structure/Region (classify, detect_short_circuit)
--   src/decompiler/structure/cfg_norm.rs  Structure/Jumps, with the tests of src/decompiler/normalize/mod.rs
--                                         in Structure/Pcode
--   src/decompiler/structure/rd_model.rs  Structure/Effects, Structure/Contracts, Structure/Dual
--   src/decompiler/structure/rewrite.rs   Structure/Moves
--
-- Decompiling a function brings it into SSA form: the dominators of its blocks, the frontiers where
-- definitions meet, a phi there, and a walk down the dominator tree that numbers definitions and
-- uses. Simplifying follows copies and trivial phis to what they stand for, and takes out what
-- nothing needs. Structuring finds the loops and branches of the blocks as regions, on a graph
-- without blocks that only jump on, and rewrites regions by moves that a check accepts.
--
-- Prelude, KeyMap, Ssa/NodeSet and Project/Decimal are shared; Project/View says what a client sees
-- of a project and what each operation means on it; Examples holds concrete inputs and tests.
--
-- State is passed explicitly: an operation takes the project, or the writer, and returns the
-- changed one with its result. Numbers are natural numbers, with the wrap-around and the saturation
-- of u64 written out where the code's numbers can reach them. Hash maps are functions. Input and
-- output that can fail takes its outcome as an argument. serde_json is the parameter `Codec`: a
-- record's line has no newline and reads back as the record, but for a captured `Some(None)`, which is
-- written as null and read as `None`, and for records nested deeper than its recursion limit. The padding of parameter lists runs on
-- fuel, one round for each index up to the one that is named; the digits of a number on 20 rounds,
-- which a u64 needs at most; the worklist of the iterated frontier on one round for each block and
-- each seed; the walk of the renamer on one level for each block. The loops of the dominators take
-- their fuel as an argument. The worklist of the simplification runs one round for each operation;
-- a search for the root of an alias one step for each alias made so far, and one more. The walks of
-- the structuring run one round for each edge and each node that they begin with, and one more; the
-- search for a register at a return goes one block deeper in each step, so at most as deep as there
-- are blocks. What is read of an operation of the lifter is the parameter `view`. The journal is
-- bytes; the dump's pointers are indices into the dump.
--
-- Not modelled: lifting, lower.rs, type recovery and printing in the decompiler, the analysis, the
-- loaders' parsers, the protocol server, the journal file of the activity feed, floats, and the bytes of a
-- snapshot.
pub mod Prelude
pub mod KeyMap
pub mod Project
pub mod Journal
pub mod Manager
pub mod Loader
pub mod Ssa
pub mod Examples
pub mod Structure
