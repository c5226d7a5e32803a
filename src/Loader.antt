-- ===== src/Loader.antt =====
-- src/loader: the sections of an image and the memory of a dump.
pub mod AddressSpace
pub mod MemoryMap
