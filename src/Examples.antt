-- ===== src/Examples.antt =====
-- Concrete inputs of the theorems, and the tests.
mod Graphs
mod Passes
mod Tree
mod Json
mod Edits
mod Run
mod Load
mod Types
mod Cache
mod Feed
mod Regions
mod Built
