-- ===== src/Tests.antt =====
-- Concrete programs, runs of the model on them, and the theorems at these inputs.
mod Samples
pub mod Machine
pub mod Passes
pub mod Lexing
pub mod Allocation
pub mod Layout
pub mod Emission
pub mod Naming
pub mod Sorting
pub mod Allocated
pub mod Selection
pub mod Compiled
