-- ===== src/Isel.antt =====
-- Instruction selection: `isel_select` of src/isel.c. Out of what src/ssa.h has and `Ssa` leaves
-- out, the function's name and the width of each instruction's `dst_type`, by the block's and the
-- instruction's index, are arguments. Blocks and edges are lists: their capacities are doubled
-- before a write that has no room.
pub mod Lower
pub mod Edges
pub mod Split
pub mod Collected
pub mod Ordered
pub mod Vregs
pub mod Functional
pub mod Straight
pub mod Patched
pub mod Shapes
pub mod Branches
pub mod Copies
pub mod Parts
pub mod Parallel
pub mod Ended
pub mod Terminators
pub mod Simulates
pub mod Dropped
pub mod Ranges
pub mod Closed
pub mod Verified
use vortech.Prelude.{ℕ, suc, List, [], ◌∷◌, length}
use vortech.Mach.{Width, MachBlock, MachFunc}
use vortech.Ssa.{Func}
use vortech.Isel.Lower.{select_blocks}
use vortech.Isel.Edges.{collect_blocks}
use vortech.Isel.Split.{process_edges}

unfoldable pub isel_select : List ℕ → (ℕ → ℕ → Width) → Func → MachFunc
unfolding select_blocks collect_blocks process_edges
isel_select name width_at f = record {
  name = name;
  blocks =
      process_edges (collect_blocks (length f.blocks) 0 f.blocks [])
        (select_blocks width_at 0 f.blocks);
  next_vreg = f.next_vreg;
  param_vregs = f.param_vregs;
  stack_size = 0;
}
