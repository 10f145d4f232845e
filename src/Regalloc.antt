-- ===== src/Regalloc.antt =====
-- Register allocation: src/regalloc.c and src/regalloc.h.
pub mod Intervals
pub mod Scan
pub mod Apply
pub mod Expire
pub mod Available
pub mod Owners
pub mod Places
pub mod Evict
pub mod Steps
pub mod Disjoint
pub mod Numbered
pub mod Start
pub mod Allocation
pub mod Spills
pub mod Settled
pub mod Frame
pub mod Saved
pub mod Touches
pub mod Covers
pub mod Physical
use vortech.Prelude.{ℕ, Bool, List, Option}

-- The positions of the first and of the last instruction that a virtual register is live at.
-- `stack_slot`, which is -1 throughout, is left out.
pub record LiveInterval : Type 0 where
  pub vreg : ℕ
  pub start : ℕ
  pub end_ : ℕ
  pub phys_reg : ℕ
  pub is_param : Bool
  pub is_spilled : Bool

-- `vreg_to_slot` has none for -1.
pub record RegAllocResult : Type 0 where
  pub vreg_to_reg : List ℕ
  pub vreg_to_slot : List (Option ℕ)
  pub num_vregs : ℕ
  pub stack_slots : ℕ
  pub stack_size : ℕ
  pub reg_used : List Bool
