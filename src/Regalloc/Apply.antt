-- ===== src/Regalloc/Apply.antt =====
-- `regalloc_apply` of src/regalloc.c.
use vortech.Prelude.{ℕ, Bool, false, not, ◌&&◌, map, ◌==◌, ltb, if◌then◌else◌, get_or}
use vortech.Ssa.{invalid_vreg}
use vortech.Mach.{MachInst, MachBlock, MachFunc}
use vortech.Mach.Registers.{reg_none}
use vortech.Regalloc.{RegAllocResult}
use vortech.Regalloc.Intervals.{is_marker}

abbrev pub reg_of : RegAllocResult → Bool → ℕ → ℕ
reg_of ra skipped v =
    if not (v == invalid_vreg) && ltb v ra.num_vregs && not skipped
    then get_or ra.vreg_to_reg v reg_none
    else v

abbrev pub apply_inst : RegAllocResult → MachInst → MachInst
apply_inst ra mi = record mi {
  dst = reg_of ra (is_marker mi.op) mi.dst;
  src = reg_of ra (is_marker mi.op) mi.src;
  src2 = reg_of ra false mi.src2;
}

abbrev pub apply_block : RegAllocResult → MachBlock → MachBlock
apply_block ra mb = record mb { insts = map (apply_inst ra) mb.insts }

unfoldable pub regalloc_apply : MachFunc → RegAllocResult → MachFunc
regalloc_apply mf ra = record mf {
  blocks = map (apply_block ra) mf.blocks;
  stack_size = ra.stack_size;
}
