-- ===== src/Tests/Allocated.antt =====
-- Register allocation on a concrete function.
use vortech.Prelude.{
  List, ◌<◌, ◌++◌, map, length, get_or, inl, inr, none, ℕ, ◌+◌, ◌*◌, ◌%◌, ◌≤◌, ◌≡◌, refl, [], ◌∷◌,
  All, arith,
}
use vortech.Prelude.Int.{pos}
use vortech.Mach
use vortech.Mach.{MachInst, MachFunc, Width}
use vortech.Regalloc.{RegAllocResult}
use vortech.Regalloc.Intervals.{compute_live_intervals, live_of}
use vortech.Regalloc.Scan.{
  cmp_interval_start, regalloc_linear_scan, scan_all, scan_init, process, place, expired, expire,
  frame_size,
}
use vortech.Regalloc.Disjoint.{AllPairs, Separate}
use vortech.Regalloc.Allocation.{regalloc_linear_scan-Separate}
use vortech.Mach.Registers.{reg_none}
use vortech.Emit.Buffer.{cb_init}
use vortech.Emit.Frame.{enc_prologue}
use vortech.Emit.Saved.{enc_prologue-regalloc_linear_scan}
use vortech.Regalloc.Spills.{Placed}
use vortech.Regalloc.Settled.{regalloc_linear_scan-Placed}
use vortech.Regalloc.Apply.{regalloc_apply}
use vortech.Regalloc.Physical.{NamesVregs, NamesGprs, regalloc_apply-NamesGprs}
use vortech.Regalloc.Frame.{frame_size-holds}
use vortech.Regalloc.Touches.{BlocksCovered}
use vortech.Regalloc.Covers.{compute_live_intervals-Covers}
use vortech.Tests.Sorting.{insertion_sort, insert, before, insertion_sort-SortsIntervals}

abbrev inst : Mach.MachOpcode → (dst src src2 : ℕ) → MachInst
inst o d s s2 = record {
  op = o;
  width = Width.qword;
  dst = d;
  src = s;
  src2 = s2;
  imm = pos 0;
  target_bb = 0;
  func_name = none;
  arg_vregs = none;
  offset = pos 0;
}

-- A parameter, a copy of it, their sum, and a register that begins where the copy has ended.
abbrev sum : MachFunc
sum = record {
  name = 0x66 ∷ [];
  blocks =
      record {
        label = 0;
        insts =
            inst Mach.mov 1 0 0xffffffff
            ∷ inst Mach.add 2 0 1
            ∷ inst Mach.mov 3 2 0xffffffff
            ∷ inst Mach.ret 0xffffffff 3 0xffffffff
            ∷ [];
      }
      ∷ [];
  next_vreg = 5;
  param_vregs = 0 ∷ [];
  stack_size = 0;
}

abbrev allocated : RegAllocResult
unfolding regalloc_linear_scan insertion_sort
allocated = regalloc_linear_scan insertion_sort sum

allocated_regs : allocated.vreg_to_reg ≡ 1 ∷ 2 ∷ 3 ∷ 1 ∷ 0 ∷ []
unfolding allocated regalloc_linear_scan insertion_sort compute_live_intervals scan_all scan_init
    process place expired expire insert before cmp_interval_start
allocated_regs = refl

regalloc_linear_scan-Separate_example :
    AllPairs
      (Separate (regalloc_linear_scan insertion_sort sum).vreg_to_reg)
      (live_of (compute_live_intervals sum))
regalloc_linear_scan-Separate_example =
    regalloc_linear_scan-Separate insertion_sort sum insertion_sort-SortsIntervals

regalloc_linear_scan-Placed_example :
    All
      (Placed
        (regalloc_linear_scan insertion_sort sum).vreg_to_reg
        (regalloc_linear_scan insertion_sort sum).vreg_to_slot)
      (live_of (compute_live_intervals sum))
regalloc_linear_scan-Placed_example =
    regalloc_linear_scan-Placed insertion_sort sum insertion_sort-SortsIntervals

compute_live_intervals-Covers_example : BlocksCovered 0 sum.blocks (compute_live_intervals sum)
compute_live_intervals-Covers_example = compute_live_intervals-Covers sum

frame_size-holds_example :
    (frame_size 3 1 % 16 ≡ 0)
    × (3 * 8 + 1 * 8 ≤ frame_size 3 1)
    × (frame_size 3 1 ≤ 3 * 8 + 1 * 8 + 30)
frame_size-holds_example = frame_size-holds 3 1 (omega arith)

-- The operands of the concrete function.
sum_named : All (λ mb. All (NamesVregs sum.next_vreg) mb.insts) sum.blocks
sum_named = (
  (
    (inr (omega arith), inr (omega arith), inl refl),
    (
      (inr (omega arith), inr (omega arith), inr (omega arith)),
      (
        (inr (omega arith), inr (omega arith), inl refl),
        ((inl refl, inr (omega arith), inl refl), tt),
      ),
    ),
  ),
  tt,
)

regalloc_apply-NamesGprs_example :
    All
      (λ mb. All NamesGprs mb.insts)
      (regalloc_apply sum (regalloc_linear_scan insertion_sort sum)).blocks
regalloc_apply-NamesGprs_example =
    regalloc_apply-NamesGprs insertion_sort sum insertion_sort-SortsIntervals sum_named

-- Ten virtual registers that live at once, of which the fourth gets rbx.
abbrev crowded : MachFunc
crowded = record sum {
  blocks =
      record {
        label = 0;
        insts =
            map (λ v. inst Mach.mov_imm v 0xffffffff 0xffffffff) vregs
            ++ map (λ v. inst Mach.mov 0xffffffff v 0xffffffff) vregs;
      }
      ∷ [];
  next_vreg = 10;
  param_vregs = [];
}
  where
    vregs : List ℕ
    vregs = 0 ∷ 1 ∷ 2 ∷ 3 ∷ 4 ∷ 5 ∷ 6 ∷ 7 ∷ 8 ∷ 9 ∷ []

crowded_given : get_or (regalloc_linear_scan insertion_sort crowded).vreg_to_reg 3 reg_none ≡ 4
unfolding regalloc_linear_scan insertion_sort compute_live_intervals scan_all scan_init process
    place expired expire insert before cmp_interval_start
crowded_given = refl

crowded_long : 3 < length (regalloc_linear_scan insertion_sort crowded).vreg_to_reg
unfolding regalloc_linear_scan insertion_sort compute_live_intervals scan_all scan_init process
    place expired expire insert before cmp_interval_start
crowded_long = omega arith

enc_prologue-regalloc_linear_scan_example :
    (ahead : List ℕ) × (behind : List ℕ) × ((enc_prologue crowded
        (regalloc_linear_scan insertion_sort crowded)
        cb_init).data_
      ≡ [] ++ ahead ++ (0x53 ∷ []) ++ behind)
enc_prologue-regalloc_linear_scan_example =
    enc_prologue-regalloc_linear_scan insertion_sort crowded cb_init 3 0 (4, 0x53 ∷ []) crowded_long
      refl crowded_given
