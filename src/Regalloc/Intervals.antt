-- ===== src/Regalloc/Intervals.antt =====
-- The live intervals of src/regalloc.c. The intervals of a function are a list that is read and
-- written at the number of the virtual register; a write behind its end changes nothing, as the
-- source's tests against `next_vreg` have it.
use vortech.Prelude.{
  ℕ, zero, suc, Bool, true, false, not, ◌&&◌, Option, some, List, [], ◌∷◌, map, ◌==◌, ltb, leb,
  if◌then◌else◌,
}
use vortech.Ssa.{invalid_vreg}
use vortech.Mach.{MachOpcode, MachInst, MachBlock, MachFunc, label, nop, call}
use vortech.Mach.Registers.{reg_none}
use vortech.Regalloc.{LiveInterval}

abbrev pub uint32_max : ℕ
uint32_max = 0xffffffff

abbrev pub empty_interval : ℕ → LiveInterval
empty_interval v = record {
  vreg = v;
  start = uint32_max;
  end_ = 0;
  phys_reg = reg_none;
  is_param = false;
  is_spilled = false;
}

-- The empty intervals of the registers from `v` on.
abbrev pub init_from : ℕ → ℕ → List LiveInterval
init_from v zero = []
init_from v (suc n) = empty_interval v ∷ init_from (suc v) n

-- The interval at an index, by `f`.
abbrev pub modify_at : (LiveInterval → LiveInterval) → ℕ → List LiveInterval → List LiveInterval
modify_at f i [] = []
modify_at f zero (x ∷ xs) = f x ∷ xs
modify_at f (suc i) (x ∷ xs) = x ∷ modify_at f i xs

abbrev pub mark_param : LiveInterval → LiveInterval
mark_param iv = record iv { is_param = true; start = 0 }

abbrev pub mark_params : List ℕ → List LiveInterval → List LiveInterval
mark_params [] ivs = ivs
mark_params (p ∷ ps) ivs = mark_params ps (modify_at mark_param p ivs)

abbrev pub widen : ℕ → LiveInterval → LiveInterval
widen idx iv = record iv {
  start = if ltb idx iv.start then idx else iv.start;
  end_ = if ltb iv.end_ idx then idx else iv.end_;
}

abbrev pub touch : ℕ → ℕ → List LiveInterval → List LiveInterval
touch idx v ivs = modify_at (widen idx) v ivs

-- `MINST_LABEL` and `MINST_NOP`.
abbrev pub is_marker : MachOpcode → Bool
is_marker label = true
is_marker nop = true
is_marker o = false

abbrev pub touch_operand : ℕ → MachInst → ℕ → List LiveInterval → List LiveInterval
touch_operand idx mi v ivs =
    if not (v == invalid_vreg) && not (is_marker mi.op) then touch idx v ivs else ivs

abbrev pub touch_args : ℕ → List ℕ → List LiveInterval → List LiveInterval
touch_args idx [] ivs = ivs
touch_args idx (v ∷ vs) ivs = touch_args idx vs (touch idx v ivs)

-- The virtual registers that a call passes.
abbrev pub args_of : MachOpcode → Option (List ℕ) → List ℕ
args_of call (some vs) = vs
args_of o vs = []

abbrev pub touch_inst : ℕ → MachInst → List LiveInterval → List LiveInterval
touch_inst idx mi ivs =
    touch_args idx (args_of mi.op mi.arg_vregs)
      (touch_operand idx mi mi.src2 (touch_operand idx mi mi.src (touch_operand idx mi mi.dst ivs)))

abbrev pub walk_insts : ℕ → List MachInst → List LiveInterval → ℕ × List LiveInterval
walk_insts idx [] ivs = (idx, ivs)
walk_insts idx (mi ∷ mis) ivs = walk_insts (suc idx) mis (touch_inst idx mi ivs)

abbrev pub walk_blocks : ℕ → List MachBlock → List LiveInterval → List LiveInterval
walk_blocks idx [] ivs = ivs
walk_blocks idx (mb ∷ mbs) ivs =
    let (next, walked) = walk_insts idx mb.insts ivs in walk_blocks next mbs walked

abbrev pub extend_param : LiveInterval → LiveInterval
extend_param iv = if iv.is_param && iv.start == uint32_max then record iv { start = 0 } else iv

unfoldable pub compute_live_intervals : MachFunc → List LiveInterval
compute_live_intervals mf =
    map extend_param
      (walk_blocks 0 mf.blocks (mark_params mf.param_vregs (init_from 0 mf.next_vreg)))

abbrev pub is_live : LiveInterval → Bool
is_live iv = leb iv.start iv.end_

-- The intervals that are not empty, which the source copies before it sorts them.
abbrev pub live_of : List LiveInterval → List LiveInterval
live_of [] = []
live_of (iv ∷ ivs) = let more = live_of ivs in if is_live iv then iv ∷ more else more
