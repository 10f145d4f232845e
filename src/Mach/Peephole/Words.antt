-- ===== src/Mach/Peephole/Words.antt =====
-- Running machine instructions keeps 64-bit words in the registers.
use vortech.Prelude.{ℕ, ◌^◌, ◌<◌, not, ◌&&◌, ◌||◌, arith, ◌==◌, if_both}
use vortech.Mach.{
  MachOpcode, Width, byte, dword, qword, mov, mov_imm, add, add_imm, sub_imm, mul_imm, xor, nop,
  MachInst,
}
use vortech.Mach.Run.{reg_valid, Regs, put, moved, preload, step_op}
use vortech.Mach.Peephole.Values.{AreWords}

module _ {W : Type 0} (other : MachInst → Regs × W → Regs × W) where
  -- The other instructions keep 64-bit words in the registers.
  abbrev pub KeepsWords : Type 0
  KeepsWords = (i : MachInst) (s : Regs × W) → AreWords s.0 → AreWords (other i s).0

  put-AreWords : (d v : ℕ) (r : Regs) → v < 2 ^ 64 → AreWords r → AreWords (put d v r)
  put-AreWords d v r h w q = ground (arith, w q)

  preload-AreWords : (i : MachInst) (r : Regs) → AreWords r → AreWords (preload i r)
  preload-AreWords i r w =
      if_both AreWords (not (i.dst == i.src) && reg_valid i.src) _ r
        (put-AreWords i.dst (r i.src) r (w i.src) w) w

  moved-lt : (w : Width) (old new : ℕ) → old < 2 ^ 64 → new < 2 ^ 64 → moved w old new < 2 ^ 64
  moved-lt byte old new h k = omega arith
  moved-lt dword old new h k = omega arith
  moved-lt qword old new h k = k

  pub step_op-AreWords :
      (i : MachInst) (o : MachOpcode) (s : Regs × W)
      → KeepsWords
      → AreWords s.0
      → AreWords (step_op other o i s).0
  step_op-AreWords i nop s k w = w
  step_op-AreWords i mov s k w =
      if_both (λ t. AreWords t.0) (reg_valid i.dst && reg_valid i.src && not (i.dst == i.src)) _ s
        (put-AreWords i.dst _ s.0 (moved-lt i.width _ _ (w i.dst) (w i.src)) w) w
  step_op-AreWords i mov_imm s k w =
      if_both (λ t. AreWords t.0) (reg_valid i.dst) _ s
        (put-AreWords i.dst _ s.0 (moved-lt i.width _ _ (w i.dst) (omega arith)) w) w
  step_op-AreWords i add_imm s k w =
      if_both (λ t. AreWords t.0) (reg_valid i.dst) _ s (put-AreWords i.dst _ s.0 (omega arith) w) w
  step_op-AreWords i sub_imm s k w =
      if_both (λ t. AreWords t.0) (reg_valid i.dst) _ s (put-AreWords i.dst _ s.0 (omega arith) w) w
  step_op-AreWords i mul_imm s k w =
      if_both (λ t. AreWords t.0) (reg_valid i.dst) _ s (put-AreWords i.dst _ s.0 (omega arith) w) w
  step_op-AreWords i add s k w =
      if_both (λ t. AreWords t.0) (reg_valid i.dst && reg_valid i.src2) _ s
        (put-AreWords i.dst _ (preload i s.0) (omega arith) (preload-AreWords i s.0 w)) w
  step_op-AreWords i xor s k w =
      if_both (λ t. AreWords t.0) (reg_valid i.dst && reg_valid i.src2) _ s
        (put-AreWords i.dst _ _ (omega arith) (
          if_both AreWords (i.dst == i.src2 || (reg_valid i.src && i.src == i.src2)) s.0 _ w
            (preload-AreWords i s.0 w)))
        w
  step_op-AreWords i _ s k w = k i s w
