-- ===== src/Mach/Run.antt =====
-- What machine instructions do to the registers, as the emitter encodes them. Registers hold 64-bit
-- words; 1 to 16 are the general ones, and an instruction on any other number emits nothing.
-- The rest of the machine is a parameter: `World` and `other`, what the other opcodes do. The flags
-- are no part of it.
use Prim.Native.Nat.{bit_xor}
use vortech.Prelude.{
  ℕ, ◌+◌, ◌-◌, ◌*◌, ◌/◌, ◌%◌, ◌^◌, Bool, ◌&&◌, ◌||◌, not, List, [], ◌∷◌, ◌==◌, ltb, leb,
  if◌then◌else◌,
}
use vortech.Prelude.Int.{ℤ}
use vortech.Ssa.Int64.{to_bits}
use vortech.Mach.{
  MachOpcode, Width, byte, dword, qword, mov, mov_imm, add, add_imm, sub_imm, mul_imm, xor, nop,
  MachInst,
}

abbrev pub word : ℕ → ℕ
word n = n % 2 ^ 64

abbrev pub reg_valid : ℕ → Bool
reg_valid r = leb 1 r && leb r 16

abbrev pub Regs : Type 0
Regs = ℕ → ℕ

abbrev pub put : ℕ → ℕ → Regs → Regs
put d v r q = if q == d then v else r q

-- What a move leaves in a register: a byte move keeps the upper bits, and a move of 32 bits
-- clears them.
abbrev pub moved : Width → ℕ → ℕ → ℕ
moved byte old new = old / 256 * 256 + new % 256
moved dword old new = new % 2 ^ 32
moved qword old new = new

-- `mov dst, src`, which the emitter puts before a two-operand instruction for three operands.
abbrev pub preload : MachInst → Regs → Regs
preload i r = if not (i.dst == i.src) && reg_valid i.src then put i.dst (r i.src) r else r

-- `(int32_t)imm`, which the processor extends to 64 bits.
unfoldable pub imm32 : ℤ → ℕ
unfolding to_bits
imm32 z = let low = to_bits z % 2 ^ 32 in if ltb low (2 ^ 31) then low else low + (2 ^ 64 - 2 ^ 32)

module _ {W : Type 0} (other : MachInst → Regs × W → Regs × W) where
  abbrev pub step_op : MachOpcode → MachInst → Regs × W → Regs × W
  step_op nop i s = s
  step_op mov i s =
      if reg_valid i.dst && reg_valid i.src && not (i.dst == i.src)
      then (put i.dst (moved i.width (s.0 i.dst) (s.0 i.src)) s.0, s.1)
      else s
  step_op mov_imm i s =
      if reg_valid i.dst
      then (put i.dst (moved i.width (s.0 i.dst) (word (to_bits i.imm))) s.0, s.1)
      else s
  step_op add_imm i s =
      if reg_valid i.dst then (put i.dst (word (s.0 i.dst + imm32 i.imm)) s.0, s.1) else s
  step_op sub_imm i s =
      if reg_valid i.dst
      then (put i.dst (word (s.0 i.dst + (2 ^ 64 - imm32 i.imm))) s.0, s.1)
      else s
  step_op mul_imm i s =
      if reg_valid i.dst then (put i.dst (word (s.0 i.dst * imm32 i.imm)) s.0, s.1) else s
  step_op add i s =
      if reg_valid i.dst && reg_valid i.src2
      then (let r = preload i s.0 in put i.dst (word (r i.dst + r i.src2)) r, s.1)
      else s
  step_op xor i s =
      if reg_valid i.dst && reg_valid i.src2
      then (
        let r =
              if i.dst == i.src2 || (reg_valid i.src && i.src == i.src2)
              then s.0
              else preload i s.0 in
            put i.dst (word (bit_xor (r i.dst) (r i.src2))) r,
        s.1,
      )
      else s
  step_op o i s = other i s

  abbrev pub step : MachInst → Regs × W → Regs × W
  step i s = step_op i.op i s

  unfoldable pub execute : List MachInst → Regs × W → Regs × W
  execute [] s = s
  execute (i ∷ is) s = execute is (step i s)
