-- ===== src/Mach.antt =====
-- Machine instructions after instruction selection: src/isel.h, with the opcodes of src/common.h.
-- An instruction keeps every field that a stage behind instruction selection reads; of its type it
-- keeps the width, which the emitter asks for. `label`, `base` and `is_vreg`, which none reads, are
-- left out. A null pointer is none.
pub mod Peephole
pub mod Run
pub mod Registers
use vortech.Prelude.{ℕ, List, Option}
use vortech.Prelude.Int.{ℤ}

pub data MachOpcode : Type 0 where
  mov mov_imm add add_imm sub sub_imm mul mul_imm div mod_ and or xor shl shr sar neg not_ :
      MachOpcode
  cmp cmp_imm test set_eq set_neq set_lt set_gt set_leq set_geq : MachOpcode
  jmp je jne jl jg jle jge call ret push pop lea movzx cvtsi2sd cvtsd2si : MachOpcode
  addsd subsd mulsd divsd xorps label comment nop syscall : MachOpcode

-- `is_8bit_type`, neither, or `is_64bit_type` of the instruction's type, in src/emit.c.
pub data Width : Type 0 where
  byte dword qword : Width

pub record MachInst : Type 0 where
  pub op : MachOpcode
  pub width : Width
  pub dst : ℕ
  pub src : ℕ
  pub src2 : ℕ
  pub imm : ℤ
  pub target_bb : ℕ
  pub func_name : Option (List ℕ)
  pub arg_vregs : Option (List ℕ)
  pub offset : ℤ

pub record MachBlock : Type 0 where
  pub label : ℕ
  pub insts : List MachInst

pub record MachFunc : Type 0 where
  pub name : List ℕ
  pub blocks : List MachBlock
  pub next_vreg : ℕ
  pub param_vregs : List ℕ
  pub stack_size : ℕ
