-- ===== src/Tests/Emission.antt =====
-- The emitter on a concrete function.
use vortech.Prelude.{
  none, some, ℕ, ◌+◌, ◌*◌, ◌/◌, ◌%◌, ◌^◌, ◌≤◌, ◌≡◌, refl, inr, [], ◌∷◌, ◌++◌, map, arith, length,
  ◌==◌, if◌then◌else◌,
}
use vortech.Prelude.Int.{pos}
use vortech.Mach
use vortech.Mach.{MachInst, MachFunc, Width}
use vortech.Mach.Registers.{rax, rbx, r12}
use vortech.Regalloc.{RegAllocResult}
use vortech.Emit.Buffer.{
  CodeBuf, cb_init, push, cb_ensure, grow, bytes_le, IsBounded, push-IsBounded, cb_patch32,
}
use vortech.Emit.Encode.{
  enc_mov64, enc_alu64, enc_cmp64, enc_test64, enc_imul64, enc_idiv64, enc_neg64, enc_not64,
  enc_shl64_cl, enc_shr64_cl, enc_push, enc_pop, enc_ret, enc_nop, enc_mov64_imm32,
  enc_lea64_disp32,
}
use vortech.Emit.State.{emitter_create, emitter_add_sym, strtab_add}
use vortech.Emit.Frame.{enc_prologue, enc_epilogue, push_saved, pop_saved, move_params}
use vortech.Emit.Insts.{branch, emit_op}
use vortech.Emit.Funcs.{
  emit_insts, emit_blocks, emit_entry, emit_body, emit_func_binary, resolve_patches, rel32,
}
use vortech.Emit.Decode.{decode}
use vortech.Emit.Instructions.{added, Encodes, encodings-Encodes}
use vortech.Emit.Formats.{on_register}
use vortech.Emit.Addresses.{on_memory, lea64_disp32-Encodes, lea64_disp32-wrong}
use vortech.Emit.Patches.{field}
use vortech.Emit.Jumps.{start_of}
use vortech.Emit.Recorded.{place_of, emit_func_binary-jumps}

abbrev inst : Mach.MachOpcode → ℕ → MachInst
inst o target = record {
  op = o;
  width = Width.qword;
  dst = 0;
  src = 0;
  src2 = 0;
  imm = pos 0;
  target_bb = target;
  func_name = none;
  arg_vregs = none;
  offset = pos 0;
}

-- A block that jumps over the next one, and the block that returns.
abbrev func : MachFunc
func = record {
  name = 0x66 ∷ [];
  blocks =
      record { label = 0; insts = inst Mach.jmp 2 ∷ [] }
      ∷ record { label = 1; insts = inst Mach.nop 0 ∷ [] }
      ∷ record { label = 2; insts = inst Mach.ret 0 ∷ [] }
      ∷ [];
  next_vreg = 0;
  param_vregs = [];
  stack_size = 0;
}

abbrev regs : RegAllocResult
regs = record {
  vreg_to_reg = [];
  vreg_to_slot = [];
  num_vregs = 0;
  stack_slots = 0;
  stack_size = 0;
  reg_used = [];
}

-- push rbp; mov rbp, rsp; jmp +1; nop; mov rsp, rbp; pop rbp; ret; mov rax, 0; mov rsp, rbp;
-- pop rbp; ret
func_emitted :
    (emit_func_binary func regs emitter_create).code.data_
    ≡ 0x55 ∷ 0x48 ∷ 0x89 ∷ 0xe5 ∷ 0xe9 ∷ 1 ∷ 0 ∷ 0 ∷ 0 ∷ 0x90 ∷ 0x48 ∷ 0x89 ∷ 0xec ∷ 0x5d ∷ 0xc3
      ∷ 0x48 ∷ 0xc7 ∷ 0xc0 ∷ 0 ∷ 0 ∷ 0 ∷ 0 ∷ 0x48 ∷ 0x89 ∷ 0xec ∷ 0x5d ∷ 0xc3 ∷ []
unfolding emit_func_binary emit_body emit_blocks emit_insts emit_entry emit_op branch
    resolve_patches cb_patch32 enc_prologue enc_epilogue push_saved pop_saved move_params
    emitter_add_sym strtab_add enc_mov64 enc_push enc_pop enc_ret enc_nop enc_mov64_imm32 push
    cb_ensure grow
func_emitted = refl

func_small : length (emit_func_binary func regs emitter_create).code.data_ ≤ 2 ^ 64
func_small = rw func_emitted (omega arith)

-- The place of the jump.
abbrev place : ℕ
place = place_of func regs emitter_create 0 0 (record { label = 0; insts = inst Mach.jmp 2 ∷ [] })

emit_func_binary-jumps_example :
    (let start = start_of func regs emitter_create 2 in
      let rel = rel32 (start % 2 ^ 32) (place + 1) in
      (field 4 (place + 1) (emit_func_binary func regs emitter_create).code.data_
        ≡ map some (bytes_le 4 rel))
      × ((place + 1 + 4 + rel) % 2 ^ 32 ≡ start % 2 ^ 32))
emit_func_binary-jumps_example =
    emit_func_binary-jumps func regs emitter_create 0 0 1
      (record { label = 0; insts = inst Mach.jmp 2 ∷ [] }) (inst Mach.jmp 2) func_small refl refl
      refl (omega arith)

encodings-Encodes_example :
    Encodes (enc_mov64 rax r12) (on_register 0x89 12 rax)
    × Encodes (enc_alu64 0x01 rax r12) (on_register 0x01 12 rax)
    × Encodes (enc_alu64 0x29 rax r12) (on_register 0x29 12 rax)
    × Encodes (enc_alu64 0x21 rax r12) (on_register 0x21 12 rax)
    × Encodes (enc_alu64 0x09 rax r12) (on_register 0x09 12 rax)
    × Encodes (enc_alu64 0x31 rax r12) (on_register 0x31 12 rax)
    × Encodes (enc_cmp64 rax r12) (on_register 0x39 12 rax)
    × Encodes (enc_test64 rax r12) (on_register 0x85 12 rax)
    × Encodes (enc_imul64 rax r12) (on_register 0x0faf 0 r12)
    × Encodes (enc_idiv64 r12) (on_register 0xf7 7 r12)
    × Encodes (enc_neg64 rax) (on_register 0xf7 3 rax)
    × Encodes (enc_not64 rax) (on_register 0xf7 2 rax)
    × Encodes (enc_shl64_cl rax) (on_register 0xd3 4 rax)
    × Encodes (enc_shr64_cl rax) (on_register 0xd3 5 rax)
encodings-Encodes_example =
    encodings-Encodes rax r12 (omega arith, omega arith) (omega arith, omega arith)

lea64_disp32-Encodes_example : Encodes (enc_lea64_disp32 rax rbx 1000) (on_memory 0x8d rax rbx 1000)
lea64_disp32-Encodes_example =
    lea64_disp32-Encodes rax rbx 1000 (omega arith, omega arith) (omega arith, omega arith)
      (omega arith) (omega arith) (omega arith)

lea64_disp32-wrong_example :
    decode (added (enc_lea64_disp32 rax r12 1000) cb_init ++ [])
    ≡ some (
      on_memory 0x8d rax (if r12 == 5 then 4 else 12) (0x24 + 1000 % 2 ^ 24 * 256),
      1000 / 2 ^ 24 ∷ [],
    )
lea64_disp32-wrong_example =
    lea64_disp32-wrong rax r12 1000 cb_init [] (omega arith, omega arith) (inr refl) (omega arith)

-- A buffer that is full.
abbrev full : CodeBuf
full = record { data_ = 1 ∷ 2 ∷ []; cap = 2 }

push-IsBounded_example :
    IsBounded (push (3 ∷ 4 ∷ 5 ∷ []) full)
    × (2 ≤ (push (3 ∷ 4 ∷ 5 ∷ []) full).cap)
    × ((push (3 ∷ 4 ∷ 5 ∷ []) full).data_ ≡ full.data_ ++ 3 ∷ 4 ∷ 5 ∷ [])
push-IsBounded_example = push-IsBounded (3 ∷ 4 ∷ 5 ∷ []) full (omega arith, omega arith)
