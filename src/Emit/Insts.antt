-- ===== src/Emit/Insts.antt =====
-- `emit_inst_binary` of src/emit.c. An instruction that names no general register emits nothing.
use vortech.Prelude.{
  ℕ, ◌%◌, ◌^◌, Bool, true, not, ◌&&◌, ◌||◌, Option, none, some, List, [], ◌∷◌, ltb, ◌==◌,
  if◌then◌else◌, length, get_or,
}
use vortech.Prelude.Int.{ℤ, pos, negsuc}
use vortech.Ssa.Int64.{to_bits, eq_ℤ}
use vortech.Mach.{
  MachOpcode, MachInst, Width, byte, dword, qword, mov, mov_imm, add, add_imm, sub, sub_imm, mul,
  mul_imm, div, mod_, and, or, xor, shl, shr, neg, not_, cmp, cmp_imm, test, set_eq, set_neq,
  set_lt, set_gt, set_leq, set_geq, jmp, je, jne, jl, jg, jle, jge, call, ret, push, pop, lea,
  movzx, xorps, label, nop, syscall,
}
use vortech.Mach.Run.{reg_valid}
use vortech.Mach.Registers.{reg_none, rax, rdx, rsp, rbp, r12, r13, param_regs}
use vortech.Regalloc.{RegAllocResult}
use vortech.Emit.Buffer.{CodeBuf, cb_push1, cb_push2, cb_push32le}
use vortech.Emit.Encode
use vortech.Emit.Encode.{make_rex, modrm_rr}
use vortech.Emit.State.{
  Emitter, on_code, emitter_add_patch, emitter_add_reloc, emitter_ensure_extern, r_x86_64_plt32,
}
use vortech.Emit.Frame.{enc_epilogue}

-- `-2^31 <= imm <= 2^31 - 1`, and `-128 <= imm <= 127`.
abbrev pub fits_int32 : ℤ → Bool
fits_int32 (pos n) = ltb n (2 ^ 31)
fits_int32 (negsuc n) = ltb n (2 ^ 31)

abbrev pub fits_int8 : ℤ → Bool
fits_int8 (pos n) = ltb n 128
fits_int8 (negsuc n) = ltb n 128

-- `(int32_t)imm` and `(int8_t)imm`, as bit patterns.
abbrev pub low32 : ℤ → ℕ
low32 z = to_bits z % 2 ^ 32

abbrev pub low8 : ℤ → ℕ
low8 z = to_bits z % 2 ^ 8

abbrev pub when : Bool → (CodeBuf → CodeBuf) → CodeBuf → CodeBuf
when t f cb = if t then f cb else cb

-- `mov dst, src`, unless they are one register or `src` is none.
abbrev pub move_to : ℕ → ℕ → CodeBuf → CodeBuf
move_to dst src = when (reg_valid src && not (src == dst)) (Encode.enc_mov64 dst src)

-- Three operands by a move and an instruction on two.
abbrev three : (ℕ → ℕ → CodeBuf → CodeBuf) → MachInst → CodeBuf → CodeBuf
three f i cb =
    when (reg_valid i.dst && reg_valid i.src2) (λ c. f i.dst i.src2 (move_to i.dst i.src c)) cb

abbrev mov_code : MachInst → CodeBuf → CodeBuf
mov_code i = when (reg_valid i.dst && reg_valid i.src && not (i.dst == i.src)) (sized i.width)
  where
    sized : Width → CodeBuf → CodeBuf
    sized qword = Encode.enc_mov64 i.dst i.src
    sized byte = Encode.enc_mov8 i.dst i.src
    sized dword = Encode.enc_mov32 i.dst i.src

abbrev mov_imm_code : MachInst → CodeBuf → CodeBuf
mov_imm_code i = when (reg_valid i.dst) (sized i.width)
  where
    sized : Width → CodeBuf → CodeBuf
    sized qword cb =
        if fits_int32 i.imm
        then Encode.enc_mov64_imm32 i.dst (low32 i.imm) cb
        else Encode.enc_mov64_imm64 i.dst (to_bits i.imm) cb
    sized byte cb = Encode.enc_mov8_imm8 i.dst (low8 i.imm) cb
    sized dword cb = Encode.enc_mov32_imm32 i.dst (low32 i.imm) cb

abbrev add_imm_code : MachInst → CodeBuf → CodeBuf
add_imm_code i cb =
    if reg_valid i.dst
    then (if fits_int8 i.imm
        then Encode.enc_add64_imm8 i.dst (low8 i.imm) cb
        else Encode.enc_add64_imm32 i.dst (low32 i.imm) cb)
    else cb

abbrev sub_imm_code : MachInst → CodeBuf → CodeBuf
sub_imm_code i cb =
    if reg_valid i.dst
    then (if fits_int8 i.imm
        then Encode.enc_sub64_imm8 i.dst (low8 i.imm) cb
        else Encode.enc_sub64_imm32 i.dst (low32 i.imm) cb)
    else cb

abbrev mul_imm_code : MachInst → CodeBuf → CodeBuf
mul_imm_code i = when (reg_valid i.dst) (λ cb.
    cb_push32le (low32 i.imm)
      (cb_push1 (modrm_rr i.dst i.dst) (cb_push2 (make_rex true i.dst i.dst) 0x69 cb)))

-- The dividend in rax, its sign in rdx, and the division.
abbrev pub divide : MachInst → CodeBuf → CodeBuf
divide i cb =
    Encode.enc_idiv64 i.src2 (
      Encode.enc_cqo (when (reg_valid i.src && not (i.src == rax)) (Encode.enc_mov64 rax i.src) cb))

abbrev div_code : MachInst → CodeBuf → CodeBuf
div_code i =
    when (reg_valid i.src2) (λ cb.
      when (reg_valid i.dst && not (i.dst == rax)) (Encode.enc_mov64 i.dst rax) (divide i cb))

-- rdx is kept at rsp - 8.
abbrev mod_code : MachInst → CodeBuf → CodeBuf
mod_code i = when (reg_valid i.src2) (λ cb.
    let kept = cb_push2 0x24 0xf8 (cb_push2 0x89 0x54 (cb_push1 0x48 cb)) in
    let done =
      when (reg_valid i.dst && not (i.dst == rdx)) (Encode.enc_mov64 i.dst rdx) (divide i kept) in
    cb_push2 0x24 0xf8 (cb_push2 0x8b 0x54 (cb_push1 0x48 done)))

abbrev xor_code : MachInst → CodeBuf → CodeBuf
xor_code i = when (reg_valid i.dst && reg_valid i.src2) (λ cb.
    if i.dst == i.src2 || (reg_valid i.src && i.src == i.src2)
    then Encode.enc_alu64 0x31 i.dst i.src2 cb
    else Encode.enc_alu64 0x31 i.dst i.src2 (move_to i.dst i.src cb))

abbrev shift_code : (ℕ → CodeBuf → CodeBuf) → MachInst → CodeBuf → CodeBuf
shift_code f i = when (reg_valid i.dst) (λ cb. f i.dst (move_to i.dst i.src cb))

abbrev pub set_code : ℕ → MachInst → CodeBuf → CodeBuf
set_code cc i =
    when (reg_valid i.dst) (λ cb. Encode.enc_movzx32_8 i.dst i.dst (Encode.enc_setcc cc i.dst cb))

abbrev pub lea_code : MachInst → CodeBuf → CodeBuf
lea_code i = when (reg_valid i.dst) (λ cb.
    if not (reg_valid i.src)
    then Encode.enc_mov64_imm32 i.dst (low32 i.offset) cb
    else (if eq_ℤ i.offset (pos 0)
          && not (i.src == rbp || i.src == r13 || i.src == rsp || i.src == r12)
        then Encode.enc_mov64 i.dst i.src cb
        else (if fits_int8 i.offset
            then Encode.enc_lea64_disp8 i.dst i.src (low8 i.offset) cb
            else Encode.enc_lea64_disp32 i.dst i.src (low32 i.offset) cb)))

-- A jump with four bytes for its displacement, which a patch will fill.
unfoldable pub branch : (CodeBuf → CodeBuf) → ℕ → Emitter → Emitter
branch opcode target em =
    let start = opcode em.code in
    emitter_add_patch (record em { code = cb_push32le 0 start }) (length start.data_) target

-- The arguments' moves, for the first six of them.
unfoldable pub move_args : RegAllocResult → List ℕ → List ℕ → CodeBuf → CodeBuf
move_args ra [] regs cb = cb
move_args ra (v ∷ vs) [] cb = cb
move_args ra (v ∷ vs) (target ∷ regs) cb =
    let src = if ltb v ra.num_vregs then get_or ra.vreg_to_reg v reg_none else reg_none in
    move_args ra vs regs (move_to target src cb)

abbrev pub args : Option (List ℕ) → List ℕ
args none = []
args (some vs) = vs

-- "???"
abbrev pub name_or_unknown : Option (List ℕ) → List ℕ
name_or_unknown none = 0x3f ∷ 0x3f ∷ 0x3f ∷ []
name_or_unknown (some name) = name

-- The call, with a relocation for the linker.
unfoldable pub emit_call : MachInst → RegAllocResult → Emitter → Emitter
unfolding move_args
emit_call i ra em =
    let opcode = cb_push1 0xe8 (move_args ra (args i.arg_vregs) param_regs em.code) in
    let placed = record em { code = cb_push32le 0xffff_ffff opcode } in
    let (sym_idx, named) = emitter_ensure_extern placed (name_or_unknown i.func_name) in
    let linked =
      emitter_add_reloc named (length opcode.data_ % 2 ^ 32) r_x86_64_plt32 sym_idx (negsuc 3) in
    on_code (when (reg_valid i.dst && not (i.dst == rax)) (Encode.enc_mov64 i.dst rax)) linked

-- The opcodes that write code only.
abbrev pub code_of : MachOpcode → MachInst → RegAllocResult → CodeBuf → CodeBuf
code_of label i ra = λ cb. cb
code_of nop i ra = Encode.enc_nop
code_of mov i ra = mov_code i
code_of mov_imm i ra = mov_imm_code i
code_of add i ra = three (Encode.enc_alu64 0x01) i
code_of add_imm i ra = add_imm_code i
code_of sub i ra = three (Encode.enc_alu64 0x29) i
code_of sub_imm i ra = sub_imm_code i
code_of mul i ra = three Encode.enc_imul64 i
code_of mul_imm i ra = mul_imm_code i
code_of div i ra = div_code i
code_of mod_ i ra = mod_code i
code_of and i ra = three (Encode.enc_alu64 0x21) i
code_of or i ra = three (Encode.enc_alu64 0x09) i
code_of xor i ra = xor_code i
code_of shl i ra = shift_code Encode.enc_shl64_cl i
code_of shr i ra = shift_code Encode.enc_shr64_cl i
code_of neg i ra = when (reg_valid i.src) (Encode.enc_neg64 i.src)
code_of not_ i ra = when (reg_valid i.src) (Encode.enc_not64 i.src)
code_of cmp i ra = when (reg_valid i.src && reg_valid i.src2) (Encode.enc_cmp64 i.src i.src2)
code_of cmp_imm i ra = when (reg_valid i.src) (Encode.enc_cmp64_imm32 i.src (low32 i.imm))
code_of test i ra = when (reg_valid i.src && reg_valid i.src2) (Encode.enc_test64 i.src i.src2)
code_of set_eq i ra = set_code 0x04 i
code_of set_neq i ra = set_code 0x05 i
code_of set_lt i ra = set_code 0x0c i
code_of set_gt i ra = set_code 0x0f i
code_of set_leq i ra = set_code 0x0e i
code_of set_geq i ra = set_code 0x0d i
code_of ret i ra = λ cb. enc_epilogue ra (move_to rax i.src cb)
code_of lea i ra = lea_code i
code_of push i ra = when (reg_valid i.src) (Encode.enc_push i.src)
code_of pop i ra = when (reg_valid i.dst) (Encode.enc_pop i.dst)
code_of movzx i ra = when (reg_valid i.dst && reg_valid i.src) (Encode.enc_movzx32_8 i.dst i.src)
code_of xorps i ra = when (reg_valid i.dst && reg_valid i.src) (Encode.enc_xorps i.dst i.src)
code_of syscall i ra = cb_push2 0x0f 0x05
code_of o i ra = cb_push1 0xcc

unfoldable pub emit_op : MachOpcode → MachInst → RegAllocResult → Emitter → Emitter
unfolding branch emit_call
emit_op jmp i ra em = branch (cb_push1 0xe9) i.target_bb em
emit_op je i ra em = branch (cb_push2 0x0f 0x84) i.target_bb em
emit_op jne i ra em = branch (cb_push2 0x0f 0x85) i.target_bb em
emit_op jl i ra em = branch (cb_push2 0x0f 0x8c) i.target_bb em
emit_op jg i ra em = branch (cb_push2 0x0f 0x8f) i.target_bb em
emit_op jle i ra em = branch (cb_push2 0x0f 0x8e) i.target_bb em
emit_op jge i ra em = branch (cb_push2 0x0f 0x8d) i.target_bb em
emit_op call i ra em = emit_call i ra em
emit_op o i ra em = on_code (code_of o i ra) em

abbrev pub emit_inst_binary : MachInst → RegAllocResult → Emitter → Emitter
emit_inst_binary i ra em = emit_op i.op i ra em
