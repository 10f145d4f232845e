-- ===== src/Emit/Steps.antt =====
-- How the instructions and the frames that the emitter of src/emit.c writes extend the code.
use vortech.Prelude.{ℕ, ◌%◌, ◌^◌, ◌≡◌, refl, Bool, List, [], ◌∷◌, ltb, leb}
use vortech.Mach
use vortech.Mach.{MachOpcode, MachInst, MachFunc, Width, byte, dword, qword}
use vortech.Mach.Registers.{rax, rdx, rsp, rbp, param_regs}
use vortech.Regalloc.{RegAllocResult}
use vortech.Emit.Buffer.{CodeBuf}
use vortech.Emit.Frame.{
  enc_prologue, enc_epilogue, push_saved, pop_saved, move_params, reserve, rbx_to_r15,
}
use vortech.Emit.Encode
use vortech.Emit.Insts.{when, move_to, move_args, code_of, divide, set_code, lea_code}
use vortech.Emit.Growth
use vortech.Emit.Growth.{IsLonger, self-IsLonger, push-IsLonger, if_IsLonger}

-- The loops and the frame.
pop_saved-IsLonger :
    {cb : CodeBuf} (ra : RegAllocResult) (rs : List ℕ) (c : CodeBuf)
    → IsLonger cb c
    → IsLonger cb (pop_saved ra rs c)
unfolding pop_saved
pop_saved-IsLonger ra [] c h = h
pop_saved-IsLonger ra (r ∷ rs) c h =
    let later = pop_saved-IsLonger ra rs c h in
    if_IsLonger _ (Growth.enc_pop-IsLonger later r) later

push_saved-IsLonger :
    {cb : CodeBuf} (ra : RegAllocResult) (rs : List ℕ) (c : CodeBuf)
    → IsLonger cb c
    → IsLonger cb (push_saved ra rs c)
unfolding push_saved
push_saved-IsLonger ra [] c h = h
push_saved-IsLonger ra (r ∷ rs) c h =
    push_saved-IsLonger ra rs _ (if_IsLonger _ (Growth.enc_push-IsLonger h r) h)

move_params-IsLonger :
    {cb : CodeBuf} (ra : RegAllocResult) (vs rs : List ℕ) (c : CodeBuf)
    → IsLonger cb c
    → IsLonger cb (move_params ra vs rs c)
unfolding move_params
move_params-IsLonger ra [] rs c h = h
move_params-IsLonger ra (v ∷ vs) [] c h = h
move_params-IsLonger ra (v ∷ vs) (r ∷ rs) c h =
    move_params-IsLonger ra vs rs _ (if_IsLonger _ (Growth.enc_mov64-IsLonger h _ r) h)

pub move_args-IsLonger :
    {cb : CodeBuf} (ra : RegAllocResult) (vs rs : List ℕ) (c : CodeBuf)
    → IsLonger cb c
    → IsLonger cb (move_args ra vs rs c)
unfolding move_args
move_args-IsLonger ra [] rs c h = h
move_args-IsLonger ra (v ∷ vs) [] c h = h
move_args-IsLonger ra (v ∷ vs) (r ∷ rs) c h =
    move_args-IsLonger ra vs rs _ (if_IsLonger _ (Growth.enc_mov64-IsLonger h r _) h)

pub enc_epilogue-IsLonger :
    {cb c : CodeBuf} (ra : RegAllocResult) → IsLonger cb c → IsLonger cb (enc_epilogue ra c)
unfolding enc_epilogue
enc_epilogue-IsLonger ra h =
    let popped = pop_saved-IsLonger ra rbx_to_r15 _ h in
    Growth.enc_ret-IsLonger (Growth.enc_pop-IsLonger (Growth.enc_mov64-IsLonger popped _ _) _)

reserve-IsLonger : {cb c : CodeBuf} (n : ℕ) → IsLonger cb c → IsLonger cb (reserve n c)
reserve-IsLonger n h =
    if_IsLonger (ltb 0 n)
      (if_IsLonger (leb n 127) (Growth.enc_sub64_imm8-IsLonger h rsp n)
        (Growth.enc_sub64_imm32-IsLonger h rsp (n % 2 ^ 32)))
      h

pub enc_prologue-IsLonger :
    {cb c : CodeBuf} (mf : MachFunc) (ra : RegAllocResult)
    → IsLonger cb c
    → IsLonger cb (enc_prologue mf ra c)
unfolding enc_prologue
enc_prologue-IsLonger mf ra h =
    let framed =
      reserve-IsLonger ra.stack_size
        (Growth.enc_mov64-IsLonger (Growth.enc_push-IsLonger h rbp) rbp rsp) in
    move_params-IsLonger ra mf.param_vregs param_regs _ (push_saved-IsLonger ra rbx_to_r15 _ framed)

-- Code that is written under a test.
pub when-IsLonger :
    {cb c : CodeBuf} (t : Bool) (f : CodeBuf → CodeBuf)
    → IsLonger cb c
    → IsLonger cb (f c)
    → IsLonger cb (when t f c)
when-IsLonger t f h k = if_IsLonger t k h

module _ {cb c : CodeBuf} (h : IsLonger cb c) where
  move_to-IsLonger : (d s : ℕ) → IsLonger cb (move_to d s c)
  move_to-IsLonger d s = if_IsLonger _ (Growth.enc_mov64-IsLonger h d s) h

-- Instructions whose code depends on the width, and those on three operands.
module _ {cb c : CodeBuf} (i : MachInst) (ra : RegAllocResult) (h : IsLonger cb c) where
  mov-IsLonger : (w : Width) → i.width ≡ w → IsLonger cb (code_of Mach.mov i ra c)
  mov-IsLonger qword e = rw e (if_IsLonger _ (Growth.enc_mov64-IsLonger h i.dst i.src) h)
  mov-IsLonger byte e = rw e (if_IsLonger _ (Growth.enc_mov8-IsLonger h i.dst i.src) h)
  mov-IsLonger dword e = rw e (if_IsLonger _ (Growth.enc_mov32-IsLonger h i.dst i.src) h)

  mov_imm-IsLonger : (w : Width) → i.width ≡ w → IsLonger cb (code_of Mach.mov_imm i ra c)
  mov_imm-IsLonger qword e = rw e (
      if_IsLonger _
        (if_IsLonger _ (Growth.enc_mov64_imm32-IsLonger h _ _)
          (Growth.enc_mov64_imm64-IsLonger h _ _))
        h)
  mov_imm-IsLonger byte e = rw e (if_IsLonger _ (Growth.enc_mov8_imm8-IsLonger h _ _) h)
  mov_imm-IsLonger dword e = rw e (if_IsLonger _ (Growth.enc_mov32_imm32-IsLonger h _ _) h)

  alu-IsLonger : (o : ℕ) → IsLonger cb (Encode.enc_alu64 o i.dst i.src2 (move_to i.dst i.src c))
  alu-IsLonger o = Growth.enc_alu64-IsLonger (move_to-IsLonger h i.dst i.src) o i.dst i.src2

-- The division, and what follows it.
divide-IsLonger : {cb c : CodeBuf} (i : MachInst) → IsLonger cb c → IsLonger cb (divide i c)
divide-IsLonger i h =
    Growth.enc_idiv64-IsLonger
      (Growth.enc_cqo-IsLonger (if_IsLonger _ (Growth.enc_mov64-IsLonger h rax i.src) h)) i.src2

set-IsLonger :
    {cb c : CodeBuf} (cc : ℕ) (i : MachInst) → IsLonger cb c → IsLonger cb (set_code cc i c)
set-IsLonger cc i h =
    if_IsLonger _ (Growth.enc_movzx32_8-IsLonger (Growth.enc_setcc-IsLonger h cc i.dst) i.dst i.dst)
      h

lea-IsLonger : {cb c : CodeBuf} (i : MachInst) → IsLonger cb c → IsLonger cb (lea_code i c)
lea-IsLonger i h =
    if_IsLonger _
      (if_IsLonger _ (Growth.enc_mov64_imm32-IsLonger h i.dst _) (
        if_IsLonger _ (Growth.enc_mov64-IsLonger h i.dst i.src) (
          if_IsLonger _ (Growth.enc_lea64_disp8-IsLonger h i.dst i.src _)
            (Growth.enc_lea64_disp32-IsLonger h i.dst i.src _))))
      h

pub code_of-IsLonger :
    {cb c : CodeBuf} (o : MachOpcode) (i : MachInst) (ra : RegAllocResult)
    → IsLonger cb c
    → IsLonger cb (code_of o i ra c)
code_of-IsLonger Mach.label i ra h = h
code_of-IsLonger Mach.nop i ra h = Growth.enc_nop-IsLonger h
code_of-IsLonger Mach.mov i ra h = mov-IsLonger i ra h i.width refl
code_of-IsLonger Mach.mov_imm i ra h = mov_imm-IsLonger i ra h i.width refl
code_of-IsLonger Mach.add i ra h = if_IsLonger _ (alu-IsLonger i ra h 0x01) h
code_of-IsLonger Mach.add_imm i ra h =
    if_IsLonger _
      (if_IsLonger _ (Growth.enc_add64_imm8-IsLonger h i.dst _)
        (Growth.enc_add64_imm32-IsLonger h i.dst _))
      h
code_of-IsLonger Mach.sub i ra h = if_IsLonger _ (alu-IsLonger i ra h 0x29) h
code_of-IsLonger Mach.sub_imm i ra h =
    if_IsLonger _
      (if_IsLonger _ (Growth.enc_sub64_imm8-IsLonger h i.dst _)
        (Growth.enc_sub64_imm32-IsLonger h i.dst _))
      h
code_of-IsLonger Mach.mul i ra h =
    if_IsLonger _ (Growth.enc_imul64-IsLonger (move_to-IsLonger h i.dst i.src) i.dst i.src2) h
code_of-IsLonger Mach.mul_imm i ra h =
    if_IsLonger _ (push-IsLonger _ (push-IsLonger _ (push-IsLonger _ h))) h
code_of-IsLonger Mach.div i ra h =
    if_IsLonger _
      (let d = divide-IsLonger i h in if_IsLonger _ (Growth.enc_mov64-IsLonger d i.dst rax) d) h
code_of-IsLonger Mach.mod_ i ra h =
    if_IsLonger _
      (let d = divide-IsLonger i (push-IsLonger _ (push-IsLonger _ (push-IsLonger _ h))) in
        push-IsLonger _ (
          push-IsLonger _
            (push-IsLonger _ (if_IsLonger _ (Growth.enc_mov64-IsLonger d i.dst rdx) d))))
      h
code_of-IsLonger Mach.and i ra h = if_IsLonger _ (alu-IsLonger i ra h 0x21) h
code_of-IsLonger Mach.or i ra h = if_IsLonger _ (alu-IsLonger i ra h 0x09) h
code_of-IsLonger Mach.xor i ra h =
    if_IsLonger _
      (if_IsLonger _ (Growth.enc_alu64-IsLonger h 0x31 i.dst i.src2) (alu-IsLonger i ra h 0x31)) h
code_of-IsLonger Mach.shl i ra h =
    if_IsLonger _ (Growth.enc_shl64_cl-IsLonger (move_to-IsLonger h i.dst i.src) i.dst) h
code_of-IsLonger Mach.shr i ra h =
    if_IsLonger _ (Growth.enc_shr64_cl-IsLonger (move_to-IsLonger h i.dst i.src) i.dst) h
code_of-IsLonger Mach.neg i ra h = if_IsLonger _ (Growth.enc_neg64-IsLonger h i.src) h
code_of-IsLonger Mach.not_ i ra h = if_IsLonger _ (Growth.enc_not64-IsLonger h i.src) h
code_of-IsLonger Mach.cmp i ra h = if_IsLonger _ (Growth.enc_cmp64-IsLonger h i.src i.src2) h
code_of-IsLonger Mach.cmp_imm i ra h = if_IsLonger _ (Growth.enc_cmp64_imm32-IsLonger h i.src _) h
code_of-IsLonger Mach.test i ra h = if_IsLonger _ (Growth.enc_test64-IsLonger h i.src i.src2) h
code_of-IsLonger Mach.set_eq i ra h = set-IsLonger 0x04 i h
code_of-IsLonger Mach.set_neq i ra h = set-IsLonger 0x05 i h
code_of-IsLonger Mach.set_lt i ra h = set-IsLonger 0x0c i h
code_of-IsLonger Mach.set_gt i ra h = set-IsLonger 0x0f i h
code_of-IsLonger Mach.set_leq i ra h = set-IsLonger 0x0e i h
code_of-IsLonger Mach.set_geq i ra h = set-IsLonger 0x0d i h
code_of-IsLonger Mach.ret i ra h = enc_epilogue-IsLonger ra (move_to-IsLonger h rax i.src)
code_of-IsLonger Mach.lea i ra h = lea-IsLonger i h
code_of-IsLonger Mach.push i ra h = if_IsLonger _ (Growth.enc_push-IsLonger h i.src) h
code_of-IsLonger Mach.pop i ra h = if_IsLonger _ (Growth.enc_pop-IsLonger h i.dst) h
code_of-IsLonger Mach.movzx i ra h = if_IsLonger _ (Growth.enc_movzx32_8-IsLonger h i.dst i.src) h
code_of-IsLonger Mach.xorps i ra h = if_IsLonger _ (Growth.enc_xorps-IsLonger h i.dst i.src) h
code_of-IsLonger Mach.syscall i ra h = push-IsLonger _ h
code_of-IsLonger Mach.sar i ra h = push-IsLonger _ h
code_of-IsLonger Mach.jmp i ra h = push-IsLonger _ h
code_of-IsLonger Mach.je i ra h = push-IsLonger _ h
code_of-IsLonger Mach.jne i ra h = push-IsLonger _ h
code_of-IsLonger Mach.jl i ra h = push-IsLonger _ h
code_of-IsLonger Mach.jg i ra h = push-IsLonger _ h
code_of-IsLonger Mach.jle i ra h = push-IsLonger _ h
code_of-IsLonger Mach.jge i ra h = push-IsLonger _ h
code_of-IsLonger Mach.call i ra h = push-IsLonger _ h
code_of-IsLonger Mach.cvtsi2sd i ra h = push-IsLonger _ h
code_of-IsLonger Mach.cvtsd2si i ra h = push-IsLonger _ h
code_of-IsLonger Mach.addsd i ra h = push-IsLonger _ h
code_of-IsLonger Mach.subsd i ra h = push-IsLonger _ h
code_of-IsLonger Mach.mulsd i ra h = push-IsLonger _ h
code_of-IsLonger Mach.divsd i ra h = push-IsLonger _ h
code_of-IsLonger Mach.comment i ra h = push-IsLonger _ h
