-- ===== src/Emit/Frame.antt =====
-- `enc_prologue` and `enc_epilogue` of src/emit.c.
use vortech.Prelude.{
  ℕ, ◌%◌, ◌^◌, Bool, false, not, ◌&&◌, List, [], ◌∷◌, ltb, leb, ◌==◌, if◌then◌else◌, get_or,
}
use vortech.Mach.{MachFunc}
use vortech.Mach.Run.{reg_valid}
use vortech.Mach.Registers.{reg_none, rsp, rbp, reg_is_callee_saved, param_regs}
use vortech.Regalloc.{RegAllocResult}
use vortech.Emit.Buffer.{CodeBuf}
use vortech.Emit.Encode.{enc_push, enc_pop, enc_mov64, enc_sub64_imm8, enc_sub64_imm32, enc_ret}

-- `sub rsp, stack_size`, if there is anything to reserve.
abbrev pub reserve : ℕ → CodeBuf → CodeBuf
reserve stack_size cb =
    if ltb 0 stack_size
    then (if leb stack_size 127
        then enc_sub64_imm8 rsp stack_size cb
        else enc_sub64_imm32 rsp (stack_size % 2 ^ 32) cb)
    else cb

-- The registers rbx to r15, in this order.
abbrev pub rbx_to_r15 : List ℕ
rbx_to_r15 = 4 ∷ 5 ∷ 6 ∷ 7 ∷ 8 ∷ 9 ∷ 10 ∷ 11 ∷ 12 ∷ 13 ∷ 14 ∷ 15 ∷ 16 ∷ []

abbrev pub is_saved : RegAllocResult → ℕ → Bool
is_saved ra r = reg_is_callee_saved r && not (r == rbp) && get_or ra.reg_used r false

unfoldable pub push_saved : RegAllocResult → List ℕ → CodeBuf → CodeBuf
push_saved ra [] cb = cb
push_saved ra (r ∷ rs) cb = push_saved ra rs (if is_saved ra r then enc_push r cb else cb)

-- The loop from r15 down to rbx.
unfoldable pub pop_saved : RegAllocResult → List ℕ → CodeBuf → CodeBuf
pop_saved ra [] cb = cb
pop_saved ra (r ∷ rs) cb =
    let later = pop_saved ra rs cb in if is_saved ra r then enc_pop r later else later

-- The parameters' moves, for the first six of them.
unfoldable pub move_params : RegAllocResult → List ℕ → List ℕ → CodeBuf → CodeBuf
move_params ra [] regs cb = cb
move_params ra (v ∷ vs) [] cb = cb
move_params ra (v ∷ vs) (r ∷ regs) cb =
    let assigned = get_or ra.vreg_to_reg v reg_none in
    move_params ra vs regs (
      if ltb v ra.num_vregs
        && (not (assigned == reg_none) && not (assigned == r) && reg_valid assigned)
      then enc_mov64 assigned r cb
      else cb)

unfoldable pub enc_prologue : MachFunc → RegAllocResult → CodeBuf → CodeBuf
unfolding push_saved move_params
enc_prologue mf ra cb =
    let framed = reserve ra.stack_size (enc_mov64 rbp rsp (enc_push rbp cb)) in
    move_params ra mf.param_vregs param_regs (push_saved ra rbx_to_r15 framed)

unfoldable pub enc_epilogue : RegAllocResult → CodeBuf → CodeBuf
unfolding pop_saved
enc_epilogue ra cb = enc_ret (enc_pop rbp (enc_mov64 rsp rbp (pop_saved ra rbx_to_r15 cb)))
