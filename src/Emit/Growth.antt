-- ===== src/Emit/Growth.antt =====
-- How the steps of the emitter of src/emit.c extend the code.
use vortech.Prelude.{ℕ, ◌≤◌, Bool, true, false, List, arith, length, length-append, if◌then◌else◌}
use vortech.Emit.Buffer.{CodeBuf, push, cb_ensure}
use vortech.Emit.Encode.{
  enc_mov64, enc_mov32, enc_mov8, enc_mov64_imm32, enc_mov64_imm64, enc_mov32_imm32, enc_mov8_imm8,
  enc_alu64, enc_add64_imm32, enc_sub64_imm32, enc_add64_imm8, enc_sub64_imm8, enc_cmp64_imm32,
  enc_imul64, enc_idiv64, enc_neg64, enc_not64, enc_shl64_cl, enc_shr64_cl, enc_cmp64, enc_test64,
  enc_setcc, enc_movzx32_8, enc_ret, enc_push, enc_pop, enc_nop, enc_cqo, enc_xorps,
  enc_lea64_disp32, enc_lea64_disp8, enc_lea64_rip,
}

-- `c` holds at least as many bytes as `cb`.
pub record IsLonger (cb c : CodeBuf) : Type 0 where
  pub more : length cb.data_ ≤ length c.data_

pub self-IsLonger : (cb : CodeBuf) → IsLonger cb cb
self-IsLonger cb = record { more = omega arith }

pub push-IsLonger : {cb c : CodeBuf} (bytes : List ℕ) → IsLonger cb c → IsLonger cb (push bytes c)
unfolding push cb_ensure
push-IsLonger {c = c} bytes h =
    let m = h.more in let e = length-append c.data_ bytes in record { more = omega arith }

pub if_IsLonger :
    {cb a b : CodeBuf} (t : Bool) → IsLonger cb a → IsLonger cb b → IsLonger cb (if t then a else b)
if_IsLonger true h k = h
if_IsLonger false h k = k

-- Each encoding, on a buffer that has grown from `cb`.
module _ {cb c : CodeBuf} (h : IsLonger cb c) where
  pub enc_mov64-IsLonger : (d s : ℕ) → IsLonger cb (enc_mov64 d s c)
  unfolding enc_mov64
  enc_mov64-IsLonger d s = push-IsLonger _ h

  pub enc_imul64-IsLonger : (d s : ℕ) → IsLonger cb (enc_imul64 d s c)
  unfolding enc_imul64
  enc_imul64-IsLonger d s = push-IsLonger _ h

  pub enc_cmp64-IsLonger : (d s : ℕ) → IsLonger cb (enc_cmp64 d s c)
  unfolding enc_cmp64
  enc_cmp64-IsLonger d s = push-IsLonger _ h

  pub enc_test64-IsLonger : (d s : ℕ) → IsLonger cb (enc_test64 d s c)
  unfolding enc_test64
  enc_test64-IsLonger d s = push-IsLonger _ h

  pub enc_alu64-IsLonger : (o d s : ℕ) → IsLonger cb (enc_alu64 o d s c)
  unfolding enc_alu64
  enc_alu64-IsLonger o d s = push-IsLonger _ h

  pub enc_idiv64-IsLonger : (r : ℕ) → IsLonger cb (enc_idiv64 r c)
  unfolding enc_idiv64
  enc_idiv64-IsLonger r = push-IsLonger _ h

  pub enc_neg64-IsLonger : (r : ℕ) → IsLonger cb (enc_neg64 r c)
  unfolding enc_neg64
  enc_neg64-IsLonger r = push-IsLonger _ h

  pub enc_not64-IsLonger : (r : ℕ) → IsLonger cb (enc_not64 r c)
  unfolding enc_not64
  enc_not64-IsLonger r = push-IsLonger _ h

  pub enc_shl64_cl-IsLonger : (r : ℕ) → IsLonger cb (enc_shl64_cl r c)
  unfolding enc_shl64_cl
  enc_shl64_cl-IsLonger r = push-IsLonger _ h

  pub enc_shr64_cl-IsLonger : (r : ℕ) → IsLonger cb (enc_shr64_cl r c)
  unfolding enc_shr64_cl
  enc_shr64_cl-IsLonger r = push-IsLonger _ h

  pub enc_ret-IsLonger : IsLonger cb (enc_ret c)
  unfolding enc_ret
  enc_ret-IsLonger = push-IsLonger _ h

  pub enc_nop-IsLonger : IsLonger cb (enc_nop c)
  unfolding enc_nop
  enc_nop-IsLonger = push-IsLonger _ h

  pub enc_cqo-IsLonger : IsLonger cb (enc_cqo c)
  unfolding enc_cqo
  enc_cqo-IsLonger = push-IsLonger _ h

  pub enc_mov32-IsLonger : (d s : ℕ) → IsLonger cb (enc_mov32 d s c)
  unfolding enc_mov32
  enc_mov32-IsLonger d s = if_IsLonger _ (push-IsLonger _ h) (push-IsLonger _ h)

  pub enc_mov8-IsLonger : (d s : ℕ) → IsLonger cb (enc_mov8 d s c)
  unfolding enc_mov8
  enc_mov8-IsLonger d s = if_IsLonger _ (push-IsLonger _ h) (push-IsLonger _ h)

  pub enc_setcc-IsLonger : (d s : ℕ) → IsLonger cb (enc_setcc d s c)
  unfolding enc_setcc
  enc_setcc-IsLonger d s = if_IsLonger _ (push-IsLonger _ h) (push-IsLonger _ h)

  pub enc_movzx32_8-IsLonger : (d s : ℕ) → IsLonger cb (enc_movzx32_8 d s c)
  unfolding enc_movzx32_8
  enc_movzx32_8-IsLonger d s = if_IsLonger _ (push-IsLonger _ h) (push-IsLonger _ h)

  pub enc_add64_imm32-IsLonger : (d n : ℕ) → IsLonger cb (enc_add64_imm32 d n c)
  unfolding enc_add64_imm32
  enc_add64_imm32-IsLonger d n = push-IsLonger _ (push-IsLonger _ (push-IsLonger _ h))

  pub enc_sub64_imm32-IsLonger : (d n : ℕ) → IsLonger cb (enc_sub64_imm32 d n c)
  unfolding enc_sub64_imm32
  enc_sub64_imm32-IsLonger d n = push-IsLonger _ (push-IsLonger _ (push-IsLonger _ h))

  pub enc_add64_imm8-IsLonger : (d n : ℕ) → IsLonger cb (enc_add64_imm8 d n c)
  unfolding enc_add64_imm8
  enc_add64_imm8-IsLonger d n = push-IsLonger _ (push-IsLonger _ (push-IsLonger _ h))

  pub enc_sub64_imm8-IsLonger : (d n : ℕ) → IsLonger cb (enc_sub64_imm8 d n c)
  unfolding enc_sub64_imm8
  enc_sub64_imm8-IsLonger d n = push-IsLonger _ (push-IsLonger _ (push-IsLonger _ h))

  pub enc_cmp64_imm32-IsLonger : (d n : ℕ) → IsLonger cb (enc_cmp64_imm32 d n c)
  unfolding enc_cmp64_imm32
  enc_cmp64_imm32-IsLonger d n = push-IsLonger _ (push-IsLonger _ (push-IsLonger _ h))

  pub enc_mov64_imm32-IsLonger : (d n : ℕ) → IsLonger cb (enc_mov64_imm32 d n c)
  unfolding enc_mov64_imm32
  enc_mov64_imm32-IsLonger d n = push-IsLonger _ (push-IsLonger _ (push-IsLonger _ h))

  pub enc_mov64_imm64-IsLonger : (d n : ℕ) → IsLonger cb (enc_mov64_imm64 d n c)
  unfolding enc_mov64_imm64
  enc_mov64_imm64-IsLonger d n = push-IsLonger _ (push-IsLonger _ h)

  pub enc_mov32_imm32-IsLonger : (d n : ℕ) → IsLonger cb (enc_mov32_imm32 d n c)
  unfolding enc_mov32_imm32
  enc_mov32_imm32-IsLonger d n =
      push-IsLonger _ (if_IsLonger _ (push-IsLonger _ h) (push-IsLonger _ h))

  pub enc_mov8_imm8-IsLonger : (d n : ℕ) → IsLonger cb (enc_mov8_imm8 d n c)
  unfolding enc_mov8_imm8
  enc_mov8_imm8-IsLonger d n =
      push-IsLonger _ (if_IsLonger _ (push-IsLonger _ h) (push-IsLonger _ h))

  pub enc_push-IsLonger : (r : ℕ) → IsLonger cb (enc_push r c)
  unfolding enc_push
  enc_push-IsLonger r = push-IsLonger _ (if_IsLonger _ (push-IsLonger _ h) h)

  pub enc_pop-IsLonger : (r : ℕ) → IsLonger cb (enc_pop r c)
  unfolding enc_pop
  enc_pop-IsLonger r = push-IsLonger _ (if_IsLonger _ (push-IsLonger _ h) h)

  pub enc_xorps-IsLonger : (d s : ℕ) → IsLonger cb (enc_xorps d s c)
  unfolding enc_xorps
  enc_xorps-IsLonger d s = if_IsLonger _ (push-IsLonger _ (push-IsLonger _ h)) (push-IsLonger _ h)

  pub enc_lea64_disp32-IsLonger : (d s n : ℕ) → IsLonger cb (enc_lea64_disp32 d s n c)
  unfolding enc_lea64_disp32
  enc_lea64_disp32-IsLonger d s n = push-IsLonger _ (
      if_IsLonger _ (push-IsLonger _ (push-IsLonger _ (push-IsLonger _ h)))
        (push-IsLonger _ (push-IsLonger _ h)))

  pub enc_lea64_disp8-IsLonger : (d s n : ℕ) → IsLonger cb (enc_lea64_disp8 d s n c)
  unfolding enc_lea64_disp8
  enc_lea64_disp8-IsLonger d s n = push-IsLonger _ (
      if_IsLonger _ (push-IsLonger _ (push-IsLonger _ (push-IsLonger _ h)))
        (push-IsLonger _ (push-IsLonger _ h)))

  pub enc_lea64_rip-IsLonger : (d n : ℕ) → IsLonger cb (enc_lea64_rip d n c)
  unfolding enc_lea64_rip
  enc_lea64_rip-IsLonger d n = push-IsLonger _ (push-IsLonger _ (push-IsLonger _ h))
