-- ===== src/Emit/Instructions.antt =====
-- The encodings of src/emit.c against the decoder: instructions on registers.
use vortech.Prelude.{
  some, ℕ, ◌+◌, ◌-◌, ◌*◌, ◌<◌, ◌%◌, ◌≡◌, refl, ap, ◌∙◌, true, false, List, [], ◌∷◌, ◌++◌, arith,
  length, drop,
}
use vortech.Emit.Buffer.{CodeBuf, push, cb_ensure}
use vortech.Emit.Encode.{
  reg_enc, reg_ext, make_rex, make_rex_ext, unary, modrm_rr, modrm_ext_rr, enc_mov64, enc_alu64,
  enc_cmp64, enc_test64, enc_imul64, enc_idiv64, enc_neg64, enc_not64, enc_shl64_cl, enc_shr64_cl,
}
use vortech.Emit.Fields.{IsGpr, bit, reg_enc-lt, reg_number}
use vortech.Emit.Decode.{Form, decode, with_operands}
use vortech.Emit.Formats.{
  rex_byte, modrm_byte, on_register, IsPlainOpcode, decode-fields, decode-two_bytes,
  modrm_operands-byte, drop-append,
}

-- The bytes that a step of the emitter adds to those in the buffer.
abbrev pub added : (CodeBuf → CodeBuf) → CodeBuf → List ℕ
added f cb = drop (length cb.data_) (f cb).data_

added-push : (bytes : List ℕ) (cb : CodeBuf) → added (push bytes) cb ≡ bytes
unfolding push cb_ensure
added-push bytes cb = drop-append cb.data_ bytes

-- The decoder reads the instruction `form` off what `f` adds to a buffer, and stops behind it.
abbrev pub Encodes : (CodeBuf → CodeBuf) → Form → Type 0
Encodes f form = (cb : CodeBuf) (rest : List ℕ) → decode (added f cb ++ rest) ≡ some (form, rest)

alu64-Encodes :
    (opcode s d : ℕ)
    → IsPlainOpcode opcode
    → IsGpr s
    → IsGpr d
    → Encodes (enc_alu64 opcode d s) (on_register opcode (s - 1) d)
unfolding enc_alu64 rex_byte modrm_byte
alu64-Encodes opcode s d plain hs hd cb rest =
    ap (λ bs. decode (bs ++ rest)) (added-push (make_rex true s d ∷ opcode ∷ modrm_rr s d ∷ []) cb)
    ∙ decode-fields (reg_ext s) opcode (reg_enc s) d rest plain (reg_enc-lt s) hd
    ∙ ap (λ n. some (on_register opcode n d, rest)) (reg_number s hs)

-- An opcode with a digit.
unary-Encodes :
    (opcode digit r : ℕ)
    → IsPlainOpcode opcode
    → digit < 8
    → IsGpr r
    → Encodes (unary opcode digit r) (on_register opcode digit r)
unfolding rex_byte modrm_byte
unary-Encodes opcode digit r plain hx hr cb rest =
    let e : digit % 8 ≡ digit = omega arith in
    let field : digit + 8 * 0 ≡ digit = omega arith in
    ap (λ bs. decode (bs ++ rest))
      (added-push (make_rex_ext true r ∷ opcode ∷ modrm_ext_rr digit r ∷ []) cb)
    ∙ rw e (
        decode-fields false opcode digit r rest plain hx hr
        ∙ ap (λ n. some (on_register opcode n r, rest)) field)

imul64-Encodes :
    (d s : ℕ) → IsGpr d → IsGpr s → Encodes (enc_imul64 d s) (on_register 0x0faf (d - 1) s)
unfolding enc_imul64 rex_byte modrm_byte
imul64-Encodes d s hd hs cb rest =
    ap (λ bs. decode (bs ++ rest))
      (added-push (make_rex true d s ∷ 0x0f ∷ 0xaf ∷ modrm_rr d s ∷ []) cb)
    ∙ decode-two_bytes true (reg_ext d) (reg_ext s) 0xaf (modrm_rr d s) rest
    ∙ ap (with_operands true 0x0faf) (
        modrm_operands-byte 3 (reg_enc d) (reg_enc s) (bit (reg_ext d)) (bit (reg_ext s)) rest
          (omega arith) (reg_enc-lt d) (reg_enc-lt s))
    ∙ rw (reg_number d hd, reg_number s hs) refl

-- In every buffer, and whatever stands behind it, the decoder reads off what the encodings add the
-- instruction that they are named for, on the registers that they are given: the moves, the
-- additions, subtractions, bit operations and comparisons with the destination as the second
-- operand, the multiplication with it as the first, and the instructions on one register with their
-- digits.
pub encodings-Encodes :
    (d s : ℕ)
    → IsGpr d
    → IsGpr s
    → Encodes (enc_mov64 d s) (on_register 0x89 (s - 1) d)
      × Encodes (enc_alu64 0x01 d s) (on_register 0x01 (s - 1) d)
      × Encodes (enc_alu64 0x29 d s) (on_register 0x29 (s - 1) d)
      × Encodes (enc_alu64 0x21 d s) (on_register 0x21 (s - 1) d)
      × Encodes (enc_alu64 0x09 d s) (on_register 0x09 (s - 1) d)
      × Encodes (enc_alu64 0x31 d s) (on_register 0x31 (s - 1) d)
      × Encodes (enc_cmp64 d s) (on_register 0x39 (s - 1) d)
      × Encodes (enc_test64 d s) (on_register 0x85 (s - 1) d)
      × Encodes (enc_imul64 d s) (on_register 0x0faf (d - 1) s)
      × Encodes (enc_idiv64 s) (on_register 0xf7 7 s)
      × Encodes (enc_neg64 d) (on_register 0xf7 3 d)
      × Encodes (enc_not64 d) (on_register 0xf7 2 d)
      × Encodes (enc_shl64_cl d) (on_register 0xd3 4 d)
      × Encodes (enc_shr64_cl d) (on_register 0xd3 5 d)
unfolding enc_mov64 enc_alu64 enc_cmp64 enc_test64 enc_idiv64 enc_neg64 enc_not64 enc_shl64_cl
    enc_shr64_cl
encodings-Encodes d s hd hs =
    let alu = λ (opcode : ℕ) (plain : IsPlainOpcode opcode). alu64-Encodes opcode s d plain hs hd in
    (
      alu 0x89 (refl, refl),
      alu 0x01 (refl, refl),
      alu 0x29 (refl, refl),
      alu 0x21 (refl, refl),
      alu 0x09 (refl, refl),
      alu 0x31 (refl, refl),
      alu 0x39 (refl, refl),
      alu 0x85 (refl, refl),
      imul64-Encodes d s hd hs,
      unary-Encodes 0xf7 7 s (refl, refl) (omega arith) hs,
      unary-Encodes 0xf7 3 d (refl, refl) (omega arith) hd,
      unary-Encodes 0xf7 2 d (refl, refl) (omega arith) hd,
      unary-Encodes 0xd3 4 d (refl, refl) (omega arith) hd,
      unary-Encodes 0xd3 5 d (refl, refl) (omega arith) hd,
    )
