-- ===== src/Emit/Formats.antt =====
-- The instructions that the encodings of src/emit.c stand for.
use Prim.Native.Nat.{bit_or}
use vortech.Prelude.{
  some, ℕ, ◌+◌, ◌-◌, ◌*◌, ◌/◌, ◌%◌, ◌<◌, ◌≡◌, refl, ap, ◌∙◌, Bool, true, false, List, [], ◌∷◌, ◌++◌,
  arith, ◌==◌, length, drop,
}
use vortech.Emit.Buffer.{CodeBuf}
use vortech.Emit.Encode.{reg_enc, reg_ext, or_if}
use vortech.Emit.Fields.{IsGpr, bit, modrm_sum, reg_enc-lt, reg_number}
use vortech.Emit.Decode.{Form, register, decode, modrm_operands, operands, with_operands, imm_size}

unfoldable pub rex_byte : Bool → Bool → Bool → ℕ
rex_byte w a b = or_if b 0x01 (or_if a 0x04 (or_if w 0x08 0x40))

unfoldable pub modrm_byte : ℕ → ℕ → ℕ → ℕ
modrm_byte mode x y = bit_or (bit_or (mode * 64) (x * 8)) y

pub modrm_operands-byte :
    (mode x y r b : ℕ) (bs : List ℕ)
    → mode < 4
    → x < 8
    → y < 8
    → modrm_operands r b (modrm_byte mode x y ∷ bs) ≡ operands mode x y r b bs
unfolding modrm_operands modrm_byte
modrm_operands-byte mode x y r b bs hm hx hy =
    let e = modrm_sum mode x y hm hx hy in
    let m = bit_or (bit_or (mode * 64) (x * 8)) y in
    let e1 : m / 64 ≡ mode = omega (arith, e) in
    let e2 : m / 8 % 8 ≡ x = omega (arith, e) in
    let e3 : m % 8 ≡ y = omega (arith, e) in rw (e1, e2, e3) refl

pub decode-prefixed :
    (w a b : Bool) (opcode m : ℕ) (bs : List ℕ)
    → (opcode == 0x0f) ≡ false
    → decode (rex_byte w a b ∷ opcode ∷ m ∷ bs)
      ≡ with_operands w opcode (modrm_operands (bit a) (bit b) (m ∷ bs))
unfolding decode rex_byte
decode-prefixed true true true opcode m bs h = rw h refl
decode-prefixed true true false opcode m bs h = rw h refl
decode-prefixed true false true opcode m bs h = rw h refl
decode-prefixed true false false opcode m bs h = rw h refl
decode-prefixed false true true opcode m bs h = rw h refl
decode-prefixed false true false opcode m bs h = rw h refl
decode-prefixed false false true opcode m bs h = rw h refl
decode-prefixed false false false opcode m bs h = rw h refl

pub drop-append : (xs ys : List ℕ) → drop (length xs) (xs ++ ys) ≡ ys
drop-append [] ys = refl
drop-append (x ∷ xs) ys = drop-append xs ys

pub decode-two_bytes :
    (w a b : Bool) (o m : ℕ) (bs : List ℕ)
    → decode (rex_byte w a b ∷ 0x0f ∷ o ∷ m ∷ bs)
      ≡ with_operands w (0x0f00 + o) (modrm_operands (bit a) (bit b) (m ∷ bs))
unfolding decode rex_byte
decode-two_bytes true true true o m bs = refl
decode-two_bytes true true false o m bs = refl
decode-two_bytes true false true o m bs = refl
decode-two_bytes true false false o m bs = refl
decode-two_bytes false true true o m bs = refl
decode-two_bytes false true false o m bs = refl
decode-two_bytes false false true o m bs = refl
decode-two_bytes false false false o m bs = refl

-- The bytes that a step of the emitter adds to those in the buffer.
abbrev pub added : (CodeBuf → CodeBuf) → CodeBuf → List ℕ
added f cb = drop (length cb.data_) (f cb).data_

-- An instruction on two registers, `reg` and `rm`, without an immediate.
abbrev pub on_registers : Bool → ℕ → ℕ → ℕ → Form
on_registers wide opcode reg rm = record {
  wide = wide;
  opcode = opcode;
  reg = reg - 1;
  rm = register (rm - 1);
  imm = 0;
}

-- An instruction on a register, with a register's number or a digit in the other field.
abbrev pub on_register : ℕ → ℕ → ℕ → Form
on_register opcode field d = record {
  wide = true;
  opcode = opcode;
  reg = field;
  rm = register (d - 1);
  imm = 0;
}

-- One byte that is no escape, and no immediate behind the operands.
abbrev pub IsPlainOpcode : ℕ → Type 0
IsPlainOpcode opcode = ((opcode == 0x0f) ≡ false) × (imm_size opcode ≡ 0)

-- A register, or a digit of the opcode, and another register.
pub decode-fields :
    (a : Bool) (opcode x d : ℕ) (rest : List ℕ)
    → IsPlainOpcode opcode
    → x < 8
    → IsGpr d
    → decode (rex_byte true a (reg_ext d) ∷ opcode ∷ modrm_byte 3 x (reg_enc d) ∷ rest)
      ≡ some (on_register opcode (x + 8 * bit a) d, rest)
decode-fields a opcode x d rest (one, bare) hx hd =
    decode-prefixed true a (reg_ext d) opcode (modrm_byte 3 x (reg_enc d)) rest one
    ∙ ap (with_operands true opcode) (
        modrm_operands-byte 3 x (reg_enc d) (bit a) (bit (reg_ext d)) rest (omega arith) hx
          (reg_enc-lt d))
    ∙ rw (reg_number d hd, bare) refl
