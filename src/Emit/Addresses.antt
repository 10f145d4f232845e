-- ===== src/Emit/Addresses.antt =====
-- The encodings of src/emit.c with a memory operand against the decoder.
use vortech.Prelude.{
  some, ℕ, ◌+◌, ◌-◌, ◌*◌, ◌/◌, ◌%◌, ◌^◌, ◌<◌, ◌≡◌, ◌≢◌, refl, ap, ◌∙◌, Bool, ◌||◌, true, false,
  List, [], ◌∷◌, ◌++◌, arith, length, drop, ◌==◌, if◌then◌else◌, inl, inr, ◌⊎◌,
}
use vortech.Mach.Registers.{rsp, r12}
use vortech.Emit.Buffer.{CodeBuf, push, cb_ensure, bytes_le}
use vortech.Emit.Encode.{reg_enc, reg_ext, make_rex, modrm_disp32, enc_lea64_disp32}
use vortech.Emit.Fields.{IsGpr, bit, reg_enc-lt, reg_number}
use vortech.Emit.Decode.{Form, memory, decode, with_operands}
use vortech.Emit.Formats.{rex_byte, modrm_byte, IsPlainOpcode, decode-prefixed, modrm_operands-byte}
use vortech.Emit.Instructions.{added, Encodes}

-- The number that `read_le` makes of the four bytes of `v`.
of_bytes : ℕ → ℕ
of_bytes v =
    v % 2 ^ 8
    + (v / 2 ^ 8 % 2 ^ 8
        + (v / 2 ^ 8 / 2 ^ 8 % 2 ^ 8 + (v / 2 ^ 8 / 2 ^ 8 / 2 ^ 8 % 2 ^ 8 + 0 * 256) * 256) * 256)
      * 256

of_bytes_lem : (v : ℕ) → v < 2 ^ 32 → of_bytes v ≡ v
unfolding of_bytes
of_bytes_lem v h = omega arith

drop-append3 : (xs a b c : List ℕ) → drop (length xs) (xs ++ a ++ b ++ c) ≡ a ++ b ++ c
drop-append3 [] a b c = refl
drop-append3 (x ∷ xs) a b c = drop-append3 xs a b c

-- What three writes in a row add.
added-pushes :
    (a b c : List ℕ) (cb : CodeBuf) → added (λ s. push c (push b (push a s))) cb ≡ a ++ b ++ c
unfolding push cb_ensure
added-pushes a b c cb = drop-append3 cb.data_ a b c

drop-append4 : (xs a b c d : List ℕ) → drop (length xs) (xs ++ a ++ b ++ c ++ d) ≡ a ++ b ++ c ++ d
drop-append4 [] a b c d = refl
drop-append4 (x ∷ xs) a b c d = drop-append4 xs a b c d

-- What four writes in a row add.
added-four :
    (a b c d : List ℕ) (cb : CodeBuf)
    → added (λ s. push d (push c (push b (push a s)))) cb ≡ a ++ b ++ c ++ d
unfolding push cb_ensure
added-four a b c d cb = drop-append4 cb.data_ a b c d

-- An instruction on a register and the memory at another one plus a displacement.
abbrev pub on_memory : ℕ → ℕ → ℕ → ℕ → Form
on_memory opcode reg base disp = record {
  wide = true;
  opcode = opcode;
  reg = reg - 1;
  rm = memory (base - 1) disp;
  imm = 0;
}

decode-disp32 :
    (opcode reg base disp : ℕ) (rest : List ℕ)
    → IsPlainOpcode opcode
    → IsGpr reg
    → IsGpr base
    → base ≢ rsp
    → base ≢ r12
    → disp < 2 ^ 32
    → decode (make_rex true reg base ∷ opcode ∷ modrm_disp32 reg base ∷ bytes_le 4 disp ++ rest)
      ≡ some (on_memory opcode reg base disp, rest)
unfolding rex_byte modrm_byte of_bytes
decode-disp32 opcode reg base disp rest (one, bare) hreg hbase no_rsp no_r12 hd =
    let plain : (reg_enc base == 4) ≡ false = ground arith in
    decode-prefixed true (reg_ext reg) (reg_ext base) opcode (modrm_disp32 reg base)
      (bytes_le 4 disp ++ rest) one
    ∙ ap (with_operands true opcode) (
        modrm_operands-byte 2 (reg_enc reg) (reg_enc base) (bit (reg_ext reg)) (bit (reg_ext base))
          (bytes_le 4 disp ++ rest) (omega arith) (reg_enc-lt reg) (reg_enc-lt base))
    ∙ rw (plain, reg_number reg hreg, reg_number base hbase, bare)
        (ap (λ v. some (on_memory opcode reg base v, rest)) (of_bytes_lem disp hd))

-- `enc_lea64_disp32` encodes the address it is named for, for every base but rsp and r12.
pub lea64_disp32-Encodes :
    (dst base disp : ℕ)
    → IsGpr dst
    → IsGpr base
    → base ≢ rsp
    → base ≢ r12
    → disp < 2 ^ 32
    → Encodes (enc_lea64_disp32 dst base disp) (on_memory 0x8d dst base disp)
unfolding enc_lea64_disp32
lea64_disp32-Encodes dst base disp hdst hbase no_rsp no_r12 hd cb rest =
    let plain : (base == rsp || base == r12) ≡ false = ground arith in
    rw plain (
      ap (λ bs. decode (bs ++ rest))
        (added-pushes (make_rex true dst base ∷ 0x8d ∷ []) (modrm_disp32 dst base ∷ [])
          (bytes_le 4 disp) cb)
      ∙ decode-disp32 0x8d dst base disp rest (refl, refl) hdst hbase no_rsp no_r12 hd)

decode-shifted :
    (b : Bool) (dst disp : ℕ) (rest : List ℕ)
    → IsGpr dst
    → disp < 2 ^ 32
    → decode (
        rex_byte true (reg_ext dst) b ∷ 0x8d ∷ modrm_byte 2 (reg_enc dst) 3 ∷ 0x24 ∷ bytes_le 4 disp
        ++ rest)
      ≡ some (on_memory 0x8d dst (4 + 8 * bit b) (0x24 + disp % 2 ^ 24 * 256), disp / 2 ^ 24 ∷ rest)
decode-shifted b dst disp rest hdst hd =
    let low : 0x24
          + (disp % 2 ^ 8
              + (disp / 2 ^ 8 % 2 ^ 8 + (disp / 2 ^ 8 / 2 ^ 8 % 2 ^ 8 + 0 * 256) * 256) * 256)
            * 256
        ≡ 0x24 + disp % 2 ^ 24 * 256 =
      omega arith in
    let base : 3 + 8 * bit b ≡ 4 + 8 * bit b - 1 = omega arith in
    let high : disp / 2 ^ 8 / 2 ^ 8 / 2 ^ 8 % 2 ^ 8 ≡ disp / 2 ^ 24 = omega arith in
    decode-prefixed true (reg_ext dst) b 0x8d (modrm_byte 2 (reg_enc dst) 3)
      (0x24 ∷ bytes_le 4 disp ++ rest) refl
    ∙ ap (with_operands true 0x8d) (
        modrm_operands-byte 2 (reg_enc dst) 3 (bit (reg_ext dst)) (bit b)
          (0x24 ∷ bytes_le 4 disp ++ rest) (omega arith) (reg_enc-lt dst) (omega arith))
    ∙ rw (reg_number dst hdst, low, high, base) refl

-- For the bases rsp and r12 a decoder reads an address off another register, the hardware's number
-- 3 or 11: the byte that was meant to name the base becomes the lowest byte of the displacement,
-- and the highest byte of the displacement is left as the beginning of the next instruction.
pub lea64_disp32-wrong :
    (dst base disp : ℕ) (cb : CodeBuf) (rest : List ℕ)
    → IsGpr dst
    → (base ≡ rsp) ⊎ (base ≡ r12)
    → disp < 2 ^ 32
    → decode (added (enc_lea64_disp32 dst base disp) cb ++ rest)
      ≡ some (
        on_memory 0x8d dst (if base == rsp then 4 else 12) (0x24 + disp % 2 ^ 24 * 256),
        disp / 2 ^ 24 ∷ rest,
      )
unfolding enc_lea64_disp32 rex_byte modrm_byte
lea64_disp32-wrong dst base disp cb rest hdst (inl e) hd = rw e (
    ap (λ bs. decode (bs ++ rest))
      (added-four (make_rex true dst rsp ∷ 0x8d ∷ []) (modrm_disp32 dst 4 ∷ []) (0x24 ∷ [])
        (bytes_le 4 disp) cb)
    ∙ decode-shifted false dst disp rest hdst hd)
lea64_disp32-wrong dst base disp cb rest hdst (inr e) hd = rw e (
    ap (λ bs. decode (bs ++ rest))
      (added-four (make_rex true dst r12 ∷ 0x8d ∷ []) (modrm_disp32 dst 4 ∷ []) (0x24 ∷ [])
        (bytes_le 4 disp) cb)
    ∙ decode-shifted true dst disp rest hdst hd)
