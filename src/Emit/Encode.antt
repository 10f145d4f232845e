-- ===== src/Emit/Encode.antt =====
-- The encodings of src/emit.c: prefixes, ModR/M bytes and instructions. `x & 7` is `x % 8`, and
-- `x << 3` is `x * 8`.
use Prim.Native.Nat.{bit_or}
use vortech.Prelude.{ℕ, ◌+◌, ◌-◌, ◌*◌, ◌%◌, Bool, true, false, ◌&&◌, ◌||◌, ◌==◌, leb, if◌then◌else◌}
use vortech.Mach.Registers.{reg_none, rax, rsp, rbp, rdi, r8, r12, r13, r15, xmm0}
use vortech.Emit.Buffer.{CodeBuf, cb_push1, cb_push2, cb_push3, cb_push4, cb_push32le, cb_push64le}

abbrev pub reg_enc : ℕ → ℕ
reg_enc r =
    if leb xmm0 r then (r - xmm0) % 8 else (if r == reg_none || r == rax then 0 else (r - 1) % 8)

abbrev pub reg_ext : ℕ → Bool
reg_ext r = leb r8 r && leb r r15

abbrev pub reg_needs_rex_8bit : ℕ → Bool
reg_needs_rex_8bit r = leb rsp r && leb r rdi

abbrev pub or_if : Bool → ℕ → ℕ → ℕ
or_if t bit b = if t then bit_or b bit else b

abbrev pub make_rex : Bool → ℕ → ℕ → ℕ
make_rex w reg rm = or_if (reg_ext rm) 0x01 (or_if (reg_ext reg) 0x04 (or_if w 0x08 0x40))

abbrev pub make_rex_ext : Bool → ℕ → ℕ
make_rex_ext w rm = or_if (reg_ext rm) 0x01 (or_if w 0x08 0x40)

-- `mode | (reg << 3) | rm`
abbrev modrm : ℕ → ℕ → ℕ → ℕ
modrm mode reg rm = bit_or (bit_or mode (reg * 8)) rm

abbrev pub modrm_rr : ℕ → ℕ → ℕ
modrm_rr reg rm = modrm 0xc0 (reg_enc reg) (reg_enc rm)

abbrev pub modrm_ext_rr : ℕ → ℕ → ℕ
modrm_ext_rr ext rm = modrm 0xc0 (ext % 8) (reg_enc rm)

abbrev pub modrm_disp32 : ℕ → ℕ → ℕ
modrm_disp32 reg rm = modrm 0x80 (reg_enc reg) (reg_enc rm)

abbrev pub modrm_disp8 : ℕ → ℕ → ℕ
modrm_disp8 reg rm = modrm 0x40 (reg_enc reg) (reg_enc rm)

abbrev pub modrm_indirect : ℕ → ℕ → ℕ
modrm_indirect reg rm = bit_or (reg_enc reg * 8) (reg_enc rm)

-- An instruction with or without a prefix.
abbrev prefixed2 : Bool → ℕ → ℕ → ℕ → CodeBuf → CodeBuf
prefixed2 need rex a b cb = if need then cb_push3 rex a b cb else cb_push2 a b cb

abbrev prefixed3 : Bool → ℕ → ℕ → ℕ → ℕ → CodeBuf → CodeBuf
prefixed3 need rex a b c cb = if need then cb_push4 rex a b c cb else cb_push3 a b c cb

unfoldable pub enc_mov64 : ℕ → ℕ → CodeBuf → CodeBuf
enc_mov64 dst src = cb_push3 (make_rex true src dst) 0x89 (modrm_rr src dst)

unfoldable pub enc_mov32 : ℕ → ℕ → CodeBuf → CodeBuf
enc_mov32 dst src =
    prefixed2 (reg_ext dst || reg_ext src) (make_rex false src dst) 0x89 (modrm_rr src dst)

unfoldable pub enc_mov8 : ℕ → ℕ → CodeBuf → CodeBuf
enc_mov8 dst src =
    prefixed2 (reg_ext dst || reg_ext src || reg_needs_rex_8bit dst || reg_needs_rex_8bit src)
      (make_rex false src dst) 0x88 (modrm_rr src dst)

unfoldable pub enc_mov64_imm32 : ℕ → ℕ → CodeBuf → CodeBuf
enc_mov64_imm32 dst imm cb =
    cb_push32le imm (cb_push1 (modrm_ext_rr 0 dst) (cb_push2 (make_rex_ext true dst) 0xc7 cb))

unfoldable pub enc_mov64_imm64 : ℕ → ℕ → CodeBuf → CodeBuf
enc_mov64_imm64 dst imm cb =
    cb_push64le imm (cb_push2 (make_rex true reg_none dst) (0xb8 + reg_enc dst) cb)

-- The opcode with the register in its low bits, behind a prefix where there is one.
abbrev opcode_reg : Bool → ℕ → ℕ → CodeBuf → CodeBuf
opcode_reg need opcode dst cb =
    if need
    then cb_push2 (make_rex false reg_none dst) (opcode + reg_enc dst) cb
    else cb_push1 (opcode + reg_enc dst) cb

unfoldable pub enc_mov32_imm32 : ℕ → ℕ → CodeBuf → CodeBuf
enc_mov32_imm32 dst imm cb = cb_push32le imm (opcode_reg (reg_ext dst) 0xb8 dst cb)

unfoldable pub enc_mov8_imm8 : ℕ → ℕ → CodeBuf → CodeBuf
enc_mov8_imm8 dst imm cb =
    cb_push1 imm (opcode_reg (reg_ext dst || reg_needs_rex_8bit dst) 0xb0 dst cb)

unfoldable pub enc_alu64 : ℕ → ℕ → ℕ → CodeBuf → CodeBuf
enc_alu64 opcode dst src = cb_push3 (make_rex true src dst) opcode (modrm_rr src dst)

-- `81 /digit` and `83 /digit` with an immediate.
abbrev group1_imm32 : ℕ → ℕ → ℕ → CodeBuf → CodeBuf
group1_imm32 digit dst imm cb =
    cb_push32le imm (cb_push1 (modrm_ext_rr digit dst) (cb_push2 (make_rex_ext true dst) 0x81 cb))

abbrev group1_imm8 : ℕ → ℕ → ℕ → CodeBuf → CodeBuf
group1_imm8 digit dst imm cb =
    cb_push1 imm (cb_push1 (modrm_ext_rr digit dst) (cb_push2 (make_rex_ext true dst) 0x83 cb))

unfoldable pub enc_add64_imm32 : ℕ → ℕ → CodeBuf → CodeBuf
enc_add64_imm32 = group1_imm32 0

unfoldable pub enc_sub64_imm32 : ℕ → ℕ → CodeBuf → CodeBuf
enc_sub64_imm32 = group1_imm32 5

unfoldable pub enc_add64_imm8 : ℕ → ℕ → CodeBuf → CodeBuf
enc_add64_imm8 = group1_imm8 0

unfoldable pub enc_sub64_imm8 : ℕ → ℕ → CodeBuf → CodeBuf
enc_sub64_imm8 = group1_imm8 5

unfoldable pub enc_cmp64_imm32 : ℕ → ℕ → CodeBuf → CodeBuf
enc_cmp64_imm32 = group1_imm32 7

unfoldable pub enc_imul64 : ℕ → ℕ → CodeBuf → CodeBuf
enc_imul64 dst src = cb_push4 (make_rex true dst src) 0x0f 0xaf (modrm_rr dst src)

-- An opcode with a digit and one register.
abbrev pub unary : ℕ → ℕ → ℕ → CodeBuf → CodeBuf
unary opcode digit r = cb_push3 (make_rex_ext true r) opcode (modrm_ext_rr digit r)

unfoldable pub enc_idiv64 : ℕ → CodeBuf → CodeBuf
enc_idiv64 = unary 0xf7 7

unfoldable pub enc_neg64 : ℕ → CodeBuf → CodeBuf
enc_neg64 = unary 0xf7 3

unfoldable pub enc_not64 : ℕ → CodeBuf → CodeBuf
enc_not64 = unary 0xf7 2

unfoldable pub enc_shl64_cl : ℕ → CodeBuf → CodeBuf
enc_shl64_cl = unary 0xd3 4

unfoldable pub enc_shr64_cl : ℕ → CodeBuf → CodeBuf
enc_shr64_cl = unary 0xd3 5

unfoldable pub enc_cmp64 : ℕ → ℕ → CodeBuf → CodeBuf
enc_cmp64 lhs rhs = cb_push3 (make_rex true rhs lhs) 0x39 (modrm_rr rhs lhs)

unfoldable pub enc_test64 : ℕ → ℕ → CodeBuf → CodeBuf
enc_test64 lhs rhs = cb_push3 (make_rex true rhs lhs) 0x85 (modrm_rr rhs lhs)

unfoldable pub enc_setcc : ℕ → ℕ → CodeBuf → CodeBuf
enc_setcc cc dst =
    prefixed3 (reg_ext dst || reg_needs_rex_8bit dst) (make_rex_ext false dst) 0x0f (0x90 + cc)
      (modrm_ext_rr 0 dst)

unfoldable pub enc_movzx32_8 : ℕ → ℕ → CodeBuf → CodeBuf
enc_movzx32_8 dst src =
    prefixed3 (reg_ext dst || reg_ext src || reg_needs_rex_8bit src) (make_rex false dst src) 0x0f
      0xb6 (modrm_rr dst src)

unfoldable pub enc_jcc32 : ℕ → ℕ → CodeBuf → CodeBuf
enc_jcc32 cc rel32 cb = cb_push32le rel32 (cb_push2 0x0f (0x80 + cc) cb)

unfoldable pub enc_ret : CodeBuf → CodeBuf
enc_ret = cb_push1 0xc3

unfoldable pub enc_push : ℕ → CodeBuf → CodeBuf
enc_push r cb = cb_push1 (0x50 + reg_enc r) (if reg_ext r then cb_push1 0x41 cb else cb)

unfoldable pub enc_pop : ℕ → CodeBuf → CodeBuf
enc_pop r cb = cb_push1 (0x58 + reg_enc r) (if reg_ext r then cb_push1 0x41 cb else cb)

unfoldable pub enc_nop : CodeBuf → CodeBuf
enc_nop = cb_push1 0x90

unfoldable pub enc_cqo : CodeBuf → CodeBuf
enc_cqo = cb_push2 0x48 0x99

unfoldable pub enc_xorps : ℕ → ℕ → CodeBuf → CodeBuf
enc_xorps dst src cb =
    if reg_ext dst || reg_ext src
    then cb_push1 (modrm_rr src dst) (cb_push3 (make_rex false src dst) 0x0f 0x57 cb)
    else cb_push3 0x0f 0x57 (modrm_rr src dst) cb

unfoldable pub enc_lea64_rip : ℕ → ℕ → CodeBuf → CodeBuf
enc_lea64_rip dst disp32 cb =
    cb_push32le disp32
      (cb_push1 (bit_or (reg_enc dst * 8) 5) (cb_push2 (make_rex true dst reg_none) 0x8d cb))

-- For the bases rsp and r12 the source passes the register 4 on for the number 4 in the ModR/M
-- byte.
abbrev sib_base : ℕ → Bool
sib_base base = base == rsp || base == r12

unfoldable pub enc_lea64_disp32 : ℕ → ℕ → ℕ → CodeBuf → CodeBuf
enc_lea64_disp32 dst base disp cb =
    let start = cb_push2 (make_rex true dst base) 0x8d cb in
    cb_push32le disp (
      if sib_base base
      then cb_push1 0x24 (cb_push1 (modrm_disp32 dst 4) start)
      else cb_push1 (modrm_disp32 dst base) start)

unfoldable pub enc_lea64_disp8 : ℕ → ℕ → ℕ → CodeBuf → CodeBuf
enc_lea64_disp8 dst base disp cb =
    let start = cb_push2 (make_rex true dst base) 0x8d cb in
    cb_push1 disp (
      if sib_base base
      then cb_push1 0x24 (cb_push1 (modrm_disp8 dst 4) start)
      else cb_push1 (modrm_disp8 dst base) start)

-- What `enc_store64` and `enc_load64` share: the address behind the opcode.
abbrev memory : ℕ → ℕ → ℕ → ℕ → CodeBuf → CodeBuf
memory opcode reg base disp cb =
    let start = cb_push2 (make_rex true reg base) opcode cb in
    if sib_base base
    then cb_push32le disp (cb_push1 0x24 (cb_push1 (modrm_disp32 reg 4) start))
    else (if base == rbp || base == r13
        then cb_push32le disp (cb_push1 (modrm_disp32 reg base) start)
        else (if disp == 0
            then cb_push1 (modrm_indirect reg base) start
            else cb_push32le disp (cb_push1 (modrm_disp32 reg base) start)))

unfoldable pub enc_store64 : ℕ → ℕ → ℕ → CodeBuf → CodeBuf
enc_store64 base src disp = memory 0x89 src base disp

unfoldable pub enc_load64 : ℕ → ℕ → ℕ → CodeBuf → CodeBuf
enc_load64 dst base disp = memory 0x8b dst base disp
