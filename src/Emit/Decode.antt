-- ===== src/Emit/Decode.antt =====
-- Reading x86-64 code: a decoder of the instruction formats that the emitter uses, as the
-- processor's manual describes them, against which the encodings are checked. Registers have their
-- hardware numbers here, 0 to 15.
use vortech.Prelude.{
  Option, none, some, ℕ, zero, suc, ◌+◌, ◌*◌, ◌/◌, ◌%◌, Bool, false, ◌&&◌, List, [], ◌∷◌, mem, ◌==◌,
  if◌then◌else◌,
}

-- A register, or the memory at a register plus a displacement or at the next instruction plus one.
pub data Operand : Type 0 where
  register : ℕ → Operand
  memory : (base disp : ℕ) → Operand
  relative : (disp : ℕ) → Operand

-- Whether REX.W is set, the opcode (two bytes where the first is 0F), the register field and the
-- other operand, and the immediate, 0 where there is none.
pub record Form : Type 0 where
  pub wide : Bool
  pub opcode : ℕ
  pub reg : ℕ
  pub rm : Operand
  pub imm : ℕ

-- A number of `n` bytes, the lowest one first, and the bytes behind it.
abbrev pub read_le : ℕ → List ℕ → Option (ℕ × List ℕ)
read_le zero bs = some (0, bs)
read_le (suc n) [] = none
read_le (suc n) (b ∷ bs) = more (read_le n bs)
  where
    more : Option (ℕ × List ℕ) → Option (ℕ × List ℕ)
    more none = none
    more (some (v, rest)) = some (b + v * 256, rest)

-- The size of the immediate behind each one-byte opcode that has one.
abbrev pub imm_size : ℕ → ℕ
imm_size opcode =
    if mem opcode (0x69 ∷ 0x81 ∷ 0xc7 ∷ []) then 4 else (if opcode == 0x83 then 1 else 0)

-- The bytes of a displacement, by the mode of the ModR/M byte.
abbrev pub disp_size : ℕ → ℕ
disp_size mode = if mode == 1 then 1 else (if mode == 2 then 4 else 0)

abbrev at_base : ℕ → ℕ → Option (ℕ × List ℕ) → Option (ℕ × Operand × List ℕ)
at_base reg base none = none
at_base reg base (some (disp, bs)) = some (reg, memory base disp, bs)

abbrev at_next : ℕ → Option (ℕ × List ℕ) → Option (ℕ × Operand × List ℕ)
at_next reg none = none
at_next reg (some (disp, bs)) = some (reg, relative disp, bs)

-- The byte behind a ModR/M byte whose low bits are 4, where it names a base and no index.
abbrev sib : ℕ → ℕ → ℕ → List ℕ → Option (ℕ × Operand × List ℕ)
sib mode reg b [] = none
sib mode reg b (s ∷ bs) =
    if s / 8 == 4 then at_base reg (s % 8 + 8 * b) (read_le (disp_size mode) bs) else none

-- The operands, by the three fields of a ModR/M byte and the extension bits of the prefix.
abbrev pub operands : (mode x y r b : ℕ) → List ℕ → Option (ℕ × Operand × List ℕ)
operands mode x y r b bs =
    if mode == 3
    then some (x + 8 * r, register (y + 8 * b), bs)
    else (if y == 4
        then sib mode (x + 8 * r) b bs
        else (if mode == 0 && y == 5
            then at_next (x + 8 * r) (read_le 4 bs)
            else at_base (x + 8 * r) (y + 8 * b) (read_le (disp_size mode) bs)))

unfoldable pub modrm_operands : ℕ → ℕ → List ℕ → Option (ℕ × Operand × List ℕ)
modrm_operands r b [] = none
modrm_operands r b (m ∷ bs) = operands (m / 64) (m / 8 % 8) (m % 8) r b bs

abbrev with_imm : Bool → ℕ → ℕ → Operand → Option (ℕ × List ℕ) → Option (Form × List ℕ)
with_imm wide opcode reg rm none = none
with_imm wide opcode reg rm (some (imm, bs)) =
    some (record { wide = wide; opcode = opcode; reg = reg; rm = rm; imm = imm }, bs)

abbrev pub with_operands : Bool → ℕ → Option (ℕ × Operand × List ℕ) → Option (Form × List ℕ)
with_operands wide opcode none = none
with_operands wide opcode (some (reg, rm, bs)) =
    with_imm wide opcode reg rm (read_le (imm_size opcode) bs)

-- The opcode, and what follows it.
abbrev pub opcode_from : Bool → ℕ → ℕ → List ℕ → Option (Form × List ℕ)
opcode_from wide r b [] = none
opcode_from wide r b (o ∷ []) = none
opcode_from wide r b (o ∷ o2 ∷ bs) =
    if o == 0x0f
    then with_operands wide (0x0f00 + o2) (modrm_operands r b bs)
    else with_operands wide o (modrm_operands r b (o2 ∷ bs))

-- One instruction, with or without a REX prefix, and the bytes behind it.
unfoldable pub decode : List ℕ → Option (Form × List ℕ)
unfolding modrm_operands
decode [] = none
decode (p ∷ bs) =
    if p / 16 == 4
    then opcode_from (p / 8 % 2 == 1) (p / 4 % 2) (p % 2) bs
    else opcode_from false 0 0 (p ∷ bs)
