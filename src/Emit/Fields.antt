-- ===== src/Emit/Fields.antt =====
-- The bit fields of prefixes and ModR/M bytes, as sums.
use Prim.Native.Nat.{bit_or}
use vortech.Prelude.{
  ℕ, zero, suc, ◌+◌, ◌-◌, ◌*◌, ◌≤◌, ◌<◌, ◌≡◌, refl, Bool, true, false, ◌&&◌, arith, ◌==◌, ==_iff,
}
use vortech.Mach.Registers.{rax, r15}
use vortech.Emit.Encode.{reg_enc, reg_ext, or_if}

-- A general-purpose register, by its number in `X86Reg`.
abbrev pub IsGpr : ℕ → Type 0
IsGpr r = (rax ≤ r) × (r ≤ r15)

-- A flag as a bit.
abbrev pub bit : Bool → ℕ
bit true = 1
bit false = 0

-- Whether the test accepts the numbers under the bound, the largest last.
passes : (ℕ → Bool) → ℕ → Bool
passes test zero = true
passes test (suc bound) = passes test bound && test bound

passes_at : (test : ℕ → Bool) (bound v : ℕ) → v < bound → passes test bound ≡ true → test v ≡ true
unfolding passes
passes_at test zero v small accepted = elim small [ ]
passes_at test (suc bound) v small accepted = ground (arith, passes_at test bound v)

-- The fields of a ModR/M byte, as a test.
fields_add : ℕ → ℕ → ℕ → Bool
fields_add mode a b = bit_or (bit_or (mode * 64) (a * 8)) b == mode * 64 + a * 8 + b

fields_add_table : passes (λ m. passes (λ a. passes (fields_add m a) 8) 8) 4 ≡ true
unfolding passes fields_add
fields_add_table = refl

-- The three fields of a ModR/M byte do not overlap.
pub modrm_sum :
    (mode a b : ℕ)
    → mode < 4
    → a < 8
    → b < 8
    → bit_or (bit_or (mode * 64) (a * 8)) b ≡ mode * 64 + a * 8 + b
unfolding fields_add
modrm_sum mode a b hm ha hb =
    let row = passes_at _ 4 mode hm fields_add_table in
    let cell = passes_at _ 8 a ha row in (==_iff _ _).0 (passes_at (fields_add mode a) 8 b hb cell)

pub make_rex_sum :
    (w a b : Bool)
    → or_if b 0x01 (or_if a 0x04 (or_if w 0x08 0x40)) ≡ 0x40 + bit w * 8 + bit a * 4 + bit b
make_rex_sum true true true = refl
make_rex_sum true true false = refl
make_rex_sum true false true = refl
make_rex_sum true false false = refl
make_rex_sum false true true = refl
make_rex_sum false true false = refl
make_rex_sum false false true = refl
make_rex_sum false false false = refl

pub reg_enc-lt : (r : ℕ) → reg_enc r < 8
reg_enc-lt r = ground arith

-- The prefix's bit and the three low bits make the hardware number.
pub reg_number : (r : ℕ) → IsGpr r → reg_enc r + 8 * bit (reg_ext r) ≡ r - 1
reg_number r (lo, hi) = ground arith
