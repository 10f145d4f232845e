-- ===== src/Ssa/Int64.antt =====
-- `int64_t` values as integers, with the operations that the passes compute at compile time: the
-- switches `fold_binop` and `fold_cmp` of src/opt_constfold.c, which src/opt_sccp.c repeats.
use Prim.Native.Nat.{bit_and, bit_or, bit_xor}
use vortech.Prelude.{
  ◌≡◌, arith, ℕ, ◌+◌, ◌-◌, ◌*◌, ◌/◌, ◌%◌, ◌^◌, Bool, true, false, not, ◌&&◌, ltb, ◌==◌,
  if◌then◌else◌,
}
use vortech.Prelude.Int.{ℤ, pos, negsuc, pos_part, neg_part, sub_ℕ, ◌+ℤ◌, ◌-ℤ◌, ◌*ℤ◌, ltb_ℤ}
use vortech.Ssa.{BinOpKind, UnOpKind, CmpKind}

-- What the compiler that built the program does where C leaves an operation undefined: overflow,
-- and shifts by a count that is out of range or of a negative number.
pub record Host : Type 0 where
  pub undefined_binop : BinOpKind → ℤ → ℤ → ℤ
  pub undefined_neg : ℤ → ℤ

abbrev pub eq_ℤ : ℤ → ℤ → Bool
eq_ℤ a b = pos_part a == pos_part b && neg_part a == neg_part b

pub eq_of_eq_ℤ : (a b : ℤ) → eq_ℤ a b ≡ true → a ≡ b
eq_of_eq_ℤ a b h = ground arith

-- -2^63 ≤ z < 2^63
abbrev pub in_int64 : ℤ → Bool
in_int64 (pos n) = ltb n 0x8000_0000_0000_0000
in_int64 (negsuc n) = ltb n 0x8000_0000_0000_0000

-- The bit pattern of an `int64_t`, and back.
unfoldable pub to_bits : ℤ → ℕ
to_bits (pos n) = n
to_bits (negsuc n) = 0xffff_ffff_ffff_ffff - n

unfoldable pub of_bits : ℕ → ℤ
of_bits n = if ltb n 0x8000_0000_0000_0000 then pos n else negsuc (0xffff_ffff_ffff_ffff - n)

-- `~v`
unfoldable pub complement : ℤ → ℤ
complement (pos n) = negsuc n
complement (negsuc n) = pos n

abbrev magnitude : ℤ → ℕ
magnitude z = pos_part z + neg_part z

abbrev pub is_negative : ℤ → Bool
is_negative (pos n) = false
is_negative (negsuc n) = true

-- C's division rounds to zero, and the remainder has the sign of the dividend.
unfoldable pub quotient : ℤ → ℤ → ℤ
quotient a b =
    let q = magnitude a / magnitude b in
    elim (is_negative a) [
      | true ↦ elim (is_negative b) [ true ↦ pos q | false ↦ sub_ℕ 0 q ]
      | false ↦ elim (is_negative b) [ true ↦ sub_ℕ 0 q | false ↦ pos q ]
    ]

unfoldable pub remainder : ℤ → ℤ → ℤ
remainder (pos n) b = pos (n % magnitude b)
remainder (negsuc n) b = sub_ℕ 0 ((n + 1) % magnitude b)

-- An arithmetic shift, as the compilers that the Makefile names have it.
unfoldable pub shift_right : ℤ → ℕ → ℤ
shift_right (pos n) k = pos (n / 2 ^ k)
shift_right (negsuc n) k = negsuc (n / 2 ^ k)

module _ (h : Host) where
  abbrev pub checked : BinOpKind → ℤ → ℤ → ℤ → ℤ
  checked k l r v = if in_int64 v then v else h.undefined_binop k l r

  abbrev pub is_shift_count : ℤ → Bool
  is_shift_count (pos n) = ltb n 64
  is_shift_count (negsuc n) = false

  unfoldable pub fold_binop : BinOpKind → ℤ → ℤ → ℤ
  unfolding ◌+ℤ◌ ◌-ℤ◌ ◌*ℤ◌ to_bits of_bits quotient remainder shift_right
  fold_binop BinOpKind.add l r = checked BinOpKind.add l r (l +ℤ r)
  fold_binop BinOpKind.sub l r = checked BinOpKind.sub l r (l -ℤ r)
  fold_binop BinOpKind.mul l r = checked BinOpKind.mul l r (l *ℤ r)
  fold_binop BinOpKind.div l r =
      if eq_ℤ r (pos 0) then pos 0 else checked BinOpKind.div l r (quotient l r)
  fold_binop BinOpKind.mod_ l r =
      if eq_ℤ r (pos 0)
      then pos 0
      else (if in_int64 (quotient l r) then remainder l r else h.undefined_binop BinOpKind.mod_ l r)
  fold_binop BinOpKind.and l r = of_bits (bit_and (to_bits l) (to_bits r))
  fold_binop BinOpKind.or l r = of_bits (bit_or (to_bits l) (to_bits r))
  fold_binop BinOpKind.xor l r = of_bits (bit_xor (to_bits l) (to_bits r))
  fold_binop BinOpKind.lshift l r =
      if is_shift_count r && not (is_negative l)
      then checked BinOpKind.lshift l r (pos (pos_part l * 2 ^ pos_part r))
      else h.undefined_binop BinOpKind.lshift l r
  fold_binop BinOpKind.rshift l r =
      if is_shift_count r
      then shift_right l (pos_part r)
      else h.undefined_binop BinOpKind.rshift l r

  unfoldable pub fold_unop : UnOpKind → ℤ → ℤ
  unfolding ◌-ℤ◌ complement
  fold_unop UnOpKind.neg v = if in_int64 (pos 0 -ℤ v) then pos 0 -ℤ v else h.undefined_neg v
  fold_unop UnOpKind.lnot v = if eq_ℤ v (pos 0) then pos 1 else pos 0
  fold_unop UnOpKind.bnot v = complement v

unfoldable pub fold_cmp : CmpKind → ℤ → ℤ → Bool
fold_cmp CmpKind.eq l r = eq_ℤ l r
fold_cmp CmpKind.neq l r = not (eq_ℤ l r)
fold_cmp CmpKind.lt l r = ltb_ℤ l r
fold_cmp CmpKind.gt l r = ltb_ℤ r l
fold_cmp CmpKind.leq l r = not (ltb_ℤ r l)
fold_cmp CmpKind.geq l r = not (ltb_ℤ l r)

-- `result ? 1 : 0`
abbrev pub of_bool : Bool → ℤ
of_bool true = pos 1
of_bool false = pos 0
