-- ===== src/Ssa/Arith.antt =====
-- What the arithmetic of the language means, as laws between operands and result: the yardstick for
-- constant folding, independent of `fold_binop`, `fold_unop` and `fold_cmp`. Where C leaves the
-- operation undefined the result is the host's.
use Prim.Native.Nat.{bit_and, bit_or, bit_xor}
use vortech.Prelude.{
  ℕ, zero, suc, ◌+◌, ◌-◌, ◌*◌, ◌/◌, ◌%◌, not, ◌&&◌, ◌^◌, ◌≤◌, ◌<◌, ◌≡◌, ◌≢◌, refl, sym, subst, ◌∙◌,
  inl, inr, Bool, true, false, arith, if◌then◌else◌, Bool-cases,
}
use vortech.Prelude.Int.{ℤ, pos, negsuc, pos_part, neg_part, ◌+ℤ◌, ◌-ℤ◌, ◌*ℤ◌, ◌≤ℤ◌}
use vortech.Ssa.{BinOpKind, UnOpKind, CmpKind}
use vortech.Ssa.Int64.{
  Host, in_int64, eq_ℤ, eq_of_eq_ℤ, to_bits, of_bits, complement, quotient, remainder, shift_right,
  fold_binop, fold_unop, fold_cmp, of_bool, is_shift_count, is_negative,
}

-- From -2^63 to 2^63 - 1.
abbrev pub IsInt64 : ℤ → Type 0
IsInt64 z = (neg_part z ≤ 2 ^ 63) × (pos_part z < 2 ^ 63)

-- The exact value where it is an `int64_t`, and the host's otherwise.
abbrev pub Fits : (exact other v : ℤ) → Type 0
Fits exact other v = (IsInt64 exact → v ≡ exact) × ((IsInt64 exact → ⊥) → v ≡ other)

abbrev pub abs : ℤ → ℕ
abs z = pos_part z + neg_part z

-- The quotient's sign; 0 has both.
abbrev pub SignOf : (l r q : ℤ) → Type 0
SignOf (pos a) (pos b) q = neg_part q ≡ 0
SignOf (pos a) (negsuc b) q = pos_part q ≡ 0
SignOf (negsuc a) (pos b) q = pos_part q ≡ 0
SignOf (negsuc a) (negsuc b) q = neg_part q ≡ 0

-- The quotient, rounded to zero.
abbrev pub IsQuotient : (l r q : ℤ) → Type 0
IsQuotient l r q = (abs q * abs r ≤ abs l) × (abs l < abs q * abs r + abs r) × SignOf l r q

-- What is left of `l` behind the quotient `q`, with the sign of `l`.
abbrev pub IsRemainder : (l r q v : ℤ) → Type 0
IsRemainder (pos a) r q v = (a ≡ abs q * abs r + abs v) × (neg_part v ≡ 0)
IsRemainder (negsuc a) r q v = (a + 1 ≡ abs q * abs r + abs v) × (pos_part v ≡ 0)

-- `v` is `l / m`, rounded down: v * m ≤ l < v * m + m.
abbrev pub IsFloor : ℤ → ℕ → ℤ → Type 0
IsFloor l m v =
    (pos_part v * m + neg_part l ≤ pos_part l + neg_part v * m)
    × (pos_part l + neg_part v * m < pos_part v * m + m + neg_part l)

abbrev pub IsCount : ℤ → Type 0
IsCount r = (neg_part r ≡ 0) × (pos_part r < 64)

-- The two's complement of 64 bits, and the integer that a word stands for.
abbrev pub pattern : ℤ → ℕ
pattern (pos n) = n
pattern (negsuc n) = 2 ^ 64 - (n + 1)

abbrev pub StandsFor : (n : ℕ) (v : ℤ) → Type 0
StandsFor n v = (n < 2 ^ 63 → v ≡ pos n) × (2 ^ 63 ≤ n → v ≡ negsuc (2 ^ 64 - (n + 1)))

-- A condition as a number.
abbrev pub Answers : Type 0 → ℤ → Type 0
Answers P v = (P → v ≡ pos 1) × ((P → ⊥) → v ≡ pos 0)

-- When a comparison is true.
abbrev pub Compares : CmpKind → (l r : ℤ) → Type 0
Compares CmpKind.eq l r = l ≡ r
Compares CmpKind.neq l r = l ≢ r
Compares CmpKind.lt l r = (l ≤ℤ r) × (l ≢ r)
Compares CmpKind.gt l r = (r ≤ℤ l) × (l ≢ r)
Compares CmpKind.leq l r = l ≤ℤ r
Compares CmpKind.geq l r = r ≤ℤ l

abbrev pub CmpLaw : CmpKind → (l r v : ℤ) → Type 0
CmpLaw k l r = Answers (Compares k l r)

module _ (h : Host) where
  abbrev pub BinopLaw : BinOpKind → (l r v : ℤ) → Type 0
  BinopLaw BinOpKind.add l r v = Fits (l +ℤ r) (h.undefined_binop BinOpKind.add l r) v
  BinopLaw BinOpKind.sub l r v = Fits (l -ℤ r) (h.undefined_binop BinOpKind.sub l r) v
  BinopLaw BinOpKind.mul l r v = Fits (l *ℤ r) (h.undefined_binop BinOpKind.mul l r) v
  BinopLaw BinOpKind.div l r v =
      (r ≡ pos 0 → v ≡ pos 0)
      × (r ≢ pos 0 → (q : ℤ) × IsQuotient l r q × Fits q (h.undefined_binop BinOpKind.div l r) v)
  BinopLaw BinOpKind.mod_ l r v =
      (r ≡ pos 0 → v ≡ pos 0)
      × (r ≢ pos 0
          → (q : ℤ) × IsQuotient l r q
            × (IsInt64 q → IsRemainder l r q v)
            × ((IsInt64 q → ⊥) → v ≡ h.undefined_binop BinOpKind.mod_ l r))
  BinopLaw BinOpKind.and l r v = StandsFor (bit_and (pattern l) (pattern r)) v
  BinopLaw BinOpKind.or l r v = StandsFor (bit_or (pattern l) (pattern r)) v
  BinopLaw BinOpKind.xor l r v = StandsFor (bit_xor (pattern l) (pattern r)) v
  BinopLaw BinOpKind.lshift l r v =
      (IsCount r
        → neg_part l ≡ 0
        → Fits (pos (pos_part l * 2 ^ pos_part r)) (h.undefined_binop BinOpKind.lshift l r) v)
      × ((IsCount r × (neg_part l ≡ 0) → ⊥) → v ≡ h.undefined_binop BinOpKind.lshift l r)
  BinopLaw BinOpKind.rshift l r v =
      (IsCount r → IsFloor l (2 ^ pos_part r) v)
      × ((IsCount r → ⊥) → v ≡ h.undefined_binop BinOpKind.rshift l r)

  abbrev pub UnopLaw : UnOpKind → (x v : ℤ) → Type 0
  UnopLaw UnOpKind.neg x v = Fits (pos 0 -ℤ x) (h.undefined_neg x) v
  UnopLaw UnOpKind.lnot x v = Answers (x ≡ pos 0) v
  UnopLaw UnOpKind.bnot x v = pos_part v + pos_part x + 1 ≡ neg_part v + neg_part x

pub in_int64_iff : (z : ℤ) → (in_int64 z ≡ true → IsInt64 z) × (in_int64 z ≡ false → IsInt64 z → ⊥)
in_int64_iff z = ground arith

checked-Fits : (exact other : ℤ) → Fits exact other (if in_int64 exact then exact else other)
checked-Fits exact other = elim (Bool-cases (in_int64 exact)) [
  | inl in_range ↦
      rw in_range ((λ r. refl), (λ out. absurd (out ((in_int64_iff exact).0 in_range))))
  | inr out ↦ rw out ((λ r. absurd ((in_int64_iff exact).1 out r)), (λ r. refl))
]

eq_refl : (z : ℤ) → eq_ℤ z z ≡ true
eq_refl z = ground arith

pub eq_differs : (l r : ℤ) → eq_ℤ l r ≡ false → l ≢ r
eq_differs l r other e = true-false (sym (eq_refl r) ∙ subst (λ z. eq_ℤ z r ≡ false) e other)
  where
    true-false : true ≡ false → ⊥
    true-false q = cc

-- The quotient of numbers is the largest one whose product fits.
pub div-within : (n m : ℕ) → 0 < m → (n / m * m ≤ n) × (n < n / m * m + m)
div-within n m positive = (grind arith, grind arith)

div-mod : (n m : ℕ) → 0 < m → n ≡ n / m * m + n % m
div-mod n m positive = grind arith

pub power_pos : (k : ℕ) → 0 < 2 ^ k
power_pos zero = omega arith
power_pos (suc k) = let before = power_pos k in omega arith

pub to_bits-pattern : (z : ℤ) → to_bits z ≡ pattern z
unfolding to_bits
to_bits-pattern (pos n) = refl
to_bits-pattern (negsuc n) = omega arith

of_bits-StandsFor : (n : ℕ) → StandsFor n (of_bits n)
unfolding of_bits
of_bits-StandsFor n = ground arith

pub fold_cmp-Compares :
    (k : CmpKind) (l r : ℤ)
    → (fold_cmp k l r ≡ true → Compares k l r) × (fold_cmp k l r ≡ false → Compares k l r → ⊥)
unfolding fold_cmp
fold_cmp-Compares CmpKind.eq l r = (eq_of_eq_ℤ l r, eq_differs l r)
fold_cmp-Compares CmpKind.neq l r =
    ((λ h. eq_differs l r (ground arith)), (λ h e. e (eq_of_eq_ℤ l r (ground arith))))
fold_cmp-Compares CmpKind.lt l r = ground arith
fold_cmp-Compares CmpKind.gt l r = ground arith
fold_cmp-Compares CmpKind.leq l r = ground arith
fold_cmp-Compares CmpKind.geq l r = ground arith

pub of_bool-Answers :
    (P : Type 0) (b : Bool) → (b ≡ true → P) → (b ≡ false → P → ⊥) → Answers P (of_bool b)
of_bool-Answers P true yes_P no_P = ((λ p. refl), (λ n. absurd (n (yes_P refl))))
of_bool-Answers P false yes_P no_P = ((λ p. absurd (no_P refl p)), (λ n. refl))

pub fold_cmp-law : (k : CmpKind) (l r : ℤ) → CmpLaw k l r (of_bool (fold_cmp k l r))
fold_cmp-law k l r =
    let (holds, fails) = fold_cmp-Compares k l r in
    of_bool-Answers (Compares k l r) (fold_cmp k l r) holds fails

module _ (h : Host) where
  pub fold_unop-law : (k : UnOpKind) (x : ℤ) → UnopLaw h k x (fold_unop h k x)
  unfolding fold_unop complement
  fold_unop-law UnOpKind.neg x = checked-Fits (pos 0 -ℤ x) (h.undefined_neg x)
  fold_unop-law UnOpKind.lnot x = ground arith
  fold_unop-law UnOpKind.bnot x = ground arith

  pub quotient-law : (l r : ℤ) → r ≢ pos 0 → IsQuotient l r (quotient l r)
  unfolding quotient
  quotient-law (pos a) (pos b) z =
      let (low, high) = div-within (a + 0) (b + 0) (ground arith) in ground arith
  quotient-law (pos a) (negsuc b) z =
      let (low, high) = div-within (a + 0) (0 + suc b) (omega arith) in ground arith
  quotient-law (negsuc a) (pos b) z =
      let (low, high) = div-within (0 + suc a) (b + 0) (ground arith) in ground arith
  quotient-law (negsuc a) (negsuc b) z =
      let (low, high) = div-within (0 + suc a) (0 + suc b) (omega arith) in ground arith

  shift_right-law : (l : ℤ) (k : ℕ) → IsFloor l (2 ^ k) (shift_right l k)
  unfolding shift_right
  shift_right-law (pos a) k =
      let (low, high) = div-within a (2 ^ k) (power_pos k) in (omega arith, omega arith)
  shift_right-law (negsuc a) k =
      let (low, high) = div-within a (2 ^ k) (power_pos k) in (grind arith, grind arith)

  pub remainder-law : (l r : ℤ) → r ≢ pos 0 → IsRemainder l r (quotient l r) (remainder l r)
  unfolding quotient remainder
  remainder-law (pos a) (pos b) z = let e = div-mod a (b + 0) (ground arith) in ground arith
  remainder-law (pos a) (negsuc b) z = let e = div-mod a (0 + suc b) (omega arith) in ground arith
  remainder-law (negsuc a) (pos b) z =
      let e = div-mod (a + 1) (b + 0) (ground arith) in ground arith
  remainder-law (negsuc a) (negsuc b) z =
      let e = div-mod (a + 1) (0 + suc b) (omega arith) in ground arith

  pub IsCount-iff :
      (r : ℤ)
      → (is_shift_count h r ≡ true → IsCount r) × (is_shift_count h r ≡ false → IsCount r → ⊥)
  IsCount-iff r = ground arith

  pub guard_true :
      (l r : ℤ) → (is_shift_count h r && not (is_negative l)) ≡ true → IsCount r × (neg_part l ≡ 0)
  guard_true l r good = ground arith

  pub guard_false :
      (l r : ℤ)
      → (is_shift_count h r && not (is_negative l)) ≡ false
      → IsCount r × (neg_part l ≡ 0)
      → ⊥
  guard_false l r bad good = ground arith

  lshift-law : (l r : ℤ) → BinopLaw h BinOpKind.lshift l r (fold_binop h BinOpKind.lshift l r)
  unfolding fold_binop
  lshift-law l r = elim (Bool-cases (is_shift_count h r && not (is_negative l))) [
    | inl good ↦
        let (count, sign) = guard_true l r good in
        rw good (
          (λ c n. checked-Fits (pos (pos_part l * 2 ^ pos_part r)) _),
          (λ bad. absurd (bad (count, sign))),
        )
    | inr bad ↦ rw bad ((λ c n. absurd (guard_false l r bad (c, n))), (λ k. refl))
  ]

  rshift-law : (l r : ℤ) → BinopLaw h BinOpKind.rshift l r (fold_binop h BinOpKind.rshift l r)
  unfolding fold_binop
  rshift-law l r = elim (Bool-cases (is_shift_count h r)) [
    | inl good ↦
        rw good
          ((λ c. shift_right-law l (pos_part r)), (λ bad. absurd (bad ((IsCount-iff r).0 good))))
    | inr bad ↦ rw bad ((λ c. absurd ((IsCount-iff r).1 bad c)), (λ c. refl))
  ]

  div-law : (l r : ℤ) → BinopLaw h BinOpKind.div l r (fold_binop h BinOpKind.div l r)
  unfolding fold_binop
  div-law l r = elim (Bool-cases (eq_ℤ r (pos 0))) [
    | inl zero_right ↦
        rw zero_right ((λ e. refl), (λ ne. absurd (ne (eq_of_eq_ℤ r (pos 0) zero_right))))
    | inr other ↦ rw other (
      (λ e. absurd (eq_differs r (pos 0) other e)),
      (λ ne. (quotient l r, quotient-law l r ne, checked-Fits (quotient l r) _)),
    )
  ]

  mod_fits :
      (l r : ℤ)
      → r ≢ pos 0
      → let q = quotient l r in
        let u = h.undefined_binop BinOpKind.mod_ l r in
        let v = if in_int64 q then remainder l r else u in
        (IsInt64 q → IsRemainder l r q v) × ((IsInt64 q → ⊥) → v ≡ u)
  mod_fits l r ne = elim (Bool-cases (in_int64 (quotient l r))) [
    | inl fits ↦
        rw fits (
          (λ k. remainder-law l r ne),
          (λ out. absurd (out ((in_int64_iff (quotient l r)).0 fits))),
        )
    | inr out ↦ rw out ((λ k. absurd ((in_int64_iff (quotient l r)).1 out k)), (λ k. refl))
  ]

  mod_-law : (l r : ℤ) → BinopLaw h BinOpKind.mod_ l r (fold_binop h BinOpKind.mod_ l r)
  unfolding fold_binop
  mod_-law l r = elim (Bool-cases (eq_ℤ r (pos 0))) [
    | inl zero_right ↦
        rw zero_right ((λ e. refl), (λ ne. absurd (ne (eq_of_eq_ℤ r (pos 0) zero_right))))
    | inr other ↦ rw other (
      (λ e. absurd (eq_differs r (pos 0) other e)),
      (λ ne. (quotient l r, quotient-law l r ne, (mod_fits l r ne).0, (mod_fits l r ne).1)),
    )
  ]

  -- The compile-time arithmetic obeys the laws.
  pub fold_binop-law : (k : BinOpKind) (l r : ℤ) → BinopLaw h k l r (fold_binop h k l r)
  unfolding fold_binop
  fold_binop-law BinOpKind.add l r = checked-Fits (l +ℤ r) _
  fold_binop-law BinOpKind.sub l r = checked-Fits (l -ℤ r) _
  fold_binop-law BinOpKind.mul l r = checked-Fits (l *ℤ r) _
  fold_binop-law BinOpKind.div l r = div-law l r
  fold_binop-law BinOpKind.mod_ l r = mod_-law l r
  fold_binop-law BinOpKind.and l r =
      rw (to_bits-pattern l, to_bits-pattern r)
        (of_bits-StandsFor (bit_and (pattern l) (pattern r)))
  fold_binop-law BinOpKind.or l r =
      rw (to_bits-pattern l, to_bits-pattern r) (of_bits-StandsFor (bit_or (pattern l) (pattern r)))
  fold_binop-law BinOpKind.xor l r =
      rw (to_bits-pattern l, to_bits-pattern r)
        (of_bits-StandsFor (bit_xor (pattern l) (pattern r)))
  fold_binop-law BinOpKind.lshift l r = lshift-law l r
  fold_binop-law BinOpKind.rshift l r = rshift-law l r
