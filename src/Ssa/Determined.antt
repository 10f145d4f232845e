-- ===== src/Ssa/Determined.antt =====
-- The laws of `Arith` determine the result: it is what `fold_binop`, `fold_unop` and `fold_cmp`
-- compute.
use Prim.Native.Nat.{bit_and, bit_or, bit_xor}
use vortech.Prelude.{
  ℕ, not, ◌+◌, ◌*◌, ◌/◌, ◌^◌, ◌≤◌, ◌<◌, ◌≡◌, refl, sym, ap, subst, inl, inr, Bool, true, false,
  ◌&&◌, arith, if◌then◌else◌, Bool-cases,
}
use vortech.Prelude.Int.{ℤ, pos, negsuc, pos_part, ◌+ℤ◌, ◌-ℤ◌, ◌*ℤ◌}
use vortech.Ssa.{BinOpKind, UnOpKind, CmpKind}
use vortech.Ssa.Int64.{
  Host, in_int64, eq_ℤ, eq_of_eq_ℤ, of_bits, complement, quotient, remainder, shift_right,
  fold_binop, fold_unop, fold_cmp, of_bool, is_shift_count, is_negative,
}
use vortech.Ssa.Arith.{
  IsInt64, Fits, abs, SignOf, IsQuotient, IsRemainder, IsFloor, StandsFor, Answers, Compares,
  CmpLaw, BinopLaw, UnopLaw, in_int64_iff, eq_differs, div-within, power_pos, to_bits-pattern,
  pattern, IsCount-iff, fold_cmp-Compares, quotient-law, remainder-law, guard_true, guard_false,
}

Fits-checked :
    (exact other v : ℤ) → Fits exact other v → v ≡ (if in_int64 exact then exact else other)
Fits-checked exact other v law = elim (Bool-cases (in_int64 exact)) [
  | inl in_range ↦ rw in_range (law.0 ((in_int64_iff exact).0 in_range))
  | inr out ↦ rw out (law.1 ((in_int64_iff exact).1 out))
]

Answers-of_bool :
    (P : Type 0) (b : Bool) (v : ℤ)
    → (b ≡ true → P)
    → (b ≡ false → P → ⊥)
    → Answers P v
    → v ≡ of_bool b
Answers-of_bool P true v yes_P no_P law = law.0 (yes_P refl)
Answers-of_bool P false v yes_P no_P law = law.1 (no_P refl)

pub CmpLaw-fold_cmp : (k : CmpKind) (l r v : ℤ) → CmpLaw k l r v → v ≡ of_bool (fold_cmp k l r)
CmpLaw-fold_cmp k l r v law =
    let (holds, fails) = fold_cmp-Compares k l r in
    Answers-of_bool (Compares k l r) (fold_cmp k l r) v holds fails law

div_unique : (n m a b : ℕ) → a * m ≤ n → n < a * m + m → b * m ≤ n → n < b * m + m → a ≡ b
div_unique n m a b la ha lb hb = grind arith

quotient_unique : (l r q q' : ℤ) → IsQuotient l r q → IsQuotient l r q' → q ≡ q'
quotient_unique l r q q' h h' =
    same_sign l r q q' (div_unique (abs l) (abs r) (abs q) (abs q') h.0 h.1 h'.0 h'.1) h.2 h'.2
  where
    same_sign : (l r q q' : ℤ) → abs q ≡ abs q' → SignOf l r q → SignOf l r q' → q ≡ q'
    same_sign (pos a) (pos b) q q' e s t = ground arith
    same_sign (pos a) (negsuc b) q q' e s t = ground arith
    same_sign (negsuc a) (pos b) q q' e s t = ground arith
    same_sign (negsuc a) (negsuc b) q q' e s t = ground arith

remainder_unique : (l r q v v' : ℤ) → IsRemainder l r q v → IsRemainder l r q v' → v ≡ v'
remainder_unique (pos a) r q v v' h h' = ground arith
remainder_unique (negsuc a) r q v v' h h' = ground arith

floor-shift_right : (l v : ℤ) (k : ℕ) → IsFloor l (2 ^ k) v → v ≡ shift_right l k
unfolding shift_right
floor-shift_right (pos a) (pos p) k h =
    let w = div-within a (2 ^ k) (power_pos k) in
    ap pos (div_unique a (2 ^ k) p (a / 2 ^ k) (omega (arith, h.0)) (omega (arith, h.1)) w.0 w.1)
floor-shift_right (pos a) (negsuc q) k h = absurd (grind (arith, h.0, h.1))
floor-shift_right (negsuc a) (pos p) k h = absurd (grind (arith, h.0, h.1))
floor-shift_right (negsuc a) (negsuc q) k h =
    let w = div-within a (2 ^ k) (power_pos k) in
    ap negsuc (
      div_unique a (2 ^ k) q (a / 2 ^ k) (grind (arith, h.0, h.1)) (grind (arith, h.0, h.1)) w.0
        w.1)

StandsFor-of_bits : (n : ℕ) (v : ℤ) → StandsFor n v → v ≡ of_bits n
unfolding of_bits
StandsFor-of_bits n v h = ground arith

module _ (h : Host) where
  pub UnopLaw-fold_unop : (k : UnOpKind) (x v : ℤ) → UnopLaw h k x v → v ≡ fold_unop h k x
  unfolding fold_unop complement
  UnopLaw-fold_unop UnOpKind.neg x v law = Fits-checked (pos 0 -ℤ x) _ v law
  UnopLaw-fold_unop UnOpKind.lnot x v law = elim (Bool-cases (eq_ℤ x (pos 0))) [
    | inl same ↦ rw same (law.0 (eq_of_eq_ℤ x (pos 0) same))
    | inr other ↦ rw other (law.1 (eq_differs x (pos 0) other))
  ]
  UnopLaw-fold_unop UnOpKind.bnot x v law = ground arith

  div-Determined : (l r v : ℤ) → BinopLaw h BinOpKind.div l r v → v ≡ fold_binop h BinOpKind.div l r
  unfolding fold_binop
  div-Determined l r v law = elim (Bool-cases (eq_ℤ r (pos 0))) [
    | inl zero_right ↦ rw zero_right (law.0 (eq_of_eq_ℤ r (pos 0) zero_right))
    | inr other ↦
        let ne = eq_differs r (pos 0) other in
        let (q, is_q, fits) = law.1 ne in
        let same = quotient_unique l r q (quotient l r) is_q (quotient-law h l r ne) in
        rw other (
          Fits-checked (quotient l r) _ v
            (subst (λ x. Fits x (h.undefined_binop BinOpKind.div l r) v) same fits))
  ]

  mod_-Determined :
      (l r v : ℤ) → BinopLaw h BinOpKind.mod_ l r v → v ≡ fold_binop h BinOpKind.mod_ l r
  unfolding fold_binop
  mod_-Determined l r v law = elim (Bool-cases (eq_ℤ r (pos 0))) [
    | inl zero_right ↦ rw zero_right (law.0 (eq_of_eq_ℤ r (pos 0) zero_right))
    | inr other ↦
        let ne = eq_differs r (pos 0) other in
        let (q, is_q, fits, out_of_range) = law.1 ne in
        let same = quotient_unique l r q (quotient l r) is_q (quotient-law h l r ne) in
        elim (Bool-cases (in_int64 (quotient l r))) [
          | inl in_range ↦
              rw (other, in_range)
                (remainder_unique l r (quotient l r) v (remainder l r)
                  (subst (λ x. IsRemainder l r x v) same
                    (fits (subst IsInt64 (sym same) ((in_int64_iff (quotient l r)).0 in_range))))
                  (remainder-law h l r ne))
          | inr out ↦
              rw (other, out)
                (out_of_range (λ k. (in_int64_iff (quotient l r)).1 out (subst IsInt64 same k)))
        ]
  ]

  lshift-Determined :
      (l r v : ℤ) → BinopLaw h BinOpKind.lshift l r v → v ≡ fold_binop h BinOpKind.lshift l r
  unfolding fold_binop
  lshift-Determined l r v law = elim (Bool-cases (is_shift_count h r && not (is_negative l))) [
    | inl good ↦
        let (count, sign) = guard_true h l r good in
        rw good (Fits-checked (pos (pos_part l * 2 ^ pos_part r)) _ v (law.0 count sign))
    | inr bad ↦ rw bad (law.1 (guard_false h l r bad))
  ]

  rshift-Determined :
      (l r v : ℤ) → BinopLaw h BinOpKind.rshift l r v → v ≡ fold_binop h BinOpKind.rshift l r
  unfolding fold_binop
  rshift-Determined l r v law = elim (Bool-cases (is_shift_count h r)) [
    | inl good ↦ rw good (floor-shift_right l v (pos_part r) (law.0 ((IsCount-iff h r).0 good)))
    | inr bad ↦ rw bad (law.1 ((IsCount-iff h r).1 bad))
  ]

  pub BinopLaw-fold_binop :
      (k : BinOpKind) (l r v : ℤ) → BinopLaw h k l r v → v ≡ fold_binop h k l r
  unfolding fold_binop
  BinopLaw-fold_binop BinOpKind.add l r v law = Fits-checked (l +ℤ r) _ v law
  BinopLaw-fold_binop BinOpKind.sub l r v law = Fits-checked (l -ℤ r) _ v law
  BinopLaw-fold_binop BinOpKind.mul l r v law = Fits-checked (l *ℤ r) _ v law
  BinopLaw-fold_binop BinOpKind.div l r v law = div-Determined l r v law
  BinopLaw-fold_binop BinOpKind.mod_ l r v law = mod_-Determined l r v law
  BinopLaw-fold_binop BinOpKind.and l r v law =
      rw (to_bits-pattern l, to_bits-pattern r)
        (StandsFor-of_bits (bit_and (pattern l) (pattern r)) v law)
  BinopLaw-fold_binop BinOpKind.or l r v law =
      rw (to_bits-pattern l, to_bits-pattern r)
        (StandsFor-of_bits (bit_or (pattern l) (pattern r)) v law)
  BinopLaw-fold_binop BinOpKind.xor l r v law =
      rw (to_bits-pattern l, to_bits-pattern r)
        (StandsFor-of_bits (bit_xor (pattern l) (pattern r)) v law)
  BinopLaw-fold_binop BinOpKind.lshift l r v law = lshift-Determined l r v law
  BinopLaw-fold_binop BinOpKind.rshift l r v law = rshift-Determined l r v law
