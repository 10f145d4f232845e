-- ===== src/Mach/Peephole/Values.antt =====
-- The peephole optimiser keeps what a block leaves in the registers.
use Prim.Native.Nat.{bit_xor, bit_xor-bitwise, digits, differ}
use mathlib.Core.Path.{fun_ext}
use vortech.Prelude.{
  ℕ, zero, suc, ◌+◌, ◌*◌, ◌%◌, ◌^◌, ◌<◌, ◌≡◌, refl, sym, ap, ◌∙◌, inl, inr, Bool, true, false, not,
  ◌&&◌, arith, ◌==◌, if◌then◌else◌, Bool-cases, if_both, ==_iff, ◌≤◌, ◌/◌,
}
use vortech.Prelude.Int.{pos}
use vortech.Ssa.Int64.{eq_ℤ, eq_of_eq_ℤ, to_bits}
use vortech.Mach.{
  MachOpcode, Width, byte, dword, qword, mov, mov_imm, add, add_imm, sub_imm, mul_imm, xor,
  MachInst,
}
use vortech.Mach.Run.{word, imm32, reg_valid, Regs, put, moved, step_op, step}
use vortech.Mach.Peephole.{on_itself, simplify_op}

-- Moves between registers are 64 bits wide, and no constant is moved to a byte.
abbrev pub fits_op : MachOpcode → Width → Bool
fits_op mov qword = true
fits_op mov w = false
fits_op mov_imm byte = false
fits_op o w = true

abbrev pub IsWide : MachInst → Type 0
IsWide i = fits_op i.op i.width ≡ true

-- Every register holds a 64-bit word.
abbrev pub AreWords : Regs → Type 0
AreWords r = (q : ℕ) → r q < 2 ^ 64

pub put_same : (r : Regs) (d v : ℕ) → v ≡ r d → put d v r ≡ r
put_same r d v e = fun_ext λ q. ground arith

differ_self : (x : ℕ) → differ x x ≡ 0
differ_self zero = refl
differ_self (suc x) = differ_self x

xor_digits : (n a : ℕ) → a ≤ n → digits (λ b. b) differ n a a ≡ 0
xor_digits zero zero h = refl
xor_digits zero (suc a) h = absurd (omega arith)
xor_digits (suc n) zero h = refl
xor_digits (suc n) (suc a) h =
    omega (arith, xor_digits n (suc a / 2) (omega arith), differ_self (suc a % 2))

bit_xor_self : (a : ℕ) → bit_xor a a ≡ 0
bit_xor_self a = bit_xor-bitwise a a ∙ xor_digits a a (omega arith)

pub same_register : (d : ℕ) → (d == d) ≡ true
same_register d = (==_iff d d).1 refl

moved-zero :
    (w : Width) (old : ℕ) → fits_op mov_imm w ≡ true → moved w old (word (to_bits (pos 0))) ≡ 0
unfolding to_bits
moved-zero byte old f = cc
moved-zero dword old f = refl
moved-zero qword old f = refl

module _ {W : Type 0} (other : MachInst → Regs × W → Regs × W) where
  -- A write of what the register holds already.
  nothing_written :
      (i : MachInst) (s : Regs × W) (v : ℕ)
      → v ≡ s.0 i.dst
      → s ≡ (if reg_valid i.dst then (put i.dst v s.0, s.1) else s)
  nothing_written i s v e =
      if_both (λ t. s ≡ t) (reg_valid i.dst) _ s (ap (λ r. (r, s.1)) (sym (put_same s.0 i.dst v e)))
        refl

  -- The instruction is left as it is.
  unchanged :
      (i : MachInst) (o : MachOpcode) (s : Regs × W)
      → i.op ≡ o
      → step other i s ≡ step_op other o i s
  unchanged i o s e = ap (λ p. step_op other p i s) e

  xor_clears :
      (i : MachInst) (s : Regs × W)
      → fits_op mov_imm i.width ≡ true
      → i.imm ≡ pos 0
      → step_op other xor (on_itself xor i) s ≡ step_op other mov_imm i s
  xor_clears i s f z =
      rw (same_register i.dst, bit_xor_self (s.0 i.dst), z, moved-zero i.width (s.0 i.dst) f)
        (ground arith)

  doubles :
      (i : MachInst) (s : Regs × W)
      → i.imm ≡ pos 2
      → step_op other add (on_itself add i) s ≡ step_op other mul_imm i s
  unfolding imm32
  doubles i s z =
      let e : word (s.0 i.dst + s.0 i.dst) ≡ word (s.0 i.dst * 2) = omega arith in
      rw (same_register i.dst, z, e) (ground arith)

  pub simplify_op-step :
      (i : MachInst) (o : MachOpcode) (s : Regs × W)
      → i.op ≡ o
      → AreWords s.0
      → fits_op o i.width ≡ true
      → step other (simplify_op o i).0 s ≡ step_op other o i s
  unfolding simplify_op imm32
  simplify_op-step i add_imm s e w f = elim (Bool-cases (eq_ℤ i.imm (pos 0))) [
    | inl z ↦
        let zero_imm : i.imm ≡ pos 0 = eq_of_eq_ℤ i.imm (pos 0) z in
        rw z (nothing_written i s _ (rw zero_imm (omega (arith, w i.dst))))
    | inr n ↦ rw n (unchanged i add_imm s e)
  ]
  simplify_op-step i sub_imm s e w f = elim (Bool-cases (eq_ℤ i.imm (pos 0))) [
    | inl z ↦
        let zero_imm : i.imm ≡ pos 0 = eq_of_eq_ℤ i.imm (pos 0) z in
        rw z (nothing_written i s _ (rw zero_imm (omega (arith, w i.dst))))
    | inr n ↦ rw n (unchanged i sub_imm s e)
  ]
  simplify_op-step i mov_imm s e w f = elim (Bool-cases (eq_ℤ i.imm (pos 0) && not (i.dst == 0))) [
    | inl z ↦ rw z (xor_clears i s f (eq_of_eq_ℤ i.imm (pos 0) (ground arith)))
    | inr n ↦ rw n (unchanged i mov_imm s e)
  ]
  simplify_op-step i mul_imm s e w f = elim (Bool-cases (eq_ℤ i.imm (pos 1))) [
    | inl z ↦
        let one_imm : i.imm ≡ pos 1 = eq_of_eq_ℤ i.imm (pos 1) z in
        rw z (nothing_written i s _ (rw one_imm (omega (arith, w i.dst))))
    | inr n ↦ elim (Bool-cases (eq_ℤ i.imm (pos 2) && not (i.dst == 0))) [
      | inl z ↦ rw (n, z) (doubles i s (eq_of_eq_ℤ i.imm (pos 2) (ground arith)))
      | inr m ↦ rw (n, m) (unchanged i mul_imm s e)
    ]
  ]
  simplify_op-step i _ s e w f = unchanged i _ s e
