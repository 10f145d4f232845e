-- ===== src/Mach/Peephole/Runs.antt =====
-- The peephole optimiser keeps what a block leaves in the registers.
use vortech.Prelude.{
  ℕ, ◌≡◌, refl, sym, ap, ◌∙◌, inl, inr, Bool, true, false, not, ◌&&◌, List, [], ◌∷◌, arith, ◌==◌,
  if◌then◌else◌, All, subst, Bool-cases, if_both,
}
use vortech.Prelude.Int.{pos}
use vortech.Ssa.Int64.{eq_ℤ}
use vortech.Mach.{MachOpcode, Width, qword, mov, mov_imm, add_imm, sub_imm, mul_imm, nop, MachInst}
use vortech.Mach.Run.{reg_valid, Regs, put, step_op, step, execute}
use vortech.Mach.Peephole.{
  is_mov, is_nop, is_copy_back, to_nop, simplify_op, simplify, walk, remove_nops, peephole_block,
}
use vortech.Mach.Peephole.Values.{AreWords, IsWide, fits_op, put_same, simplify_op-step}
use vortech.Mach.Peephole.Words.{KeepsWords, step_op-AreWords}

eq_of_is_mov : (o : MachOpcode) → is_mov o ≡ true → o ≡ mov
eq_of_is_mov mov h = refl
eq_of_is_mov _ h = cc

eq_of_is_nop : (o : MachOpcode) → is_nop o ≡ true → o ≡ nop
eq_of_is_nop nop h = refl
eq_of_is_nop _ h = cc

simplify_op-IsWide :
    (i : MachInst) (o : MachOpcode)
    → i.op ≡ o
    → fits_op o i.width ≡ true
    → IsWide (simplify_op o i).0
unfolding simplify_op
simplify_op-IsWide i add_imm e f =
    if_both (λ (t : MachInst × Bool). IsWide t.0) (eq_ℤ i.imm (pos 0)) _ (i, false) refl (rw e)
simplify_op-IsWide i sub_imm e f =
    if_both (λ (t : MachInst × Bool). IsWide t.0) (eq_ℤ i.imm (pos 0)) _ (i, false) refl (rw e)
simplify_op-IsWide i mov_imm e f =
    if_both (λ (t : MachInst × Bool). IsWide t.0) (eq_ℤ i.imm (pos 0) && not (i.dst == 0)) _
      (i, false) refl (rw e f)
simplify_op-IsWide i mul_imm e f =
    if_both (λ (t : MachInst × Bool). IsWide t.0) (eq_ℤ i.imm (pos 1)) _ _ refl
      (if_both (λ (t : MachInst × Bool). IsWide t.0) (eq_ℤ i.imm (pos 2) && not (i.dst == 0)) _
        (i, false) refl (rw e))
simplify_op-IsWide i _ e f = rw e f

pub walk-IsWide :
    (a : MachInst) (rest : List MachInst) → IsWide a → All IsWide rest → All IsWide (walk a rest).0
unfolding walk simplify
walk-IsWide a [] wa wr = (wa, tt)
walk-IsWide a (b ∷ rest) wa wr = (
  simplify_op-IsWide a a.op refl wa,
  walk-IsWide (if is_copy_back a b then to_nop b else b) rest
      (if_both IsWide (is_copy_back a b) (to_nop b) b refl wr.0) wr.1,
)

pub remove_nops-IsWide : (is : List MachInst) → All IsWide is → All IsWide (remove_nops is).0
unfolding remove_nops
remove_nops-IsWide [] w = tt
remove_nops-IsWide (i ∷ is) w =
    if_both (λ (t : List MachInst × Bool). All IsWide t.0) (is_nop i.op) _ _
      (remove_nops-IsWide is w.1) (w.0, remove_nops-IsWide is w.1)

qword_of_fits : (w : Width) → fits_op mov w ≡ true → w ≡ qword
qword_of_fits qword h = refl
qword_of_fits _ h = cc

module _ {W : Type 0} (other : MachInst → Regs × W → Regs × W) where
  -- A 64-bit move.
  copy : (d e : ℕ) → Regs × W → Regs × W
  copy d e s = if reg_valid d && reg_valid e && not (d == e) then (put d (s.0 e) s.0, s.1) else s

  copy_back : (d e : ℕ) (s : Regs × W) → copy e d (copy d e s) ≡ copy d e s
  unfolding copy
  copy_back d e s = elim (Bool-cases (reg_valid d && reg_valid e && not (d == e))) [
    | inl moves ↦
        let r : Regs = put d (s.0 e) s.0 in
        rw moves (
          if_both (λ t. t ≡ (r, s.1)) (reg_valid e && reg_valid d && not (e == d)) _ (r, s.1)
            (ap (λ q. (q, s.1)) (put_same r e (r d) (ground arith))) refl)
    | inr stays ↦
        let stays' : (reg_valid e && reg_valid d && not (e == d)) ≡ false = ground arith in
        rw (stays, stays')
  ]

  mov-copy :
      (i : MachInst) (s : Regs × W) → i.op ≡ mov → IsWide i → step other i s ≡ copy i.dst i.src s
  unfolding copy
  mov-copy i s e wide =
      let q : i.width ≡ qword =
        qword_of_fits i.width (subst (λ o. fits_op o i.width ≡ true) e wide) in
      ap (λ o. step_op other o i s) e ∙ (rw q)

  -- `mov a, b` makes a following `mov b, a` superfluous.
  copy_back-step :
      (a b : MachInst) (s : Regs × W)
      → is_copy_back a b ≡ true
      → IsWide a
      → IsWide b
      → step other b (step other a s) ≡ step other a s
  unfolding is_copy_back
  copy_back-step a b s back wa wb =
      let ea : a.op ≡ mov = eq_of_is_mov a.op (ground arith) in
      let eb : b.op ≡ mov = eq_of_is_mov b.op (ground arith) in
      let d : a.dst ≡ b.src = ground arith in
      let e : a.src ≡ b.dst = ground arith in
      rw (mov-copy a s ea wa, mov-copy b (copy a.dst a.src s) eb wb, ← d, ← e)
        (copy_back a.dst a.src s)

  simplify-step :
      (i : MachInst) (s : Regs × W)
      → AreWords s.0
      → IsWide i
      → step other (simplify i).0 s ≡ step other i s
  unfolding simplify
  simplify-step i s w wide = simplify_op-step other i i.op s refl w wide

  module _ (keeps : KeepsWords other) where
    walk-execute :
        (a : MachInst) (rest : List MachInst) (s : Regs × W)
        → AreWords s.0
        → IsWide a
        → All IsWide rest
        → execute other (walk a rest).0 s ≡ execute other (a ∷ rest) s
    unfolding walk execute
    walk-execute a [] s w wa wr = refl
    walk-execute a (b ∷ rest) s w wa wr =
        let next : AreWords (step other a s).0 = step_op-AreWords other a a.op s keeps w in
        elim (Bool-cases (is_copy_back a b)) [
          | inl back ↦
              rw (back, simplify-step a s w wa)
                (walk-execute (to_nop b) rest (step other a s) next refl wr.1
                  ∙ ap (execute other rest) (sym (copy_back-step a b s back wa wr.0)))
          | inr no_back ↦
              rw (no_back, simplify-step a s w wa)
                (walk-execute b rest (step other a s) next wr.0 wr.1)
        ]

    nop-step : (i : MachInst) (s : Regs × W) → is_nop i.op ≡ true → step other i s ≡ s
    nop-step i s h = ap (λ o. step_op other o i s) (eq_of_is_nop i.op h)

    remove_nops-execute :
        (is : List MachInst) (s : Regs × W)
        → execute other (remove_nops is).0 s ≡ execute other is s
    unfolding remove_nops execute
    remove_nops-execute [] s = refl
    remove_nops-execute (i ∷ is) s = elim (Bool-cases (is_nop i.op)) [
      | inl nothing ↦
          rw nothing (remove_nops-execute is s ∙ ap (execute other is) (sym (nop-step i s nothing)))
      | inr something ↦ rw something (remove_nops-execute is (step other i s))
    ]

    pub peephole_block-execute :
        (is : List MachInst) (s : Regs × W)
        → AreWords s.0
        → All IsWide is
        → execute other (peephole_block is).0 s ≡ execute other is s
    unfolding peephole_block
    peephole_block-execute [] s w wide = refl
    peephole_block-execute (a ∷ rest) s w wide =
        remove_nops-execute (walk a rest).0 s ∙ walk-execute a rest s w wide.0 wide.1
