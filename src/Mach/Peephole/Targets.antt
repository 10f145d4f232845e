-- ===== src/Mach/Peephole/Targets.antt =====
-- The peephole optimiser of src/peephole.c leaves the targets of instructions alone.
use vortech.Prelude.{
  ℕ, zero, suc, ◌<◌, ◌≡◌, refl, ap, ◌∙◌, Bool, true, false, not, ◌&&◌, List, [], ◌∷◌, ◌==◌, length,
  All, if_both, if◌then◌else◌,
}
use vortech.Prelude.Int.{pos}
use vortech.Ssa.Int64.{eq_ℤ}
use vortech.Mach
use vortech.Mach.{MachOpcode, MachInst, MachBlock}
use vortech.Mach.Peephole.{
  is_nop, is_copy_back, to_nop, simplify_op, simplify, walk, walk_block, remove_nops,
  peephole_block, peephole_blocks, peephole_loop, peephole_run,
}

module _ (n : ℕ) where
  abbrev pub GoesInside : MachInst → Type 0
  GoesInside i = i.target_bb < n

  abbrev AllInside : List MachBlock → Type 0
  AllInside bs = All (λ (b : MachBlock). All GoesInside b.insts) bs

  abbrev Stays : MachInst × Bool → Type 0
  Stays x = GoesInside x.0

  simplify_op-GoesInside :
      (o : MachOpcode) (i : MachInst) → GoesInside i → GoesInside (simplify_op o i).0
  unfolding simplify_op
  simplify_op-GoesInside Mach.add_imm i h = if_both Stays (eq_ℤ i.imm (pos 0)) _ _ h h
  simplify_op-GoesInside Mach.sub_imm i h = if_both Stays (eq_ℤ i.imm (pos 0)) _ _ h h
  simplify_op-GoesInside Mach.mov_imm i h =
      if_both Stays (eq_ℤ i.imm (pos 0) && not (i.dst == 0)) _ _ h h
  simplify_op-GoesInside Mach.mul_imm i h =
      if_both Stays (eq_ℤ i.imm (pos 1)) _ _ h
        (if_both Stays (eq_ℤ i.imm (pos 2) && not (i.dst == 0)) _ _ h h)
  simplify_op-GoesInside o i h = h

  walk-GoesInside :
      (a : MachInst) (is : List MachInst)
      → GoesInside a
      → All GoesInside is
      → All GoesInside (walk a is).0
  unfolding walk simplify
  walk-GoesInside a [] h hs = (h, tt)
  walk-GoesInside a (b ∷ rest) h hs = (
    simplify_op-GoesInside a.op a h,
    walk-GoesInside (if is_copy_back a b then to_nop b else b) rest
        (if_both GoesInside (is_copy_back a b) (to_nop b) b hs.0 hs.0) hs.1,
  )

  remove_nops-GoesInside :
      (is : List MachInst) → All GoesInside is → All GoesInside (remove_nops is).0
  unfolding remove_nops
  remove_nops-GoesInside [] h = tt
  remove_nops-GoesInside (i ∷ is) h =
      let rest = remove_nops-GoesInside is h.1 in
      if_both (λ (x : List MachInst × Bool). All GoesInside x.0) (is_nop i.op) _ _ rest (h.0, rest)

  walk_block-GoesInside :
      (is : List MachInst) → All GoesInside is → All GoesInside (walk_block is).0
  unfolding walk_block
  walk_block-GoesInside [] h = tt
  walk_block-GoesInside (a ∷ rest) h = walk-GoesInside a rest h.0 h.1

  peephole_blocks-AllInside :
      (bs : List MachBlock) → AllInside bs → AllInside (peephole_blocks bs).0
  unfolding peephole_blocks peephole_block
  peephole_blocks-AllInside [] h = tt
  peephole_blocks-AllInside (b ∷ bs) h = (
    remove_nops-GoesInside _ (walk_block-GoesInside b.insts h.0),
    peephole_blocks-AllInside bs h.1,
  )

  peephole_loop-AllInside :
      (k : ℕ) (bs : List MachBlock) → AllInside bs → AllInside (peephole_loop k bs)
  unfolding peephole_loop
  peephole_loop-AllInside zero bs h = h
  peephole_loop-AllInside (suc k) bs h =
      let next = peephole_blocks-AllInside bs h in
      elim (peephole_blocks bs).1
        as (λ b. AllInside (elim b [
          | true ↦ peephole_loop k (peephole_blocks bs).0
          | false ↦ (peephole_blocks bs).0
        ])) [ true ↦ peephole_loop-AllInside k (peephole_blocks bs).0 next | false ↦ next ]

  pub peephole_run-AllInside : (bs : List MachBlock) → AllInside bs → AllInside (peephole_run bs)
  unfolding peephole_run
  peephole_run-AllInside bs h = peephole_loop-AllInside 5 bs h

length-peephole_blocks : (bs : List MachBlock) → length (peephole_blocks bs).0 ≡ length bs
unfolding peephole_blocks
length-peephole_blocks [] = refl
length-peephole_blocks (b ∷ bs) = ap suc (length-peephole_blocks bs)

length-peephole_loop : (k : ℕ) (bs : List MachBlock) → length (peephole_loop k bs) ≡ length bs
unfolding peephole_loop
length-peephole_loop zero bs = refl
length-peephole_loop (suc k) bs =
    elim (peephole_blocks bs).1
      as (λ b.
        length (elim b [
          | true ↦ peephole_loop k (peephole_blocks bs).0
          | false ↦ (peephole_blocks bs).0
        ])
        ≡ length bs) [
          | true ↦ length-peephole_loop k (peephole_blocks bs).0 ∙ length-peephole_blocks bs
          | false ↦ length-peephole_blocks bs
        ]

pub length-peephole_run : (bs : List MachBlock) → length (peephole_run bs) ≡ length bs
unfolding peephole_run
length-peephole_run bs = length-peephole_loop 5 bs
