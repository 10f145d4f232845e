-- ===== src/Tests/Machine.antt =====
-- The peephole optimiser at a concrete block.
use vortech.Prelude.{none, ℕ, ◌≡◌, refl, [], ◌∷◌, arith}
use vortech.Prelude.Int.{ℤ, pos}
use vortech.Mach
use vortech.Mach.{MachOpcode, MachInst, MachBlock, Width}
use vortech.Mach.Peephole.{peephole_run}
use vortech.Mach.Peephole.Blocks.{effects, effects-peephole_run}

abbrev two_regs : MachOpcode → ℕ → ℕ → ℤ → MachInst
two_regs o d s n = record {
  op = o;
  width = Width.qword;
  dst = d;
  src = s;
  src2 = 0;
  imm = n;
  target_bb = 0;
  func_name = none;
  arg_vregs = none;
  offset = pos 0;
}

-- mov r1, r2; mov r2, r1; add r1, 0; imul r1, 2; mov r3, 0; ret
abbrev block : MachBlock
block = record {
  label = 0;
  insts =
      two_regs Mach.mov 1 2 (pos 0)
      ∷ two_regs Mach.mov 2 1 (pos 0)
      ∷ two_regs Mach.add_imm 1 0 (pos 0)
      ∷ two_regs Mach.mul_imm 1 0 (pos 2)
      ∷ two_regs Mach.mov_imm 3 0 (pos 0)
      ∷ two_regs Mach.ret 0 0 (pos 0)
      ∷ [];
}

abbrev with_itself : MachOpcode → ℕ → MachInst
with_itself o d = record (two_regs o d d (pos 0)) { src2 = d }

peephole_runs :
    peephole_run (block ∷ [])
    ≡ record {
      label = 0;
      insts =
          two_regs Mach.mov 1 2 (pos 0)
          ∷ with_itself Mach.add 1
          ∷ with_itself Mach.xor 3
          ∷ two_regs Mach.ret 0 0 (pos 0)
          ∷ [];
    }
      ∷ []
unfolding peephole_run
peephole_runs = refl

-- Every other instruction does nothing, and register `q` holds `7`.
effects-peephole_run_example :
    effects {W = ℕ} (λ i s. s) (λ q. 7, 0) (peephole_run (block ∷ []))
    ≡ effects {W = ℕ} (λ i s. s) (λ q. 7, 0) (block ∷ [])
effects-peephole_run_example =
    effects-peephole_run {W = ℕ} (λ i s. s) (λ q. 7, 0) (block ∷ []) (λ i s w. w) (λ q. omega arith)
      ((refl, (refl, (refl, (refl, (refl, (refl, tt)))))), tt)
