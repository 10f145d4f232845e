-- ===== src/Mach/Peephole/Blocks.antt =====
-- The peephole optimiser over all blocks of a function, round after round.
use vortech.Prelude.{ℕ, zero, suc, ◌≡◌, refl, ◌∙◌, inl, inr, List, [], ◌∷◌, map, All, Bool-cases}
use vortech.Mach.{MachInst, MachBlock}
use vortech.Mach.Run.{Regs, execute}
use vortech.Mach.Peephole.{peephole_block, peephole_blocks, peephole_loop, peephole_run}
use vortech.Mach.Peephole.Values.{AreWords, IsWide}
use vortech.Mach.Peephole.Words.{KeepsWords}
use vortech.Mach.Peephole.Runs.{walk-IsWide, remove_nops-IsWide, peephole_block-execute}

-- Every instruction of every block is wide.
abbrev pub AllWide : List MachBlock → Type 0
AllWide bs = All (λ (b : MachBlock). All IsWide b.insts) bs

peephole_block-IsWide : (is : List MachInst) → All IsWide is → All IsWide (peephole_block is).0
unfolding peephole_block
peephole_block-IsWide [] w = tt
peephole_block-IsWide (a ∷ rest) w = remove_nops-IsWide _ (walk-IsWide a rest w.0 w.1)

peephole_blocks-AllWide : (bs : List MachBlock) → AllWide bs → AllWide (peephole_blocks bs).0
unfolding peephole_blocks
peephole_blocks-AllWide [] w = tt
peephole_blocks-AllWide (b ∷ bs) w =
    (peephole_block-IsWide b.insts w.0, peephole_blocks-AllWide bs w.1)

module _ {W : Type 0} (other : MachInst → Regs × W → Regs × W) where
  -- What each block leaves in the registers and in the rest of the machine, from `s`.
  abbrev pub effects : Regs × W → List MachBlock → List (Regs × W)
  effects s bs = map (λ (b : MachBlock). execute other b.insts s) bs

  module _ (keeps : KeepsWords other) (s : Regs × W) (words : AreWords s.0) where
    effects-peephole_blocks :
        (bs : List MachBlock) → AllWide bs → effects s (peephole_blocks bs).0 ≡ effects s bs
    unfolding peephole_blocks
    effects-peephole_blocks [] w = refl
    effects-peephole_blocks (b ∷ bs) w =
        cc (peephole_block-execute other keeps b.insts s words w.0, effects-peephole_blocks bs w.1)

    effects-peephole_loop :
        (n : ℕ) (bs : List MachBlock) → AllWide bs → effects s (peephole_loop n bs) ≡ effects s bs
    unfolding peephole_loop
    effects-peephole_loop zero bs w = refl
    effects-peephole_loop (suc n) bs w = elim (Bool-cases (peephole_blocks bs).1) [
      | inl again ↦
          rw (again, peephole_loop)
            (effects-peephole_loop n (peephole_blocks bs).0 (peephole_blocks-AllWide bs w)
              ∙ effects-peephole_blocks bs w)
      | inr stable ↦ rw (stable, peephole_loop) (effects-peephole_blocks bs w)
    ]

-- The peephole optimiser keeps what each block of a function does when its instructions run one
-- after another: from every state whose registers hold 64-bit words, the optimised block leaves
-- the same registers and the same rest of the machine, if the instructions that the rules do not
-- touch keep 64-bit words in the registers, every move between registers is 64 bits wide and no
-- constant is moved to a byte. The flags are not part of the state.
pub effects-peephole_run :
    {W : Type 0} (other : MachInst → Regs × W → Regs × W) (s : Regs × W) (bs : List MachBlock)
    → KeepsWords other
    → AreWords s.0
    → AllWide bs
    → effects other s (peephole_run bs) ≡ effects other s bs
unfolding peephole_run
effects-peephole_run other s bs keeps words wide =
    effects-peephole_loop other keeps s words 5 bs wide
