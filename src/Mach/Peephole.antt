-- ===== src/Mach/Peephole.antt =====
-- The peephole optimiser: src/peephole.c.
pub mod Values
pub mod Words
pub mod Runs
pub mod Blocks
pub mod Targets
use vortech.Prelude.{
  ℕ, zero, suc, Bool, true, false, not, ◌&&◌, ◌||◌, List, [], ◌∷◌, ◌==◌, if◌then◌else◌,
}
use vortech.Prelude.Int.{ℤ, pos}
use vortech.Ssa.Int64.{eq_ℤ}
use vortech.Mach.{
  MachOpcode, mov, mov_imm, add, add_imm, sub_imm, mul_imm, xor, nop, MachInst, MachBlock,
}

abbrev pub is_mov : MachOpcode → Bool
is_mov mov = true
is_mov o = false

abbrev pub is_nop : MachOpcode → Bool
is_nop nop = true
is_nop o = false

-- `mov a, b; mov b, a`
unfoldable pub is_copy_back : MachInst → MachInst → Bool
is_copy_back a b =
    is_mov a.op
    && is_mov b.op
    && a.dst == b.src
    && a.src == b.dst
    && not (a.dst == 0)
    && not (b.dst == 0)

abbrev pub to_nop : MachInst → MachInst
to_nop i = record i { op = nop }

-- `op dst, dst, dst` with no immediate
abbrev pub on_itself : MachOpcode → MachInst → MachInst
on_itself o i = record i { op = o; src = i.dst; src2 = i.dst; imm = pos 0 }

-- The rules on one instruction, and whether one fired. No rule fires on what another one leaves.
unfoldable pub simplify_op : MachOpcode → MachInst → MachInst × Bool
simplify_op add_imm i = if eq_ℤ i.imm (pos 0) then (to_nop i, true) else (i, false)
simplify_op sub_imm i = if eq_ℤ i.imm (pos 0) then (to_nop i, true) else (i, false)
simplify_op mov_imm i =
    if eq_ℤ i.imm (pos 0) && not (i.dst == 0) then (on_itself xor i, true) else (i, false)
simplify_op mul_imm i =
    if eq_ℤ i.imm (pos 1)
    then (to_nop i, true)
    else (if eq_ℤ i.imm (pos 2) && not (i.dst == 0) then (on_itself add i, true) else (i, false))
simplify_op o i = (i, false)

unfoldable pub simplify : MachInst → MachInst × Bool
unfolding simplify_op
simplify i = simplify_op i.op i

-- The walk over the pairs `(ii, ii + 1)`: the last instruction is never the first of a pair.
unfoldable pub walk : MachInst → List MachInst → List MachInst × Bool
unfolding is_copy_back simplify
walk a [] = (a ∷ [], false)
walk a (b ∷ rest) =
    let back = is_copy_back a b in
    let one = simplify a in
    let more = walk (if back then to_nop b else b) rest in (one.0 ∷ more.0, back || one.1 || more.1)

unfoldable pub walk_block : List MachInst → List MachInst × Bool
unfolding walk
walk_block [] = ([], false)
walk_block (a ∷ rest) = walk a rest

unfoldable pub remove_nops : List MachInst → List MachInst × Bool
remove_nops [] = ([], false)
remove_nops (i ∷ is) =
    let rest = remove_nops is in if is_nop i.op then (rest.0, true) else (i ∷ rest.0, rest.1)

unfoldable pub peephole_block : List MachInst → List MachInst × Bool
unfolding walk_block remove_nops
peephole_block is =
    let walked = walk_block is in let swept = remove_nops walked.0 in (swept.0, walked.1 || swept.1)

unfoldable pub peephole_blocks : List MachBlock → List MachBlock × Bool
unfolding peephole_block
peephole_blocks [] = ([], false)
peephole_blocks (b ∷ bs) =
    let here = peephole_block b.insts in
    let rest = peephole_blocks bs in (record b { insts = here.0 } ∷ rest.0, here.1 || rest.1)

-- `while (changed && max_iterations-- > 0)`
unfoldable pub peephole_loop : ℕ → List MachBlock → List MachBlock
unfolding peephole_blocks
peephole_loop zero bs = bs
peephole_loop (suc n) bs =
    let r = peephole_blocks bs in elim r.1 [ true ↦ peephole_loop n r.0 | false ↦ r.0 ]

unfoldable pub peephole_run : List MachBlock → List MachBlock
unfolding peephole_loop
peephole_run bs = peephole_loop 5 bs
