-- ===== src/Opt/Dce.antt =====
-- Dead code elimination: src/opt_dce.c.
-- `used` is an array of `next_vreg` flags. C leaves an access out of its bounds undefined; here a
-- write there changes nothing, and a read there gives `true`.
pub mod Marks
pub mod Agree
pub mod Runs
use vortech.Prelude.{
  ℕ, zero, suc, Bool, true, false, ◌||◌, not, List, [], ◌∷◌, ◌==◌, if◌then◌else◌, set, get_or,
  replicate,
}
use vortech.Ssa.{
  invalid_vreg, Op, const, binop, unop, load, store, gep, cmp, branch, jump, call, ret, phi, alloc,
  arena_alloc, arena_reset, print, Inst, Block, Func, operands,
}

mark : List ℕ → List Bool → List Bool
mark [] used = used
mark (v ∷ vs) used = mark vs (set used v true)

mark_insts : List Inst → List Bool → List Bool
unfolding mark
mark_insts [] used = used
mark_insts (i ∷ is) used = mark_insts is (mark (operands i.op) used)

mark_blocks : List Block → List Bool → List Bool
unfolding mark_insts
mark_blocks [] used = used
mark_blocks (b ∷ bs) used = mark_blocks bs (mark_insts b.insts used)

unfoldable pub mark_used : Func → List Bool
unfolding mark_blocks
mark_used f = mark f.param_vregs (mark_blocks f.blocks (replicate f.next_vreg false))

unfoldable pub has_side_effects : Op → Bool
has_side_effects (store p v) = true
has_side_effects (call f args ext) = true
has_side_effects (ret v) = true
has_side_effects (branch c t f) = true
has_side_effects (jump t) = true
has_side_effects (arena_reset a) = true
has_side_effects (print v) = true
has_side_effects o = false

unfoldable pub keep : List Bool → Inst → Bool
unfolding has_side_effects
keep used i = has_side_effects i.op || i.dst == invalid_vreg || get_or used i.dst true

-- The compaction by `write_idx`: what is kept, and whether anything was dropped.
sweep_insts : List Bool → List Inst → List Inst × Bool
unfolding keep
sweep_insts used [] = ([], false)
sweep_insts used (i ∷ is) =
    let rest = sweep_insts used is in if keep used i then (i ∷ rest.0, rest.1) else (rest.0, true)

sweep_blocks : List Bool → List Block → List Block × Bool
unfolding sweep_insts
sweep_blocks used [] = ([], false)
sweep_blocks used (b ∷ bs) =
    let here = sweep_insts used b.insts in
    let rest = sweep_blocks used bs in (record b { insts = here.0 } ∷ rest.0, here.1 || rest.1)

unfoldable pub sweep : Func → Func × Bool
unfolding mark_used sweep_blocks
sweep f =
    let swept = sweep_blocks (mark_used f) f.blocks in (record f { blocks = swept.0 }, swept.1)

unfoldable pub dce_loop : ℕ → Func → Func
unfolding sweep
dce_loop zero f = f
dce_loop (suc n) f = elim (sweep f).1 [ true ↦ dce_loop n (sweep f).0 | false ↦ (sweep f).0 ]

-- MAX_ITERATIONS
abbrev pub max_iterations : ℕ
max_iterations = 10

unfoldable pub opt_dce : Func → Func
unfolding dce_loop
opt_dce f = if f.next_vreg == 0 then f else dce_loop max_iterations f
