-- ===== src/Driver.antt =====
-- The driver of src/main.c behind the optimiser, for one function: its stages 5 to 8.
use vortech.Prelude.{
  ℕ, ◌+◌, ◌%◌, ◌^◌, ◌<◌, ◌≤◌, ◌≡◌, sym, ◌∙◌, subst, true, some, List, [], ◌∷◌, map, length,
  length-map, get_elem?, All, All-map,
}
use vortech.Ssa.{Func}
use vortech.Ssa.Verify.{ssa_verify_func}
use vortech.Mach.{Width, MachInst, MachBlock, MachFunc}
use vortech.Mach.Peephole.{peephole_run}
use vortech.Mach.Peephole.Targets.{peephole_run-AllInside, length-peephole_run}
use vortech.Isel.{isel_select}
use vortech.Isel.Verified.{GepsInRange, isel_select-InRange}
use vortech.Regalloc.{LiveInterval, RegAllocResult}
use vortech.Regalloc.Scan.{regalloc_linear_scan}
use vortech.Regalloc.Apply.{apply_inst, apply_block, regalloc_apply}
use vortech.Emit.Buffer.{bytes_le}
use vortech.Emit.State.{BranchPatch, Emitter}
use vortech.Emit.Funcs.{emit_body, emit_func_binary, rel32}
use vortech.Emit.Patches.{field}
use vortech.Emit.Jumps.{start_of, emit_func_binary-patches}
use vortech.Emit.Targets.{emit_body-Inside}

-- Stages 5 to 7: instruction selection, register allocation, and the peephole optimiser.
unfoldable pub lower_func : MachFunc → RegAllocResult → MachFunc
lower_func mf ra =
    let applied = regalloc_apply mf ra in record applied { blocks = peephole_run applied.blocks }

unfoldable pub allocated :
    (List LiveInterval → List LiveInterval) → List ℕ → (ℕ → ℕ → Width) → Func → RegAllocResult
allocated qsort name width_at f = regalloc_linear_scan qsort (isel_select name width_at f)

unfoldable pub lowered :
    (List LiveInterval → List LiveInterval) → List ℕ → (ℕ → ℕ → Width) → Func → MachFunc
unfolding lower_func
lowered qsort name width_at f =
    lower_func (isel_select name width_at f) (allocated qsort name width_at f)

GoesIn : ℕ → List MachBlock → Type 0
GoesIn n bs = All (λ (b : MachBlock). All (λ (i : MachInst). i.target_bb < n) b.insts) bs

apply_insts-GoesIn :
    (ra : RegAllocResult) (n : ℕ) (is : List MachInst)
    → All (λ (i : MachInst). i.target_bb < n) is
    → All (λ (i : MachInst). i.target_bb < n) (map (apply_inst ra) is)
apply_insts-GoesIn ra n [] h = tt
apply_insts-GoesIn ra n (i ∷ is) h = (h.0, apply_insts-GoesIn ra n is h.1)

apply_blocks-GoesIn :
    (ra : RegAllocResult) (n : ℕ) (bs : List MachBlock)
    → GoesIn n bs
    → GoesIn n (map (apply_block ra) bs)
unfolding GoesIn
apply_blocks-GoesIn ra n [] h = tt
apply_blocks-GoesIn ra n (b ∷ bs) h =
    (apply_insts-GoesIn ra n b.insts h.0, apply_blocks-GoesIn ra n bs h.1)

length-lower_func :
    (mf : MachFunc) (ra : RegAllocResult) → length (lower_func mf ra).blocks ≡ length mf.blocks
unfolding lower_func regalloc_apply
length-lower_func mf ra =
    length-peephole_run (map (apply_block ra) mf.blocks) ∙ length-map mf.blocks (apply_block ra)

lower_func-GoesIn :
    (mf : MachFunc) (ra : RegAllocResult) (n : ℕ)
    → GoesIn n mf.blocks
    → GoesIn n (lower_func mf ra).blocks
unfolding GoesIn lower_func regalloc_apply
lower_func-GoesIn mf ra n h =
    peephole_run-AllInside n (map (apply_block ra) mf.blocks) (apply_blocks-GoesIn ra n mf.blocks h)

-- From a function that the verifier accepts to its code: with at least one register, and geps that
-- read registers of the function, every jump that the emitter records for the function that was
-- selected, allocated and cleaned up goes to the place where a block begins: in the finished code
-- its field holds a displacement that leads, modulo 2^32, from the end of the field to the place
-- of the block. The code is taken to have at most 2^64 bytes.
pub lowered-jumps :
    (qsort : List LiveInterval → List LiveInterval) (name : List ℕ) (width_at : ℕ → ℕ → Width)
    (f : Func) (em : Emitter) (i : ℕ) (p : BranchPatch)
    → ssa_verify_func f ≡ true
    → 0 < f.next_vreg
    → GepsInRange f
    → length
        (emit_func_binary
          (lowered qsort name width_at f)
          (allocated qsort name width_at f)
          em).code.data_
      ≤ 2 ^ 64
    → get_elem?
        (emit_body (lowered qsort name width_at f) (allocated qsort name width_at f) em).patches
        i
      ≡ some p
    → (let mf = lowered qsort name width_at f in
        let ra = allocated qsort name width_at f in
        let start = start_of mf ra em p.target_label in
        let rel = rel32 (start % 2 ^ 32) p.rel32_offset in
        (p.target_label < length mf.blocks)
        × (field 4 p.rel32_offset (emit_func_binary mf ra em).code.data_
            ≡ map some (bytes_le 4 rel))
        × ((p.rel32_offset + 4 + rel) % 2 ^ 32 ≡ start % 2 ^ 32))
unfolding lowered GoesIn
lowered-jumps qsort name width_at f em i p accepted some_vreg geps room at =
    let selected = isel_select name width_at f in
    let ra = allocated qsort name width_at f in
    let mf = lower_func selected ra in
    let inside = isel_select-InRange name width_at f accepted some_vreg geps in
    let targets =
      All-map _ (λ (b : MachBlock) r. All-map _ (λ (mi : MachInst) s. s.0) b.insts r)
        selected.blocks inside in
    let goes =
      subst (λ n. GoesIn n mf.blocks) (sym (length-lower_func selected ra))
        (lower_func-GoesIn selected ra (length selected.blocks) targets) in
    let lt = emit_body-Inside mf ra em i p goes at in
    let (written, leads) = emit_func_binary-patches mf ra em i p room at lt in (lt, written, leads)
