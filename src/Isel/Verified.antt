-- ===== src/Isel/Verified.antt =====
-- What src/isel.c makes of a function that the verifier of src/ssa_verify.c accepts.
use vortech.Prelude.{
  ℕ, suc, ◌<◌, ◌≡◌, sym, subst, inr, true, List, [], ◌∷◌, ◌==◌, if_both, leb, length, All, All-map,
  All-map2, All-append, arith,
}
use vortech.Mach.{Width, MachInst, MachBlock}
use vortech.Regalloc.{LiveInterval}
use vortech.Regalloc.Scan.{regalloc_linear_scan}
use vortech.Regalloc.Apply.{regalloc_apply}
use vortech.Regalloc.Allocation.{SortsIntervals}
use vortech.Regalloc.Physical.{IsVreg, NamesGprs, regalloc_apply-NamesGprs}
use vortech.Ssa.{
  invalid_vreg, PhiArg, UnOpKind, Op, const, binop, unop, load, store, gep, cmp, branch, jump, call,
  ret, phi, alloc, arena_alloc, arena_reset, print, Inst, Block, Func,
}
use vortech.Ssa.Verify.{ssa_verify_func}
use vortech.Ssa.Verify.WellFormed.{RefsInRange, InstInRange, verify_func-IsWellFormed}
use vortech.Isel.{isel_select}
use vortech.Isel.Lower.{lower, lower_insts, select_blocks}
use vortech.Isel.Edges.{
  PhiCopy, EdgeCopies, is_edge, add_copy, collect_arg, collect_args, phi_args, collect_insts,
  collect_blocks,
}
use vortech.Isel.Ordered.{collect_blocks-Inside}
use vortech.Isel.Ranges.{InRange, BlocksInRange, CopyInRange, EdgeInRange}
use vortech.Isel.Closed.{process_edges-Closed}
use vortech.Isel.Simulates.{length-select_blocks}

abbrev CopiesInRange : ℕ → EdgeCopies → Type 0
CopiesInRange n e = All (CopyInRange n) e.copies

abbrev GepInRange : ℕ → Op → Type 0
GepInRange n (gep p o) = p < n
GepInRange n o = Unit

module _ (n k : ℕ) where
  add_copy-CopyInRange :
      (p q : ℕ) (c : PhiCopy) (es : List EdgeCopies)
      → CopyInRange n c
      → All (CopiesInRange n) es
      → All (CopiesInRange n) (add_copy p q c es)
  add_copy-CopyInRange p q c [] hc h = ((hc, tt), tt)
  add_copy-CopyInRange p q c (e ∷ es) hc h =
      if_both (All (CopiesInRange n)) (is_edge p q e) _ _
        (All-append (CopyInRange n) e.copies (c ∷ []) h.0 (hc, tt), h.1)
        (h.0, add_copy-CopyInRange p q c es hc h.1)

  collect_args-CopyInRange :
      (q d : ℕ) (as' : List PhiArg) (es : List EdgeCopies)
      → IsVreg n d
      → All (λ (a : PhiArg). a.src < n) as'
      → All (CopiesInRange n) es
      → All (CopiesInRange n) (collect_args k q d as' es)
  collect_args-CopyInRange q d [] es hd ha h = h
  collect_args-CopyInRange q d (a ∷ as') es hd ha h =
      collect_args-CopyInRange q d as' (collect_arg k q d a es) hd ha.1 (
        if_both (All (CopiesInRange n)) (a.src == d) es _ h (
          if_both (All (CopiesInRange n)) (leb k a.pred) es _ h
            (add_copy-CopyInRange a.pred q _ es (hd, inr ha.0) h)))

  phi_args-InRange : (o : Op) → RefsInRange n k o → All (λ (a : PhiArg). a.src < n) (phi_args o)
  phi_args-InRange (phi as') h = All-map _ (λ (a : PhiArg) r. r.0) as' h
  phi_args-InRange o h = tt

  collect_insts-CopyInRange :
      (q : ℕ) (is : List Inst) (es : List EdgeCopies)
      → All (InstInRange n k) is
      → All (CopiesInRange n) es
      → All (CopiesInRange n) (collect_insts k q is es)
  collect_insts-CopyInRange q [] es hi h = h
  collect_insts-CopyInRange q (i ∷ is) es hi h =
      collect_insts-CopyInRange q is _ hi.1 (
        collect_args-CopyInRange q i.dst (phi_args i.op) es hi.0.1 (phi_args-InRange i.op hi.0.0) h)

  collect_blocks-CopyInRange :
      (q : ℕ) (bs : List Block) (es : List EdgeCopies)
      → All (λ (b : Block). All (InstInRange n k) b.insts) bs
      → All (CopiesInRange n) es
      → All (CopiesInRange n) (collect_blocks k q bs es)
  unfolding collect_blocks
  collect_blocks-CopyInRange q [] es hb h = h
  collect_blocks-CopyInRange q (b ∷ bs) es hb h =
      collect_blocks-CopyInRange (suc q) bs _ hb.1 (collect_insts-CopyInRange q b.insts es hb.0 h)

  module _ (some_vreg : 0 < n) (some_block : 0 < k) where
    lower-InRange :
        (o : Op) (d : ℕ) (w : Width)
        → RefsInRange n k o
        → GepInRange n o
        → IsVreg n d
        → All (InRange n k) (lower o d w)
    lower-InRange (const c) d w h g hd =
        if_both (All (InRange n k)) (d == invalid_vreg) [] _ tt
          ((some_block, (hd, inr some_vreg, inr some_vreg)), tt)
    lower-InRange (binop o l r) d w h g hd = ((some_block, (hd, inr h.0, inr h.1)), tt)
    lower-InRange (unop UnOpKind.neg v) d w h g hd = ((some_block, (hd, inr h, inr some_vreg)), tt)
    lower-InRange (unop UnOpKind.lnot v) d w h g hd = (
      (some_block, (inr some_vreg, inr h, inr h)),
      ((some_block, (hd, inr some_vreg, inr some_vreg)), tt),
    )
    lower-InRange (unop UnOpKind.bnot v) d w h g hd = ((some_block, (hd, inr h, inr some_vreg)), tt)
    lower-InRange (cmp o l r) d w h g hd = (
      (some_block, (inr some_vreg, inr h.0, inr h.1)),
      ((some_block, (hd, inr some_vreg, inr some_vreg)), tt),
    )
    lower-InRange (branch c t f) d w (ht, hf, hc) g hd = (
      (some_block, (inr some_vreg, inr hc, inr hc)),
      (
        (ht, (inr some_vreg, inr some_vreg, inr some_vreg)),
        ((hf, (inr some_vreg, inr some_vreg, inr some_vreg)), tt),
      ),
    )
    lower-InRange (jump t) d w h g hd = ((h, (inr some_vreg, inr some_vreg, inr some_vreg)), tt)
    lower-InRange (call f args e) d w h g hd =
        ((some_block, (hd, inr some_vreg, inr some_vreg)), tt)
    lower-InRange (ret v) d w h g hd = ((some_block, (inr some_vreg, h, inr some_vreg)), tt)
    lower-InRange (load p) d w h g hd = ((some_block, (hd, inr h, inr some_vreg)), tt)
    lower-InRange (store p v) d w h g hd = ((some_block, (inr h.0, inr h.1, inr some_vreg)), tt)
    lower-InRange (gep p o) d w h g hd = ((some_block, (hd, inr g, inr some_vreg)), tt)
    lower-InRange (alloc a) d w h g hd =
        ((some_block, (inr some_vreg, inr some_vreg, inr some_vreg)), tt)
    lower-InRange (arena_alloc a b) d w h g hd =
        ((some_block, (hd, inr some_vreg, inr some_vreg)), tt)
    lower-InRange (arena_reset a) d w h g hd =
        ((some_block, (inr some_vreg, inr some_vreg, inr some_vreg)), tt)
    lower-InRange (print v) d w h g hd =
        ((some_block, (inr some_vreg, inr some_vreg, inr some_vreg)), tt)
    lower-InRange (phi as') d w h g hd = tt

    lower_insts-InRange :
        (width : ℕ → Width) (ii : ℕ) (is : List Inst)
        → All (InstInRange n k) is
        → All (λ (i : Inst). GepInRange n i.op) is
        → All (InRange n k) (lower_insts width ii is)
    lower_insts-InRange width ii [] h g = tt
    lower_insts-InRange width ii (i ∷ is) h g =
        All-append (InRange n k) (lower i.op i.dst (width ii)) _
          (lower-InRange i.op i.dst (width ii) h.0.0 g.0 h.0.1)
          (lower_insts-InRange width (suc ii) is h.1 g.1)

    select_blocks-InRange :
        (width_at : ℕ → ℕ → Width) (bi : ℕ) (bs : List Block)
        → All (λ (b : Block). All (InstInRange n k) b.insts) bs
        → All (λ (b : Block). All (λ (i : Inst). GepInRange n i.op) b.insts) bs
        → BlocksInRange n k (select_blocks width_at bi bs)
    unfolding select_blocks
    select_blocks-InRange width_at bi [] h g = tt
    select_blocks-InRange width_at bi (b ∷ bs) h g = (
      (
        (some_block, (inr some_vreg, inr some_vreg, inr some_vreg)),
        lower_insts-InRange (width_at bi) 0 b.insts h.0 g.0,
      ),
      select_blocks-InRange width_at (suc bi) bs h.1 g.1,
    )

-- The address that a gep reads is in a register of the function; the verifier does not look.
abbrev pub GepsInRange : Func → Type 0
GepsInRange f =
    All (λ (b : Block). All (λ (i : Inst). GepInRange f.next_vreg i.op) b.insts) f.blocks

-- The instruction selection of a function that the verifier accepts, with at least one register,
-- and whose geps read registers of the function: each instruction's target is one of the selected
-- blocks (0 for one that does not jump), and its destination and its sources are registers of the
-- function or VT_INVALID_VREG.
pub isel_select-InRange :
    (name : List ℕ) (width_at : ℕ → ℕ → Width) (f : Func)
    → ssa_verify_func f ≡ true
    → 0 < f.next_vreg
    → GepsInRange f
    → (let mf = isel_select name width_at f in
        BlocksInRange mf.next_vreg (length mf.blocks) mf.blocks)
unfolding isel_select
isel_select-InRange name width_at f accepted some_vreg geps =
    let n = f.next_vreg in
    let k = length f.blocks in
    let (blocks_ok, entry) = (verify_func-IsWellFormed f).0 accepted in
    let some_block : 0 < k = omega (arith, entry) in
    let ranges = All-map _ (λ (b : Block) r. r.1) f.blocks blocks_ok in
    let same = length-select_blocks width_at 0 f.blocks in
    process_edges-Closed n some_vreg (collect_blocks k 0 f.blocks [])
      (select_blocks width_at 0 f.blocks)
      (subst (λ j. All (EdgeInRange n j) (collect_blocks k 0 f.blocks [])) (sym same)
        (All-map2 _ (λ (e : EdgeCopies) i c. (i.1, c)) _
          (collect_blocks-Inside k 0 f.blocks [] (omega arith) tt)
          (collect_blocks-CopyInRange n k 0 f.blocks [] ranges tt)))
      (omega (arith, same, some_block))
      (subst (λ j. BlocksInRange n j (select_blocks width_at 0 f.blocks)) (sym same)
        (select_blocks-InRange n k some_vreg some_block width_at 0 f.blocks ranges geps))

-- Instruction selection, register allocation and the rewriting of the operands, one after the
-- other: of a function that the verifier accepts, with at least one register, and whose geps read
-- registers of the function, every instruction that is no label and no nop is left with general
-- registers, no register, or VT_INVALID_VREG. The sort permutes the intervals and orders them by
-- their comparison.
pub isel_select-NamesGprs :
    (qsort : List LiveInterval → List LiveInterval) (name : List ℕ) (width_at : ℕ → ℕ → Width)
    (f : Func)
    → SortsIntervals qsort
    → ssa_verify_func f ≡ true
    → 0 < f.next_vreg
    → GepsInRange f
    → (let mf = isel_select name width_at f in
        All
          (λ (b : MachBlock). All NamesGprs b.insts)
          (regalloc_apply mf (regalloc_linear_scan qsort mf)).blocks)
isel_select-NamesGprs qsort name width_at f sorts accepted some_vreg geps =
    let mf = isel_select name width_at f in
    regalloc_apply-NamesGprs qsort mf sorts (
      All-map _ (λ (b : MachBlock) r. All-map _ (λ (i : MachInst) s. s.1) b.insts r) mf.blocks
        (isel_select-InRange name width_at f accepted some_vreg geps))
