-- ===== src/Regalloc/Numbered.antt =====
-- The numbers and the registers of the live intervals of src/regalloc.c.
use vortech.Prelude.{
  ℕ, zero, suc, ◌+◌, ◌≤◌, ◌<◌, ◌≡◌, refl, ◌∙◌, not, ◌&&◌, List, [], ◌∷◌, map, ◌==◌, if_both, All,
  All-map, arith,
}
use vortech.Ssa.{invalid_vreg}
use vortech.Mach.{MachInst, MachBlock, MachFunc}
use vortech.Mach.Registers.{reg_none}
use vortech.Regalloc.{LiveInterval}
use vortech.Regalloc.Intervals.{
  init_from, modify_at, mark_param, mark_params, widen, touch, is_marker, touch_operand, touch_args,
  args_of, touch_inst, walk_insts, walk_blocks, extend_param, compute_live_intervals, is_live,
  live_of, uint32_max,
}
use vortech.Regalloc.Owners.{OtherVreg}
use vortech.Regalloc.Disjoint.{AllPairs}

-- The intervals of the virtual registers from `v` up to `n`, none with a register.
abbrev pub Numbered : ℕ → ℕ → List LiveInterval → Type 0
Numbered v n [] = v ≡ n
Numbered v n (iv ∷ ivs) = (iv.vreg ≡ v) × (iv.phys_reg ≡ reg_none) × Numbered (suc v) n ivs

-- A step that keeps the number and the register of an interval.
abbrev Tame : (LiveInterval → LiveInterval) → Type 0
Tame f = (iv : LiveInterval) → ((f iv).vreg ≡ iv.vreg) × ((f iv).phys_reg ≡ iv.phys_reg)

init_from-Numbered : (v n m : ℕ) → v + n ≡ m → Numbered v m (init_from v n)
init_from-Numbered v zero m e = omega (arith, e)
init_from-Numbered v (suc n) m e = (refl, refl, init_from-Numbered (suc v) n m (omega (arith, e)))

modify_at-Numbered :
    (f : LiveInterval → LiveInterval) (i v n : ℕ) (ivs : List LiveInterval)
    → Tame f
    → Numbered v n ivs
    → Numbered v n (modify_at f i ivs)
modify_at-Numbered f i v n [] t h = h
modify_at-Numbered f zero v n (iv ∷ ivs) t h = ((t iv).0 ∙ h.0, (t iv).1 ∙ h.1, h.2)
modify_at-Numbered f (suc i) v n (iv ∷ ivs) t h =
    (h.0, h.1, modify_at-Numbered f i (suc v) n ivs t h.2)

map-Numbered :
    (f : LiveInterval → LiveInterval) (v n : ℕ) (ivs : List LiveInterval)
    → Tame f
    → Numbered v n ivs
    → Numbered v n (map f ivs)
map-Numbered f v n [] t h = h
map-Numbered f v n (iv ∷ ivs) t h =
    ((t iv).0 ∙ h.0, (t iv).1 ∙ h.1, map-Numbered f (suc v) n ivs t h.2)

extend_param-Tame : Tame extend_param
extend_param-Tame iv =
    if_both (λ x. (x.vreg ≡ iv.vreg) × (x.phys_reg ≡ iv.phys_reg))
      (iv.is_param && iv.start == uint32_max) _ iv (refl, refl) (refl, refl)

module _ (n : ℕ) where
  abbrev Whole : List LiveInterval → Type 0
  Whole ivs = Numbered 0 n ivs

  touch-Whole : (idx v : ℕ) (ivs : List LiveInterval) → Whole ivs → Whole (touch idx v ivs)
  touch-Whole idx v ivs h = modify_at-Numbered (widen idx) v 0 n ivs (λ iv. (refl, refl)) h

  mark_params-Whole :
      (ps : List ℕ) (ivs : List LiveInterval) → Whole ivs → Whole (mark_params ps ivs)
  mark_params-Whole [] ivs h = h
  mark_params-Whole (p ∷ ps) ivs h =
      mark_params-Whole ps _ (modify_at-Numbered mark_param p 0 n ivs (λ iv. (refl, refl)) h)

  touch_operand-Whole :
      (idx : ℕ) (mi : MachInst) (v : ℕ) (ivs : List LiveInterval)
      → Whole ivs
      → Whole (touch_operand idx mi v ivs)
  touch_operand-Whole idx mi v ivs h =
      if_both Whole (not (v == invalid_vreg) && not (is_marker mi.op)) _ ivs
        (touch-Whole idx v ivs h) h

  touch_args-Whole :
      (idx : ℕ) (vs : List ℕ) (ivs : List LiveInterval) → Whole ivs → Whole (touch_args idx vs ivs)
  touch_args-Whole idx [] ivs h = h
  touch_args-Whole idx (v ∷ vs) ivs h = touch_args-Whole idx vs _ (touch-Whole idx v ivs h)

  touch_inst-Whole :
      (idx : ℕ) (mi : MachInst) (ivs : List LiveInterval)
      → Whole ivs
      → Whole (touch_inst idx mi ivs)
  touch_inst-Whole idx mi ivs h = touch_args-Whole idx (args_of mi.op mi.arg_vregs) _ (
      touch_operand-Whole idx mi mi.src2 _
        (touch_operand-Whole idx mi mi.src _ (touch_operand-Whole idx mi mi.dst ivs h)))

  walk_insts-Whole :
      (idx : ℕ) (mis : List MachInst) (ivs : List LiveInterval)
      → Whole ivs
      → Whole (walk_insts idx mis ivs).1
  walk_insts-Whole idx [] ivs h = h
  walk_insts-Whole idx (mi ∷ mis) ivs h =
      walk_insts-Whole (suc idx) mis _ (touch_inst-Whole idx mi ivs h)

  walk_blocks-Whole :
      (idx : ℕ) (mbs : List MachBlock) (ivs : List LiveInterval)
      → Whole ivs
      → Whole (walk_blocks idx mbs ivs)
  walk_blocks-Whole idx [] ivs h = h
  walk_blocks-Whole idx (mb ∷ mbs) ivs h =
      walk_blocks-Whole (walk_insts idx mb.insts ivs).0 mbs _ (walk_insts-Whole idx mb.insts ivs h)

pub compute_live_intervals-Numbered :
    (mf : MachFunc) → Numbered 0 mf.next_vreg (compute_live_intervals mf)
unfolding compute_live_intervals
compute_live_intervals-Numbered mf = map-Numbered extend_param 0 mf.next_vreg _ extend_param-Tame (
    walk_blocks-Whole mf.next_vreg 0 mf.blocks _ (
      mark_params-Whole mf.next_vreg mf.param_vregs _
        (init_from-Numbered 0 mf.next_vreg mf.next_vreg (omega arith))))

abbrev pub Within : ℕ → ℕ → LiveInterval → Type 0
Within v n iv = (v ≤ iv.vreg) × (iv.vreg < n) × (iv.phys_reg ≡ reg_none)

Numbered-le : (v n : ℕ) (ivs : List LiveInterval) → Numbered v n ivs → v ≤ n
Numbered-le v n [] h = omega arith
Numbered-le v n (iv ∷ ivs) h = let l = Numbered-le (suc v) n ivs h.2 in omega arith

pub live_of-Within :
    (v n : ℕ) (ivs : List LiveInterval) → Numbered v n ivs → All (Within v n) (live_of ivs)
live_of-Within v n [] h = tt
live_of-Within v n (iv ∷ ivs) h =
    let later =
      All-map (Within (suc v) n) {Q = Within v n} (λ i w. (omega (arith, w.0), w.1, w.2))
        (live_of ivs) (live_of-Within (suc v) n ivs h.2) in
    if_both (All (Within v n)) (is_live iv) (iv ∷ live_of ivs) (live_of ivs)
      ((omega (arith, h.0), omega (arith, h.0, Numbered-le (suc v) n ivs h.2), h.1), later) later

pub live_of-distinct :
    (v n : ℕ) (ivs : List LiveInterval) → Numbered v n ivs → AllPairs OtherVreg (live_of ivs)
live_of-distinct v n [] h = tt
live_of-distinct v n (iv ∷ ivs) h =
    let later = live_of-distinct (suc v) n ivs h.2 in
    if_both (AllPairs OtherVreg) (is_live iv) (iv ∷ live_of ivs) (live_of ivs)
      (
        All-map (Within (suc v) n) (λ i w e. omega (arith, h.0, e, w.0)) (live_of ivs)
            (live_of-Within (suc v) n ivs h.2),
        later,
      )
      later
