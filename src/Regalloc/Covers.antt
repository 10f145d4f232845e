-- ===== src/Regalloc/Covers.antt =====
-- The live intervals of src/regalloc.c and the instructions that name the virtual registers.
use vortech.Prelude.{
  length, ◌+◌, subst, ℕ, zero, suc, ◌≡◌, ◌&&◌, List, [], ◌∷◌, ◌++◌, map, ◌==◌, if_cases, All-map,
  All-append, arith,
}
use vortech.Mach.{MachInst, MachBlock, MachFunc}
use vortech.Regalloc.{LiveInterval}
use vortech.Regalloc.Intervals.{
  touch_operand, touch_args, args_of, touch_inst, walk_insts, walk_blocks, extend_param,
  compute_live_intervals, uint32_max, mark_params, init_from,
}
use vortech.Regalloc.Touches.{
  CoversAt, Covers, operand, operands, InstCovered, InstsCovered, BlocksCovered, Growing,
  touch_operand-Held, touch_args-Held, walk_insts-Held, touch_operand-Covers, touch_args-Covers,
}

touch_inst-Covers :
    (idx : ℕ) (mi : MachInst) (ivs : List LiveInterval) → InstCovered idx mi (touch_inst idx mi ivs)
touch_inst-Covers idx mi ivs =
    let a = touch_operand idx mi mi.dst ivs in
    let b = touch_operand idx mi mi.src a in
    let c = touch_operand idx mi mi.src2 b in
    let args = args_of mi.op mi.arg_vregs in
    let P : ℕ → Type 0 = CoversAt idx (touch_args idx args c) in
    let after_src2 : (v : ℕ) → CoversAt idx c v → P v = λ v k. touch_args-Held idx v idx args c k in
    let after_src : (v : ℕ) → CoversAt idx b v → P v =
      λ v k. after_src2 v (touch_operand-Held idx v idx mi mi.src2 b k) in
    let after_dst : (v : ℕ) → CoversAt idx a v → P v =
      λ v k. after_src v (touch_operand-Held idx v idx mi mi.src a k) in
    All-append P (operand mi mi.dst ++ operand mi mi.src ++ operand mi mi.src2) args
      (All-append P (operand mi mi.dst ++ operand mi mi.src) (operand mi mi.src2)
        (All-append P (operand mi mi.dst) (operand mi mi.src)
          (All-map (CoversAt idx a) after_dst (operand mi mi.dst)
            (touch_operand-Covers idx mi mi.dst ivs))
          (All-map (CoversAt idx b) after_src (operand mi mi.src)
            (touch_operand-Covers idx mi mi.src a)))
        (All-map (CoversAt idx c) after_src2 (operand mi mi.src2)
          (touch_operand-Covers idx mi mi.src2 b)))
      (touch_args-Covers idx args c)

walk_insts-Covers :
    (idx : ℕ) (mis : List MachInst) (ivs : List LiveInterval)
    → InstsCovered idx mis (walk_insts idx mis ivs).1
      × ((walk_insts idx mis ivs).0 ≡ idx + length mis)
walk_insts-Covers idx [] ivs = (tt, omega arith)
walk_insts-Covers idx (mi ∷ mis) ivs =
    let rest = walk_insts-Covers (suc idx) mis (touch_inst idx mi ivs) in
    (
      (
        All-map (CoversAt idx _) (λ v h. walk_insts-Held idx v (suc idx) mis _ h) (operands mi)
            (touch_inst-Covers idx mi ivs),
        rest.0,
      ),
      omega (arith, rest.1),
    )

InstsCovered-map :
    (idx : ℕ) (mis : List MachInst) (xs ys : List LiveInterval)
    → ((i v : ℕ) → CoversAt i xs v → CoversAt i ys v)
    → InstsCovered idx mis xs
    → InstsCovered idx mis ys
InstsCovered-map idx [] xs ys f h = h
InstsCovered-map idx (mi ∷ mis) xs ys f h = (
  All-map (CoversAt idx xs) (f idx) (operands mi) h.0,
  InstsCovered-map (suc idx) mis xs ys f h.1,
)

BlocksCovered-map :
    (idx : ℕ) (mbs : List MachBlock) (xs ys : List LiveInterval)
    → ((i v : ℕ) → CoversAt i xs v → CoversAt i ys v)
    → BlocksCovered idx mbs xs
    → BlocksCovered idx mbs ys
BlocksCovered-map idx [] xs ys f h = h
BlocksCovered-map idx (mb ∷ mbs) xs ys f h = (
  InstsCovered-map idx mb.insts xs ys f h.0,
  BlocksCovered-map (idx + length mb.insts) mbs xs ys f h.1,
)

walk_blocks-Held :
    (i v idx : ℕ) (mbs : List MachBlock) (ivs : List LiveInterval)
    → CoversAt i ivs v
    → CoversAt i (walk_blocks idx mbs ivs) v
walk_blocks-Held i v idx [] ivs h = h
walk_blocks-Held i v idx (mb ∷ mbs) ivs h =
    walk_blocks-Held i v (walk_insts idx mb.insts ivs).0 mbs _
      (walk_insts-Held i v idx mb.insts ivs h)

walk_blocks-Covers :
    (idx : ℕ) (mbs : List MachBlock) (ivs : List LiveInterval)
    → BlocksCovered idx mbs (walk_blocks idx mbs ivs)
walk_blocks-Covers idx [] ivs = tt
walk_blocks-Covers idx (mb ∷ mbs) ivs =
    let out = walk_insts idx mb.insts ivs in
    let here = walk_insts-Covers idx mb.insts ivs in
    (
      InstsCovered-map idx mb.insts out.1 _ (λ i v h. walk_blocks-Held i v out.0 mbs out.1 h)
          here.0,
      subst (λ n. BlocksCovered n mbs (walk_blocks out.0 mbs out.1)) here.1
          (walk_blocks-Covers out.0 mbs out.1),
    )

extend_param-Growing : Growing extend_param
extend_param-Growing i iv h =
    if_cases (Covers i) (iv.is_param && iv.start == uint32_max) (record iv { start = 0 }) iv
      (λ t. (omega arith, h.1)) (λ f. h)

map-Held :
    (f : LiveInterval → LiveInterval)
    → Growing f
    → (i v : ℕ) (ivs : List LiveInterval) → CoversAt i ivs v
    → CoversAt i (map f ivs) v
map-Held f g i v [] h = h
map-Held f g i zero (iv ∷ ivs) h = g i iv h
map-Held f g i (suc v) (iv ∷ ivs) h = map-Held f g i v ivs h

-- The live interval of each virtual register that an instruction names, as a written or a read one
-- or as an argument of a call, covers the instruction's position.
pub compute_live_intervals-Covers :
    (mf : MachFunc) → BlocksCovered 0 mf.blocks (compute_live_intervals mf)
unfolding compute_live_intervals
compute_live_intervals-Covers mf =
    BlocksCovered-map 0 mf.blocks _ _ (λ i v h. map-Held extend_param extend_param-Growing i v _ h)
      (walk_blocks-Covers 0 mf.blocks (mark_params mf.param_vregs (init_from 0 mf.next_vreg)))
