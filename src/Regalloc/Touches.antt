-- ===== src/Regalloc/Touches.antt =====
-- One instruction and the live intervals of the virtual registers that it names, in
-- src/regalloc.c.
use vortech.Prelude.{
  ltb→lt, length, ◌+◌, ℕ, zero, suc, ◌≤◌, ◌≡◌, Bool, true, false, not, ◌&&◌, List, [], ◌∷◌, ◌++◌,
  ◌==◌, ltb, if◌then◌else◌, if_cases, if_both, All, arith,
}
use vortech.Ssa.{invalid_vreg}
use vortech.Mach.{MachInst, MachBlock}
use vortech.Regalloc.{LiveInterval}
use vortech.Regalloc.Intervals.{
  modify_at, widen, touch, is_marker, touch_operand, touch_args, args_of, touch_inst, walk_insts,
}

abbrev pub Covers : ℕ → LiveInterval → Type 0
Covers idx iv = (iv.start ≤ idx) × (idx ≤ iv.end_)

-- The interval of a virtual register covers the position; of one that the function does not have
-- nothing is asked.
abbrev pub CoversAt : ℕ → List LiveInterval → ℕ → Type 0
CoversAt idx [] v = Unit
CoversAt idx (iv ∷ ivs) zero = Covers idx iv
CoversAt idx (iv ∷ ivs) (suc v) = CoversAt idx ivs v

-- The virtual registers that an instruction names, as written or read ones or as arguments.
abbrev pub operand : MachInst → ℕ → List ℕ
operand mi v = if not (v == invalid_vreg) && not (is_marker mi.op) then v ∷ [] else []

abbrev pub operands : MachInst → List ℕ
operands mi =
    operand mi mi.dst ++ operand mi mi.src ++ operand mi mi.src2 ++ args_of mi.op mi.arg_vregs

abbrev pub InstCovered : ℕ → MachInst → List LiveInterval → Type 0
InstCovered idx mi ivs = All (CoversAt idx ivs) (operands mi)

-- The instructions from the position `idx` on.
abbrev pub InstsCovered : ℕ → List MachInst → List LiveInterval → Type 0
InstsCovered idx [] ivs = Unit
InstsCovered idx (mi ∷ mis) ivs = InstCovered idx mi ivs × InstsCovered (suc idx) mis ivs

-- The blocks' instructions, numbered through from `idx` on.
abbrev pub BlocksCovered : ℕ → List MachBlock → List LiveInterval → Type 0
BlocksCovered idx [] ivs = Unit
BlocksCovered idx (mb ∷ mbs) ivs =
    InstsCovered idx mb.insts ivs × BlocksCovered (idx + length mb.insts) mbs ivs

ltb_false→le : (a b : ℕ) → ltb a b ≡ false → b ≤ a
ltb_false→le a b f = ground arith

-- A step on intervals that takes no position away.
abbrev pub Growing : (LiveInterval → LiveInterval) → Type 0
Growing f = (i : ℕ) (iv : LiveInterval) → Covers i iv → Covers i (f iv)

widen-Growing : (idx : ℕ) → Growing (widen idx)
widen-Growing idx i iv h = (
  if_cases (λ s. s ≤ i) (ltb idx iv.start) idx iv.start
      (λ t. omega (arith, ltb→lt idx iv.start t, h.0)) (λ f. h.0),
  if_cases (λ e. i ≤ e) (ltb iv.end_ idx) idx iv.end_
      (λ t. omega (arith, ltb→lt iv.end_ idx t, h.1)) (λ f. h.1),
)

widen-Covers : (idx : ℕ) (iv : LiveInterval) → Covers idx (widen idx iv)
widen-Covers idx iv = (
  if_cases (λ s. s ≤ idx) (ltb idx iv.start) idx iv.start (λ t. omega arith)
      (λ f. ltb_false→le idx iv.start f),
  if_cases (λ e. idx ≤ e) (ltb iv.end_ idx) idx iv.end_ (λ t. omega arith)
      (λ f. ltb_false→le iv.end_ idx f),
)

modify_at-keeps :
    (f : LiveInterval → LiveInterval)
    → Growing f
    → (w i v : ℕ) (ivs : List LiveInterval) → CoversAt i ivs v
    → CoversAt i (modify_at f w ivs) v
modify_at-keeps f g w i v [] h = h
modify_at-keeps f g zero i zero (iv ∷ ivs) h = g i iv h
modify_at-keeps f g zero i (suc v) (iv ∷ ivs) h = h
modify_at-keeps f g (suc w) i zero (iv ∷ ivs) h = h
modify_at-keeps f g (suc w) i (suc v) (iv ∷ ivs) h = modify_at-keeps f g w i v ivs h

touch-Covers : (idx v : ℕ) (ivs : List LiveInterval) → CoversAt idx (touch idx v ivs) v
touch-Covers idx v [] = tt
touch-Covers idx zero (iv ∷ ivs) = widen-Covers idx iv
touch-Covers idx (suc v) (iv ∷ ivs) = touch-Covers idx v ivs

module _ (i v : ℕ) where
  abbrev pub Held : List LiveInterval → Type 0
  Held ivs = CoversAt i ivs v

  touch-Held : (idx w : ℕ) (ivs : List LiveInterval) → Held ivs → Held (touch idx w ivs)
  touch-Held idx w ivs h = modify_at-keeps (widen idx) (widen-Growing idx) w i v ivs h

  pub touch_operand-Held :
      (idx : ℕ) (mi : MachInst) (w : ℕ) (ivs : List LiveInterval)
      → Held ivs
      → Held (touch_operand idx mi w ivs)
  touch_operand-Held idx mi w ivs h =
      if_both Held (not (w == invalid_vreg) && not (is_marker mi.op)) _ ivs (touch-Held idx w ivs h)
        h

  pub touch_args-Held :
      (idx : ℕ) (ws : List ℕ) (ivs : List LiveInterval) → Held ivs → Held (touch_args idx ws ivs)
  touch_args-Held idx [] ivs h = h
  touch_args-Held idx (w ∷ ws) ivs h = touch_args-Held idx ws _ (touch-Held idx w ivs h)

  touch_inst-Held :
      (idx : ℕ) (mi : MachInst) (ivs : List LiveInterval) → Held ivs → Held (touch_inst idx mi ivs)
  touch_inst-Held idx mi ivs h = touch_args-Held idx (args_of mi.op mi.arg_vregs) _ (
      touch_operand-Held idx mi mi.src2 _
        (touch_operand-Held idx mi mi.src _ (touch_operand-Held idx mi mi.dst ivs h)))

  pub walk_insts-Held :
      (idx : ℕ) (mis : List MachInst) (ivs : List LiveInterval)
      → Held ivs
      → Held (walk_insts idx mis ivs).1
  walk_insts-Held idx [] ivs h = h
  walk_insts-Held idx (mi ∷ mis) ivs h =
      walk_insts-Held (suc idx) mis _ (touch_inst-Held idx mi ivs h)

pub touch_operand-Covers :
    (idx : ℕ) (mi : MachInst) (v : ℕ) (ivs : List LiveInterval)
    → All (CoversAt idx (touch_operand idx mi v ivs)) (operand mi v)
touch_operand-Covers idx mi v ivs = done (not (v == invalid_vreg) && not (is_marker mi.op))
  where
    done :
        (b : Bool)
        → All (CoversAt idx (if b then touch idx v ivs else ivs)) (if b then v ∷ [] else [])
    done true = (touch-Covers idx v ivs, tt)
    done false = tt

pub touch_args-Covers :
    (idx : ℕ) (vs : List ℕ) (ivs : List LiveInterval)
    → All (CoversAt idx (touch_args idx vs ivs)) vs
touch_args-Covers idx [] ivs = tt
touch_args-Covers idx (v ∷ vs) ivs = (
  touch_args-Held idx v idx vs _ (touch-Covers idx v ivs),
  touch_args-Covers idx vs (touch idx v ivs),
)
