-- ===== src/Isel/Vregs.antt =====
-- What machine instructions do to virtual registers: the yardstick for instruction selection. The
-- values and the world are those of a machine of `Ssa.Run`; a call is a function of its symbol's
-- name. `cmp` and `test` leave two values for the conditions behind them: `test` their conjunction
-- and 0. At the beginning of a block the two are undefined. An opcode that the selection of the
-- operations of `Straight` does not use does nothing.
use vortech.Prelude.{
  ℕ, suc, Option, none, some, ◌≡◌, List, [], ◌∷◌, map, ◌==◌, if◌then◌else◌, get_elem?,
}
use vortech.Prelude.Int.{pos}
use vortech.Ssa.{invalid_vreg, BinOpKind, CmpKind, UnOpKind}
use vortech.Ssa.Run.{Machine, Env, write, Outcome, goto, returned, fell}
use vortech.Mach
use vortech.Mach.{MachOpcode, MachInst, MachBlock}

module _ (m : Machine) (call_name : List ℕ → List m.Value → m.World → m.Value × m.World) where
  -- The registers, the two values of the last comparison, and the world.
  pub record Vregs : Type 0 where
    pub env : Env m
    pub left : m.Value
    pub right : m.Value
    pub world : m.World

  abbrev pub put : ℕ → m.Value → Vregs → Vregs
  put d x s = record s { env = write m d x s.env }

  abbrev pub compute : BinOpKind → MachInst → Vregs → Vregs
  compute k i s = put i.dst (m.binop_value k (s.env i.src) (s.env i.src2)) s

  abbrev pub decide : CmpKind → MachInst → Vregs → Vregs
  decide k i s = put i.dst (m.cmp_value k s.left s.right) s

  abbrev pub symbol : Option (List ℕ) → List ℕ
  symbol none = []
  symbol (some name) = name

  abbrev pub arguments : Option (List ℕ) → List ℕ
  arguments none = []
  arguments (some vs) = vs

  abbrev pub called : ℕ → m.Value × m.World → Vregs → Vregs
  called d (x, w) s = record s { env = write m d x s.env; world = w }

  abbrev pub step : MachOpcode → MachInst → Vregs → Vregs
  step Mach.mov i s = put i.dst (s.env i.src) s
  step Mach.mov_imm i s = put i.dst (m.literal i.imm) s
  step Mach.add i s = compute BinOpKind.add i s
  step Mach.sub i s = compute BinOpKind.sub i s
  step Mach.mul i s = compute BinOpKind.mul i s
  step Mach.div i s = compute BinOpKind.div i s
  step Mach.mod_ i s = compute BinOpKind.mod_ i s
  step Mach.and i s = compute BinOpKind.and i s
  step Mach.or i s = compute BinOpKind.or i s
  step Mach.xor i s = compute BinOpKind.xor i s
  step Mach.shl i s = compute BinOpKind.lshift i s
  step Mach.shr i s = compute BinOpKind.rshift i s
  step Mach.neg i s = put i.dst (m.unop_value UnOpKind.neg (s.env i.src)) s
  step Mach.not_ i s = put i.dst (m.unop_value UnOpKind.bnot (s.env i.src)) s
  step Mach.lea i s = put i.dst (m.offset (s.env i.src) i.offset) s
  step Mach.cmp i s = record s { left = s.env i.src; right = s.env i.src2 }
  step Mach.test i s = record s {
    left = m.binop_value BinOpKind.and (s.env i.src) (s.env i.src2);
    right = m.literal (pos 0);
  }
  step Mach.set_eq i s = decide CmpKind.eq i s
  step Mach.set_neq i s = decide CmpKind.neq i s
  step Mach.set_lt i s = decide CmpKind.lt i s
  step Mach.set_gt i s = decide CmpKind.gt i s
  step Mach.set_leq i s = decide CmpKind.leq i s
  step Mach.set_geq i s = decide CmpKind.geq i s
  step Mach.call i s =
      called i.dst (call_name (symbol i.func_name) (map s.env (arguments i.arg_vregs)) s.world) s
  step o i s = s

  -- An instruction in front of those whose run from its result is `rest`.
  abbrev pub follow :
      MachOpcode → MachInst → Vregs → Outcome m.Value m.World → Outcome m.Value m.World
  follow Mach.jmp i s rest = goto i.target_bb s.env s.world
  follow Mach.jne i s rest =
      if m.truth (m.cmp_value CmpKind.neq s.left s.right)
      then goto i.target_bb s.env s.world
      else rest
  follow Mach.je i s rest =
      if m.truth (m.cmp_value CmpKind.eq s.left s.right)
      then goto i.target_bb s.env s.world
      else rest
  follow Mach.ret i s rest =
      returned (if i.src == invalid_vreg then none else some (s.env i.src)) s.world
  follow o i s rest = rest

  unfoldable pub exec_insts : List MachInst → Vregs → Outcome m.Value m.World
  exec_insts [] s = fell s.env s.world
  exec_insts (i ∷ is) s = follow i.op i s (exec_insts is (step i.op i s))

  abbrev pub exec_block : MachBlock → Env m → m.World → Outcome m.Value m.World
  unfolding exec_insts
  exec_block b e w =
      exec_insts b.insts (record { env = e; left = m.undefined; right = m.undefined; world = w })

  -- The run from the beginning of a block to the function's return.
  pub data Runs (blocks : List MachBlock)
      : ℕ → Env m → m.World → Option m.Value → m.World → Type 0 where
    stops :
        {bi : ℕ} {e : Env m} {w w' : m.World} {r : Option m.Value} {b : MachBlock}
        → get_elem? blocks bi ≡ some b
        → exec_block b e w ≡ returned r w'
        → Runs blocks bi e w r w'
    jumps :
        {bi t : ℕ} {e e₁ : Env m} {w w₁ w' : m.World} {r : Option m.Value} {b : MachBlock}
        → get_elem? blocks bi ≡ some b
        → exec_block b e w ≡ goto t e₁ w₁
        → Runs blocks t e₁ w₁ r w'
        → Runs blocks bi e w r w'
    falls :
        {bi : ℕ} {e e₁ : Env m} {w w₁ w' : m.World} {r : Option m.Value} {b : MachBlock}
        → get_elem? blocks bi ≡ some b
        → exec_block b e w ≡ fell e₁ w₁
        → Runs blocks (suc bi) e₁ w₁ r w'
        → Runs blocks bi e w r w'
