-- ===== src/Ssa/Run.antt =====
-- What a function in SSA form does when it runs, over a machine that is a parameter. It is the
-- yardstick for the passes that delete or rewrite instructions.
-- The machine gives the meaning of every operation on its own values. `alloc` and `arena_alloc`
-- give the address of their site and leave the world alone: the cursor of an allocator is no part
-- of what a program is observed by. An operation that faults (a division by zero) is a value.
-- The phis of a block are read at once: each takes its value from the registers as they were when
-- the block was entered.
use vortech.Prelude.{
  ℕ, zero, suc, Bool, String, Option, none, some, List, [], ◌∷◌, map, ◌==◌, if◌then◌else◌,
  get_elem?,
}
use vortech.Prelude.Int.{ℤ}
use vortech.Ssa.{
  invalid_vreg, BinOpKind, UnOpKind, CmpKind, PhiArg, Op, const, binop, unop, load, store, gep, cmp,
  branch, jump, call, ret, phi, alloc, arena_alloc, arena_reset, print, Inst, Block,
}

pub record Machine : Type 1 where
  pub Value : Type 0
  pub World : Type 0
  pub undefined : Value
  pub literal : ℤ → Value
  pub binop_value : BinOpKind → Value → Value → Value
  pub unop_value : UnOpKind → Value → Value
  pub cmp_value : CmpKind → Value → Value → Value
  pub truth : Value → Bool
  pub load_value : Value → World → Value
  pub store_to : Value → Value → World → World
  pub offset : Value → ℤ → Value
  pub call_function : String → Bool → List Value → World → Value × World
  pub stack_address : (dst bytes : ℕ) → World → Value
  pub arena_address : (dst : ℕ) → String → ℕ → World → Value
  pub reset : String → World → World
  pub print_value : Value → World → World

-- Where control goes after an instruction.
pub data Control (V : Type 0) : Type 0 where
  continue : Control V
  jump_to : ℕ → Control V
  leave : Option V → Control V

-- How the run of a block ends.
pub data Outcome (V W : Type 0) : Type 0 where
  goto : ℕ → (ℕ → V) → W → Outcome V W
  returned : Option V → W → Outcome V W
  fell : (ℕ → V) → W → Outcome V W

-- How the run of a function ends: `lost` is a jump to a block that is not there.
pub data Result (V W : Type 0) : Type 0 where
  done : Option V → W → Result V W
  lost : W → Result V W
  out_of_fuel : W → Result V W

module _ (m : Machine) where
  open m use {Value, World}

  abbrev pub Env : Type 0
  Env = ℕ → Value

  abbrev pub write : ℕ → Value → Env → Env
  write d x e v = if d == invalid_vreg then e v else (if v == d then x else e v)

  abbrev pub phi_value : ℕ → Env → List PhiArg → Value
  phi_value prev e [] = m.undefined
  phi_value prev e (a ∷ rest) = if a.pred == prev then e a.src else phi_value prev e rest

  abbrev pub control : Op → Env → Control Value
  control (branch c t f) e = jump_to (if m.truth (e c) then t else f)
  control (jump t) e = jump_to t
  control (ret v) e = leave (if v == invalid_vreg then none else some (e v))
  control o e = continue

  -- The result of an operation, and the world after it.
  abbrev pub perform : Op → (dst prev : ℕ) → Env → World → Value × World
  perform (const c) d prev e w = (m.literal c, w)
  perform (binop k l r) d prev e w = (m.binop_value k (e l) (e r), w)
  perform (unop k v) d prev e w = (m.unop_value k (e v), w)
  perform (load p) d prev e w = (m.load_value (e p) w, w)
  perform (store p v) d prev e w = (m.undefined, m.store_to (e p) (e v) w)
  perform (gep p o) d prev e w = (m.offset (e p) o, w)
  perform (cmp k l r) d prev e w = (m.cmp_value k (e l) (e r), w)
  perform (branch c t f) d prev e w = (m.undefined, w)
  perform (jump t) d prev e w = (m.undefined, w)
  perform (call f args ext) d prev e w = m.call_function f ext (map e args) w
  perform (ret v) d prev e w = (m.undefined, w)
  perform (phi args) d prev e w = (phi_value prev e args, w)
  perform (alloc n) d prev e w = (m.stack_address d n w, w)
  perform (arena_alloc a n) d prev e w = (m.arena_address d a n w, w)
  perform (arena_reset a) d prev e w = (m.undefined, m.reset a w)
  perform (print v) d prev e w = (m.undefined, m.print_value (e v) w)

  -- An instruction that does not continue leaves the rest of the block alone.
  abbrev pub resume : Control Value → Env → World → Outcome Value World → Outcome Value World
  resume continue e w rest = rest
  resume (jump_to b) e w rest = goto b e w
  resume (leave r) e w rest = returned r w

  -- The registers that an operation reads: a phi reads those of the entry of the block.
  abbrev pub seen : Op → (entry now : Env) → Env
  seen (phi args) entry now = entry
  seen o entry now = now

  unfoldable pub exec : ℕ → List Inst → (entry now : Env) → World → Outcome Value World
  exec prev [] entry e w = fell e w
  exec prev (i ∷ is) entry e w =
      let out = perform i.op i.dst prev (seen i.op entry e) w in
      resume (control i.op e) e w (exec prev is entry (write i.dst out.0 e) out.1)

  -- A block without a terminator runs into the next one, as the emitted code does.
  abbrev pub follow :
      (ℕ → Env → World → Result Value World) → ℕ → Outcome Value World → Result Value World
  follow next bi (goto t e w) = next t e w
  follow next bi (returned r w) = done r w
  follow next bi (fell e w) = next (suc bi) e w

  abbrev pub enter : (Block → Result Value World) → Option Block → World → Result Value World
  enter body none w = lost w
  enter body (some b) w = body b

  unfoldable pub run : ℕ → List Block → (bi prev : ℕ) → Env → World → Result Value World
  run zero blocks bi prev e w = out_of_fuel w
  run (suc fuel) blocks bi prev e w =
      enter (λ b. follow (λ t e' w'. run fuel blocks t bi e' w') bi (exec prev b.insts e e w))
        (get_elem? blocks bi) w
