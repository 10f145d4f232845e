-- ===== src/Ssa.antt =====
-- The SSA form of a function: src/ssa.h, with its operation kinds from src/common.h.
-- The tagged union of `SsaInst` is the data type `Op`: the operation and its payload. `loc` and
-- `dst_type` of an instruction, `name`, `ret_type`, the parameters' names and types and
-- `stack_slots` of a function, and the traversal marks of a block are left out: no pass that is
-- modelled here reads or writes them. An array with its length is a list.
pub mod Int64
pub mod Arith
pub mod Determined
pub mod Run
pub mod Verify
use vortech.Prelude.{ℕ, Bool, true, false, String, List, [], ◌∷◌, map, ◌==◌, if◌then◌else◌}
use vortech.Prelude.Int.{ℤ}

-- VT_INVALID_VREG and VT_INVALID_BLOCK, both UINT32_MAX.
abbrev pub invalid_vreg : ℕ
invalid_vreg = 0xffff_ffff

abbrev pub invalid_block : ℕ
invalid_block = 0xffff_ffff

pub data BinOpKind : Type 0 where
  add sub mul div mod_ and or xor lshift rshift : BinOpKind

pub data UnOpKind : Type 0 where
  neg lnot bnot : UnOpKind

pub data CmpKind : Type 0 where
  eq neq lt gt leq geq : CmpKind

-- An entry of a phi: the value's register and the predecessor block that it comes from.
pub record PhiArg : Type 0 where
  pub src : ℕ
  pub pred : ℕ

pub data Op : Type 0 where
  const : ℤ → Op
  binop : BinOpKind → (lhs rhs : ℕ) → Op
  unop : UnOpKind → ℕ → Op
  load : ℕ → Op
  store : (ptr val : ℕ) → Op
  gep : ℕ → ℤ → Op
  cmp : CmpKind → (lhs rhs : ℕ) → Op
  branch : (cond true_bb false_bb : ℕ) → Op
  jump : ℕ → Op
  call : String → List ℕ → Bool → Op
  ret : ℕ → Op
  phi : List PhiArg → Op
  alloc : ℕ → Op
  arena_alloc : String → ℕ → Op
  arena_reset : String → Op
  print : ℕ → Op

pub record Inst : Type 0 where
  pub dst : ℕ
  pub op : Op

pub record Block : Type 0 where
  pub label : ℕ
  pub insts : List Inst
  pub preds : List ℕ
  pub succs : List ℕ

pub record Func : Type 0 where
  pub blocks : List Block
  pub entry : ℕ
  pub next_vreg : ℕ
  pub param_vregs : List ℕ

-- `inst->op == OP_RET || inst->op == OP_JUMP || inst->op == OP_BRANCH`
abbrev pub is_terminator : Op → Bool
is_terminator (branch c t f) = true
is_terminator (jump t) = true
is_terminator (ret v) = true
is_terminator o = false

-- The registers that an operation reads, in the order in which the passes visit them.
abbrev pub operands : Op → List ℕ
operands (const c) = []
operands (binop k l r) = l ∷ r ∷ []
operands (unop k v) = v ∷ []
operands (load p) = p ∷ []
operands (store p v) = p ∷ v ∷ []
operands (gep p o) = p ∷ []
operands (cmp k l r) = l ∷ r ∷ []
operands (branch c t f) = c ∷ []
operands (jump t) = []
operands (call f args e) = args
operands (ret v) = if v == invalid_vreg then [] else v ∷ []
operands (phi args) = map (λ (a : PhiArg). a.src) args
operands (alloc n) = []
operands (arena_alloc a n) = []
operands (arena_reset a) = []
operands (print v) = v ∷ []
