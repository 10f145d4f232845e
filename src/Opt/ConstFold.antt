-- ===== src/Opt/ConstFold.antt =====
-- Constant folding: src/opt_constfold.c. The pass rewrites one instruction after another in place,
-- and each look-up of a constant reads the function as it then stands.
pub mod Values
pub mod Rules
pub mod Loops
use mathlib.Core.Option
use vortech.Prelude.{
  ℕ, zero, suc, ◌≡◌, Bool, true, false, ◌&&◌, ◌||◌, Option, none, some, List, [], ◌∷◌, ◌==◌,
  if◌then◌else◌, get_elem?, set, length,
}
use vortech.Prelude.Int.{ℤ, pos}
use vortech.Ssa.{
  invalid_vreg, BinOpKind, Op, const, binop, unop, load, store, gep, cmp, branch, jump, call, ret,
  phi, alloc, arena_alloc, arena_reset, print, Inst, Block, Func,
}
use vortech.Ssa.Int64.{Host, eq_ℤ, fold_binop, fold_unop, fold_cmp, of_bool}

-- The value of a CONST instruction that defines `v`.
abbrev const_of : Op → Bool → Option ℤ
const_of (const c) b = if b then some c else none
const_of o b = none

const_at : ℕ → Inst → Option ℤ
const_at v i = const_of i.op (i.dst == v)

abbrev first : Option ℤ → Option ℤ → Option ℤ
first (some c) rest = some c
first none rest = rest

abbrev map₂ : (ℤ → ℤ → ℤ) → Option ℤ → Option ℤ → Option ℤ
map₂ g (some a) (some b) = some (g a b)
map₂ g a b = none

find_insts : ℕ → List Inst → Option ℤ
unfolding const_at
find_insts v [] = none
find_insts v (i ∷ is) = first (const_at v i) (find_insts v is)

find_blocks : ℕ → List Block → Option ℤ
unfolding find_insts
find_blocks v [] = none
find_blocks v (b ∷ bs) = first (find_insts v b.insts) (find_blocks v bs)

unfoldable pub is_const_val : Func → ℕ → Option ℤ
unfolding find_blocks
is_const_val f v = if v == invalid_vreg then none else find_blocks v f.blocks

-- The constant that replaces an operation whose right operand is the constant `b`.
unfoldable pub identity : BinOpKind → ℤ → Option ℤ
identity BinOpKind.add b = if eq_ℤ b (pos 0) then some (pos 0) else none
identity BinOpKind.sub b = if eq_ℤ b (pos 0) then some (pos 0) else none
identity BinOpKind.mul b = if eq_ℤ b (pos 1) then some (pos 1) else none
identity k b = none

-- A replaced operation, or the old one, and whether `changed` is set.
abbrev replaced : Op → Option ℤ → Bool → Op × Bool
replaced o none b = (o, false)
replaced o (some c) b = (const c, b)

ninsts : Func → ℕ → ℕ
ninsts f bi = elim (get_elem? f.blocks bi) [ none ↦ 0 | some b ↦ length b.insts ]

module _ (h : Host) where
  binop_rule : Op → BinOpKind → Option ℤ → Option ℤ → Op × Bool
  unfolding identity
  binop_rule o k (some a) (some b) = (const (fold_binop h k a b), true)
  binop_rule o k none (some b) = replaced o (identity k b) false
  binop_rule o k a none = (o, false)

  unfoldable pub fold_op : Func → Op → Op × Bool
  unfolding is_const_val binop_rule
  fold_op f (binop k l r) = binop_rule (binop k l r) k (is_const_val f l) (is_const_val f r)
  fold_op f (cmp k l r) =
      replaced (cmp k l r)
        (map₂ (λ a b. of_bool (fold_cmp k a b)) (is_const_val f l) (is_const_val f r)) true
  fold_op f (unop k v) = replaced (unop k v) (Option.map (fold_unop h k) (is_const_val f v)) true
  fold_op f o = (o, false)

  fold_found : Func → ℕ → ℕ → Block → Option Inst → Func × Bool
  unfolding fold_op
  fold_found f bi ii b none = (f, false)
  fold_found f bi ii b (some i) =
      let (o, changed) = fold_op f i.op in
      let b' = record b { insts = set b.insts ii (record i { op = o }) } in
      (record f { blocks = set f.blocks bi b' }, changed)

  fold_in : Func → ℕ → ℕ → Option Block → Func × Bool
  unfolding fold_found
  fold_in f bi ii none = (f, false)
  fold_in f bi ii (some b) = fold_found f bi ii b (get_elem? b.insts ii)

  -- The body of the innermost loop, at instruction `ii` of block `bi`.
  fold_at : Func → ℕ → ℕ → Func × Bool
  unfolding fold_in
  fold_at f bi ii = fold_in f bi ii (get_elem? f.blocks bi)

  -- `for (ii …)`, with the rounds that are left.
  fold_insts : ℕ → ℕ → ℕ → Func × Bool → Func × Bool
  unfolding fold_at
  fold_insts zero bi ii s = s
  fold_insts (suc n) bi ii s =
      let (f, changed) = fold_at s.0 bi ii in fold_insts n bi (suc ii) (f, s.1 || changed)

  fold_blocks : ℕ → ℕ → Func × Bool → Func × Bool
  unfolding fold_insts ninsts
  fold_blocks zero bi s = s
  fold_blocks (suc n) bi s = fold_blocks n (suc bi) (fold_insts (ninsts s.0 bi) bi 0 s)

  unfoldable pub const_fold_loop : ℕ → Func → Func
  unfolding fold_blocks
  const_fold_loop zero f = f
  const_fold_loop (suc n) f =
      let r = fold_blocks (length f.blocks) 0 (f, false) in
      elim r.1 [ true ↦ const_fold_loop n r.0 | false ↦ r.0 ]

  unfoldable pub opt_const_fold : Func → Func
  unfolding const_fold_loop
  opt_const_fold f = const_fold_loop 10 f
