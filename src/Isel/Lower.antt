-- ===== src/Isel/Lower.antt =====
-- The first loop of `isel_select` in src/isel.c: the machine instructions of each SSA instruction.
use vortech.Prelude.{ℕ, suc, none, some, List, [], ◌∷◌, ◌++◌, ◌==◌, if◌then◌else◌}
use vortech.Prelude.Int.{ℤ, pos}
use vortech.Lexer.Kinds.{codes}
use vortech.Ssa.{
  invalid_vreg, BinOpKind, UnOpKind, CmpKind, Op, const, binop, unop, load, store, gep, cmp, branch,
  jump, call, ret, phi, alloc, arena_alloc, arena_reset, print, Inst, Block,
}
use vortech.Mach
use vortech.Mach.{MachOpcode, Width, qword, MachInst, MachBlock}

-- The type's width is that of a null pointer where the source passes one.
abbrev pub mach_inst : MachOpcode → (dst src src2 : ℕ) → ℤ → Width → MachInst
mach_inst o dst src src2 imm width = record {
  op = o;
  width = width;
  dst = dst;
  src = src;
  src2 = src2;
  imm = imm;
  target_bb = 0;
  func_name = none;
  arg_vregs = none;
  offset = pos 0;
}

abbrev pub jump_inst : MachOpcode → ℕ → MachInst
jump_inst o t = record (mach_inst o 0 0 0 (pos 0) qword) { target_bb = t }

abbrev pub call_inst : ℕ → List ℕ → List ℕ → Width → MachInst
call_inst dst name args width = record (mach_inst Mach.call dst 0 0 (pos 0) width) {
  func_name = some name;
  arg_vregs = some args;
}

abbrev pub binop_code : BinOpKind → MachOpcode
binop_code BinOpKind.add = Mach.add
binop_code BinOpKind.sub = Mach.sub
binop_code BinOpKind.mul = Mach.mul
binop_code BinOpKind.div = Mach.div
binop_code BinOpKind.mod_ = Mach.mod_
binop_code BinOpKind.and = Mach.and
binop_code BinOpKind.or = Mach.or
binop_code BinOpKind.xor = Mach.xor
binop_code BinOpKind.lshift = Mach.shl
binop_code BinOpKind.rshift = Mach.shr

abbrev pub set_code : CmpKind → MachOpcode
set_code CmpKind.eq = Mach.set_eq
set_code CmpKind.neq = Mach.set_neq
set_code CmpKind.lt = Mach.set_lt
set_code CmpKind.gt = Mach.set_gt
set_code CmpKind.leq = Mach.set_leq
set_code CmpKind.geq = Mach.set_geq

abbrev pub unop_code : UnOpKind → (dst v : ℕ) → Width → List MachInst
unop_code UnOpKind.neg d v w = mach_inst Mach.neg d v 0 (pos 0) w ∷ []
unop_code UnOpKind.lnot d v w =
    mach_inst Mach.test 0 v v (pos 0) w ∷ mach_inst Mach.set_eq d 0 0 (pos 0) w ∷ []
unop_code UnOpKind.bnot d v w = mach_inst Mach.not_ d v 0 (pos 0) w ∷ []

abbrev pub lower : Op → ℕ → Width → List MachInst
lower (const c) d w = if d == invalid_vreg then [] else mach_inst Mach.mov_imm d 0 0 c w ∷ []
lower (binop k l r) d w = mach_inst (binop_code k) d l r (pos 0) w ∷ []
lower (unop k v) d w = unop_code k d v w
lower (cmp k l r) d w =
    mach_inst Mach.cmp 0 l r (pos 0) w ∷ mach_inst (set_code k) d 0 0 (pos 0) w ∷ []
lower (branch c t f) d w =
    mach_inst Mach.test 0 c c (pos 0) qword ∷ jump_inst Mach.jne t ∷ jump_inst Mach.jmp f ∷ []
lower (jump t) d w = jump_inst Mach.jmp t ∷ []
lower (call f args e) d w = call_inst d (codes f) args w ∷ []
lower (ret v) d w = mach_inst Mach.ret 0 v 0 (pos 0) qword ∷ []
lower (load p) d w = mach_inst Mach.mov d p 0 (pos 0) w ∷ []
lower (store p v) d w = mach_inst Mach.mov p v 0 (pos 0) qword ∷ []
lower (gep p o) d w = record (mach_inst Mach.lea d p 0 (pos 0) w) { offset = o } ∷ []
lower (alloc n) d w = mach_inst Mach.sub_imm 0 0 0 (pos n) qword ∷ []
lower (arena_alloc a n) d w = call_inst d (codes "__vortech_arena_alloc") (0 ∷ 0 ∷ []) w ∷ []
lower (arena_reset a) d w = call_inst 0 (codes "__vortech_arena_reset") (0 ∷ []) qword ∷ []
lower (print v) d w = call_inst 0 (codes "__vortech_print_i64") (v ∷ []) qword ∷ []
lower (phi args) d w = []

abbrev pub lower_insts : (ℕ → Width) → ℕ → List Inst → List MachInst
lower_insts width ii [] = []
lower_insts width ii (i ∷ is) = lower i.op i.dst (width ii) ++ lower_insts width (suc ii) is

abbrev pub label_inst : MachInst
label_inst = mach_inst Mach.label 0 0 0 (pos 0) qword

abbrev pub select_block : (ℕ → Width) → Block → MachBlock
select_block width b = record { label = b.label; insts = label_inst ∷ lower_insts width 0 b.insts }

unfoldable pub select_blocks : (ℕ → ℕ → Width) → ℕ → List Block → List MachBlock
select_blocks width_at bi [] = []
select_blocks width_at bi (b ∷ bs) =
    select_block (width_at bi) b ∷ select_blocks width_at (suc bi) bs
