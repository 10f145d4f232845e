-- ===== src/Opt/Cse.antt =====
-- Common subexpression elimination: src/opt_cse.c. The table is the list of its entries, the last
-- one first; the chain of a bucket is the entries whose key has its hash.
pub mod Keys
pub mod Values
pub mod Loops
pub mod Geps
pub mod Uses
use Prim.Native.Nat.{bit_xor}
use vortech.Prelude.{
  ℕ, zero, suc, ◌+◌, ◌*◌, ◌%◌, ◌^◌, Bool, true, false, ◌&&◌, Option, none, some, List, [], ◌∷◌, map,
  ◌==◌, if◌then◌else◌, length, get_elem?, set,
}
use vortech.Prelude.Int.{pos}
use vortech.Ssa.{
  invalid_vreg, BinOpKind, UnOpKind, CmpKind, PhiArg, Op, const, binop, unop, load, store, gep, cmp,
  branch, jump, call, ret, phi, print, Inst, Block, Func,
}

-- The places of the kinds in their enumerations.
abbrev pub binop_index : BinOpKind → ℕ
binop_index BinOpKind.add = 0
binop_index BinOpKind.sub = 1
binop_index BinOpKind.mul = 2
binop_index BinOpKind.div = 3
binop_index BinOpKind.mod_ = 4
binop_index BinOpKind.and = 5
binop_index BinOpKind.or = 6
binop_index BinOpKind.xor = 7
binop_index BinOpKind.lshift = 8
binop_index BinOpKind.rshift = 9

abbrev pub unop_index : UnOpKind → ℕ
unop_index UnOpKind.neg = 0
unop_index UnOpKind.lnot = 1
unop_index UnOpKind.bnot = 2

abbrev pub cmp_index : CmpKind → ℕ
cmp_index CmpKind.eq = 0
cmp_index CmpKind.neq = 1
cmp_index CmpKind.lt = 2
cmp_index CmpKind.gt = 3
cmp_index CmpKind.leq = 4
cmp_index CmpKind.geq = 5

-- `op` is the opcode's place in its enumeration.
pub record CseKey : Type 0 where
  pub op : ℕ
  pub binop_kind : BinOpKind
  pub unop_kind : UnOpKind
  pub cmp_kind : CmpKind
  pub operand1 : ℕ
  pub operand2 : ℕ

pub record CseEntry : Type 0 where
  pub key : CseKey
  pub vreg : ℕ

-- What `memset` leaves.
abbrev pub zero_key : CseKey
zero_key = record {
  op = 0;
  binop_kind = BinOpKind.add;
  unop_kind = UnOpKind.neg;
  cmp_kind = CmpKind.eq;
  operand1 = 0;
  operand2 = 0;
}

-- The key of a candidate.
abbrev pub key_of : Op → Option CseKey
key_of (binop k l r) = some (record zero_key { op = 1; binop_kind = k; operand1 = l; operand2 = r })
key_of (cmp k l r) = some (record zero_key { op = 6; cmp_kind = k; operand1 = l; operand2 = r })
key_of (unop k v) = some (record zero_key { op = 2; unop_kind = k; operand1 = v })
key_of o = none

abbrev pub cse_hash : CseKey → ℕ
cse_hash k =
    let kinds : ℕ =
      bit_xor
        (bit_xor (bit_xor (k.op * 31 % 2 ^ 32) (binop_index k.binop_kind * 37))
          (unop_index k.unop_kind * 41))
        (cmp_index k.cmp_kind * 43) in
    bit_xor (bit_xor kinds (k.operand1 * 53 % 2 ^ 32)) (k.operand2 * 59 % 2 ^ 32)

abbrev pub cse_key_eq : CseKey → CseKey → Bool
cse_key_eq a b =
    a.op == b.op
    && binop_index a.binop_kind == binop_index b.binop_kind
    && unop_index a.unop_kind == unop_index b.unop_kind
    && cmp_index a.cmp_kind == cmp_index b.cmp_kind
    && a.operand1 == b.operand1
    && a.operand2 == b.operand2

-- The chain of the key's bucket, up to an entry with the key.
unfoldable pub find_entry : CseKey → List CseEntry → Option ℕ
find_entry k [] = none
find_entry k (e ∷ es) =
    let rest = find_entry k es in
    if cse_hash e.key % 1024 == cse_hash k % 1024 && cse_key_eq e.key k then some e.vreg else rest

abbrev pub renamed : ℕ → ℕ → ℕ → ℕ
renamed old new v = if v == old then new else v

abbrev pub rename_args : ℕ → ℕ → List PhiArg → List PhiArg
rename_args old new [] = []
rename_args old new (a ∷ rest) = record a { src = renamed old new a.src } ∷ rename_args old new rest

-- The address of a gep is not among the uses.
abbrev pub rename_op : ℕ → ℕ → Op → Op
rename_op old new (binop k l r) = binop k (renamed old new l) (renamed old new r)
rename_op old new (unop k v) = unop k (renamed old new v)
rename_op old new (cmp k l r) = cmp k (renamed old new l) (renamed old new r)
rename_op old new (load p) = load (renamed old new p)
rename_op old new (store p v) = store (renamed old new p) (renamed old new v)
rename_op old new (branch c t f) = branch (renamed old new c) t f
rename_op old new (call f args ext) = call f (map (renamed old new) args) ext
rename_op old new (ret v) = ret (renamed old new v)
rename_op old new (phi args) = phi (rename_args old new args)
rename_op old new (print v) = print (renamed old new v)
rename_op old new o = o

abbrev pub rename_inst : ℕ → ℕ → Inst → Inst
rename_inst old new i = record i { op = rename_op old new i.op }

abbrev pub rename_block : ℕ → ℕ → Block → Block
rename_block old new b = record b { insts = map (rename_inst old new) b.insts }

-- The constant 0, for the dead code elimination behind this pass.
abbrev pub killed : Inst → Inst
killed i = record i { op = const (pos 0) }

abbrev pub put_inst : ℕ → ℕ → Inst → List Block → List Block
put_inst bi ii i [] = []
put_inst zero ii i (b ∷ bs) = record b { insts = set b.insts ii i } ∷ bs
put_inst (suc bi) ii i (b ∷ bs) = b ∷ put_inst bi ii i bs

pub record Cse : Type 0 where
  pub blocks : List Block
  pub table : List CseEntry

abbrev pub insts_of : Option Block → List Inst
insts_of none = []
insts_of (some b) = b.insts

-- A register with the same value is there, or the key is new.
abbrev pub cse_found : ℕ → ℕ → Inst → CseKey → Cse → Option ℕ → Cse
cse_found bi ii i k st (some new) = record st {
  blocks = put_inst bi ii (killed i) (map (rename_block i.dst new) st.blocks);
}
cse_found bi ii i k st none = record st { table = record { key = k; vreg = i.dst } ∷ st.table }

abbrev pub cse_candidate : ℕ → ℕ → Inst → Cse → Option CseKey → Cse
cse_candidate bi ii i st none = st
cse_candidate bi ii i st (some k) =
    if i.dst == invalid_vreg then st else cse_found bi ii i k st (find_entry k st.table)

abbrev pub cse_inst : ℕ → ℕ → Cse → Option Inst → Cse
cse_inst bi ii st none = st
cse_inst bi ii st (some i) = cse_candidate bi ii i st (key_of i.op)

-- `for (ii …)`, with the rounds that are left.
unfoldable pub cse_insts : ℕ → ℕ → ℕ → Cse → Cse
unfolding find_entry
cse_insts zero bi ii st = st
cse_insts (suc n) bi ii st =
    cse_insts n bi (suc ii) (cse_inst bi ii st (get_elem? (insts_of (get_elem? st.blocks bi)) ii))

unfoldable pub cse_blocks : ℕ → ℕ → Cse → Cse
unfolding cse_insts
cse_blocks zero bi st = st
cse_blocks (suc n) bi st =
    cse_blocks n (suc bi)
      (cse_insts (length (insts_of (get_elem? st.blocks bi))) bi 0 (record st { table = [] }))

unfoldable pub opt_cse : Func → Func
unfolding cse_blocks
opt_cse f = record f {
  blocks = (cse_blocks (length f.blocks) 0 (record { blocks = f.blocks; table = [] })).blocks;
}
