-- ===== src/Ssa/Verify.antt =====
-- The SSA verifier: src/ssa_verify.c. Only the verdict is modelled, not the messages.
pub mod WellFormed
use vortech.Prelude.{
  ℕ, suc, ◌<◌, ◌≡◌, refl, ◌↔◌, ◌⊎◌, inl, inr, Bool, true, false, not, ◌&&◌, ◌||◌, List, [], ◌∷◌,
  ◌++◌, arith, ltb, ◌==◌, All, ap, length,
}
use vortech.Ssa.{
  invalid_vreg, PhiArg, Op, const, binop, unop, load, store, gep, cmp, branch, jump, call, ret, phi,
  alloc, arena_alloc, arena_reset, print, Inst, Block, Func, is_terminator,
}

-- The loops over the arguments of a call and over the entries of a phi.
args_ok : ℕ → List ℕ → Bool
args_ok next [] = true
args_ok next (v ∷ vs) = ltb v next && args_ok next vs

phi_ok : ℕ → ℕ → List PhiArg → Bool
phi_ok next nblocks [] = true
phi_ok next nblocks (a ∷ as') = ltb a.src next && ltb a.pred nblocks && phi_ok next nblocks as'

-- The switch over the operation; `gep`, `alloc` and the like fall to its `default`.
refs_ok : ℕ → ℕ → Op → Bool
unfolding args_ok phi_ok
refs_ok next nblocks (binop k l r) = ltb l next && ltb r next
refs_ok next nblocks (unop k v) = ltb v next
refs_ok next nblocks (load p) = ltb p next
refs_ok next nblocks (store p v) = ltb p next && ltb v next
refs_ok next nblocks (cmp k l r) = ltb l next && ltb r next
refs_ok next nblocks (branch c t f) = ltb t nblocks && ltb f nblocks && ltb c next
refs_ok next nblocks (jump t) = ltb t nblocks
refs_ok next nblocks (ret v) = v == invalid_vreg || ltb v next
refs_ok next nblocks (call f args e) = args_ok next args
refs_ok next nblocks (phi as') = phi_ok next nblocks as'
refs_ok next nblocks (print v) = ltb v next
refs_ok next nblocks o = true

dst_ok : ℕ → ℕ → Bool
dst_ok next d = d == invalid_vreg || ltb d next

insts_ok : ℕ → ℕ → List Inst → Bool
unfolding refs_ok dst_ok
insts_ok next nblocks [] = true
insts_ok next nblocks (i ∷ is) =
    refs_ok next nblocks i.op && dst_ok next i.dst && insts_ok next nblocks is

-- The last instruction is a terminator, and no other one is.
terminators_ok : Inst → List Inst → Bool
terminators_ok i [] = is_terminator i.op
terminators_ok i (j ∷ is) = not (is_terminator i.op) && terminators_ok j is

unfoldable pub verify_block : ℕ → ℕ → List Inst → Bool
unfolding terminators_ok insts_ok
verify_block next nblocks [] = true
verify_block next nblocks (i ∷ is) = terminators_ok i is && insts_ok next nblocks (i ∷ is)

verify_blocks : ℕ → ℕ → List Block → Bool
unfolding verify_block
verify_blocks next nblocks [] = true
verify_blocks next nblocks (b ∷ bs) =
    verify_block next nblocks b.insts && verify_blocks next nblocks bs

unfoldable pub ssa_verify_func : Func → Bool
unfolding verify_blocks
ssa_verify_func f =
    verify_blocks f.next_vreg (length f.blocks) f.blocks && ltb f.entry (length f.blocks)

unfoldable pub ssa_verify_program : List Func → Bool
unfolding ssa_verify_func
ssa_verify_program [] = true
ssa_verify_program (f ∷ fs) = ssa_verify_func f && ssa_verify_program fs
