-- ===== src/Ssa/Verify/WellFormed.antt =====
-- What the verifier of src/ssa_verify.c accepts, said without its loops.
use vortech.Prelude.{
  ℕ, ◌<◌, ◌≡◌, refl, ◌↔◌, ◌⊎◌, Bool, true, false, ◌&&◌, List, [], ◌∷◌, arith, All, length,
}
use vortech.Ssa.{
  invalid_vreg, PhiArg, Op, binop, unop, load, store, cmp, branch, jump, call, ret, phi, print,
  Inst, Block, Func, is_terminator,
}
use vortech.Ssa.Verify.{
  args_ok, phi_ok, refs_ok, dst_ok, insts_ok, terminators_ok, verify_block, verify_blocks,
  ssa_verify_func,
}

-- What a checked operation may name: registers below `next` and blocks below `nblocks`.
abbrev pub RefsInRange : ℕ → ℕ → Op → Type 0
RefsInRange next nblocks (binop k l r) = (l < next) × (r < next)
RefsInRange next nblocks (unop k v) = v < next
RefsInRange next nblocks (load p) = p < next
RefsInRange next nblocks (store p v) = (p < next) × (v < next)
RefsInRange next nblocks (cmp k l r) = (l < next) × (r < next)
RefsInRange next nblocks (branch c t f) = (t < nblocks) × (f < nblocks) × (c < next)
RefsInRange next nblocks (jump t) = t < nblocks
RefsInRange next nblocks (ret v) = (v ≡ invalid_vreg) ⊎ (v < next)
RefsInRange next nblocks (call f args e) = All (λ v. v < next) args
RefsInRange next nblocks (phi as') = All (λ (a : PhiArg). (a.src < next) × (a.pred < nblocks)) as'
RefsInRange next nblocks (print v) = v < next
RefsInRange next nblocks o = Unit

-- An instruction's references and its destination are in range.
abbrev pub InstInRange : ℕ → ℕ → Inst → Type 0
InstInRange next nblocks i =
    RefsInRange next nblocks i.op × ((i.dst ≡ invalid_vreg) ⊎ (i.dst < next))

-- A block is empty, or a run of plain instructions and then one terminator.
pub data Terminated : List Inst → Type 0 where
  empty : Terminated []
  last : {i : Inst} → is_terminator i.op ≡ true → Terminated (i ∷ [])
  plain :
      {i j : Inst} {is : List Inst}
      → is_terminator i.op ≡ false
      → Terminated (j ∷ is)
      → Terminated (i ∷ j ∷ is)

abbrev pub IsWellFormed : Func → Type 0
IsWellFormed f =
    All
      (λ (b : Block). Terminated b.insts × All (InstInRange f.next_vreg (length f.blocks)) b.insts)
      f.blocks
    × (f.entry < length f.blocks)

&&-iff : {A B : Type 0} (a b : Bool) → (a ≡ true) ↔ A → (b ≡ true) ↔ B → ((a && b) ≡ true) ↔ (A × B)
&&-iff true b p q = (λ h. (p.0 refl, q.0 h), λ h. q.1 h.1)
&&-iff false b p q = (λ h. cc, λ h. p.1 h.0)

args_ok_iff : (next : ℕ) (vs : List ℕ) → (args_ok next vs ≡ true) ↔ All (λ v. v < next) vs
unfolding args_ok
args_ok_iff next [] = (λ _. tt, λ _. refl)
args_ok_iff next (v ∷ vs) = &&-iff _ _ (ground arith) (args_ok_iff next vs)

phi_ok_iff :
    (next nblocks : ℕ) (as' : List PhiArg)
    → (phi_ok next nblocks as' ≡ true)
      ↔ All (λ (a : PhiArg). (a.src < next) × (a.pred < nblocks)) as'
unfolding phi_ok
phi_ok_iff next nblocks [] = (λ _. tt, λ _. refl)
phi_ok_iff next nblocks (a ∷ as') = ground (arith, phi_ok_iff next nblocks as')

refs_ok_iff :
    (next nblocks : ℕ) (o : Op) → (refs_ok next nblocks o ≡ true) ↔ RefsInRange next nblocks o
unfolding refs_ok
refs_ok_iff next nblocks (binop k l r) = ground arith
refs_ok_iff next nblocks (unop k v) = ground arith
refs_ok_iff next nblocks (load p) = ground arith
refs_ok_iff next nblocks (store p v) = ground arith
refs_ok_iff next nblocks (cmp k l r) = ground arith
refs_ok_iff next nblocks (branch c t f) = ground arith
refs_ok_iff next nblocks (jump t) = ground arith
refs_ok_iff next nblocks (ret v) = ground arith
refs_ok_iff next nblocks (call f args e) = args_ok_iff next args
refs_ok_iff next nblocks (phi as') = phi_ok_iff next nblocks as'
refs_ok_iff next nblocks (print v) = ground arith
refs_ok_iff next nblocks _ = (λ _. tt, λ _. refl)

dst_ok_iff : (next d : ℕ) → (dst_ok next d ≡ true) ↔ ((d ≡ invalid_vreg) ⊎ (d < next))
unfolding dst_ok
dst_ok_iff next d = ground arith

insts_ok_iff :
    (next nblocks : ℕ) (is : List Inst)
    → (insts_ok next nblocks is ≡ true) ↔ All (InstInRange next nblocks) is
unfolding insts_ok
insts_ok_iff next nblocks [] = (λ _. tt, λ _. refl)
insts_ok_iff next nblocks (i ∷ is) =
    &&-iff _ _ (&&-iff _ _ (refs_ok_iff next nblocks i.op) (dst_ok_iff next i.dst))
      (insts_ok_iff next nblocks is)

terminators_ok→Terminated :
    (i : Inst) (is : List Inst) → terminators_ok i is ≡ true → Terminated (i ∷ is)
unfolding terminators_ok
terminators_ok→Terminated i [] h = last h
terminators_ok→Terminated i (j ∷ is) h =
    plain (ground arith) (terminators_ok→Terminated j is (ground arith))

Terminated→terminators_ok :
    {i : Inst} {is : List Inst} → Terminated (i ∷ is) → terminators_ok i is ≡ true
unfolding terminators_ok
Terminated→terminators_ok (last h) = h
Terminated→terminators_ok (plain h t) = rw (h, Terminated→terminators_ok t)

verify_block_iff :
    (next nblocks : ℕ) (is : List Inst)
    → (verify_block next nblocks is ≡ true) ↔ (Terminated is × All (InstInRange next nblocks) is)
unfolding verify_block
verify_block_iff next nblocks [] = (λ _. (empty, tt), λ _. refl)
verify_block_iff next nblocks (i ∷ is) =
    &&-iff _ _ (terminators_ok→Terminated i is, Terminated→terminators_ok)
      (insts_ok_iff next nblocks (i ∷ is))

verify_blocks_iff :
    (next nblocks : ℕ) (bs : List Block)
    → (verify_blocks next nblocks bs ≡ true)
      ↔ All (λ (b : Block). Terminated b.insts × All (InstInRange next nblocks) b.insts) bs
unfolding verify_blocks
verify_blocks_iff next nblocks [] = (λ _. tt, λ _. refl)
verify_blocks_iff next nblocks (b ∷ bs) =
    &&-iff _ _ (verify_block_iff next nblocks b.insts) (verify_blocks_iff next nblocks bs)

-- `ssa_verify_func` accepts a function exactly when its entry names a block, and every block is
-- empty or a run of plain instructions and one terminator, with every checked register, every
-- branch target and every destination in range.
pub verify_func-IsWellFormed : (f : Func) → (ssa_verify_func f ≡ true) ↔ IsWellFormed f
unfolding ssa_verify_func
verify_func-IsWellFormed f =
    &&-iff _ _ (verify_blocks_iff f.next_vreg (length f.blocks) f.blocks) (ground arith)
