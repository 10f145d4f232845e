-- ===== src/Opt/ConstFold/Values.antt =====
-- Constant folding keeps the values of registers, but for its identity rewrites.
-- A register file gives each register the value that it has wherever it is defined.
use vortech.Prelude.{
  ℕ, ◌≡◌, ◌∙◌, inl, inr, Bool, true, some, List, [], ◌∷◌, arith, ◌==◌, if◌then◌else◌, All,
  Option-cases,
}
use vortech.Prelude.Int.{ℤ, pos}
use vortech.Ssa.{BinOpKind, Op, const, binop, unop, cmp, Inst, Block, Func}
use vortech.Ssa.Int64.{Host, eq_ℤ}
use vortech.Ssa.Arith.{BinopLaw, UnopLaw, CmpLaw}
use vortech.Opt.ConstFold.{const_of, const_at, find_insts, find_blocks, is_const_val}

abbrev pub Values : Type 0
Values = ℕ → ℤ

-- The predicate holds of every instruction of the function.
abbrev pub AllInsts : (Inst → Type 0) → Func → Type 0
AllInsts P f = All (λ (b : Block). All P b.insts) f.blocks

module _ (h : Host) (ρ : Values) where
  -- The register that the instruction defines has a value that the law of the operation allows.
  abbrev pub HoldsOp : ℕ → Op → Type 0
  HoldsOp d (const c) = ρ d ≡ c
  HoldsOp d (binop k l r) = BinopLaw h k (ρ l) (ρ r) (ρ d)
  HoldsOp d (unop k v) = UnopLaw h k (ρ v) (ρ d)
  HoldsOp d (cmp k l r) = CmpLaw k (ρ l) (ρ r) (ρ d)
  HoldsOp d o = Unit

  abbrev pub Holds : Inst → Type 0
  Holds i = HoldsOp i.dst i.op

  -- Nothing but 0 is added to 0 or has 0 subtracted from it, and nothing but 1 is multiplied by 1.
  abbrev pub harmless_op : Op → Bool
  harmless_op (binop BinOpKind.add l r) = if eq_ℤ (ρ r) (pos 0) then eq_ℤ (ρ l) (pos 0) else true
  harmless_op (binop BinOpKind.sub l r) = if eq_ℤ (ρ r) (pos 0) then eq_ℤ (ρ l) (pos 0) else true
  harmless_op (binop BinOpKind.mul l r) = if eq_ℤ (ρ r) (pos 1) then eq_ℤ (ρ l) (pos 1) else true
  harmless_op o = true

  abbrev pub Harmless : Inst → Type 0
  Harmless i = harmless_op i.op ≡ true

  const_of-Holds : (v d : ℕ) (o : Op) {c : ℤ} → HoldsOp d o → const_of o (d == v) ≡ some c → ρ v ≡ c
  const_of-Holds v d (const a) p q = ground arith
  const_of-Holds v d _ p q = cc

  const_at-Holds : (v : ℕ) (i : Inst) {c : ℤ} → Holds i → const_at v i ≡ some c → ρ v ≡ c
  unfolding const_at
  const_at-Holds v i p q = const_of-Holds v i.dst i.op p q

  find_insts-Holds :
      (v : ℕ) (is : List Inst) {c : ℤ} → All Holds is → find_insts v is ≡ some c → ρ v ≡ c
  unfolding find_insts
  find_insts-Holds v [] p q = cc
  find_insts-Holds v (i ∷ is) p q = elim (Option-cases (const_at v i)) [
    | inl e ↦ find_insts-Holds v is p.1 (rw e at q)
    | inr (c, e) ↦ const_at-Holds v i p.0 (e ∙ (rw e at q))
  ]

  find_blocks-Holds :
      (v : ℕ) (bs : List Block) {c : ℤ}
      → All (λ (b : Block). All Holds b.insts) bs
      → find_blocks v bs ≡ some c
      → ρ v ≡ c
  unfolding find_blocks
  find_blocks-Holds v [] p q = cc
  find_blocks-Holds v (b ∷ bs) p q = elim (Option-cases (find_insts v b.insts)) [
    | inl e ↦ find_blocks-Holds v bs p.1 (rw e at q)
    | inr (c, e) ↦ find_insts-Holds v b.insts p.0 (e ∙ (rw e at q))
  ]

  -- A constant that the search finds is the register's value.
  pub is_const_val-Holds :
      (f : Func) (v : ℕ) {c : ℤ} → AllInsts Holds f → is_const_val f v ≡ some c → ρ v ≡ c
  unfolding is_const_val
  is_const_val-Holds f v p q = find_blocks-Holds v f.blocks p (ground arith)
