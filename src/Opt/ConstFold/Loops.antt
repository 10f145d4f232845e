-- ===== src/Opt/ConstFold/Loops.antt =====
-- The passes over the function keep the values of registers.
use vortech.Prelude.{
  ℕ, zero, suc, ◌≡◌, refl, sym, ◌∙◌, ◌≢◌, ◌⊎◌, inl, inr, Bool, true, false, none, some, arith,
  get_elem?, length, All, All-set, All-get_elem?, Bool-cases, Option-cases,
}
use vortech.Prelude.Int.{ℤ, pos, ◌+ℤ◌, ◌-ℤ◌}
use vortech.Ssa.{BinOpKind, binop, Block, Func}
use vortech.Ssa.Int64.{Host, fold_binop, in_int64}
use vortech.Ssa.Determined.{BinopLaw-fold_binop}
use vortech.Opt.ConstFold.{
  is_const_val, identity, binop_rule, fold_op, fold_at, fold_insts, fold_blocks, const_fold_loop,
  opt_const_fold, ninsts,
}
use vortech.Opt.ConstFold.Values.{Values, AllInsts, HoldsOp}
use vortech.Opt.ConstFold.Rules.{Sound, fold_op-Sound}

module _ (h : Host) (ρ : Values) where
  fold_at-Sound :
      (f : Func) (bi ii : ℕ) → AllInsts (Sound h ρ) f → AllInsts (Sound h ρ) (fold_at h f bi ii).0
  unfolding fold_at
  fold_at-Sound f bi ii all = elim (Option-cases (get_elem? f.blocks bi)) [
    | inl e ↦ rw e all
    | inr (b, e) ↦
        let sound : All (Sound h ρ) b.insts =
          All-get_elem? (λ (c : Block). All (Sound h ρ) c.insts) f.blocks bi all e in
        elim (Option-cases (get_elem? b.insts ii)) [
          | inl e' ↦ rw (e, e') all
          | inr (i, e') ↦
              rw (e, e')
                (All-set (λ (c : Block). All (Sound h ρ) c.insts) f.blocks bi _ all
                  (All-set (Sound h ρ) b.insts ii _ sound (
                    fold_op-Sound h ρ f i.dst i.op all
                      (All-get_elem? (Sound h ρ) b.insts ii sound e'))))
        ]
  ]

  fold_insts-Sound :
      (n bi ii : ℕ) (s : Func × Bool)
      → AllInsts (Sound h ρ) s.0
      → AllInsts (Sound h ρ) (fold_insts h n bi ii s).0
  unfolding fold_insts
  fold_insts-Sound zero bi ii s all = all
  fold_insts-Sound (suc n) bi ii s all =
      fold_insts-Sound n bi (suc ii) _ (fold_at-Sound s.0 bi ii all)

  fold_blocks-Sound :
      (n bi : ℕ) (s : Func × Bool)
      → AllInsts (Sound h ρ) s.0
      → AllInsts (Sound h ρ) (fold_blocks h n bi s).0
  unfolding fold_blocks
  fold_blocks-Sound zero bi s all = all
  fold_blocks-Sound (suc n) bi s all =
      fold_blocks-Sound n (suc bi) _ (fold_insts-Sound (ninsts s.0 bi) bi 0 s all)

  const_fold_loop-Sound :
      (n : ℕ) (f : Func) → AllInsts (Sound h ρ) f → AllInsts (Sound h ρ) (const_fold_loop h n f)
  unfolding const_fold_loop
  const_fold_loop-Sound zero f all = all
  const_fold_loop-Sound (suc n) f all =
      let r = fold_blocks h (length f.blocks) 0 (f, false) in
      let next = fold_blocks-Sound (length f.blocks) 0 (f, false) all in
      elim (Bool-cases r.1) [
        | inl again ↦ rw (again, const_fold_loop) (const_fold_loop-Sound n r.0 next)
        | inr stop ↦ rw (stop, const_fold_loop) next
      ]

-- Constant folding keeps the values of the registers: if a register file satisfies every
-- arithmetic instruction of the function, and nothing but 0 is added to 0 or has 0 subtracted
-- from it and nothing but 1 is multiplied by 1, then it satisfies every arithmetic instruction of
-- the folded function, and the same holds of what is added and multiplied there.
pub opt_const_fold-Sound :
    (h : Host) (ρ : Values) (f : Func)
    → AllInsts (Sound h ρ) f
    → AllInsts (Sound h ρ) (opt_const_fold h f)
unfolding opt_const_fold
opt_const_fold-Sound h ρ f all = const_fold_loop-Sound h ρ 10 f all

fold_zero-eq :
    (h : Host) (k : BinOpKind) (v : ℤ)
    → (k ≡ BinOpKind.add) ⊎ (k ≡ BinOpKind.sub)
    → in_int64 v ≡ true
    → (fold_binop h k v (pos 0) ≡ v) × (identity k (pos 0) ≡ some (pos 0))
unfolding fold_binop ◌+ℤ◌ ◌-ℤ◌ identity
fold_zero-eq h k v (inl e) range = rw e (ground arith)
fold_zero-eq h k v (inr e) range = rw e (ground arith)

fold_op-binop :
    (h : Host) (f : Func) (k : BinOpKind) (x y : ℕ)
    → fold_op h f (binop k x y) ≡ binop_rule h (binop k x y) k (is_const_val f x) (is_const_val f y)
unfolding fold_op
fold_op-binop h f k x y = refl

-- Where `y` is the constant 0 and `x` is not a constant, folding `d = x + y` or `d = x - y` gives
-- an instruction that is wrong at every register file in which `x` is not 0 and `d` has the right
-- value.
pub fold_zero-wrong :
    (h : Host) (ρ : Values) (f : Func) (d x y : ℕ) (k : BinOpKind)
    → (k ≡ BinOpKind.add) ⊎ (k ≡ BinOpKind.sub)
    → is_const_val f x ≡ none
    → is_const_val f y ≡ some (pos 0)
    → in_int64 (ρ x) ≡ true
    → ρ x ≢ pos 0
    → ρ y ≡ pos 0
    → HoldsOp h ρ d (binop k x y)
    → ¬ HoldsOp h ρ d (fold_op h f (binop k x y)).0
unfolding binop_rule
fold_zero-wrong h ρ f d x y k kind ex ey range ne ez p q =
    let (same, zero_rule) = fold_zero-eq h k (ρ x) kind range in
    let law = BinopLaw-fold_binop h k (ρ x) (ρ y) (ρ d) p in
    let value : ρ d ≡ ρ x = law ∙ (rw ez same) in
    let folded : ρ d ≡ pos 0 = rw (fold_op-binop h f k x y, ex, ey, zero_rule) at q in
    ne (sym value ∙ folded)
