-- ===== src/Opt/ConstFold/Rules.antt =====
-- Rewriting one operation keeps the values of registers, but for the identity rewrites.
use mathlib.Core.Option
use vortech.Prelude.{
  arith, ℕ, ◌≡◌, refl, inl, inr, Bool, true, false, Option, none, some, if◌then◌else◌, All, All-map,
  Bool-cases,
}
use vortech.Prelude.Int.{ℤ, pos, ◌+ℤ◌, ◌-ℤ◌, ◌*ℤ◌}
use vortech.Ssa.Arith.{BinopLaw}
use vortech.Ssa.Determined.{BinopLaw-fold_binop, UnopLaw-fold_unop, CmpLaw-fold_cmp}
use vortech.Ssa.{BinOpKind, UnOpKind, CmpKind, Op, binop, unop, cmp, Inst, Block, Func}
use vortech.Ssa.Int64.{eq_of_eq_ℤ, Host, eq_ℤ, fold_unop, fold_cmp, of_bool}
use vortech.Opt.ConstFold.{is_const_val, identity, replaced, map₂, binop_rule, fold_op}
use vortech.Opt.ConstFold.Values.{
  Values, AllInsts, HoldsOp, Holds, harmless_op, Harmless, is_const_val-Holds,
}

module _ (h : Host) (ρ : Values) where
  -- One identity rewrite: the constant `c`, as left operand too, gives itself.
  identity_case :
      (d : ℕ) (k : BinOpKind) (l r : ℕ) (b c : ℤ)
      → ((v : ℤ) → BinopLaw h k c c v → v ≡ c)
      → ρ r ≡ b
      → HoldsOp h ρ d (binop k l r)
      → (if eq_ℤ (ρ r) c then eq_ℤ (ρ l) c else true) ≡ true
      → HoldsOp h ρ d (replaced (binop k l r) (if eq_ℤ b c then some c else none) false).0
  identity_case d k l r b c unit e p q = elim (Bool-cases (eq_ℤ b c)) [
    | inl same ↦
        let eb : b ≡ c = eq_of_eq_ℤ b c same in
        let el : ρ l ≡ c = eq_of_eq_ℤ (ρ l) c (rw (e, same) at q) in
        rw same (unit (ρ d) (rw (el, e, eb) at p))
    | inr other ↦ rw other p
  ]

  identity-Holds :
      (d : ℕ) (k : BinOpKind) (l r : ℕ) (b : ℤ)
      → ρ r ≡ b
      → HoldsOp h ρ d (binop k l r)
      → harmless_op h ρ (binop k l r) ≡ true
      → HoldsOp h ρ d (replaced (binop k l r) (identity k b) false).0
  unfolding identity ◌+ℤ◌ ◌-ℤ◌ ◌*ℤ◌
  identity-Holds d BinOpKind.add l r b e p q =
      identity_case d BinOpKind.add l r b (pos 0) (λ v law. law.0 (omega arith, omega arith)) e p q
  identity-Holds d BinOpKind.sub l r b e p q =
      identity_case d BinOpKind.sub l r b (pos 0) (λ v law. law.0 (omega arith, omega arith)) e p q
  identity-Holds d BinOpKind.mul l r b e p q =
      identity_case d BinOpKind.mul l r b (pos 1) (λ v law. law.0 (omega arith, omega arith)) e p q
  identity-Holds d _ l r b e p q = p

  binop_rule-Holds :
      (d : ℕ) (k : BinOpKind) (l r : ℕ) (a b : Option ℤ)
      → ((c : ℤ) → a ≡ some c → ρ l ≡ c)
      → ((c : ℤ) → b ≡ some c → ρ r ≡ c)
      → HoldsOp h ρ d (binop k l r)
      → harmless_op h ρ (binop k l r) ≡ true
      → HoldsOp h ρ d (binop_rule h (binop k l r) k a b).0
  unfolding binop_rule
  binop_rule-Holds d k l r (some a) (some b) fa fb p q =
      BinopLaw-fold_binop h k a b (ρ d) (rw (← fa a refl, ← fb b refl) p)
  binop_rule-Holds d k l r none (some b) fa fb p q = identity-Holds d k l r b (fb b refl) p q
  binop_rule-Holds d k l r none none fa fb p q = p
  binop_rule-Holds d k l r (some a) none fa fb p q = p

  -- What an instruction says of the values, with the proviso on the identity rewrites.
  abbrev pub Sound : Inst → Type 0
  Sound i = Holds h ρ i × Harmless h ρ i

  map₂-Holds :
      (k : CmpKind) (l r : ℕ) (a b : Option ℤ) (d : ℕ)
      → ((c : ℤ) → a ≡ some c → ρ l ≡ c)
      → ((c : ℤ) → b ≡ some c → ρ r ≡ c)
      → HoldsOp h ρ d (cmp k l r)
      → HoldsOp h ρ d (replaced (cmp k l r) (map₂ (λ x y. of_bool (fold_cmp k x y)) a b) true).0
  map₂-Holds k l r (some a) (some b) d fa fb p =
      CmpLaw-fold_cmp k a b (ρ d) (rw (← fa a refl, ← fb b refl) p)
  map₂-Holds k l r none b d fa fb p = p
  map₂-Holds k l r (some a) none d fa fb p = p

  unop-Holds :
      (k : UnOpKind) (v : ℕ) (a : Option ℤ) (d : ℕ)
      → ((c : ℤ) → a ≡ some c → ρ v ≡ c)
      → HoldsOp h ρ d (unop k v)
      → HoldsOp h ρ d (replaced (unop k v) (Option.map (fold_unop h k) a) true).0
  unop-Holds k v (some a) d fa p = UnopLaw-fold_unop h k a (ρ d) (rw (← fa a refl) p)
  unop-Holds k v none d fa p = p

  -- The part of the predicate that the search reads.
  AllInsts-Holds : (f : Func) → AllInsts Sound f → AllInsts (Holds h ρ) f
  AllInsts-Holds f all =
      All-map (λ (b : Block). All Sound b.insts) (λ b s. All-map Sound (λ i t. t.0) b.insts s)
        f.blocks all

  is_const_val-Sound :
      (f : Func) (v : ℕ) {c : ℤ} → AllInsts Sound f → is_const_val f v ≡ some c → ρ v ≡ c
  is_const_val-Sound f v all q = is_const_val-Holds h ρ f v (AllInsts-Holds f all) q

  replaced-harmless :
      (o : Op) (a : Option ℤ) (b : Bool)
      → harmless_op h ρ o ≡ true
      → harmless_op h ρ (replaced o a b).0 ≡ true
  replaced-harmless o none b q = q
  replaced-harmless o (some c) b q = refl

  binop_rule-harmless :
      (o : Op) (k : BinOpKind) (a b : Option ℤ)
      → harmless_op h ρ o ≡ true
      → harmless_op h ρ (binop_rule h o k a b).0 ≡ true
  unfolding binop_rule
  binop_rule-harmless o k (some a) (some b) q = refl
  binop_rule-harmless o k none (some b) q = replaced-harmless o (identity k b) false q
  binop_rule-harmless o k none none q = q
  binop_rule-harmless o k (some a) none q = q

  pub fold_op-Sound :
      (f : Func) (d : ℕ) (o : Op)
      → AllInsts Sound f
      → HoldsOp h ρ d o × (harmless_op h ρ o ≡ true)
      → HoldsOp h ρ d (fold_op h f o).0 × (harmless_op h ρ (fold_op h f o).0 ≡ true)
  unfolding fold_op
  fold_op-Sound f d (binop k l r) all s = (
    binop_rule-Holds d k l r (is_const_val f l) (is_const_val f r)
        (λ c e. is_const_val-Sound f l all e) (λ c e. is_const_val-Sound f r all e) s.0 s.1,
    binop_rule-harmless (binop k l r) k (is_const_val f l) (is_const_val f r) s.1,
  )
  fold_op-Sound f d (cmp k l r) all s = (
    map₂-Holds k l r (is_const_val f l) (is_const_val f r) d (λ c e. is_const_val-Sound f l all e)
        (λ c e. is_const_val-Sound f r all e) s.0,
    replaced-harmless (cmp k l r) (map₂ _ (is_const_val f l) (is_const_val f r)) true refl,
  )
  fold_op-Sound f d (unop k v) all s = (
    unop-Holds k v (is_const_val f v) d (λ c e. is_const_val-Sound f v all e) s.0,
    replaced-harmless (unop k v) (Option.map (fold_unop h k) (is_const_val f v)) true refl,
  )
  fold_op-Sound f d _ all s = s
