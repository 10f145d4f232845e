-- ===== src/Opt/Cse/Keys.antt =====
-- The keys of src/opt_cse.c and their comparison.
use vortech.Prelude.{
  ℕ, ◌≡◌, refl, sym, ap, ◌∙◌, Bool, true, false, ◌&&◌, List, [], ◌∷◌, ◌==◌, ==_iff, get_or, ◌%◌,
  inl, inr, Bool-cases, if◌then◌else◌, Option, none, some,
}
use vortech.Ssa.{BinOpKind, UnOpKind, CmpKind}
use vortech.Opt.Cse.{
  binop_index, unop_index, cmp_index, CseKey, CseEntry, cse_hash, cse_key_eq, find_entry,
}

abbrev binop_at : ℕ → BinOpKind
binop_at n =
    get_or
      (BinOpKind.add ∷ BinOpKind.sub ∷ BinOpKind.mul ∷ BinOpKind.div ∷ BinOpKind.mod_
        ∷ BinOpKind.and ∷ BinOpKind.or ∷ BinOpKind.xor ∷ BinOpKind.lshift ∷ BinOpKind.rshift ∷ [])
      n BinOpKind.add

binop_at-binop_index : (k : BinOpKind) → binop_at (binop_index k) ≡ k
binop_at-binop_index BinOpKind.add = refl
binop_at-binop_index BinOpKind.sub = refl
binop_at-binop_index BinOpKind.mul = refl
binop_at-binop_index BinOpKind.div = refl
binop_at-binop_index BinOpKind.mod_ = refl
binop_at-binop_index BinOpKind.and = refl
binop_at-binop_index BinOpKind.or = refl
binop_at-binop_index BinOpKind.xor = refl
binop_at-binop_index BinOpKind.lshift = refl
binop_at-binop_index BinOpKind.rshift = refl

abbrev unop_at : ℕ → UnOpKind
unop_at n = get_or (UnOpKind.neg ∷ UnOpKind.lnot ∷ UnOpKind.bnot ∷ []) n UnOpKind.neg

unop_at-unop_index : (k : UnOpKind) → unop_at (unop_index k) ≡ k
unop_at-unop_index UnOpKind.neg = refl
unop_at-unop_index UnOpKind.lnot = refl
unop_at-unop_index UnOpKind.bnot = refl

abbrev cmp_at : ℕ → CmpKind
cmp_at n =
    get_or (CmpKind.eq ∷ CmpKind.neq ∷ CmpKind.lt ∷ CmpKind.gt ∷ CmpKind.leq ∷ CmpKind.geq ∷ []) n
      CmpKind.eq

cmp_at-cmp_index : (k : CmpKind) → cmp_at (cmp_index k) ≡ k
cmp_at-cmp_index CmpKind.eq = refl
cmp_at-cmp_index CmpKind.neq = refl
cmp_at-cmp_index CmpKind.lt = refl
cmp_at-cmp_index CmpKind.gt = refl
cmp_at-cmp_index CmpKind.leq = refl
cmp_at-cmp_index CmpKind.geq = refl

pub and_both : (a b : Bool) → (a && b) ≡ true → (a ≡ true) × (b ≡ true)
and_both true b h = (refl, h)
and_both false b h = cc

-- Keys that the test takes for equal have the same fields.
pub cse_key_eq-same : (a b : CseKey) → cse_key_eq a b ≡ true → a ≡ b
cse_key_eq-same a b h =
    let (h₅, o2) = and_both _ (a.operand2 == b.operand2) h in
    let (h₄, o1) = and_both _ (a.operand1 == b.operand1) h₅ in
    let (h₃, c) = and_both _ (cmp_index a.cmp_kind == cmp_index b.cmp_kind) h₄ in
    let (h₂, u) = and_both _ (unop_index a.unop_kind == unop_index b.unop_kind) h₃ in
    let (o, k) =
      and_both (a.op == b.op) (binop_index a.binop_kind == binop_index b.binop_kind) h₂ in
    let op : a.op ≡ b.op = (==_iff a.op b.op).0 o in
    let operand1 : a.operand1 ≡ b.operand1 = (==_iff a.operand1 b.operand1).0 o1 in
    let operand2 : a.operand2 ≡ b.operand2 = (==_iff a.operand2 b.operand2).0 o2 in
    let kinds : a.binop_kind ≡ b.binop_kind =
      sym (binop_at-binop_index a.binop_kind)
      ∙ ap binop_at ((==_iff _ _).0 k)
      ∙ binop_at-binop_index b.binop_kind in
    let unops : a.unop_kind ≡ b.unop_kind =
      sym (unop_at-unop_index a.unop_kind)
      ∙ ap unop_at ((==_iff _ _).0 u)
      ∙ unop_at-unop_index b.unop_kind in
    let cmps : a.cmp_kind ≡ b.cmp_kind =
      sym (cmp_at-cmp_index a.cmp_kind)
      ∙ ap cmp_at ((==_iff _ _).0 c)
      ∙ cmp_at-cmp_index b.cmp_kind in
    cc (op, operand1, operand2, kinds, unops, cmps)

-- The first entry with the key, whatever its bucket.
abbrev pub first_entry : CseKey → List CseEntry → Option ℕ
first_entry k [] = none
first_entry k (e ∷ es) =
    let rest = first_entry k es in if cse_key_eq e.key k then some e.vreg else rest

and_false : (b : Bool) → (b && false) ≡ false
and_false true = refl
and_false false = refl

-- The hash hides no entry: what the search of a key's bucket finds is the latest entry with that
-- key in the whole table.
pub find_entry-first_entry : (k : CseKey) (es : List CseEntry) → find_entry k es ≡ first_entry k es
unfolding find_entry
find_entry-first_entry k [] = refl
find_entry-first_entry k (e ∷ es) = elim (Bool-cases (cse_key_eq e.key k)) [
  | inl t ↦
      let same = ap (λ x. cse_hash x % 1024) (cse_key_eq-same e.key k t) in
      rw (t, (==_iff _ _).1 same) refl
  | inr f ↦
      rw (f, and_false (cse_hash e.key % 1024 == cse_hash k % 1024)) (find_entry-first_entry k es)
]
