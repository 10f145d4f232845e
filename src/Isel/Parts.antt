-- ===== src/Isel/Parts.antt =====
-- The SSA functions that src/isel.c is meant for, and the code of one of their blocks: phis, the
-- operations of `Straight`, and a terminator.
use vortech.Prelude.{
  ℕ, zero, suc, ◌+◌, ◌<◌, ◌≡◌, ◌≢◌, refl, sym, ap, ◌∙◌, ◌⊎◌, Option, none, some, List, [], ◌∷◌,
  ◌++◌, length, get_elem?, some-inj, All, All-map, All-append, arith,
}
use mathlib.Core.List.{append-nil, append_assoc}
use vortech.Mach.{Width, MachInst}
use vortech.Ssa.{
  PhiArg, Op, branch, jump, ret, phi, const, binop, unop, cmp, gep, call, Inst, Block, Func,
}
use vortech.Isel.Lower.{lower, lower_insts, label_inst, select_block, select_blocks}
use vortech.Isel.Edges.{PhiCopy, phi_args}
use vortech.Isel.Split.{last?}
use vortech.Isel.Collected.{arg_copies, inst_copies}
use vortech.Isel.Straight.{IsStraight, IsPhi, IsPlain, lower-IsPlain}
use vortech.Isel.Patched.{NotCond}
use vortech.Isel.Shapes.{block}
use vortech.Isel.Copies.{OneFrom}

pub record IsParted (b : Block) : Type 0 where
  pub phis : List Inst
  pub body : List Inst
  pub last : Inst
  pub parts : b.insts ≡ phis ++ (body ++ last ∷ [])
  pub phi_law : All (λ (i : Inst). IsPhi i.op) phis
  pub straight_law : All (λ (i : Inst). IsStraight i.op) body

abbrev pub block_copies : ℕ → Option Block → List PhiCopy
block_copies p none = []
block_copies p (some b) = inst_copies p b.insts

abbrev pub phi_copies : List Block → (p q : ℕ) → List PhiCopy
phi_copies bs p q = block_copies p (get_elem? bs q)

-- The block `q` is there, and its phis have one entry from the block `p` each.
abbrev pub Enters : List Block → (p q : ℕ) → Type 0
Enters bs p q = (b : Block) × (get_elem? bs q ≡ some b) × All (λ (i : Inst). OneFrom p i.op) b.insts

-- A terminator of the block `p` whose targets are entered from `p`. A branch has two targets, and
-- if both have copies, the first is the earlier block.
abbrev pub Leaves : List Block → ℕ → Op → Type 0
Leaves bs p (jump t) = Enters bs p t
Leaves bs p (branch c t f) =
    Enters bs p t
    × Enters bs p f
    × (t ≢ f)
    × ((t < f) ⊎ ((phi_copies bs p t ≡ []) ⊎ (phi_copies bs p f ≡ [])))
Leaves bs p (ret v) = Unit
Leaves bs p o = ⊥

-- No phi reads a register that a phi in front of it writes.
abbrev pub Apart : List Inst → Type 0
Apart [] = Unit
Apart (i ∷ is) =
    All (λ (j : Inst). All (λ (a : PhiArg). a.src ≢ i.dst) (phi_args j.op)) is × Apart is

pub record IsSelectable (f : Func) : Type 0 where
  pub parted :
      (p : ℕ) (b : Block)
      → get_elem? f.blocks p ≡ some b
      → (parts : IsParted b) × Apart parts.phis × Leaves f.blocks p parts.last.op
  pub entry_law :
      (b : Block) → get_elem? f.blocks f.entry ≡ some b → All (λ (i : Inst). IsPhi i.op → ⊥) b.insts

get_elem?-select_blocks :
    (width_at : ℕ → ℕ → Width) (bi : ℕ) (bs : List Block) (p : ℕ) {b : Block}
    → get_elem? bs p ≡ some b
    → get_elem? (select_blocks width_at bi bs) p ≡ some (select_block (width_at (bi + p)) b)
unfolding select_blocks
get_elem?-select_blocks width_at bi [] p at = cc
get_elem?-select_blocks width_at bi (b' ∷ bs) zero {b} at =
    ap (λ x. some (select_block (width_at bi) x)) (some-inj at)
    ∙ ap (λ j. some (select_block (width_at j) b)) (omega arith)
get_elem?-select_blocks width_at bi (b' ∷ bs) (suc p) {b} at =
    get_elem?-select_blocks width_at (suc bi) bs p at
    ∙ ap (λ j. some (select_block (width_at j) b)) (omega arith)

lower_insts-append :
    (width : ℕ → Width) (ii : ℕ) (xs ys : List Inst)
    → lower_insts width ii (xs ++ ys)
      ≡ lower_insts width ii xs ++ lower_insts width (ii + length xs) ys
lower_insts-append width ii [] ys = ap (λ j. lower_insts width j ys) (omega arith)
lower_insts-append width ii (x ∷ xs) ys =
    ap (λ l. lower x.op x.dst (width ii) ++ l)
      (lower_insts-append width (suc ii) xs ys
        ∙ ap (λ j. lower_insts width (suc ii) xs ++ lower_insts width j ys) (omega arith))
    ∙ sym (append_assoc (lower x.op x.dst (width ii)) (lower_insts width (suc ii) xs) _)

lower-phi : (o : Op) (d : ℕ) (w : Width) → IsPhi o → lower o d w ≡ []
lower-phi (phi args) d w h = refl
lower-phi o d w h = elim h [ ]

lower_insts-phis :
    (width : ℕ → Width) (ii : ℕ) (is : List Inst)
    → All (λ (i : Inst). IsPhi i.op) is
    → lower_insts width ii is ≡ []
lower_insts-phis width ii [] h = refl
lower_insts-phis width ii (i ∷ is) h =
    ap (λ l. l ++ lower_insts width (suc ii) is) (lower-phi i.op i.dst (width ii) h.0)
    ∙ lower_insts-phis width (suc ii) is h.1

lower_insts-IsPlain :
    (width : ℕ → Width) (ii : ℕ) (is : List Inst)
    → All (λ (i : Inst). IsStraight i.op) is
    → All IsPlain (lower_insts width ii is)
lower_insts-IsPlain width ii [] h = tt
lower_insts-IsPlain width ii (i ∷ is) h =
    All-append IsPlain (lower i.op i.dst (width ii)) (lower_insts width (suc ii) is)
      (lower-IsPlain i.op i.dst (width ii) h.0) (lower_insts-IsPlain width (suc ii) is h.1)

NotCond-IsPlain :
    (x : MachInst) (is : List MachInst) → IsPlain x → All IsPlain is → NotCond (last? (x ∷ is))
NotCond-IsPlain x [] h hs = h.1
NotCond-IsPlain x (y ∷ is) h hs = NotCond-IsPlain y is hs.0 hs.1

straight-phi_args : (o : Op) → IsStraight o → phi_args o ≡ []
straight-phi_args (const c) h = refl
straight-phi_args (binop k l r) h = refl
straight-phi_args (unop k v) h = refl
straight-phi_args (cmp k l r) h = refl
straight-phi_args (gep p o) h = refl
straight-phi_args (call f args e) h = refl
straight-phi_args o h = elim h [ ]

pub Leaves-phi_args : (bs : List Block) (p : ℕ) (o : Op) → Leaves bs p o → phi_args o ≡ []
Leaves-phi_args bs p (jump t) h = refl
Leaves-phi_args bs p (branch c t f) h = refl
Leaves-phi_args bs p (ret v) h = refl
Leaves-phi_args bs p o h = elim h [ ]

inst_copies-append :
    (p : ℕ) (xs ys : List Inst) → inst_copies p (xs ++ ys) ≡ inst_copies p xs ++ inst_copies p ys
inst_copies-append p [] ys = refl
inst_copies-append p (x ∷ xs) ys =
    ap (λ l. arg_copies p x.dst (phi_args x.op) ++ l) (inst_copies-append p xs ys)
    ∙ sym (append_assoc (arg_copies p x.dst (phi_args x.op)) (inst_copies p xs) _)

inst_copies-straight :
    (p : ℕ) (is : List Inst) → All (λ (i : Inst). phi_args i.op ≡ []) is → inst_copies p is ≡ []
inst_copies-straight p [] h = refl
inst_copies-straight p (i ∷ is) h =
    ap (λ l. arg_copies p i.dst l ++ inst_copies p is) h.0 ∙ inst_copies-straight p is h.1

module _ {b : Block} (s : IsParted b) where
  -- The code in front of the terminator's.
  abbrev pub front : (ℕ → Width) → List MachInst
  front width = label_inst ∷ lower_insts width (0 + length s.phis) s.body

  select_block-insts :
      (width : ℕ → Width)
      → (w : Width) × ((select_block width b).insts ≡ front width ++ lower s.last.op s.last.dst w)
  select_block-insts width =
      let j = 0 + length s.phis in
      (
        width (j + length s.body),
        ap (λ is. label_inst ∷ lower_insts width 0 is) s.parts
            ∙ ap (λ is. label_inst ∷ is)
                (lower_insts-append width 0 s.phis (s.body ++ s.last ∷ [])
                  ∙ ap (λ l. l ++ lower_insts width j (s.body ++ s.last ∷ []))
                      (lower_insts-phis width 0 s.phis s.phi_law)
                  ∙ lower_insts-append width j s.body (s.last ∷ [])
                  ∙ ap (λ l. lower_insts width j s.body ++ l) (append-nil _)),
      )

  pub front-NotCond : (width : ℕ → Width) → NotCond (last? (front width))
  front-NotCond width =
      NotCond-IsPlain label_inst _ (refl, refl)
        (lower_insts-IsPlain width (0 + length s.phis) s.body s.straight_law)

  pub inst_copies-phis :
      (p : ℕ) → phi_args s.last.op ≡ [] → inst_copies p b.insts ≡ inst_copies p s.phis
  inst_copies-phis p h =
      ap (inst_copies p) s.parts
      ∙ inst_copies-append p s.phis (s.body ++ s.last ∷ [])
      ∙ ap (λ l. inst_copies p s.phis ++ l)
          (inst_copies-straight p (s.body ++ s.last ∷ []) (
            All-append (λ (i : Inst). phi_args i.op ≡ []) s.body (s.last ∷ [])
              (All-map _ (λ (i : Inst) k. straight-phi_args i.op k) s.body s.straight_law) (h, tt)))
      ∙ append-nil (inst_copies p s.phis)

  -- The block in the result of the first pass.
  pub selected_at :
      (width_at : ℕ → ℕ → Width) (bs : List Block) (p : ℕ)
      → get_elem? bs p ≡ some b
      → let width = width_at (0 + p) in
        (w : Width) × (get_elem? (select_blocks width_at 0 bs) p
          ≡ some (block b.label (front width ++ lower s.last.op s.last.dst w)))
  selected_at width_at bs p at =
      let (w, insts) = select_block-insts (width_at (0 + p)) in
      (w, get_elem?-select_blocks width_at 0 bs p at ∙ ap (λ is. some (block b.label is)) insts)
