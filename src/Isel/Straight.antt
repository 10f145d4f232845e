-- ===== src/Isel/Straight.antt =====
-- The operations that stay in a block, as src/isel.c lowers them, on virtual registers.
use vortech.Prelude.{
  ℕ, suc, ◌≡◌, refl, sym, ap, ◌∙◌, Bool, true, false, Bool-cases, inl, inr, String, List, [], subst,
  ◌∷◌, ◌++◌, map, ◌==◌, All, if_both, arith,
}
use mathlib.Core.List.{append_assoc}
use mathlib.Core.Path.{fun_ext}
use vortech.Prelude.Int.{pos}
use vortech.Lexer.Kinds.{codes}
use vortech.Ssa.{
  invalid_vreg, BinOpKind, UnOpKind, CmpKind, Op, const, binop, unop, cmp, gep, call, phi, Inst,
}
use vortech.Ssa.Run.{Machine, Env, write, perform}
use vortech.Mach.{Width, MachInst}
use vortech.Isel.Lower.{lower, lower_insts, binop_code, set_code}
use vortech.Isel.Split.{is_jmp, is_cond}
use vortech.Isel.Vregs.{Vregs, exec_insts}

-- An operation on registers, or a call. `load` and `store` are not among them: they are lowered to
-- moves between registers; nor are the operations whose lowering writes to the register 0.
abbrev pub IsStraight : Op → Type 0
IsStraight (const c) = Unit
IsStraight (binop k l r) = Unit
IsStraight (unop k v) = Unit
IsStraight (cmp k l r) = Unit
IsStraight (gep p o) = Unit
IsStraight (call f args e) = Unit
IsStraight o = ⊥

abbrev pub IsPhi : Op → Type 0
IsPhi (phi args) = Unit
IsPhi o = ⊥

-- Neither kind of jump.
abbrev pub IsPlain : MachInst → Type 0
IsPlain i = (is_jmp i.op ≡ false) × (is_cond i.op ≡ false)

binop_code-plain :
    (k : BinOpKind) → (is_jmp (binop_code k) ≡ false) × (is_cond (binop_code k) ≡ false)
binop_code-plain k = ground arith

set_code-plain : (k : CmpKind) → (is_jmp (set_code k) ≡ false) × (is_cond (set_code k) ≡ false)
set_code-plain k = ground arith

pub lower-IsPlain : (o : Op) (d : ℕ) (w : Width) → IsStraight o → All IsPlain (lower o d w)
lower-IsPlain (const c) d w h = if_both (All IsPlain) (d == invalid_vreg) [] _ tt ((refl, refl), tt)
lower-IsPlain (binop k l r) d w h = (binop_code-plain k, tt)
lower-IsPlain (unop UnOpKind.neg v) d w h = ((refl, refl), tt)
lower-IsPlain (unop UnOpKind.lnot v) d w h = ((refl, refl), ((refl, refl), tt))
lower-IsPlain (unop UnOpKind.bnot v) d w h = ((refl, refl), tt)
lower-IsPlain (cmp k l r) d w h = ((refl, refl), (set_code-plain k, tt))
lower-IsPlain (gep p o) d w h = ((refl, refl), tt)
lower-IsPlain (call f args ext) d w h = ((refl, refl), tt)
lower-IsPlain o d w h = elim h [ ]

-- A result that goes to no register.
pub write-none :
    (m : Machine) (d : ℕ) (x : m.Value) (e : Env m) → (d == invalid_vreg) ≡ true → write m d x e ≡ e
write-none m d x e h = fun_ext (λ v. rw h refl)

module _ (m : Machine) (call_name : List ℕ → List m.Value → m.World → m.Value × m.World) where
  -- The machine's calls are by name, and its conditions are those of the processor: a value is
  -- tested by the conjunction with itself.
  pub record IsProcessor : Type 0 where
    pub call_law :
        (f : String) (ext : Bool) (vs : List m.Value) (w : m.World)
        → m.call_function f ext vs w ≡ call_name (codes f) vs w
    pub not_law :
        (x : m.Value)
        → m.cmp_value CmpKind.eq (m.binop_value BinOpKind.and x x) (m.literal (pos 0))
          ≡ m.unop_value UnOpKind.lnot x
    pub truth_law :
        (x : m.Value)
        → m.truth (m.cmp_value CmpKind.neq (m.binop_value BinOpKind.and x x) (m.literal (pos 0)))
          ≡ m.truth x

  -- The registers and the world behind the instructions, none of which leaves the block.
  abbrev pub after : ℕ → List Inst → Env m → m.World → Env m × m.World
  after prev [] e w = (e, w)
  after prev (i ∷ is) e w =
      let (x, w') = perform m i.op i.dst prev e w in after prev is (write m i.dst x e) w'

  -- The machine instructions come to the registers and the world.
  abbrev pub Reaches : List MachInst → Vregs m call_name → Env m → m.World → Type 0
  Reaches is s e w =
      (s' : Vregs m call_name) × ((rest : List MachInst)
        → exec_insts m call_name (is ++ rest) s ≡ exec_insts m call_name rest s')
      × (s'.env ≡ e)
      × (s'.world ≡ w)

  abbrev Ends :
      (ℕ → Width) → (ii prev : ℕ) → List Inst → Vregs m call_name → Env m → m.World → Type 0
  Ends width ii prev is s e w =
      let out = after prev is e w in Reaches (lower_insts width ii is) s out.0 out.1

  pub Reaches-append :
      (a b : List MachInst) (s : Vregs m call_name) {e e' : Env m} {w w' : m.World}
      → Reaches a s e w
      → ((s₁ : Vregs m call_name) → s₁.env ≡ e → s₁.world ≡ w → Reaches b s₁ e' w')
      → Reaches (a ++ b) s e' w'
  Reaches-append a b s (s₁, run₁, env, world) k =
      let (s₂, run₂, env₂, world₂) = k s₁ env world in
      (
        s₂,
        (λ rest.
            ap (λ x. exec_insts m call_name x s) (append_assoc a b rest)
            ∙ run₁ (b ++ rest)
            ∙ run₂ rest),
        env₂,
        world₂,
      )

  module _ (laws : IsProcessor) where
    lower-Reaches :
        (o : Op) (d prev : ℕ) (w : Width) (s : Vregs m call_name)
        → IsStraight o
        → let out = perform m o d prev s.env s.world in
          Reaches (lower o d w) s (write m d out.0 s.env) out.1
    unfolding exec_insts
    lower-Reaches (const c) d prev w s h = elim (Bool-cases (d == invalid_vreg)) [
      | inl none_ ↦
          rw none_ (s, (λ rest. refl), sym (write-none m d (m.literal c) s.env none_), refl)
      | inr reg ↦ rw reg (_, (λ rest. refl), refl, refl)
    ]
    lower-Reaches (binop BinOpKind.add l r) d prev w s h = (_, (λ rest. refl), refl, refl)
    lower-Reaches (binop BinOpKind.sub l r) d prev w s h = (_, (λ rest. refl), refl, refl)
    lower-Reaches (binop BinOpKind.mul l r) d prev w s h = (_, (λ rest. refl), refl, refl)
    lower-Reaches (binop BinOpKind.div l r) d prev w s h = (_, (λ rest. refl), refl, refl)
    lower-Reaches (binop BinOpKind.mod_ l r) d prev w s h = (_, (λ rest. refl), refl, refl)
    lower-Reaches (binop BinOpKind.and l r) d prev w s h = (_, (λ rest. refl), refl, refl)
    lower-Reaches (binop BinOpKind.or l r) d prev w s h = (_, (λ rest. refl), refl, refl)
    lower-Reaches (binop BinOpKind.xor l r) d prev w s h = (_, (λ rest. refl), refl, refl)
    lower-Reaches (binop BinOpKind.lshift l r) d prev w s h = (_, (λ rest. refl), refl, refl)
    lower-Reaches (binop BinOpKind.rshift l r) d prev w s h = (_, (λ rest. refl), refl, refl)
    lower-Reaches (unop UnOpKind.neg v) d prev w s h = (_, (λ rest. refl), refl, refl)
    lower-Reaches (unop UnOpKind.lnot v) d prev w s h =
        (_, (λ rest. refl), ap (λ x. write m d x s.env) (laws.not_law (s.env v)), refl)
    lower-Reaches (unop UnOpKind.bnot v) d prev w s h = (_, (λ rest. refl), refl, refl)
    lower-Reaches (cmp CmpKind.eq l r) d prev w s h = (_, (λ rest. refl), refl, refl)
    lower-Reaches (cmp CmpKind.neq l r) d prev w s h = (_, (λ rest. refl), refl, refl)
    lower-Reaches (cmp CmpKind.lt l r) d prev w s h = (_, (λ rest. refl), refl, refl)
    lower-Reaches (cmp CmpKind.gt l r) d prev w s h = (_, (λ rest. refl), refl, refl)
    lower-Reaches (cmp CmpKind.leq l r) d prev w s h = (_, (λ rest. refl), refl, refl)
    lower-Reaches (cmp CmpKind.geq l r) d prev w s h = (_, (λ rest. refl), refl, refl)
    lower-Reaches (gep p o) d prev w s h = (_, (λ rest. refl), refl, refl)
    lower-Reaches (call f args ext) d prev w s h =
        let e = laws.call_law f ext (map s.env args) s.world in
        (_, (λ rest. refl), ap (λ out. write m d out.0 s.env) (sym e), ap (λ out. out.1) (sym e))
    lower-Reaches o d prev w s h = elim h [ ]

    -- Straight instructions in a row.
    pub lower_insts-Reaches :
        (width : ℕ → Width) (ii prev : ℕ) (is : List Inst) (s : Vregs m call_name)
        → All (λ (i : Inst). IsStraight i.op) is
        → let out = after prev is s.env s.world in Reaches (lower_insts width ii is) s out.0 out.1
    lower_insts-Reaches width ii prev [] s h = (s, (λ rest. refl), refl, refl)
    lower_insts-Reaches width ii prev (i ∷ is) s h =
        let out = perform m i.op i.dst prev s.env s.world in
        Reaches-append (lower i.op i.dst (width ii)) (lower_insts width (suc ii) is) s
          (lower-Reaches i.op i.dst prev (width ii) s h.0)
          (λ s₁ env world.
            let rest = lower_insts-Reaches width (suc ii) prev is s₁ h.1 in
            subst (Ends width (suc ii) prev is s₁ (write m i.dst out.0 s.env)) world
              (subst (λ (e : Env m). Ends width (suc ii) prev is s₁ e s₁.world) env rest))
