-- ===== src/Isel/Copies.antt =====
-- The copies of an edge of src/isel.c do what the phis of its block do in `Ssa.Run`.
use vortech.Prelude.{
  ℕ, suc, ◌≡◌, refl, sym, ap, ◌∙◌, Bool, true, false, Bool-cases, inl, inr, List, [], ◌∷◌, ◌++◌,
  ◌==◌, ==_iff, if◌then◌else◌, if_both, if_cases, All, arith,
}
use mathlib.Core.Path.{fun_ext}
use vortech.Mach.{MachInst}
use vortech.Ssa.{invalid_vreg, PhiArg, Op, phi, Inst}
use vortech.Ssa.Run.{Machine, Env, write, phi_value, perform}
use vortech.Isel.Edges.{PhiCopy, phi_args}
use vortech.Isel.Split.{copy_insts}
use vortech.Isel.Collected.{one_copy, arg_copies, inst_copies}
use vortech.Isel.Vregs.{Vregs, exec_insts}
use vortech.Isel.Straight.{IsPhi, after}

-- How many entries of a phi come from the block `p`.
abbrev pub entries : ℕ → List PhiArg → ℕ
entries p [] = 0
entries p (a ∷ as') = let rest = entries p as' in if a.pred == p then suc rest else rest

-- A phi has one entry from the block `p`.
abbrev pub OneFrom : ℕ → Op → Type 0
OneFrom p (phi args) = entries p args ≡ 1
OneFrom p o = Unit

not_zero : (n : ℕ) → suc n ≡ 0 → ⊥
not_zero n h = omega arith

one_copy-other : (p d : ℕ) (a : PhiArg) → (a.pred == p) ≡ false → one_copy p d a ≡ []
one_copy-other p d a h = elim (Bool-cases (a.src == d)) [
  | inl self ↦ rw self refl
  | inr other ↦ rw (other, h) refl
]

arg_copies-none : (p d : ℕ) (as' : List PhiArg) → entries p as' ≡ 0 → arg_copies p d as' ≡ []
arg_copies-none p d [] h = refl
arg_copies-none p d (a ∷ as') h = elim (Bool-cases (a.pred == p)) [
  | inl here ↦ absurd (not_zero (entries p as') (rw here at h))
  | inr there ↦
      ap (λ cs. cs ++ arg_copies p d as') (one_copy-other p d a there)
      ∙ arg_copies-none p d as' (rw there at h)
]

module _ (m : Machine) (call_name : List ℕ → List m.Value → m.World → m.Value × m.World) where
  abbrev pub copied : List PhiCopy → Env m → Env m
  copied [] e = e
  copied (c ∷ cs) e = copied cs (write m c.dst (e c.src) e)

  pub exec_insts-copies :
      (cs : List PhiCopy) (rest : List MachInst) (s : Vregs m call_name)
      → exec_insts m call_name (copy_insts cs ++ rest) s
        ≡ exec_insts m call_name rest (record s { env = copied cs s.env })
  unfolding exec_insts
  exec_insts-copies [] rest s = refl
  exec_insts-copies (c ∷ cs) rest s =
      exec_insts-copies cs rest (record s { env = write m c.dst (s.env c.src) s.env })

  copied-append : (xs ys : List PhiCopy) (e : Env m) → copied (xs ++ ys) e ≡ copied ys (copied xs e)
  copied-append [] ys e = refl
  copied-append (x ∷ xs) ys e = copied-append xs ys (write m x.dst (e x.src) e)

  write_self : (d : ℕ) (e : Env m) (v : ℕ) → e v ≡ write m d (e d) e v
  write_self d e v =
      if_both (λ x. e v ≡ x) (d == invalid_vreg) (e v) _ refl
        (if_cases (λ x. e v ≡ x) (v == d) (e d) (e v) (λ same. ap e ((==_iff v d).0 same))
          (λ other. refl))

  -- A copy of a register to itself is left out.
  copied-one :
      (p d : ℕ) (a : PhiArg) (e : Env m)
      → (a.pred == p) ≡ true
      → copied (one_copy p d a) e ≡ write m d (e a.src) e
  copied-one p d a e here = elim (Bool-cases (a.src == d)) [
    | inl self ↦ rw self (
        fun_ext (λ v. write_self d e v)
        ∙ ap (λ x. write m d (e x) e) (sym ((==_iff a.src d).0 self)))
    | inr other ↦ rw (other, here) refl
  ]

  copied-arg_copies :
      (p d : ℕ) (as' : List PhiArg) (e : Env m)
      → entries p as' ≡ 1
      → copied (arg_copies p d as') e ≡ write m d (phi_value m p e as') e
  copied-arg_copies p d [] e h = absurd (not_zero 0 (sym h))
  copied-arg_copies p d (a ∷ as') e h = elim (Bool-cases (a.pred == p)) [
    | inl here ↦
        copied-append (one_copy p d a) (arg_copies p d as') e
        ∙ ap (λ cs. copied cs (copied (one_copy p d a) e))
            (arg_copies-none p d as' (suc-inj (rw here at h)))
        ∙ copied-one p d a e here
        ∙ ap (value a as') (sym here)
    | inr there ↦
        ap (λ cs. copied (cs ++ arg_copies p d as') e) (one_copy-other p d a there)
        ∙ copied-arg_copies p d as' e (rw there at h)
        ∙ ap (value a as') (sym there)
  ]
    where
      value : PhiArg → List PhiArg → Bool → Env m
      value a' rest b = write m d (if b then e a'.src else phi_value m p e rest) e

      suc-inj : {n : ℕ} → suc n ≡ 1 → n ≡ 0
      suc-inj q = omega arith

  copied-phi :
      (p d : ℕ) (o : Op) (e : Env m) (w : m.World)
      → IsPhi o
      → OneFrom p o
      → copied (arg_copies p d (phi_args o)) e ≡ write m d (perform m o d p e w).0 e
  copied-phi p d (phi args) e w h one = copied-arg_copies p d args e one
  copied-phi p d o e w h one = elim h [ ]

  perform-world :
      (p d : ℕ) (o : Op) (e : Env m) (w : m.World) → IsPhi o → (perform m o d p e w).1 ≡ w
  perform-world p d (phi args) e w h = refl
  perform-world p d o e w h = elim h [ ]

  pub after-world :
      (p : ℕ) (is : List Inst) (e : Env m) (w : m.World)
      → All (λ (i : Inst). IsPhi i.op) is
      → (after m call_name p is e w).1 ≡ w
  after-world p [] e w h = refl
  after-world p (i ∷ is) e w h = after-world p is _ _ h.1 ∙ perform-world p i.dst i.op e w h.0

  -- The copies at the end of the block `p`, and the phis read in their order.
  pub copied-phis :
      (p : ℕ) (is : List Inst) (e : Env m) (w : m.World)
      → All (λ (i : Inst). IsPhi i.op) is
      → All (λ (i : Inst). OneFrom p i.op) is
      → copied (inst_copies p is) e ≡ (after m call_name p is e w).0
  copied-phis p [] e w h one = refl
  copied-phis p (i ∷ is) e w h one =
      copied-append (arg_copies p i.dst (phi_args i.op)) (inst_copies p is) e
      ∙ ap (copied (inst_copies p is)) (copied-phi p i.dst i.op e w h.0 one.0)
      ∙ copied-phis p is _ _ h.1 one.1
