-- ===== src/Opt/Dce/Agree.antt =====
-- One instruction in two register files that agree on the registers that are taken for used.
use vortech.Prelude.{ℕ, ◌≡◌, refl, Bool, false, List, [], ◌∷◌, map, arith, All}
use vortech.Ssa.{
  PhiArg, Op, binop, unop, load, store, gep, cmp, branch, jump, call, ret, phi, arena_reset, print,
  Inst, operands,
}
use vortech.Ssa.Run.{Machine, continue, Env, write, phi_value, control, perform, seen}
use vortech.Opt.Dce.{has_side_effects, keep}
use vortech.Opt.Dce.Marks.{IsUsed}

module _ (m : Machine) (used : List Bool) where
  open m use {Value, World}

  -- The two environments agree on the registers that are taken for used.
  unfoldable pub Agree : Env m → Env m → Type 0
  Agree e e' = (v : ℕ) → IsUsed used v → e v ≡ e' v

  pub map-Agree :
      (e e' : Env m) (vs : List ℕ) → Agree e e' → All (IsUsed used) vs → map e vs ≡ map e' vs
  unfolding Agree
  map-Agree e e' [] a h = refl
  map-Agree e e' (v ∷ vs) a h = cc (a v h.0, map-Agree e e' vs a h.1)

  pub phi_value-Agree :
      (prev : ℕ) (e e' : Env m) (args : List PhiArg)
      → Agree e e'
      → All (IsUsed used) (map (λ (p : PhiArg). p.src) args)
      → phi_value m prev e args ≡ phi_value m prev e' args
  unfolding Agree
  phi_value-Agree prev e e' [] a h = refl
  phi_value-Agree prev e e' (p ∷ ps) a h = cc (a p.src h.0, phi_value-Agree prev e e' ps a h.1)

  pub perform-Agree :
      (o : Op) (d prev : ℕ) (e e' : Env m) (w : World)
      → Agree e e'
      → All (IsUsed used) (operands o)
      → perform m o d prev e w ≡ perform m o d prev e' w
  unfolding Agree
  perform-Agree (binop k l r) d prev e e' w a h = cc (a l h.0, a r h.1.0)
  perform-Agree (unop k v) d prev e e' w a h = cc (a v h.0)
  perform-Agree (load p) d prev e e' w a h = cc (a p h.0)
  perform-Agree (store p v) d prev e e' w a h = cc (a p h.0, a v h.1.0)
  perform-Agree (gep p o) d prev e e' w a h = cc (a p h.0)
  perform-Agree (cmp k l r) d prev e e' w a h = cc (a l h.0, a r h.1.0)
  perform-Agree (call f args x) d prev e e' w a h = cc (map-Agree e e' args a h)
  perform-Agree (phi args) d prev e e' w a h = cc (phi_value-Agree prev e e' args a h)
  perform-Agree (print v) d prev e e' w a h = cc (a v h.0)
  perform-Agree _ d prev e e' w a h = refl

  pub control-Agree :
      (o : Op) (e e' : Env m)
      → Agree e e'
      → All (IsUsed used) (operands o)
      → control m o e ≡ control m o e'
  unfolding Agree
  control-Agree (branch c t f) e e' a h = cc (a c h.0)
  control-Agree (ret v) e e' a h = ground (arith, a v)
  control-Agree _ e e' a h = refl

  pub seen-Agree :
      (o : Op) (entry entry' e e' : Env m)
      → Agree entry entry'
      → Agree e e'
      → Agree (seen m o entry e) (seen m o entry' e')
  seen-Agree (phi args) entry entry' e e' b a = b
  seen-Agree _ entry entry' e e' b a = a

  pub write-Agree :
      (d : ℕ) (x : Value) (e e' : Env m) → Agree e e' → Agree (write m d x e) (write m d x e')
  unfolding Agree
  write-Agree d x e e' a v h = ground (arith, a v h)

  -- A result that nothing reads can be dropped.
  pub drop-Agree :
      (i : Inst) (x : Value) (e e' : Env m)
      → keep used i ≡ false
      → Agree e e'
      → Agree (write m i.dst x e) e'
  unfolding Agree keep
  drop-Agree i x e e' k a v h = ground (arith, a v h)

  pub quiet-control : (o : Op) (e : Env m) → has_side_effects o ≡ false → control m o e ≡ continue
  unfolding has_side_effects
  quiet-control (branch c t f) e h = cc
  quiet-control (jump t) e h = cc
  quiet-control (ret v) e h = cc
  quiet-control _ e h = refl

  pub quiet-world :
      (o : Op) (d prev : ℕ) (e : Env m) (w : World)
      → has_side_effects o ≡ false
      → (perform m o d prev e w).1 ≡ w
  unfolding has_side_effects
  quiet-world (store p v) d prev e w h = cc
  quiet-world (call f args x) d prev e w h = cc
  quiet-world (arena_reset r) d prev e w h = cc
  quiet-world (print v) d prev e w h = cc
  quiet-world _ d prev e w h = refl

  pub keep-quiet : (i : Inst) → keep used i ≡ false → has_side_effects i.op ≡ false
  unfolding keep
  keep-quiet i h = ground arith
