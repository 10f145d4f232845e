-- ===== src/Isel/Parallel.antt =====
-- Phis that are read at once and phis that are read one after another, as src/isel.c copies them.
use vortech.Prelude.{ℕ, ◌≡◌, ◌≢◌, refl, sym, ap, ◌∙◌, List, [], ◌∷◌, ◌++◌, All, arith}
use vortech.Ssa.{PhiArg, Op, phi, Inst}
use vortech.Ssa.Run.{Machine, Env, write, phi_value, perform, exec}
use vortech.Isel.Edges.{phi_args}
use vortech.Isel.Straight.{IsPhi, after}
use vortech.Isel.Parts.{Apart}

module _ (m : Machine) (call_name : List ℕ → List m.Value → m.World → m.Value × m.World) where
  -- The registers that the phis read are still those of the entry.
  abbrev pub Unread : (entry now : Env m) → Op → Type 0
  Unread entry now o = All (λ (a : PhiArg). entry a.src ≡ now a.src) (phi_args o)

  phi_value-Unread :
      (prev : ℕ) (entry now : Env m) (args : List PhiArg)
      → All (λ (a : PhiArg). entry a.src ≡ now a.src) args
      → phi_value m prev entry args ≡ phi_value m prev now args
  phi_value-Unread prev entry now [] h = refl
  phi_value-Unread prev entry now (a ∷ as') h = cc (h.0, phi_value-Unread prev entry now as' h.1)

  write-other : (d v : ℕ) (x : m.Value) (e : Env m) → (v ≡ d → ⊥) → write m d x e v ≡ e v
  write-other d v x e h = ground (arith, h)

  write-Unread :
      (d : ℕ) (x : m.Value) (entry now : Env m) (args : List PhiArg)
      → All (λ (a : PhiArg). a.src ≢ d) args
      → All (λ (a : PhiArg). entry a.src ≡ now a.src) args
      → All (λ (a : PhiArg). entry a.src ≡ write m d x now a.src) args
  write-Unread d x entry now [] apart h = tt
  write-Unread d x entry now (a ∷ as') apart h =
      (h.0 ∙ sym (write-other d a.src x now apart.0), write-Unread d x entry now as' apart.1 h.1)

  phis-Unread :
      (d : ℕ) (x : m.Value) (entry now : Env m) (is : List Inst)
      → All (λ (j : Inst). All (λ (a : PhiArg). a.src ≢ d) (phi_args j.op)) is
      → All (λ (j : Inst). Unread entry now j.op) is
      → All (λ (j : Inst). Unread entry (write m d x now) j.op) is
  phis-Unread d x entry now [] apart h = tt
  phis-Unread d x entry now (i ∷ is) apart h = (
    write-Unread d x entry now (phi_args i.op) apart.0 h.0,
    phis-Unread d x entry now is apart.1 h.1,
  )

  self-Unread : (e : Env m) (args : List PhiArg) → All (λ (a : PhiArg). e a.src ≡ e a.src) args
  self-Unread e [] = tt
  self-Unread e (a ∷ as') = (refl, self-Unread e as')

  pub phis_self : (e : Env m) (is : List Inst) → All (λ (j : Inst). Unread e e j.op) is
  phis_self e [] = tt
  phis_self e (i ∷ is) = (self-Unread e (phi_args i.op), phis_self e is)

  perform-Unread :
      (o : Op) (d prev : ℕ) (entry now : Env m) (w : m.World) (rest : List Inst)
      → IsPhi o
      → Unread entry now o
      → exec m prev (record { op = o; dst = d } ∷ rest) entry now w
        ≡ (let out = perform m o d prev now w in exec m prev rest entry (write m d out.0 now) out.1)
  unfolding exec
  perform-Unread (phi args) d prev entry now w rest h same =
      ap (λ x. exec m prev rest entry (write m d x now) w)
        (phi_value-Unread prev entry now args same)
  perform-Unread o d prev entry now w rest h same = elim h [ ]

  -- Phis that do not read each other's results can be read one after another.
  pub exec-phis :
      (prev : ℕ) (is rest : List Inst) (entry e : Env m) (w : m.World)
      → All (λ (i : Inst). IsPhi i.op) is
      → Apart is
      → All (λ (j : Inst). Unread entry e j.op) is
      → let out = after m call_name prev is e w in
        exec m prev (is ++ rest) entry e w ≡ exec m prev rest entry out.0 out.1
  exec-phis prev [] rest entry e w h apart same = refl
  exec-phis prev (i ∷ is) rest entry e w h apart same =
      let out = perform m i.op i.dst prev e w in
      perform-Unread i.op i.dst prev entry e w (is ++ rest) h.0 same.0
      ∙ exec-phis prev is rest entry (write m i.dst out.0 e) out.1 h.1 apart.1
          (phis-Unread i.dst out.0 entry e is apart.0 same.1)
