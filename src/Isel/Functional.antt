-- ===== src/Isel/Functional.antt =====
-- The runs of `Vregs` have one result.
use vortech.Prelude.{ℕ, ◌≡◌, refl, sym, ap, ◌∙◌, subst, some-inj, Option, some, List, get_elem?}
use vortech.Mach.{MachBlock}
use vortech.Ssa.Run.{Machine, Env, Outcome, goto, returned, fell}
use vortech.Isel.Vregs.{exec_block, Runs, stops, jumps, falls}

module _ (m : Machine) (call_name : List ℕ → List m.Value → m.World → m.Value × m.World)
    (blocks : List MachBlock) where
  same_outcome :
      (bi : ℕ) (e : Env m) (w : m.World) {b b' : MachBlock} {x y : Outcome m.Value m.World}
      → get_elem? blocks bi ≡ some b
      → exec_block m call_name b e w ≡ x
      → get_elem? blocks bi ≡ some b'
      → exec_block m call_name b' e w ≡ y
      → x ≡ y
  same_outcome bi e w at ex at' ex' =
      sym ex ∙ ap (λ c. exec_block m call_name c e w) (some-inj (sym at ∙ at')) ∙ ex'

  goto-inj :
      {t t' : ℕ} {e e' : Env m} {w w' : m.World}
      → goto t e w ≡ goto t' e' w'
      → (t' ≡ t) × (e' ≡ e) × (w' ≡ w)
  goto-inj q = (cc, cc, cc)

  fell-inj : {e e' : Env m} {w w' : m.World} → fell e w ≡ fell e' w' → (e' ≡ e) × (w' ≡ w)
  fell-inj q = (cc, cc)

  returned-inj :
      {r r' : Option m.Value} {w w' : m.World} → returned r w ≡ returned r' w' → (r ≡ r') × (w ≡ w')
  returned-inj q = (cc, cc)

  Runs-moved :
      {t t' : ℕ} {e e' : Env m} {w w' v : m.World} {r : Option m.Value}
      → (t' ≡ t) × (e' ≡ e) × (w' ≡ w)
      → Runs m call_name blocks t' e' w' r v
      → Runs m call_name blocks t e w r v
  Runs-moved {t} {t'} {e} {e'} {w} {w'} {v} {r} (qt, qe, qw) h =
      subst (λ x. Runs m call_name blocks t e x r v) qw
        (subst (λ x. Runs m call_name blocks t x w' r v) qe
          (subst (λ x. Runs m call_name blocks x e' w' r v) qt h))

  returned-goto :
      {t : ℕ} {e : Env m} {w v : m.World} {r : Option m.Value} → returned r v ≡ goto t e w → ⊥
  returned-goto q = cc

  returned-fell : {e : Env m} {w v : m.World} {r : Option m.Value} → returned r v ≡ fell e w → ⊥
  returned-fell q = cc

  goto-fell : {t : ℕ} {e e' : Env m} {w w' : m.World} → goto t e w ≡ fell e' w' → ⊥
  goto-fell q = cc

  pub Runs-functional :
      {bi : ℕ} {e : Env m} {w w₁ w₂ : m.World} {r₁ r₂ : Option m.Value}
      → Runs m call_name blocks bi e w r₁ w₁
      → Runs m call_name blocks bi e w r₂ w₂
      → (r₁ ≡ r₂) × (w₁ ≡ w₂)
  Runs-functional (stops at ex) (stops at' ex') = returned-inj (same_outcome _ _ _ at ex at' ex')
  Runs-functional (stops at ex) (jumps at' ex' h') =
      absurd (returned-goto (same_outcome _ _ _ at ex at' ex'))
  Runs-functional (stops at ex) (falls at' ex' h') =
      absurd (returned-fell (same_outcome _ _ _ at ex at' ex'))
  Runs-functional (jumps at ex h) (stops at' ex') =
      absurd (returned-goto (sym (same_outcome _ _ _ at ex at' ex')))
  Runs-functional (jumps at ex h) (jumps at' ex' h') =
      Runs-functional h (Runs-moved (goto-inj (same_outcome _ _ _ at ex at' ex')) h')
  Runs-functional (jumps at ex h) (falls at' ex' h') =
      absurd (goto-fell (same_outcome _ _ _ at ex at' ex'))
  Runs-functional (falls at ex h) (stops at' ex') =
      absurd (returned-fell (sym (same_outcome _ _ _ at ex at' ex')))
  Runs-functional (falls at ex h) (jumps at' ex' h') =
      absurd (goto-fell (sym (same_outcome _ _ _ at ex at' ex')))
  Runs-functional (falls at ex h) (falls at' ex' h') = Runs-functional h (
      Runs-moved
        (
          refl,
          (fell-inj (same_outcome _ _ _ at ex at' ex')).0,
          (fell-inj (same_outcome _ _ _ at ex at' ex')).1,
        )
        h')
