-- ===== src/Regalloc/Owners.antt =====
-- Who holds which register while src/regalloc.c scans the intervals. `home` gives each virtual
-- register the register that it has before the scan, a parameter's or none; `Pool` is what the
-- scan hands out.
use vortech.Prelude.{
  ℕ, ◌<◌, ◌≡◌, ◌≢◌, ◌⊎◌, inl, inr, sym, ap, subst, ◌∙◌, Bool, false, List, [], ◌∷◌, length, get_or,
  All,
}
use vortech.Mach.Registers.{reg_none}
use vortech.Regalloc.{LiveInterval}
use vortech.Regalloc.Scan.{Scan}
use vortech.Regalloc.Expire.{Apart, Holds}
use vortech.Regalloc.Available.{Taken, InPool, OnlyPool}

-- The register that the map has for an interval.
abbrev pub reg_at : List ℕ → LiveInterval → ℕ
reg_at rs p = get_or rs p.vreg reg_none

abbrev pub Recorded : List ℕ → LiveInterval → Type 0
Recorded rs a = reg_at rs a ≡ a.phys_reg

abbrev pub OtherVreg : LiveInterval → LiveInterval → Type 0
OtherVreg c p = c.vreg ≢ p.vreg

-- If the later interval has the register of the earlier one, the earlier one has ended before.
abbrev pub Earlier : List ℕ → LiveInterval → LiveInterval → Type 0
Earlier rs c p = reg_at rs c ≡ reg_at rs p → reg_at rs c ≢ reg_none → p.end_ < c.start

-- The intervals of the list, the latest first, share registers only when they are disjoint.
abbrev pub Pairs : List ℕ → List LiveInterval → Type 0
Pairs rs [] = Unit
Pairs rs (c ∷ ps) = All (Earlier rs c) ps × Pairs rs ps

pub record Homes (home : ℕ → ℕ) (Pool : ℕ → Type 0) : Type 0 where
  pub unpooled : (v : ℕ) → Pool (home v) → ⊥
  pub one_each : (v w : ℕ) → home v ≡ home w → home v ≢ reg_none → v ≡ w
  pub in_use : Pool reg_none → ⊥

module _ (home : ℕ → ℕ) (Pool : ℕ → Type 0) where
  pub record Owners (sc : Scan) : Type 0 where
    pub taken : All (Taken sc.reg_available) sc.active
    pub in_pool : All (InPool Pool) sc.active
    pub apart : Apart sc.active
    pub recorded : All (Recorded sc.vreg_to_reg) sc.active
    pub only_pool : OnlyPool Pool sc.reg_available

  -- An interval that was handled, at the position `t`.
  abbrev pub Status : Scan → ℕ → LiveInterval → Type 0
  Status sc t p =
      (reg_at sc.vreg_to_reg p ≡ reg_none)
      ⊎ ((reg_at sc.vreg_to_reg p ≡ home p.vreg) ⊎ ((p.end_ < t) ⊎ Holds sc.active p))

  pub record Inv (sc : Scan) (t : ℕ) (ps : List LiveInterval) : Type 0 where
    pub owners : Owners sc
    pub status : All (Status sc t) ps
    pub pairs : Pairs sc.vreg_to_reg ps

  -- An interval that is still to be handled.
  abbrev pub Waiting : Scan → LiveInterval → Type 0
  Waiting sc q = (q.vreg < length sc.vreg_to_reg) × (reg_at sc.vreg_to_reg q ≡ home q.vreg)

  module _ (homes : Homes home Pool) where
    -- No active interval is one that waits.
    pub others :
        (act : List LiveInterval) (rs : List ℕ) (q : LiveInterval)
        → All (InPool Pool) act
        → All (Recorded rs) act
        → reg_at rs q ≡ home q.vreg
        → All (OtherVreg q) act
    others [] rs q h k w = tt
    others (a ∷ act) rs q h k w = (
      (λ e.
          homes.unpooled q.vreg
            (subst Pool (sym (k.0) ∙ ap (λ v. get_or rs v reg_none) (sym e) ∙ w) h.0)),
      others act rs q h.1 k.1 w,
    )

    -- An active interval has a register of the pool that is taken.
    pub held_reg :
        (act : List LiveInterval) (rs : List ℕ) (av : List Bool) (p : LiveInterval)
        → All (InPool Pool) act
        → All (Recorded rs) act
        → All (Taken av) act
        → Holds act p
        → Pool (reg_at rs p) × (get_or av (reg_at rs p) false ≡ false)
    held_reg [] rs av p h k t held = elim held [ ]
    held_reg (a ∷ act) rs av p h k t (inl e) =
        let q : a.phys_reg ≡ reg_at rs p = sym k.0 ∙ ap (λ v. get_or rs v reg_none) e.0 in
        (subst Pool q h.0, subst (λ r. get_or av r false ≡ false) q t.0)
    held_reg (a ∷ act) rs av p h k t (inr e) = held_reg act rs av p h.1 k.1 t.1 e

-- What the map has for an interval stays, or becomes none.
abbrev pub Kept : List ℕ → List ℕ → LiveInterval → Type 0
Kept rs rs' p = (reg_at rs' p ≡ reg_at rs p) ⊎ (reg_at rs' p ≡ reg_none)

Earlier-Kept :
    (rs rs' : List ℕ) (c : LiveInterval) (ps : List LiveInterval)
    → Kept rs rs' c
    → All (Kept rs rs') ps
    → All (Earlier rs c) ps
    → All (Earlier rs' c) ps
Earlier-Kept rs rs' c [] kc ks h = h
Earlier-Kept rs rs' c (p ∷ ps) kc ks h =
    (λ e n. still kc ks.0 e n, Earlier-Kept rs rs' c ps kc ks.1 h.1)
  where
    still :
        Kept rs rs' c
        → Kept rs rs' p
        → reg_at rs' c ≡ reg_at rs' p
        → reg_at rs' c ≢ reg_none
        → p.end_ < c.start
    still (inr z) kp e n = absurd (n z)
    still (inl s) (inr z) e n = absurd (n (e ∙ z))
    still (inl s) (inl s') e n = h.0 (sym s ∙ e ∙ s') (λ z. n (s ∙ z))

pub Pairs-Kept :
    (rs rs' : List ℕ) (ps : List LiveInterval) → All (Kept rs rs') ps → Pairs rs ps → Pairs rs' ps
Pairs-Kept rs rs' [] ks h = h
Pairs-Kept rs rs' (c ∷ ps) ks h =
    (Earlier-Kept rs rs' c ps ks.0 ks.1 h.0, Pairs-Kept rs rs' ps ks.1 h.1)
