-- ===== src/Regalloc/Available.antt =====
-- The registers that src/regalloc.c keeps as available, while intervals expire.
use vortech.Prelude.{
  ℕ, zero, suc, ◌≡◌, ◌≢◌, ◌⊎◌, inl, inr, refl, sym, subst, ◌∙◌, Bool, true, false, Bool-cases, List,
  [], ◌∷◌, ltb, ◌==◌, ==_iff, set, get_or, get_or-set_ne, get_or-set_default, All, if_cases,
}
use vortech.Mach.Registers.{reg_none}
use vortech.Regalloc.{LiveInterval}
use vortech.Regalloc.Scan.{last_first, free_reg, expire}
use vortech.Regalloc.Expire.{Other, Apart, All-last_first, Apart-last_first}

pub same_or : (i j : ℕ) → (i ≡ j) ⊎ (i ≢ j)
same_or i j = elim (Bool-cases (i == j)) [
  | inl e ↦ inl ((==_iff i j).0 e)
  | inr n ↦ inr (λ e. let t = (==_iff i j).1 e in cc)
]

free_reg-other :
    (a : LiveInterval) (av : List Bool) (r : ℕ)
    → a.phys_reg ≢ r
    → get_or (free_reg a av) r false ≡ get_or av r false
free_reg-other a av r h =
    if_cases (λ l. get_or l r false ≡ get_or av r false) (a.phys_reg == reg_none) av
      (set av a.phys_reg true) (λ e. refl) (λ e. get_or-set_ne av a.phys_reg r true false h)

-- A register that no active interval has is as available as before.
expire-Other :
    (n start : ℕ) (act : List LiveInterval) (av : List Bool) (r : ℕ)
    → All (Other r) act
    → get_or (expire n start act av).1 r false ≡ get_or av r false
unfolding expire
expire-Other zero start act av r h = refl
expire-Other (suc n) start [] av r h = refl
expire-Other (suc n) start (a ∷ act) av r h = elim (Bool-cases (ltb a.end_ start)) [
  | inl dead ↦ rw dead (
      expire-Other n start (last_first act) (free_reg a av) r (All-last_first (Other r) act h.1)
      ∙ free_reg-other a av r h.0)
  | inr kept ↦ rw kept (expire-Other n start act av r h.1)
]

abbrev pub Taken : List Bool → LiveInterval → Type 0
Taken av a = get_or av a.phys_reg false ≡ false

Taken-free :
    (a : LiveInterval) (av : List Bool) (act : List LiveInterval)
    → All (Other a.phys_reg) act
    → All (Taken av) act
    → All (Taken (free_reg a av)) act
Taken-free a av [] h k = k
Taken-free a av (b ∷ act) h k =
    (free_reg-other a av b.phys_reg (λ e. h.0 (sym e)) ∙ k.0, Taken-free a av act h.1 k.1)

-- The registers of the intervals that are left stay taken.
pub expire-Taken :
    (n start : ℕ) (act : List LiveInterval) (av : List Bool)
    → Apart act
    → All (Taken av) act
    → let out = expire n start act av in All (Taken out.1) out.0
unfolding expire
expire-Taken zero start act av h k = k
expire-Taken (suc n) start [] av h k = k
expire-Taken (suc n) start (a ∷ act) av h k = elim (Bool-cases (ltb a.end_ start)) [
  | inl dead ↦ rw dead (
      expire-Taken n start (last_first act) (free_reg a av) (Apart-last_first act h.1)
        (All-last_first (Taken _) act (Taken-free a av act h.0 k.1)))
  | inr kept ↦
      rw kept
        (expire-Other n start act av a.phys_reg h.0 ∙ k.0, expire-Taken n start act av h.1 k.1)
]

module _ (Pool : ℕ → Type 0) where
  abbrev pub InPool : LiveInterval → Type 0
  InPool a = Pool a.phys_reg

  abbrev pub OnlyPool : List Bool → Type 0
  OnlyPool av = (r : ℕ) → get_or av r false ≡ true → Pool r

  set-true-OnlyPool : (av : List Bool) (r : ℕ) → Pool r → OnlyPool av → OnlyPool (set av r true)
  set-true-OnlyPool av r p h s e = elim (same_or r s) [
    | inl q ↦ subst Pool q p
    | inr q ↦ h s (sym (get_or-set_ne av r s true false q) ∙ e)
  ]

  pub set-false-OnlyPool : (av : List Bool) (r : ℕ) → OnlyPool av → OnlyPool (set av r false)
  set-false-OnlyPool av r h s e = elim (same_or r s) [
    | inl q ↦
        let f = get_or-set_default av r false in
        let t : get_or (set av r false) r false ≡ true =
          subst (λ i. get_or (set av r false) i false ≡ true) (sym q) e in
        cc
    | inr q ↦ h s (sym (get_or-set_ne av r s false false q) ∙ e)
  ]

  free_reg-OnlyPool :
      (a : LiveInterval) (av : List Bool) → InPool a → OnlyPool av → OnlyPool (free_reg a av)
  free_reg-OnlyPool a av p h =
      if_cases OnlyPool (a.phys_reg == reg_none) av (set av a.phys_reg true) (λ e. h)
        (λ e. set-true-OnlyPool av a.phys_reg p h)

  pub expire-OnlyPool :
      (n start : ℕ) (act : List LiveInterval) (av : List Bool)
      → All InPool act
      → OnlyPool av
      → OnlyPool (expire n start act av).1
  unfolding expire
  expire-OnlyPool zero start act av h k = k
  expire-OnlyPool (suc n) start [] av h k = k
  expire-OnlyPool (suc n) start (a ∷ act) av h k = elim (Bool-cases (ltb a.end_ start)) [
    | inl dead ↦ rw dead (
        expire-OnlyPool n start (last_first act) (free_reg a av) (All-last_first InPool act h.1)
          (free_reg-OnlyPool a av h.0 k))
    | inr kept ↦ rw kept (expire-OnlyPool n start act av h.1 k)
  ]
