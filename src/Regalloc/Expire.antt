-- ===== src/Regalloc/Expire.antt =====
-- The active intervals of src/regalloc.c, and what the expiry of old ones leaves of them.
use vortech.Prelude.{
  ℕ, zero, suc, ◌<◌, ◌≡◌, ◌≢◌, ◌⊎◌, inl, inr, sym, Bool, Bool-cases, List, [], ◌∷◌, arith, ltb,
  ltb→lt, All,
}
use vortech.Regalloc.{LiveInterval}
use vortech.Regalloc.Scan.{put_second, last_first, free_reg, expire}

abbrev pub Other : ℕ → LiveInterval → Type 0
Other r a = a.phys_reg ≢ r

-- No two intervals of the list have the same register.
abbrev pub Apart : List LiveInterval → Type 0
Apart [] = Unit
Apart (a ∷ act) = All (Other a.phys_reg) act × Apart act

-- The interval stands in the list, by its virtual register and its end.
abbrev pub Holds : List LiveInterval → LiveInterval → Type 0
Holds [] p = ⊥
Holds (a ∷ act) p = ((a.vreg ≡ p.vreg) × (a.end_ ≡ p.end_)) ⊎ Holds act p

module _ {κ} (P : LiveInterval → Type κ) where
  All-put_second :
      (a : LiveInterval) (act : List LiveInterval) → P a → All P act → All P (put_second a act)
  All-put_second a [] p h = (p, h)
  All-put_second a (b ∷ act) p h = (h.0, (p, h.1))

  pub All-last_first : (act : List LiveInterval) → All P act → All P (last_first act)
  All-last_first [] h = h
  All-last_first (a ∷ act) h = All-put_second a (last_first act) h.0 (All-last_first act h.1)

Apart-put_second :
    (a : LiveInterval) (act : List LiveInterval) → Apart (a ∷ act) → Apart (put_second a act)
Apart-put_second a [] h = h
Apart-put_second a (b ∷ act) h = (((λ e. h.0.0 (sym e)), h.1.0), (h.0.1, h.1.1))

pub Apart-last_first : (act : List LiveInterval) → Apart act → Apart (last_first act)
Apart-last_first [] h = h
Apart-last_first (a ∷ act) h =
    Apart-put_second a (last_first act)
      (All-last_first (Other a.phys_reg) act h.0, Apart-last_first act h.1)

Holds-put_second :
    (a p : LiveInterval) (act : List LiveInterval) → Holds (a ∷ act) p → Holds (put_second a act) p
Holds-put_second a p [] h = h
Holds-put_second a p (b ∷ act) (inl e) = inr (inl e)
Holds-put_second a p (b ∷ act) (inr (inl e)) = inl e
Holds-put_second a p (b ∷ act) (inr (inr h)) = inr (inr h)

Holds-last_first :
    (act : List LiveInterval) (p : LiveInterval) → Holds act p → Holds (last_first act) p
Holds-last_first [] p h = h
Holds-last_first (a ∷ act) p (inl e) = Holds-put_second a p (last_first act) (inl e)
Holds-last_first (a ∷ act) p (inr h) =
    Holds-put_second a p (last_first act) (inr (Holds-last_first act p h))

module _ {κ} (P : LiveInterval → Type κ) where
  pub expire-All :
      (n start : ℕ) (act : List LiveInterval) (av : List Bool)
      → All P act
      → All P (expire n start act av).0
  unfolding expire
  expire-All zero start act av h = h
  expire-All (suc n) start [] av h = h
  expire-All (suc n) start (a ∷ act) av h = elim (Bool-cases (ltb a.end_ start)) [
    | inl dead ↦
        rw dead (expire-All n start (last_first act) (free_reg a av) (All-last_first P act h.1))
    | inr kept ↦ rw kept (h.0, expire-All n start act av h.1)
  ]

pub expire-Apart :
    (n start : ℕ) (act : List LiveInterval) (av : List Bool)
    → Apart act
    → Apart (expire n start act av).0
unfolding expire
expire-Apart zero start act av h = h
expire-Apart (suc n) start [] av h = h
expire-Apart (suc n) start (a ∷ act) av h = elim (Bool-cases (ltb a.end_ start)) [
  | inl dead ↦
      rw dead (expire-Apart n start (last_first act) (free_reg a av) (Apart-last_first act h.1))
  | inr kept ↦
      rw kept (expire-All (Other a.phys_reg) n start act av h.0, expire-Apart n start act av h.1)
]

-- An interval of the list is left in it, or ends before the start.
pub expire-Holds :
    (n start : ℕ) (act : List LiveInterval) (av : List Bool) (p : LiveInterval)
    → Holds act p
    → Holds (expire n start act av).0 p ⊎ (p.end_ < start)
unfolding expire
expire-Holds zero start act av p h = inl h
expire-Holds (suc n) start [] av p h = inl h
expire-Holds (suc n) start (a ∷ act) av p h = elim (Bool-cases (ltb a.end_ start)) [
  | inl dead ↦ rw dead (elim h [
    | inl e ↦ inr (omega (arith, e.1, ltb→lt a.end_ start dead))
    | inr later ↦
        expire-Holds n start (last_first act) (free_reg a av) p (Holds-last_first act p later)
  ])
  | inr kept ↦ rw kept (elim h [
    | inl e ↦ inl (inl e)
    | inr later ↦ elim (expire-Holds n start act av p later) [
      | inl held ↦ inl (inr held)
      | inr ended ↦ inr ended
    ]
  ])
]
