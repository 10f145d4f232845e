-- ===== src/Regalloc/Evict.antt =====
-- An interval of src/regalloc.c that takes the place and the register of an active one.
use vortech.Prelude.{
  some-inj, ℕ, zero, suc, ◌<◌, ◌≡◌, ◌≢◌, ◌⊎◌, inl, inr, refl, sym, ap, subst, ◌∙◌, true, false,
  some, List, [], ◌∷◌, length, set, get_or, get_elem?, get_or-set_ne, get_or-set_self,
  get_or-set_default, All, All-map, All-map2, All-set, All-get_elem?, some-inj,
}
use vortech.Mach.Registers.{reg_none}
use vortech.Regalloc.{LiveInterval}
use vortech.Regalloc.Scan.{Scan, evict}
use vortech.Regalloc.Expire.{Other, Apart, Holds}
use vortech.Regalloc.Available.{Taken, InPool, same_or, set-false-OnlyPool}
use vortech.Regalloc.Owners.{
  reg_at, Recorded, OtherVreg, Earlier, Homes, Owners, Status, Inv, Waiting, others, Kept,
  Pairs-Kept,
}
use vortech.Regalloc.Places.{set-false-Taken, set-reg_at}

module _ {κ μ} (P : LiveInterval → Type κ) {Q : LiveInterval → Type μ} (e x : LiveInterval) where
  set-others :
      (act : List LiveInterval) (j : ℕ)
      → ((a : LiveInterval) → P a → a.phys_reg ≢ e.phys_reg → Q a)
      → Q x
      → get_elem? act j ≡ some e
      → Apart act
      → All P act
      → All Q (set act j x)
  set-others [] j f q at h k = tt
  set-others (a ∷ act) zero f q at h k = (
    q,
    All-map2 (Other a.phys_reg)
        (λ b o p. f b p (λ z. o (z ∙ ap (λ i. i.phys_reg) (sym (some-inj at))))) act h.0 k.1,
  )
  set-others (a ∷ act) (suc j) f q at h k = (
    f a k.0 (λ z. All-get_elem? (Other a.phys_reg) act j h.0 at (sym z)),
    set-others act j f q at h.1 k.1,
  )

Apart-set :
    (e x : LiveInterval) (act : List LiveInterval) (j : ℕ)
    → x.phys_reg ≡ e.phys_reg
    → get_elem? act j ≡ some e
    → Apart act
    → Apart (set act j x)
Apart-set e x [] j s at h = h
Apart-set e x (a ∷ act) zero s at h =
    let q : a.phys_reg ≡ x.phys_reg = ap (λ i. i.phys_reg) (some-inj at) ∙ sym s in
    (subst (λ r. All (Other r) act) q h.0, h.1)
Apart-set e x (a ∷ act) (suc j) s at h = (
  All-set (Other a.phys_reg) act j x h.0
      (λ z. All-get_elem? (Other a.phys_reg) act j h.0 at (sym s ∙ z)),
  Apart-set e x act j s at h.1,
)

Holds-set :
    (e x p : LiveInterval) (act : List LiveInterval) (j : ℕ)
    → get_elem? act j ≡ some e
    → Holds act p
    → Holds (set act j x) p ⊎ (e.vreg ≡ p.vreg)
Holds-set e x p [] j at h = elim h [ ]
Holds-set e x p (a ∷ act) zero at (inl v) = inr (ap (λ i. i.vreg) (sym (some-inj at)) ∙ v.0)
Holds-set e x p (a ∷ act) zero at (inr h) = inl (inr h)
Holds-set e x p (a ∷ act) (suc j) at (inl v) = inl (inl v)
Holds-set e x p (a ∷ act) (suc j) at (inr h) = elim (Holds-set e x p act j at h) [
  | inl held ↦ inl (inr held)
  | inr v ↦ inr v
]

Holds-at :
    (e x p : LiveInterval) (act : List LiveInterval) (j : ℕ)
    → get_elem? act j ≡ some e
    → (x.vreg ≡ p.vreg) × (x.end_ ≡ p.end_)
    → Holds (set act j x) p
Holds-at e x p [] j at v = cc
Holds-at e x p (a ∷ act) zero at v = inl v
Holds-at e x p (a ∷ act) (suc j) at v = inr (Holds-at e x p act j at v)

held-Other :
    (rs : List ℕ) (r : ℕ) (p : LiveInterval) (act : List LiveInterval)
    → All (Other r) act
    → All (Recorded rs) act
    → Holds act p
    → reg_at rs p ≢ r
held-Other rs r p [] h k held z = elim held [ ]
held-Other rs r p (a ∷ act) h k (inl v) z = h.0 (sym k.0 ∙ ap (λ i. get_or rs i reg_none) v.0 ∙ z)
held-Other rs r p (a ∷ act) h k (inr held) z = held-Other rs r p act h.1 k.1 held z

-- The active interval that has a register is the only one that has it.
held_same :
    (rs : List ℕ) (e p : LiveInterval) (act : List LiveInterval) (j : ℕ)
    → get_elem? act j ≡ some e
    → Apart act
    → All (Recorded rs) act
    → Holds act p
    → reg_at rs p ≡ e.phys_reg
    → e.vreg ≡ p.vreg
held_same rs e p [] j at h k held z = elim held [ ]
held_same rs e p (a ∷ act) zero at h k (inl v) z = ap (λ i. i.vreg) (sym (some-inj at)) ∙ v.0
held_same rs e p (a ∷ act) zero at h k (inr held) z =
    absurd
      (held-Other rs a.phys_reg p act h.0 k.1 held (z ∙ ap (λ i. i.phys_reg) (sym (some-inj at))))
held_same rs e p (a ∷ act) (suc j) at h k (inl v) z = absurd (
    All-get_elem? (Other a.phys_reg) act j h.0 at
      (sym z ∙ ap (λ i. get_or rs i reg_none) (sym v.0) ∙ k.0))
held_same rs e p (a ∷ act) (suc j) at h k (inr held) z = held_same rs e p act j at h.1 k.1 held z

module _ (home : ℕ → ℕ) (Pool : ℕ → Type 0) (homes : Homes home Pool) where
  module _ (sc : Scan) (j : ℕ) (e c : LiveInterval) (at : get_elem? sc.active j ≡ some e) where
    -- The map of registers after the step.
    abbrev after : List ℕ
    after = set (set sc.vreg_to_reg c.vreg e.phys_reg) e.vreg reg_none

    after-other :
        (p : LiveInterval)
        → OtherVreg c p
        → e.vreg ≢ p.vreg
        → reg_at after p ≡ reg_at sc.vreg_to_reg p
    after-other p n m =
        get_or-set_ne (set sc.vreg_to_reg c.vreg e.phys_reg) e.vreg p.vreg reg_none reg_none m
        ∙ set-reg_at sc.vreg_to_reg c p e.phys_reg n

    after-evicted : (p : LiveInterval) → e.vreg ≡ p.vreg → reg_at after p ≡ reg_none
    after-evicted p v =
        subst (λ i. get_or after i reg_none ≡ reg_none) v
          (get_or-set_default (set sc.vreg_to_reg c.vreg e.phys_reg) e.vreg reg_none)

    after_self : c.vreg < length sc.vreg_to_reg → e.vreg ≢ c.vreg → reg_at after c ≡ e.phys_reg
    after_self len n =
        get_or-set_ne (set sc.vreg_to_reg c.vreg e.phys_reg) e.vreg c.vreg reg_none reg_none n
        ∙ get_or-set_self sc.vreg_to_reg c.vreg e.phys_reg reg_none len

    pub after-Kept : (p : LiveInterval) → OtherVreg c p → Kept sc.vreg_to_reg after p
    after-Kept p n = elim (same_or e.vreg p.vreg) [
      | inl v ↦ inr (after-evicted p v)
      | inr m ↦ inl (after-other p n m)
    ]

    module _ (o : Owners home Pool sc) (waits : Waiting home Pool sc c) where
      e_other : e.vreg ≢ c.vreg
      e_other z =
          All-get_elem? (OtherVreg c) sc.active j
            (others home Pool homes sc.active sc.vreg_to_reg c o.in_pool o.recorded waits.1) at
            (sym z)

      e_pool : Pool e.phys_reg
      e_pool = All-get_elem? (InPool Pool) sc.active j o.in_pool at

      evict-Recorded :
          All
            (Recorded after)
            (set sc.active j (record c { phys_reg = e.phys_reg; is_spilled = true }))
      evict-Recorded =
          set-others (λ a. Recorded sc.vreg_to_reg a × OtherVreg c a) e _ sc.active j
            (λ a k n.
              after-other a k.1 (λ v. n (
                sym k.0
                ∙ ap (λ i. get_or sc.vreg_to_reg i reg_none) (sym v)
                ∙ All-get_elem? (Recorded sc.vreg_to_reg) sc.active j o.recorded at))
              ∙ k.0)
            (after_self waits.0 e_other) at o.apart
            (All-map2 (Recorded sc.vreg_to_reg) (λ a k n. (k, n)) sc.active o.recorded
              (others home Pool homes sc.active sc.vreg_to_reg c o.in_pool o.recorded waits.1))

      pub evict-Owners : Owners home Pool (evict j e c sc)
      evict-Owners = record {
        taken =
            All-set (Taken _) sc.active j _
              (All-map (Taken sc.reg_available) (set-false-Taken sc.reg_available e.phys_reg)
                sc.active o.taken)
              (get_or-set_default sc.reg_available e.phys_reg false);
        in_pool = All-set (InPool Pool) sc.active j _ o.in_pool e_pool;
        apart = Apart-set e _ sc.active j refl at o.apart;
        recorded = evict-Recorded;
        only_pool = set-false-OnlyPool Pool sc.reg_available e.phys_reg o.only_pool;
      }

      evict-Status :
          (p : LiveInterval)
          → Status home Pool sc c.start p
          → OtherVreg c p
          → Status home Pool (evict j e c sc) c.start p
      evict-Status p st n = elim (after-Kept p n) [
        | inr gone ↦ inl gone
        | inl kept ↦ elim st [
          | inl z ↦ inl (kept ∙ z)
          | inr (inl h) ↦ inr (inl (kept ∙ h))
          | inr (inr (inl b)) ↦ inr (inr (inl b))
          | inr (inr (inr held)) ↦ elim (Holds-set e _ p sc.active j at held) [
            | inl h ↦ inr (inr (inr h))
            | inr v ↦ inl (after-evicted p v)
          ]
        ]
      ]

      evict-Earlier :
          (p : LiveInterval) → Status home Pool sc c.start p → OtherVreg c p → Earlier after c p
      evict-Earlier p st n z nz = elim (after-Kept p n) [
        | inr gone ↦ absurd (nz (z ∙ gone))
        | inl kept ↦
            let at_e : reg_at sc.vreg_to_reg p ≡ e.phys_reg =
              sym kept ∙ sym z ∙ after_self waits.0 e_other in
            elim st [
              | inl none_ ↦ absurd (nz (z ∙ kept ∙ none_))
              | inr (inl h) ↦ absurd (homes.unpooled p.vreg (subst Pool (sym at_e ∙ h) e_pool))
              | inr (inr (inl b)) ↦ b
              | inr (inr (inr held)) ↦ absurd (
                  nz (
                    z
                    ∙ after-evicted p
                        (held_same sc.vreg_to_reg e p sc.active j at o.apart o.recorded held at_e)))
            ]
      ]

    -- Taking an active interval's place keeps the invariant.
    pub evict-Inv :
        (ps : List LiveInterval)
        → Inv home Pool sc c.start ps
        → Waiting home Pool sc c
        → All (OtherVreg c) ps
        → Inv home Pool (evict j e c sc) c.start (c ∷ ps)
    evict-Inv ps inv waits fresh =
        let o = inv.owners in
        record {
          owners = evict-Owners o waits;
          status = (
            inr (inr (inr (Holds-at e _ c sc.active j at (refl, refl)))),
            All-map2 (Status home Pool sc c.start) (evict-Status o waits) ps inv.status fresh,
          );
          pairs = (
            All-map2 (Status home Pool sc c.start) (evict-Earlier o waits) ps inv.status fresh,
            Pairs-Kept sc.vreg_to_reg after ps (All-map (OtherVreg c) after-Kept ps fresh)
                inv.pairs,
          );
        }
