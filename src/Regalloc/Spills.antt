-- ===== src/Regalloc/Spills.antt =====
-- The place that one interval of the scan of src/regalloc.c is put to: a register or a stack slot.
use vortech.Prelude.{
  ℕ, suc, ◌<◌, ◌≡◌, ◌≢◌, ◌⊎◌, inl, inr, sym, subst, ◌∙◌, not, ◌==◌, if_cases, Option, none, some,
  List, length, length-set, set, get_or, get_or-set_ne, get_or-set_self,
}
use vortech.Mach.Registers.{reg_none}
use vortech.Regalloc.{LiveInterval}
use vortech.Regalloc.Scan.{Scan, first_free, furthest, gprs, assign, spill, evict, or_evict, place}
use vortech.Regalloc.Available.{same_or}
use vortech.Regalloc.Owners.{reg_at}
use vortech.Regalloc.Steps.{not_none}

abbrev pub slot_at : List (Option ℕ) → LiveInterval → Option ℕ
slot_at slots p = get_or slots p.vreg none

-- The interval has a register or a stack slot.
abbrev pub Placed : List ℕ → List (Option ℕ) → LiveInterval → Type 0
Placed rs slots p = (reg_at rs p ≢ reg_none) ⊎ (slot_at slots p ≢ none)

abbrev pub Settled : Scan → LiveInterval → Type 0
Settled sc p = Placed sc.vreg_to_reg sc.vreg_to_slot p

-- The interval's virtual register is in both maps.
abbrev pub Inside : Scan → LiveInterval → Type 0
Inside sc p = (p.vreg < length sc.vreg_to_reg) × (p.vreg < length sc.vreg_to_slot)

some_ne : {A : Type 0} {a : A} {o : Option A} → o ≡ some a → o ≢ none
some_ne e n = cc

spill-Settled :
    (c : LiveInterval) (sc : Scan) (p : LiveInterval)
    → Inside sc p
    → (c.vreg ≡ p.vreg) ⊎ Settled sc p
    → Settled (spill c sc) p
spill-Settled c sc p inside h = elim (same_or c.vreg p.vreg) [
  | inl e ↦ inr (
      some_ne (
        subst
          (λ v.
            get_or (set sc.vreg_to_slot c.vreg (some sc.stack_slots)) v none ≡ some sc.stack_slots)
          e
          (get_or-set_self sc.vreg_to_slot c.vreg (some sc.stack_slots) none
            (subst (λ v. v < length sc.vreg_to_slot) (sym e) inside.1))))
  | inr n ↦ elim h [
    | inl e ↦ absurd (n e)
    | inr (inl r) ↦ inl r
    | inr (inr s) ↦ inr (λ z.
        s (sym (get_or-set_ne sc.vreg_to_slot c.vreg p.vreg (some sc.stack_slots) none n) ∙ z))
  ]
]

spill-Inside :
    (c : LiveInterval) (sc : Scan) (p : LiveInterval) → Inside sc p → Inside (spill c sc) p
spill-Inside c sc p h = (
  h.0,
  subst (λ n. p.vreg < n) (sym (length-set sc.vreg_to_slot c.vreg (some sc.stack_slots))) h.1,
)

assign-Settled :
    (r : ℕ) (c : LiveInterval) (sc : Scan) (p : LiveInterval)
    → r ≢ reg_none
    → Inside sc p
    → (c.vreg ≡ p.vreg) ⊎ Settled sc p
    → Settled (assign r c sc) p
assign-Settled r c sc p nz inside h = elim (same_or c.vreg p.vreg) [
  | inl e ↦ inl (λ z. nz (
      sym (
        subst (λ v. get_or (set sc.vreg_to_reg c.vreg r) v reg_none ≡ r) e
          (get_or-set_self sc.vreg_to_reg c.vreg r reg_none
            (subst (λ v. v < length sc.vreg_to_reg) (sym e) inside.0)))
      ∙ z))
  | inr n ↦ elim h [
    | inl e ↦ absurd (n e)
    | inr (inl k) ↦ inl (λ z. k (sym (get_or-set_ne sc.vreg_to_reg c.vreg p.vreg r reg_none n) ∙ z))
    | inr (inr s) ↦ inr s
  ]
]

-- What `evict` adds to the spill of the interval at hand.
evict-Settled :
    (j : ℕ) (e c : LiveInterval) (sc : Scan) (p : LiveInterval)
    → Inside sc p
    → (c.vreg ≡ p.vreg) ⊎ Settled sc p
    → Settled (evict j e c (spill c sc)) p
evict-Settled j e c sc p inside h = elim (same_or e.vreg p.vreg) [
  | inl v ↦ at_evicted v
  | inr m ↦ elim (same_or c.vreg p.vreg) [
    | inl v ↦ at_current m v
    | inr n ↦ elim h [
      | inl v ↦ absurd (n v)
      | inr (inl k) ↦ inl (λ z. k (
          sym (
            get_or-set_ne rs' e.vreg p.vreg reg_none reg_none m
            ∙ get_or-set_ne sc.vreg_to_reg c.vreg p.vreg e.phys_reg reg_none n)
          ∙ z))
      | inr (inr s) ↦ inr (λ z. s (
          sym (
            get_or-set_ne slots' e.vreg p.vreg (some (suc sc.stack_slots)) none m
            ∙ get_or-set_ne sc.vreg_to_slot c.vreg p.vreg (some sc.stack_slots) none n)
          ∙ z))
    ]
  ]
]
  where
    rs' : List ℕ
    rs' = set sc.vreg_to_reg c.vreg e.phys_reg

    slots' : List (Option ℕ)
    slots' = set sc.vreg_to_slot c.vreg (some sc.stack_slots)

    inside' : p.vreg < length slots'
    inside' = (spill-Inside c sc p inside).1

    at_evicted : e.vreg ≡ p.vreg → Settled (evict j e c (spill c sc)) p
    at_evicted v = inr (
        some_ne (
          subst
            (λ i.
              get_or (set slots' e.vreg (some (suc sc.stack_slots))) i none
              ≡ some (suc sc.stack_slots))
            v
            (get_or-set_self slots' e.vreg (some (suc sc.stack_slots)) none
              (subst (λ i. i < length slots') (sym v) inside'))))

    at_current : e.vreg ≢ p.vreg → c.vreg ≡ p.vreg → Settled (evict j e c (spill c sc)) p
    at_current m v = inr (
        some_ne (
          get_or-set_ne slots' e.vreg p.vreg (some (suc sc.stack_slots)) none m
          ∙ subst (λ i. get_or slots' i none ≡ some sc.stack_slots) v
              (get_or-set_self sc.vreg_to_slot c.vreg (some sc.stack_slots) none
                (subst (λ i. i < length sc.vreg_to_slot) (sym v) inside.1))))

pub place-Settled :
    (c : LiveInterval) (sc : Scan) (p : LiveInterval)
    → Inside sc p
    → (c.vreg ≡ p.vreg) ⊎ Settled sc p
    → Settled (place c sc) p
unfolding place
place-Settled c sc p inside h =
    let r = first_free gprs sc.reg_available in
    if_cases (λ s. Settled s p) (not (r == reg_none)) (assign r c sc) _
      (λ t. assign-Settled r c sc p (λ z. not_none r z t) inside h)
      (λ f. evicted (furthest 0 c.end_ none sc.active))
  where
    evicted : (o : Option ℕ) → Settled (or_evict c (spill c sc) o) p
    evicted none = spill-Settled c sc p inside h
    evicted (some j) = evict-Settled j (get_or sc.active j c) c sc p inside h

pub place-Inside :
    (c : LiveInterval) (sc : Scan) (p : LiveInterval) → Inside sc p → Inside (place c sc) p
unfolding place
place-Inside c sc p inside =
    let r = first_free gprs sc.reg_available in
    if_cases (λ s. Inside s p) (not (r == reg_none)) (assign r c sc) _
      (λ t. (subst (λ n. p.vreg < n) (sym (length-set sc.vreg_to_reg c.vreg r)) inside.0, inside.1))
      (λ f. evicted (furthest 0 c.end_ none sc.active))
  where
    evicted : (o : Option ℕ) → Inside (or_evict c (spill c sc) o) p
    evicted none = spill-Inside c sc p inside
    evicted (some j) =
        let e = get_or sc.active j c in
        (
          subst (λ n. p.vreg < n)
              (sym (
                length-set (set sc.vreg_to_reg c.vreg e.phys_reg) e.vreg reg_none
                ∙ length-set sc.vreg_to_reg c.vreg e.phys_reg))
              inside.0,
          subst (λ n. p.vreg < n)
              (sym (length-set (set sc.vreg_to_slot c.vreg (some sc.stack_slots)) e.vreg _))
              (spill-Inside c sc p inside).1,
        )
