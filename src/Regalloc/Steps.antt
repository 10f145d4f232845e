-- ===== src/Regalloc/Steps.antt =====
-- One interval of the scan of src/regalloc.c, on every branch.
use vortech.Prelude.{
  some-inj, ℕ, zero, suc, ◌+◌, ◌≤◌, ◌<◌, ◌≡◌, ◌⊎◌, inl, inr, refl, sym, subst, ◌∙◌, Bool, true,
  false, not, ◌&&◌, Option, none, some, List, [], ◌∷◌, ◌==◌, ==_iff, ltb, if◌then◌else◌, if_cases,
  length, length-set, set, get_or, get_elem?, get_or-set_ne, All, All-get_elem?, arith,
}
use vortech.Mach.Registers.{reg_none, rsp, rbp}
use vortech.Regalloc.{LiveInterval}
use vortech.Regalloc.Scan.{
  Scan, first_free, furthest, gprs, assign, spill, or_evict, expired, place, process,
}
use vortech.Regalloc.Owners.{OtherVreg, Homes, Owners, Inv, Waiting, others}
use vortech.Regalloc.Places.{assign-Inv, spill-Inv, spilled-Inv, expired-Inv, set-reg_at}
use vortech.Regalloc.Evict.{evict-Inv}

and_left : (a b : Bool) → (a && b) ≡ true → a ≡ true
and_left true b e = refl
and_left false b e = e

pub and_right : (a b : Bool) → (a && b) ≡ true → b ≡ true
and_right true b e = e
and_right false b e = cc

not-true : (b : Bool) → not b ≡ true → b ≡ false
not-true true e = cc
not-true false e = refl

pub not_none : (r : ℕ) → r ≡ reg_none → not (r == reg_none) ≡ true → ⊥
not_none r z t = let f = not-true _ t in let y = (==_iff r reg_none).1 z in cc

first_free-free :
    (rs : List ℕ) (av : List Bool)
    → (first_free rs av ≡ reg_none) ⊎ (get_or av (first_free rs av) false ≡ true)
first_free-free [] av = inl refl
first_free-free (r ∷ rs) av =
    if_cases (λ i. (i ≡ reg_none) ⊎ (get_or av i false ≡ true))
      (get_or av r false && not (r == rsp) && not (r == rbp)) r (first_free rs av)
      (λ t. inr (and_left _ _ (and_left _ _ t))) (λ f. first_free-free rs av)

furthest-bound :
    (act : List LiveInterval) (j far : ℕ) (best : Option ℕ)
    → ((k : ℕ) → best ≡ some k → k < j)
    → (k : ℕ) → furthest j far best act ≡ some k
    → k < j + length act
furthest-bound [] j far best h k e = let b = h k e in omega arith
furthest-bound (a ∷ act) j far best h k e =
    let further = ltb far a.end_ && not a.is_param in
    let b : k < suc j + length act =
      furthest-bound act (suc j) (if further then a.end_ else far)
        (if further then some j else best)
        (λ i.
          if_cases (λ o. o ≡ some i → i < suc j) further (some j) best
            (λ t q. let p = some-inj q in omega arith) (λ f q. let s = h i q in omega arith))
        k e in
    omega arith

get_elem?-get_or :
    (act : List LiveInterval) (i : ℕ) (d : LiveInterval)
    → i < length act
    → get_elem? act i ≡ some (get_or act i d)
get_elem?-get_or [] i d h = elim h [ ]
get_elem?-get_or (a ∷ act) zero d h = refl
get_elem?-get_or (a ∷ act) (suc i) d h = get_elem?-get_or act i d (omega arith)

-- An interval without a register takes the branch that places it.
pub process-place :
    (c : LiveInterval) (sc : Scan)
    → c.phys_reg ≡ reg_none
    → process c sc ≡ place c (expired c.start sc)
unfolding process
process-place c sc e =
    if_cases (λ s. s ≡ place c (expired c.start sc)) (c.is_param && not (c.phys_reg == reg_none)) _
      _ (λ t. absurd (not_none c.phys_reg e (and_right _ _ t))) (λ f. refl)

module _ (home : ℕ → ℕ) (Pool : ℕ → Type 0) (homes : Homes home Pool) where
  or_evict-Inv :
      (c : LiveInterval) (sc : Scan) (ps : List LiveInterval) (o : Option ℕ)
      → ((k : ℕ) → o ≡ some k → k < length sc.active)
      → Inv home Pool sc c.start ps
      → Waiting home Pool sc c
      → All (OtherVreg c) ps
      → Inv home Pool (or_evict c (spill c sc) o) c.start (c ∷ ps)
  or_evict-Inv c sc ps none h inv waits fresh = spill-Inv home Pool homes sc c ps inv waits fresh
  or_evict-Inv c sc ps (some j) h inv waits fresh =
      evict-Inv home Pool homes (spill c sc) j (get_or sc.active j c) c
        (get_elem?-get_or sc.active j c (h j refl)) ps (spilled-Inv home Pool sc c c.start ps inv)
        waits fresh

  place-Inv :
      (c : LiveInterval) (sc : Scan) (ps : List LiveInterval)
      → Inv home Pool sc c.start ps
      → Waiting home Pool sc c
      → All (OtherVreg c) ps
      → Inv home Pool (place c sc) c.start (c ∷ ps)
  unfolding place
  place-Inv c sc ps inv waits fresh =
      let r = first_free gprs sc.reg_available in
      if_cases (λ s. Inv home Pool s c.start (c ∷ ps)) (not (r == reg_none)) (assign r c sc) _
        (λ t. elim (first_free-free gprs sc.reg_available) [
          | inl z ↦ absurd (not_none r z t)
          | inr free ↦ assign-Inv home Pool homes sc r c ps inv waits fresh free
        ])
        (λ f.
          or_evict-Inv c sc ps (furthest 0 c.end_ none sc.active)
            (λ k e.
              let b : k < 0 + length sc.active =
                furthest-bound sc.active 0 c.end_ none (λ i q. cc) k e in
              omega arith)
            inv waits fresh)

  -- What still waits waits behind the step.
  place-Waiting :
      (c : LiveInterval) (sc : Scan) (q : LiveInterval)
      → Owners home Pool sc
      → Waiting home Pool sc q
      → OtherVreg c q
      → Waiting home Pool (place c sc) q
  unfolding place
  place-Waiting c sc q o waits other =
      let r = first_free gprs sc.reg_available in
      if_cases (λ s. Waiting home Pool s q) (not (r == reg_none)) (assign r c sc) _
        (λ t. (
          subst (λ n. q.vreg < n) (sym (length-set sc.vreg_to_reg c.vreg r)) waits.0,
          set-reg_at sc.vreg_to_reg c q r other ∙ waits.1,
        ))
        (λ f. evicted (furthest 0 c.end_ none sc.active) (λ k e.
          let b : k < 0 + length sc.active =
            furthest-bound sc.active 0 c.end_ none (λ i q. cc) k e in
          omega arith))
    where
      evicted :
          (o' : Option ℕ)
          → ((k : ℕ) → o' ≡ some k → k < length sc.active)
          → Waiting home Pool (or_evict c (spill c sc) o') q
      evicted none h = waits
      evicted (some j) h =
          let e = get_or sc.active j c in
          let n : OtherVreg q e =
            All-get_elem? (OtherVreg q) sc.active j
              (others home Pool homes sc.active sc.vreg_to_reg q o.in_pool o.recorded waits.1)
              (get_elem?-get_or sc.active j c (h j refl)) in
          let rs = set sc.vreg_to_reg c.vreg e.phys_reg in
          (
            subst (λ i. q.vreg < i)
                (sym (length-set rs e.vreg reg_none ∙ length-set sc.vreg_to_reg c.vreg e.phys_reg))
                waits.0,
            get_or-set_ne rs e.vreg q.vreg reg_none reg_none (λ z. n (sym z))
                ∙ set-reg_at sc.vreg_to_reg c q e.phys_reg other
                ∙ waits.1,
          )

  pub process-Inv :
      (c : LiveInterval) (sc : Scan) (t : ℕ) (ps : List LiveInterval)
      → Inv home Pool sc t ps
      → t ≤ c.start
      → c.phys_reg ≡ reg_none
      → Waiting home Pool sc c
      → All (OtherVreg c) ps
      → Inv home Pool (process c sc) c.start (c ∷ ps)
  unfolding expired
  process-Inv c sc t ps inv le e waits fresh = rw (process-place c sc e) (
      place-Inv c (expired c.start sc) ps (expired-Inv home Pool sc t c.start ps le inv) waits
        fresh)

  pub process-Waiting :
      (c : LiveInterval) (sc : Scan) (t : ℕ) (ps : List LiveInterval) (q : LiveInterval)
      → Inv home Pool sc t ps
      → t ≤ c.start
      → c.phys_reg ≡ reg_none
      → Waiting home Pool sc q
      → OtherVreg c q
      → Waiting home Pool (process c sc) q
  unfolding expired
  process-Waiting c sc t ps q inv le e waits other = rw (process-place c sc e) (
      place-Waiting c (expired c.start sc) q (expired-Inv home Pool sc t c.start ps le inv).owners
        waits other)
