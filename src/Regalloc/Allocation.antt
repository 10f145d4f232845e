-- ===== src/Regalloc/Allocation.antt =====
-- The whole register allocation of src/regalloc.c.
use vortech.Prelude.{ℕ, ◌<◌, inl, inr, refl, sym, subst, ◌∙◌, List, [], ◌∷◌, All, All-map, arith}
use mathlib.Core.List.{Permᴰ}
use mathlib.Core.List.Permᴰ
use vortech.Prelude.Int.{◌≤ℤ◌, pos}
use vortech.Mach.{MachFunc}
use vortech.Regalloc.{LiveInterval}
use vortech.Regalloc.Intervals.{compute_live_intervals, live_of}
use vortech.Regalloc.Scan.{cmp_interval_start, scan_init, regalloc_linear_scan}
use vortech.Regalloc.Owners.{OtherVreg}
use vortech.Regalloc.Disjoint.{AllPairs, StartsBy, Separate, scan_all-Separate}
use vortech.Regalloc.Numbered.{
  Within, compute_live_intervals-Numbered, live_of-Within, live_of-distinct,
}
use vortech.Regalloc.Start.{home_of, Open, scan_init-Homes, scan_init-Inv, length-scan_init}

-- By the comparison, the interval may stand in front of the other.
abbrev pub NotAfter : LiveInterval → LiveInterval → Type 0
NotAfter p q = cmp_interval_start p q ≤ℤ pos 0

-- What the allocator relies on of `qsort` with `cmp_interval_start`: it permutes the array, and
-- where no two elements have the same virtual register, none comes out in front of one that the
-- comparison puts before it.
pub record SortsIntervals (qsort : List LiveInterval → List LiveInterval) : Type 0 where
  pub permutes : (xs : List LiveInterval) → Permᴰ (qsort xs) xs
  pub sorted : (xs : List LiveInterval) → AllPairs OtherVreg xs → AllPairs NotAfter (qsort xs)

NotAfter-start : (p q : LiveInterval) → NotAfter p q → StartsBy p q
unfolding cmp_interval_start
NotAfter-start p q = ground arith

module _ (P : LiveInterval → Type 0) where
  pub All-perm : {xs ys : List LiveInterval} → Permᴰ xs ys → All P xs → All P ys
  All-perm Permᴰ.nil h = h
  All-perm (Permᴰ.cons e p) h = (subst P e h.0, All-perm p h.1)
  All-perm (Permᴰ.swap e f) h = (subst P f h.1.0, (subst P e h.0, h.1.1))
  All-perm (Permᴰ.trans p q) h = All-perm q (All-perm p h)

module _ (R : LiveInterval → LiveInterval → Type 0)
    (symmetric : (p q : LiveInterval) → R p q → R q p) where
  AllPairs-perm : {xs ys : List LiveInterval} → Permᴰ xs ys → AllPairs R xs → AllPairs R ys
  AllPairs-perm Permᴰ.nil h = h
  AllPairs-perm {xs = a ∷ xs} {ys = b ∷ ys} (Permᴰ.cons e p) h =
      (All-perm (R b) p (subst (λ x. All (R x) xs) e h.0), AllPairs-perm p h.1)
  AllPairs-perm (Permᴰ.swap {a = a} {b = b} {a' = a'} {b' = b'} {l = l} e f) h = (
    (
      subst (λ x. R x b') f (subst (λ y. R b y) e (symmetric a b h.0.0)),
      subst (λ x. All (R x) l) f h.1.0,
    ),
    (subst (λ x. All (R x) l) e h.0.1, h.1.1),
  )
  AllPairs-perm (Permᴰ.trans p q) h = AllPairs-perm q (AllPairs-perm p h)

Separate-sym : (rs : List ℕ) (p q : LiveInterval) → Separate rs p q → Separate rs q p
Separate-sym rs p q h e n = elim (h (sym e) (λ z. n (e ∙ z))) [ inl l ↦ inr l | inr l ↦ inl l ]

AllPairs-map :
    {R Q : LiveInterval → LiveInterval → Type 0}
    → ((p q : LiveInterval) → R p q → Q p q)
    → (xs : List LiveInterval) → AllPairs R xs
    → AllPairs Q xs
AllPairs-map f [] h = tt
AllPairs-map {R} f (x ∷ xs) h = (All-map (R x) (f x) xs h.0, AllPairs-map f xs h.1)

-- After register allocation, two live intervals whose virtual registers were given the same
-- register are disjoint: one ends before the other starts. This holds when the sort permutes the
-- intervals and orders them by their comparison.
pub regalloc_linear_scan-Separate :
    (qsort : List LiveInterval → List LiveInterval) (mf : MachFunc)
    → SortsIntervals qsort
    → AllPairs
        (Separate (regalloc_linear_scan qsort mf).vreg_to_reg)
        (live_of (compute_live_intervals mf))
unfolding regalloc_linear_scan
regalloc_linear_scan-Separate qsort mf laws =
    let ivs = compute_live_intervals mf in
    let live = live_of ivs in
    let sc = scan_init mf in
    let perm : Permᴰ live (qsort live) = Permᴰ.symm (laws.permutes live) in
    let within = live_of-Within 0 mf.next_vreg ivs (compute_live_intervals-Numbered mf) in
    let distinct = live_of-distinct 0 mf.next_vreg ivs (compute_live_intervals-Numbered mf) in
    let out =
      scan_all-Separate (home_of sc.vreg_to_reg) (Open sc.reg_available) (scan_init-Homes mf)
        (qsort live) sc 0 [] (scan_init-Inv mf)
        (All-map (Within 0 mf.next_vreg) (λ p w. omega arith) (qsort live) (All-perm _ perm within))
        (All-map (Within 0 mf.next_vreg) (λ p w. w.2) (qsort live) (All-perm _ perm within))
        (All-map (Within 0 mf.next_vreg)
          (λ p w. (subst (λ n. p.vreg < n) (sym (length-scan_init mf)) w.1, refl)) (qsort live)
          (All-perm _ perm within))
        (All-map (Within 0 mf.next_vreg) (λ p w. tt) (qsort live) (All-perm _ perm within))
        (AllPairs-map NotAfter-start (qsort live) (laws.sorted live distinct))
        (AllPairs-perm OtherVreg (λ p q n e. n (sym e)) perm distinct) in
    AllPairs-perm (Separate _) (Separate-sym _) (laws.permutes live)
      (AllPairs-map (λ p q h e n. inl (h (sym e) (λ z. n (e ∙ z)))) (qsort live) out.2)
