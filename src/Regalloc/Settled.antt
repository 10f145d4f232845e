-- ===== src/Regalloc/Settled.antt =====
-- Where src/regalloc.c puts each interval: a register or a stack slot.
use vortech.Prelude.{
  ◌<◌, ◌≡◌, ◌⊎◌, inl, inr, refl, sym, subst, none, List, [], ◌∷◌, length, length-replicate, All,
  All-map,
}
use mathlib.Core.List.Permᴰ
use vortech.Mach.{MachFunc}
use vortech.Mach.Registers.{reg_none}
use vortech.Regalloc.{LiveInterval}
use vortech.Regalloc.Intervals.{compute_live_intervals, live_of}
use vortech.Regalloc.Scan.{Scan, expired, process, scan_all, scan_init, regalloc_linear_scan}
use vortech.Regalloc.Steps.{process-place}
use vortech.Regalloc.Numbered.{Within, compute_live_intervals-Numbered, live_of-Within}
use vortech.Regalloc.Start.{length-scan_init}
use vortech.Regalloc.Allocation.{SortsIntervals, All-perm}
use vortech.Regalloc.Spills.{Placed, Settled, Inside, place-Settled, place-Inside}

-- The intervals of a list that have no register yet and are inside the maps.
abbrev Ready : Scan → LiveInterval → Type 0
Ready sc q = (q.phys_reg ≡ reg_none) × Inside sc q

process-Settled :
    (c : LiveInterval) (sc : Scan) (p : LiveInterval)
    → c.phys_reg ≡ reg_none
    → Inside sc p
    → (c.vreg ≡ p.vreg) ⊎ Settled sc p
    → Settled (process c sc) p
unfolding expired
process-Settled c sc p e inside h =
    rw (process-place c sc e) (place-Settled c (expired c.start sc) p inside h)

process-Inside :
    (c : LiveInterval) (sc : Scan) (p : LiveInterval)
    → c.phys_reg ≡ reg_none
    → Inside sc p
    → Inside (process c sc) p
unfolding expired
process-Inside c sc p e inside =
    rw (process-place c sc e) (place-Inside c (expired c.start sc) p inside)

scan_all-keeps :
    (rest : List LiveInterval) (sc : Scan) (p : LiveInterval)
    → All (λ q. q.phys_reg ≡ reg_none) rest
    → Inside sc p
    → Settled sc p
    → Settled (scan_all rest sc) p
unfolding scan_all
scan_all-keeps [] sc p free inside h = h
scan_all-keeps (c ∷ rest) sc p free inside h =
    scan_all-keeps rest (process c sc) p free.1 (process-Inside c sc p free.0 inside)
      (process-Settled c sc p free.0 inside (inr h))

scan_all-Settled :
    (rest : List LiveInterval) (sc : Scan)
    → All (Ready sc) rest
    → All (Settled (scan_all rest sc)) rest
unfolding scan_all
scan_all-Settled [] sc h = tt
scan_all-Settled (c ∷ rest) sc h = (
  scan_all-keeps rest (process c sc) c (All-map (Ready sc) (λ q r. r.0) rest h.1)
      (process-Inside c sc c h.0.0 h.0.1) (process-Settled c sc c h.0.0 h.0.1 (inl refl)),
  scan_all-Settled rest (process c sc)
      (All-map (Ready sc) (λ q r. (r.0, process-Inside c sc q h.0.0 r.1)) rest h.1),
)

length-slots : (mf : MachFunc) → length (scan_init mf).vreg_to_slot ≡ mf.next_vreg
unfolding scan_init
length-slots mf = length-replicate mf.next_vreg none

-- Register allocation leaves no live interval without a place: its virtual register has a register or
-- a stack slot. This holds when the sort permutes the intervals and orders them by their comparison.
pub regalloc_linear_scan-Placed :
    (qsort : List LiveInterval → List LiveInterval) (mf : MachFunc)
    → SortsIntervals qsort
    → let ra = regalloc_linear_scan qsort mf in
      All (Placed ra.vreg_to_reg ra.vreg_to_slot) (live_of (compute_live_intervals mf))
unfolding regalloc_linear_scan
regalloc_linear_scan-Placed qsort mf laws =
    let ivs = compute_live_intervals mf in
    let live = live_of ivs in
    let within =
      All-perm (Within 0 mf.next_vreg) (Permᴰ.symm (laws.permutes live))
        (live_of-Within 0 mf.next_vreg ivs (compute_live_intervals-Numbered mf)) in
    All-perm _ (laws.permutes live) (
      scan_all-Settled (qsort live) (scan_init mf) (
        All-map (Within 0 mf.next_vreg)
          (λ p w. (
            w.2,
            (
              subst (λ n. p.vreg < n) (sym (length-scan_init mf)) w.1,
              subst (λ n. p.vreg < n) (sym (length-slots mf)) w.1,
            ),
          ))
          (qsort live) within))
