-- ===== src/Regalloc/Disjoint.antt =====
-- The scan of src/regalloc.c over the sorted intervals.
use vortech.Prelude.{ℕ, ◌≤◌, ◌<◌, ◌≡◌, ◌≢◌, ◌⊎◌, sym, List, [], ◌∷◌, All, All-map, All-map2}
use vortech.Mach.Registers.{reg_none}
use vortech.Regalloc.{LiveInterval}
use vortech.Regalloc.Scan.{Scan, process, scan_all}
use vortech.Regalloc.Owners.{reg_at, OtherVreg, Earlier, Pairs, Homes, Inv, Waiting}
use vortech.Regalloc.Steps.{process-Inv, process-Waiting}

-- The relation holds between each element of the list and each later one.
abbrev pub AllPairs {κ} : (LiveInterval → LiveInterval → Type κ) → List LiveInterval → Type κ
AllPairs R [] = Unit
AllPairs R (x ∷ xs) = All (R x) xs × AllPairs R xs

-- No interval starts before one in front of it.
abbrev pub StartsBy : LiveInterval → LiveInterval → Type 0
StartsBy p q = p.start ≤ q.start

-- Intervals that have the same register are disjoint.
abbrev pub Separate : List ℕ → LiveInterval → LiveInterval → Type 0
Separate rs p q =
    reg_at rs p ≡ reg_at rs q → reg_at rs p ≢ reg_none → (p.end_ < q.start) ⊎ (q.end_ < p.start)

module _ (home : ℕ → ℕ) (Pool : ℕ → Type 0) (homes : Homes home Pool) where
  -- What the scan leaves of an invariant that held before it: the intervals that were handled before
  -- are apart from the later ones, and these from each other.
  pub scan_all-Separate :
      (rest : List LiveInterval) (sc : Scan) (t : ℕ) (ps : List LiveInterval)
      → Inv home Pool sc t ps
      → All (λ c. t ≤ c.start) rest
      → All (λ c. c.phys_reg ≡ reg_none) rest
      → All (Waiting home Pool sc) rest
      → All (λ c. All (OtherVreg c) ps) rest
      → AllPairs StartsBy rest
      → AllPairs OtherVreg rest
      → let rs = (scan_all rest sc).vreg_to_reg in
        Pairs rs ps × All (λ c. All (Earlier rs c) ps) rest × AllPairs (λ p q. Earlier rs q p) rest
  unfolding scan_all
  scan_all-Separate [] sc t ps inv by none_ waits fresh sorted distinct = (inv.pairs, tt, tt)
  scan_all-Separate (c ∷ rest) sc t ps inv by none_ waits fresh sorted distinct =
      let (pairs, earlier, later) =
        scan_all-Separate rest (process c sc) c.start (c ∷ ps)
          (process-Inv home Pool homes c sc t ps inv by.0 none_.0 waits.0 fresh.0) sorted.0 none_.1
          (All-map2 (Waiting home Pool sc)
            (λ q w o. process-Waiting home Pool homes c sc t ps q inv by.0 none_.0 w o) rest waits.1
            distinct.0)
          (All-map2 (λ q. All (OtherVreg q) ps) (λ q f o. ((λ e. o (sym e)), f)) rest fresh.1
            distinct.0)
          sorted.1 distinct.1 in
      (
        pairs.1,
        (pairs.0, All-map (λ q. All (Earlier _ q) (c ∷ ps)) (λ q e. e.1) rest earlier),
        (All-map (λ q. All (Earlier _ q) (c ∷ ps)) (λ q e. e.0) rest earlier, later),
      )
