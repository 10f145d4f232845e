-- ===== src/Regalloc/Saved.antt =====
-- The registers that src/regalloc.c marks as used, for the prologue to save.
use vortech.Prelude.{
  ℕ, zero, suc, ◌+◌, ◌<◌, ◌≡◌, refl, ap, ◌∙◌, Bool, true, false, ◌&&◌, ◌||◌, ◌==◌, ==_iff, List, [],
  ◌∷◌, length, get_or, mem, arith,
}
use vortech.Mach.{MachFunc}
use vortech.Mach.Registers.{reg_none, reg_count, reg_is_callee_saved}
use vortech.Regalloc.{LiveInterval}
use vortech.Regalloc.Scan.{saved_from, regalloc_linear_scan}

abbrev marked : ℕ → List ℕ → Bool
marked k rs = reg_is_callee_saved k && mem k rs

saved_from-at :
    (r n : ℕ) (rs : List ℕ) (i k : ℕ)
    → i < n
    → r + i ≡ k
    → get_or (saved_from r n rs) i false ≡ marked k rs
saved_from-at r zero rs i k h e = elim h [ ]
saved_from-at r (suc n) rs zero k h e =
    let same : r ≡ k = omega (arith, e) in ap (λ q. marked q rs) same
saved_from-at r (suc n) rs (suc i) k h e =
    saved_from-at (suc r) n rs i k (omega arith) (omega (arith, e))

or_true : (b c : Bool) → c ≡ true → (b || c) ≡ true
or_true true c e = refl
or_true false c e = e

mem-get_or : (rs : List ℕ) (v : ℕ) → v < length rs → mem (get_or rs v reg_none) rs ≡ true
mem-get_or [] v h = elim h [ ]
mem-get_or (r ∷ rs) zero h = rw ((==_iff r r).1 refl) refl
mem-get_or (r ∷ rs) (suc v) h =
    or_true (get_or rs v reg_none == r) (mem (get_or rs v reg_none) rs)
      (mem-get_or rs v (omega arith))

and_true : (b c : Bool) → b ≡ true → c ≡ true → (b && c) ≡ true
and_true true c e f = f
and_true false c e f = e

callee_saved-lt : (r : ℕ) → reg_is_callee_saved r ≡ true → r < reg_count
callee_saved-lt r h = ground arith

-- Register allocation marks every callee-saved register that it gives to a virtual register as used.
pub regalloc_linear_scan-reg_used :
    (qsort : List LiveInterval → List LiveInterval) (mf : MachFunc) (v : ℕ)
    → v < length (regalloc_linear_scan qsort mf).vreg_to_reg
    → reg_is_callee_saved (get_or (regalloc_linear_scan qsort mf).vreg_to_reg v reg_none) ≡ true
    → let ra = regalloc_linear_scan qsort mf in
      get_or ra.reg_used (get_or ra.vreg_to_reg v reg_none) false ≡ true
unfolding regalloc_linear_scan
regalloc_linear_scan-reg_used qsort mf v len saved =
    let rs = (regalloc_linear_scan qsort mf).vreg_to_reg in
    let r = get_or rs v reg_none in
    saved_from-at 0 reg_count rs r r (callee_saved-lt r saved) (omega arith)
    ∙ and_true (reg_is_callee_saved r) (mem r rs) saved (mem-get_or rs v len)
