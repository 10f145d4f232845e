-- ===== src/Regalloc/Physical.antt =====
-- The registers that src/regalloc.c writes into the instructions.
use vortech.Prelude.{
  leb, ℕ, zero, suc, ◌≤◌, ◌<◌, ◌≡◌, ◌⊎◌, inl, inr, refl, sym, subst, Bool, true, false, not, ◌&&◌,
  ◌==◌, ltb, if_both, if_cases, Option, none, some, List, [], ◌∷◌, map, length, set, get_or,
  replicate, All, All-map, All-append, All-set, arith,
}
use mathlib.Core.List.Permᴰ
use vortech.Ssa.{invalid_vreg}
use vortech.Mach.{MachInst, MachBlock, MachFunc}
use vortech.Mach.Registers.{reg_none, r15, param_regs, rsp, rbp}
use vortech.Regalloc.{LiveInterval, RegAllocResult}
use vortech.Regalloc.Intervals.{compute_live_intervals, live_of, is_marker}
use vortech.Regalloc.Scan.{
  Scan, map_params, first_free, furthest, gprs, assign, spill, or_evict, expired, place, process,
  scan_all, scan_init, regalloc_linear_scan,
}
use vortech.Regalloc.Steps.{and_right}
use vortech.Regalloc.Apply.{reg_of, apply_inst, apply_block, regalloc_apply}
use vortech.Regalloc.Expire.{expire-All}
use vortech.Regalloc.Numbered.{Within, compute_live_intervals-Numbered, live_of-Within}
use vortech.Regalloc.Allocation.{SortsIntervals, All-perm}

-- A general register's number, or none's.
abbrev pub IsGprOrNone : ℕ → Type 0
IsGprOrNone r = r ≤ r15

abbrev HasGpr : LiveInterval → Type 0
HasGpr a = IsGprOrNone a.phys_reg

abbrev InGprs : Scan → Type 0
InGprs sc = All IsGprOrNone sc.vreg_to_reg × All HasGpr sc.active

first_free-IsGprOrNone :
    (rs : List ℕ) (av : List Bool) → All IsGprOrNone rs → IsGprOrNone (first_free rs av)
first_free-IsGprOrNone [] av h = omega arith
first_free-IsGprOrNone (r ∷ rs) av h =
    if_both IsGprOrNone (get_or av r false && not (r == rsp) && not (r == rbp)) r (first_free rs av)
      h.0 (first_free-IsGprOrNone rs av h.1)

all_small : List ℕ → Bool
all_small [] = true
all_small (r ∷ rs) = leb r r15 && all_small rs

all_small-All : (rs : List ℕ) → all_small rs ≡ true → All IsGprOrNone rs
unfolding all_small
all_small-All [] e = tt
all_small-All (r ∷ rs) e = (ground arith, all_small-All rs (and_right (leb r r15) (all_small rs) e))

gprs-IsGprOrNone : All IsGprOrNone gprs
unfolding all_small
gprs-IsGprOrNone = all_small-All gprs refl

params-IsGprOrNone : All IsGprOrNone param_regs
unfolding all_small
params-IsGprOrNone = all_small-All param_regs refl

get_or-HasGpr :
    (act : List LiveInterval) (i : ℕ) (d : LiveInterval)
    → All HasGpr act
    → HasGpr d
    → HasGpr (get_or act i d)
get_or-HasGpr [] i d h k = k
get_or-HasGpr (a ∷ act) zero d h k = h.0
get_or-HasGpr (a ∷ act) (suc i) d h k = get_or-HasGpr act i d h.1 k

or_evict-InGprs :
    (c : LiveInterval) (sc : Scan) (o : Option ℕ) → HasGpr c → InGprs sc → InGprs (or_evict c sc o)
or_evict-InGprs c sc none hc h = h
or_evict-InGprs c sc (some j) hc h =
    let e = get_or-HasGpr sc.active j c h.1 hc in
    (
      All-set IsGprOrNone _ (get_or sc.active j c).vreg reg_none
          (All-set IsGprOrNone sc.vreg_to_reg c.vreg _ h.0 e) (omega arith),
      All-set HasGpr sc.active j _ h.1 e,
    )

place-InGprs : (c : LiveInterval) (sc : Scan) → HasGpr c → InGprs sc → InGprs (place c sc)
unfolding place
place-InGprs c sc hc h =
    let r = first_free gprs sc.reg_available in
    let hr = first_free-IsGprOrNone gprs sc.reg_available gprs-IsGprOrNone in
    if_both InGprs (not (r == reg_none)) (assign r c sc) _
      (
        All-set IsGprOrNone sc.vreg_to_reg c.vreg r h.0 hr,
        All-append HasGpr sc.active _ h.1 (hr, tt),
      )
      (or_evict-InGprs c (spill c sc) (furthest 0 c.end_ none sc.active) hc h)

process-InGprs : (c : LiveInterval) (sc : Scan) → HasGpr c → InGprs sc → InGprs (process c sc)
unfolding process expired
process-InGprs c sc hc h =
    if_both InGprs (c.is_param && not (c.phys_reg == reg_none)) _ _
      (h.0, All-append HasGpr sc.active (c ∷ []) h.1 (hc, tt))
      (place-InGprs c (expired c.start sc) hc
        (h.0, expire-All HasGpr (length sc.active) c.start sc.active sc.reg_available h.1))

scan_all-InGprs :
    (rest : List LiveInterval) (sc : Scan) → All HasGpr rest → InGprs sc → InGprs (scan_all rest sc)
unfolding scan_all
scan_all-InGprs [] sc hs h = h
scan_all-InGprs (c ∷ rest) sc hs h =
    scan_all-InGprs rest (process c sc) hs.1 (process-InGprs c sc hs.0 h)

map_params-IsGprOrNone :
    (n : ℕ) (vs prs rs : List ℕ) (av : List Bool)
    → All IsGprOrNone prs
    → All IsGprOrNone rs
    → All IsGprOrNone (map_params n vs prs rs av).0
map_params-IsGprOrNone n [] prs rs av hp h = h
map_params-IsGprOrNone n (v ∷ vs) [] rs av hp h = h
map_params-IsGprOrNone n (v ∷ vs) (r ∷ prs) rs av hp h =
    map_params-IsGprOrNone n vs prs _ _ hp.1
      (if_both (All IsGprOrNone) (ltb v n) (set rs v r) rs (All-set IsGprOrNone rs v r h hp.0) h)

none-IsGprOrNone : (n : ℕ) → All IsGprOrNone (replicate n reg_none)
none-IsGprOrNone zero = tt
none-IsGprOrNone (suc n) = (omega arith, none-IsGprOrNone n)

scan_init-InGprs : (mf : MachFunc) → InGprs (scan_init mf)
unfolding scan_init
scan_init-InGprs mf = (
  map_params-IsGprOrNone mf.next_vreg mf.param_vregs param_regs (replicate mf.next_vreg reg_none) _
      params-IsGprOrNone (none-IsGprOrNone mf.next_vreg),
  tt,
)

get_or-IsGprOrNone : (rs : List ℕ) (v : ℕ) → All IsGprOrNone rs → IsGprOrNone (get_or rs v reg_none)
get_or-IsGprOrNone [] v h = omega arith
get_or-IsGprOrNone (r ∷ rs) zero h = h.0
get_or-IsGprOrNone (r ∷ rs) (suc v) h = get_or-IsGprOrNone rs v h.1

-- A virtual register of the function, or VT_INVALID_VREG.
abbrev pub IsVreg : ℕ → ℕ → Type 0
IsVreg n v = (v ≡ invalid_vreg) ⊎ (v < n)

abbrev pub NamesVregs : ℕ → MachInst → Type 0
NamesVregs n mi = IsVreg n mi.dst × IsVreg n mi.src × IsVreg n mi.src2

abbrev pub IsPhysical : ℕ → Type 0
IsPhysical r = (r ≡ invalid_vreg) ⊎ IsGprOrNone r

-- Each operand of an instruction that is no label and no nop is a general register, none, or
-- VT_INVALID_VREG.
abbrev pub NamesGprs : MachInst → Type 0
NamesGprs mi = is_marker mi.op ≡ false → IsPhysical mi.dst × IsPhysical mi.src × IsPhysical mi.src2

reg_of-IsPhysical :
    (ra : RegAllocResult) (v : ℕ)
    → All IsGprOrNone ra.vreg_to_reg
    → IsVreg ra.num_vregs v
    → IsPhysical (reg_of ra false v)
reg_of-IsPhysical ra v h (inl e) =
    if_cases IsPhysical (not (v == invalid_vreg) && ltb v ra.num_vregs && not false) _ v
      (λ t. inr (get_or-IsGprOrNone ra.vreg_to_reg v h)) (λ f. inl e)
reg_of-IsPhysical ra v h (inr lt) =
    if_cases IsPhysical (not (v == invalid_vreg) && ltb v ra.num_vregs && not false) _ v
      (λ t. inr (get_or-IsGprOrNone ra.vreg_to_reg v h)) (λ f. inl (ground arith))

apply_inst-NamesGprs :
    (ra : RegAllocResult) (mi : MachInst)
    → All IsGprOrNone ra.vreg_to_reg
    → NamesVregs ra.num_vregs mi
    → NamesGprs (apply_inst ra mi)
apply_inst-NamesGprs ra mi h (d, s, s2) live = (
  subst (λ b. IsPhysical (reg_of ra b mi.dst)) (sym live) (reg_of-IsPhysical ra mi.dst h d),
  subst (λ b. IsPhysical (reg_of ra b mi.src)) (sym live) (reg_of-IsPhysical ra mi.src h s),
  reg_of-IsPhysical ra mi.src2 h s2,
)

apply_insts-NamesGprs :
    (ra : RegAllocResult) (mis : List MachInst)
    → All IsGprOrNone ra.vreg_to_reg
    → All (NamesVregs ra.num_vregs) mis
    → All NamesGprs (map (apply_inst ra) mis)
apply_insts-NamesGprs ra [] h k = tt
apply_insts-NamesGprs ra (mi ∷ mis) h k =
    (apply_inst-NamesGprs ra mi h k.0, apply_insts-NamesGprs ra mis h k.1)

apply_blocks-NamesGprs :
    (ra : RegAllocResult) (mbs : List MachBlock)
    → All IsGprOrNone ra.vreg_to_reg
    → All (λ mb. All (NamesVregs ra.num_vregs) mb.insts) mbs
    → All (λ mb. All NamesGprs mb.insts) (map (apply_block ra) mbs)
apply_blocks-NamesGprs ra [] h k = tt
apply_blocks-NamesGprs ra (mb ∷ mbs) h k =
    (apply_insts-NamesGprs ra mb.insts h k.0, apply_blocks-NamesGprs ra mbs h k.1)

linear_scan-IsGprOrNone :
    (qsort : List LiveInterval → List LiveInterval) (mf : MachFunc)
    → SortsIntervals qsort
    → All IsGprOrNone (regalloc_linear_scan qsort mf).vreg_to_reg
unfolding regalloc_linear_scan
linear_scan-IsGprOrNone qsort mf laws =
    let ivs = compute_live_intervals mf in
    let within =
      All-perm (Within 0 mf.next_vreg) (Permᴰ.symm (laws.permutes (live_of ivs)))
        (live_of-Within 0 mf.next_vreg ivs (compute_live_intervals-Numbered mf)) in
    (scan_all-InGprs (qsort (live_of ivs)) (scan_init mf)
      (All-map (Within 0 mf.next_vreg) (λ p w. subst IsGprOrNone (sym w.2) (omega arith))
        (qsort (live_of ivs)) within)
      (scan_init-InGprs mf)).0

-- After register allocation and the rewriting of the operands, the destination and the sources of
-- each instruction that is no label and no nop are general registers, no register, or
-- VT_INVALID_VREG. This holds where each of them was a virtual register of the function or
-- VT_INVALID_VREG, and the sort permutes the intervals and orders them by their comparison.
pub regalloc_apply-NamesGprs :
    (qsort : List LiveInterval → List LiveInterval) (mf : MachFunc)
    → SortsIntervals qsort
    → All (λ mb. All (NamesVregs mf.next_vreg) mb.insts) mf.blocks
    → All (λ mb. All NamesGprs mb.insts) (regalloc_apply mf (regalloc_linear_scan qsort mf)).blocks
unfolding regalloc_apply regalloc_linear_scan
regalloc_apply-NamesGprs qsort mf laws named =
    apply_blocks-NamesGprs (regalloc_linear_scan qsort mf) mf.blocks
      (linear_scan-IsGprOrNone qsort mf laws) named
