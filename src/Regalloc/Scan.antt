-- ===== src/Regalloc/Scan.antt =====
-- The linear scan of src/regalloc.c. The intervals that hold a register are kept by value: an
-- interval stands in the list at most once, and the sorted array is not read again behind the
-- interval at hand. Sorting is `qsort`, a parameter.
use vortech.Prelude.{
  ℕ, zero, suc, ◌+◌, ◌-◌, ◌*◌, ◌%◌, ◌^◌, Bool, true, false, not, ◌&&◌, Option, none, some, List, [],
  ◌∷◌, ◌++◌, ◌==◌, ltb, if◌then◌else◌, length, set, get_or, mem, replicate,
}
use vortech.Prelude.Int.{ℤ, pos, negsuc}
use vortech.Mach.{MachFunc}
use vortech.Mach.Registers.{
  reg_none, rsp, rbp, reg_count, reg_is_callee_saved, vt_alloc_gprs, param_regs,
}
use vortech.Regalloc.{LiveInterval, RegAllocResult}
use vortech.Regalloc.Intervals.{compute_live_intervals, live_of}

-- By the start, and by the number of the virtual register where the starts are the same.
unfoldable pub cmp_interval_start : LiveInterval → LiveInterval → ℤ
cmp_interval_start a b =
    if not (a.start == b.start)
    then (if ltb a.start b.start then negsuc 0 else pos 1)
    else (if ltb a.vreg b.vreg then negsuc 0 else pos 1)

pub record Scan : Type 0 where
  pub active : List LiveInterval
  pub reg_available : List Bool
  pub vreg_to_reg : List ℕ
  pub vreg_to_slot : List (Option ℕ)
  pub stack_slots : ℕ

abbrev pub make_available : List ℕ → List Bool → List Bool
make_available [] av = av
make_available (r ∷ rs) av =
    make_available rs (if not (r == rsp) && not (r == rbp) then set av r true else av)

-- Each parameter that has a register of the calling convention is given it, and the register is
-- taken from the available ones. A parameter that is no register of the function is left alone.
abbrev pub map_params : ℕ → List ℕ → List ℕ → List ℕ → List Bool → List ℕ × List Bool
map_params n [] prs rs av = (rs, av)
map_params n (v ∷ vs) [] rs av = (rs, av)
map_params n (v ∷ vs) (r ∷ prs) rs av =
    map_params n vs prs (if ltb v n then set rs v r else rs)
      (if ltb v n then set av r false else av)

-- The interval behind the list's first.
abbrev pub put_second : LiveInterval → List LiveInterval → List LiveInterval
put_second x [] = x ∷ []
put_second x (l ∷ ls) = l ∷ x ∷ ls

-- The last element before the others.
abbrev pub last_first : List LiveInterval → List LiveInterval
last_first [] = []
last_first (x ∷ xs) = put_second x (last_first xs)

abbrev pub free_reg : LiveInterval → List Bool → List Bool
free_reg iv av = if iv.phys_reg == reg_none then av else set av iv.phys_reg true

-- The loop over the active intervals from the `j`-th on: one that ends before `start` gives its
-- register back and its place to the last one. Each step uses one element up, so the list's length
-- is fuel enough.
unfoldable pub expire : ℕ → ℕ → List LiveInterval → List Bool → List LiveInterval × List Bool
expire zero start act av = (act, av)
expire (suc n) start [] av = ([], av)
expire (suc n) start (a ∷ act) av =
    let dead = ltb a.end_ start in
    let (kept, av') =
      expire n start (if dead then last_first act else act) (if dead then free_reg a av else av) in
    (if dead then kept else a ∷ kept, av')

-- `REG_RAX` to `REG_R15`.
abbrev pub gprs : List ℕ
gprs = 1 ∷ 2 ∷ 3 ∷ 4 ∷ 5 ∷ 6 ∷ 7 ∷ 8 ∷ 9 ∷ 10 ∷ 11 ∷ 12 ∷ 13 ∷ 14 ∷ 15 ∷ 16 ∷ []

abbrev pub first_free : List ℕ → List Bool → ℕ
first_free [] av = reg_none
first_free (r ∷ rs) av =
    let later = first_free rs av in
    if get_or av r false && not (r == rsp) && not (r == rbp) then r else later

-- The interval that ends last among the active ones from the `j`-th on, of those that end after
-- `furthest_end` and are no parameters.
abbrev pub furthest : ℕ → ℕ → Option ℕ → List LiveInterval → Option ℕ
furthest j furthest_end spill_idx [] = spill_idx
furthest j furthest_end spill_idx (a ∷ act) =
    let further = ltb furthest_end a.end_ && not a.is_param in
    furthest (suc j) (if further then a.end_ else furthest_end)
      (if further then some j else spill_idx) act

-- The interval takes the register.
abbrev pub assign : ℕ → LiveInterval → Scan → Scan
assign r current sc = record sc {
  active = sc.active ++ record current { phys_reg = r } ∷ [];
  reg_available = set sc.reg_available r false;
  vreg_to_reg = set sc.vreg_to_reg current.vreg r;
}

-- The interval goes to a new stack slot.
abbrev pub spill : LiveInterval → Scan → Scan
spill current sc = record sc {
  vreg_to_slot = set sc.vreg_to_slot current.vreg (some sc.stack_slots);
  stack_slots = suc sc.stack_slots;
}

-- The interval takes the place and the register of the active interval at `j`, which goes to a new
-- stack slot.
abbrev pub evict : ℕ → LiveInterval → LiveInterval → Scan → Scan
evict j evicted current sc = record sc {
  active = set sc.active j (record current { phys_reg = evicted.phys_reg; is_spilled = true });
  reg_available = set sc.reg_available evicted.phys_reg false;
  vreg_to_reg = set (set sc.vreg_to_reg current.vreg evicted.phys_reg) evicted.vreg reg_none;
  vreg_to_slot = set sc.vreg_to_slot evicted.vreg (some sc.stack_slots);
  stack_slots = suc sc.stack_slots;
}

abbrev pub or_evict : LiveInterval → Scan → Option ℕ → Scan
or_evict current sc none = sc
or_evict current sc (some j) = evict j (get_or sc.active j current) current sc

unfoldable pub expired : ℕ → Scan → Scan
unfolding expire
expired start sc =
    let (act, av) = expire (length sc.active) start sc.active sc.reg_available in
    record sc { active = act; reg_available = av }

-- An interval that has no register, after the expired ones are gone.
unfoldable pub place : LiveInterval → Scan → Scan
place current sc =
    let assigned = first_free gprs sc.reg_available in
    if not (assigned == reg_none)
    then assign assigned current sc
    else or_evict current (spill current sc) (furthest 0 current.end_ none sc.active)

unfoldable pub process : LiveInterval → Scan → Scan
unfolding place expired
process current sc =
    if current.is_param && not (current.phys_reg == reg_none)
    then record sc { active = sc.active ++ current ∷ [] }
    else place current (expired current.start sc)

unfoldable pub scan_all : List LiveInterval → Scan → Scan
unfolding process
scan_all [] sc = sc
scan_all (current ∷ rest) sc = scan_all rest (process current sc)

unfoldable pub scan_init : MachFunc → Scan
scan_init mf =
    let (rs, av) =
      map_params mf.next_vreg mf.param_vregs param_regs (replicate mf.next_vreg reg_none)
        (make_available vt_alloc_gprs (replicate reg_count false)) in
    record {
      active = [];
      reg_available = av;
      vreg_to_reg = rs;
      vreg_to_slot = replicate mf.next_vreg none;
      stack_slots = 0;
    }

-- `(n + 15) & ~15u` on 32 bits.
unfoldable pub align16 : ℕ → ℕ
align16 n = let m = (n + 15) % 2 ^ 32 in m - m % 16

-- The callee-saved registers in use, from the register `r` on.
abbrev pub saved_from : ℕ → ℕ → List ℕ → List Bool
saved_from r zero rs = []
saved_from r (suc n) rs = (reg_is_callee_saved r && mem r rs) ∷ saved_from (suc r) n rs

abbrev pub count_true : List Bool → ℕ
count_true [] = 0
count_true (b ∷ bs) = let more = count_true bs in if b then suc more else more

unfoldable pub frame_size : ℕ → ℕ → ℕ
unfolding align16
frame_size slots saved = align16 ((align16 (slots * 8 % 2 ^ 32) + saved * 8) % 2 ^ 32)

module _ (qsort : List LiveInterval → List LiveInterval) where
  unfoldable pub regalloc_linear_scan : MachFunc → RegAllocResult
  unfolding scan_all scan_init compute_live_intervals frame_size
  regalloc_linear_scan mf =
      let sc = scan_all (qsort (live_of (compute_live_intervals mf))) (scan_init mf) in
      let used = saved_from 0 reg_count sc.vreg_to_reg in
      record {
        vreg_to_reg = sc.vreg_to_reg;
        vreg_to_slot = sc.vreg_to_slot;
        num_vregs = mf.next_vreg;
        stack_slots = sc.stack_slots;
        stack_size = frame_size sc.stack_slots (count_true used);
        reg_used = used;
      }
