-- ===== src/Regalloc/Start.antt =====
-- The state that the scan of src/regalloc.c begins with.
use vortech.Prelude.{
  mem, ◌==◌, ==_iff, ◌||◌, ℕ, zero, suc, ◌<◌, ◌≡◌, ◌≢◌, ◌⊎◌, inl, inr, refl, sym, subst, ◌∙◌, Bool,
  true, false, Bool-cases, List, [], ◌∷◌, ltb, ltb→lt, if◌then◌else◌, if_cases, length, length-set,
  length-replicate, set, get_or, get_or-set_ne, get_or-set_self, get_or-set_default, replicate, All,
  All-map, arith,
}
use vortech.Mach.{MachFunc}
use vortech.Mach.Registers.{reg_none, reg_count, vt_alloc_gprs, param_regs}
use vortech.Regalloc.Scan.{make_available, map_params, scan_init}
use vortech.Regalloc.Available.{same_or}
use vortech.Regalloc.Owners.{Homes, Inv}

abbrev pub home_of : List ℕ → ℕ → ℕ
home_of rs v = get_or rs v reg_none

abbrev pub Open : List Bool → ℕ → Type 0
Open av r = get_or av r false ≡ true

abbrev Closed : List Bool → ℕ → Type 0
Closed av r = get_or av r false ≡ false

-- The registers in the map are closed and each is there once; those of the list are not in the map.
record Mapped (rs : List ℕ) (av : List Bool) (prs : List ℕ) : Type 0 where
  closed : (v : ℕ) → Closed av (home_of rs v)
  one_each : (v w : ℕ) → home_of rs v ≡ home_of rs w → home_of rs v ≢ reg_none → v ≡ w
  to_come : (v : ℕ) → All (λ r. home_of rs v ≢ r) prs
  none_closed : Closed av reg_none

abbrev Different : List ℕ → Type 0
Different [] = Unit
Different (r ∷ rs) = All (λ q. r ≢ q) rs × Different rs

set-Closed : (av : List Bool) (r s : ℕ) → Closed av s → Closed (set av r false) s
set-Closed av r s h = elim (same_or r s) [
  | inl e ↦ subst (Closed (set av r false)) e (get_or-set_default av r false)
  | inr n ↦ get_or-set_ne av r s false false n ∙ h
]

home-set :
    (rs : List ℕ) (v w r : ℕ)
    → v < length rs
    → ((v ≡ w) × (home_of (set rs v r) w ≡ r)) ⊎ ((v ≢ w) × (home_of (set rs v r) w ≡ home_of rs w))
home-set rs v w r len = elim (same_or v w) [
  | inl e ↦ inl (e, subst (λ i. home_of (set rs v r) i ≡ r) e (get_or-set_self rs v r reg_none len))
  | inr n ↦ inr (n, get_or-set_ne rs v w r reg_none n)
]

map_one :
    (rs : List ℕ) (av : List Bool) (v r : ℕ) (prs : List ℕ)
    → v < length rs
    → All (λ q. r ≢ q) prs
    → Mapped rs av (r ∷ prs)
    → Mapped (set rs v r) (set av r false) prs
map_one rs av v r prs len others m = record {
  closed = λ w. elim (home-set rs v w r len) [
    | inl (e, h) ↦ subst (Closed (set av r false)) (sym h) (get_or-set_default av r false)
    | inr (n, h) ↦
        subst (Closed (set av r false)) (sym h) (set-Closed av r (home_of rs w) (m.closed w))
  ];
  one_each = λ w x. only w x (home-set rs v w r len) (home-set rs v x r len);
  to_come = λ w. elim (home-set rs v w r len) [
    | inl (e, h) ↦ All-map (λ q. r ≢ q) (λ q n z. n (sym h ∙ z)) prs others
    | inr (n, h) ↦ All-map (λ q. home_of rs w ≢ q) (λ q d z. d (sym h ∙ z)) prs (m.to_come w).1
  ];
  none_closed = set-Closed av r reg_none m.none_closed;
}
  where
    Cases : ℕ → Type 0
    Cases w =
        ((v ≡ w) × (home_of (set rs v r) w ≡ r))
        ⊎ ((v ≢ w) × (home_of (set rs v r) w ≡ home_of rs w))

    only :
        (w x : ℕ)
        → Cases w
        → Cases x
        → home_of (set rs v r) w ≡ home_of (set rs v r) x
        → home_of (set rs v r) w ≢ reg_none
        → w ≡ x
    only w x (inl (e, h)) (inl (f, k)) z nz = sym e ∙ f
    only w x (inl (e, h)) (inr (n, k)) z nz = absurd ((m.to_come x).0 (sym k ∙ sym z ∙ h))
    only w x (inr (n, h)) (inl (f, k)) z nz = absurd ((m.to_come w).0 (sym h ∙ z ∙ k))
    only w x (inr (n, h)) (inr (n', k)) z nz = m.one_each w x (sym h ∙ z ∙ k) (λ y. nz (h ∙ y))

weaken :
    (rs : List ℕ) (av : List Bool) (r : ℕ) (prs : List ℕ)
    → Mapped rs av (r ∷ prs)
    → Mapped rs av prs
weaken rs av r prs m = record {
  closed = m.closed;
  one_each = m.one_each;
  to_come = λ v. (m.to_come v).1;
  none_closed = m.none_closed;
}

map_params-Mapped :
    (n : ℕ) (vs prs rs : List ℕ) (av : List Bool)
    → length rs ≡ n
    → Different prs
    → Mapped rs av prs
    → let out = map_params n vs prs rs av in Mapped out.0 out.1 [] × (length out.0 ≡ n)
map_params-Mapped n [] prs rs av len d m = (
  record {
    closed = m.closed;
    one_each = m.one_each;
    to_come = λ v. tt;
    none_closed = m.none_closed;
  },
  len,
)
map_params-Mapped n (v ∷ vs) [] rs av len d m = (m, len)
map_params-Mapped n (v ∷ vs) (r ∷ prs) rs av len d m =
    map_params-Mapped n vs prs (if ltb v n then set rs v r else rs)
      (if ltb v n then set av r false else av)
      (if_cases (λ l. length l ≡ n) (ltb v n) (set rs v r) rs (λ t. length-set rs v r ∙ len)
        (λ f. len))
      d.1
      (elim (Bool-cases (ltb v n)) [
        | inl t ↦ rw t (map_one rs av v r prs (omega (arith, len, ltb→lt v n t)) d.0 m)
        | inr f ↦ rw f (weaken rs av r prs m)
      ])

home-replicate : (n v : ℕ) → home_of (replicate n reg_none) v ≡ reg_none
home-replicate zero v = refl
home-replicate (suc n) zero = refl
home-replicate (suc n) (suc v) = home-replicate n v

or_left : (b c : Bool) → (b || c) ≡ false → b ≡ false
or_left true c e = cc
or_left false c e = refl

or_right : (b c : Bool) → (b || c) ≡ false → c ≡ false
or_right true c e = cc
or_right false c e = e

not_member : (r : ℕ) (rs : List ℕ) → mem r rs ≡ false → All (λ q. r ≢ q) rs
not_member r [] e = tt
not_member r (q ∷ rs) e = (
  (λ z. let y = (==_iff r q).1 z in let f = or_left (r == q) (mem r rs) e in cc),
  not_member r rs (or_right (r == q) (mem r rs) e),
)

abbrev all_open : List Bool
all_open = make_available vt_alloc_gprs (replicate reg_count false)

begin : (n : ℕ) → Mapped (replicate n reg_none) all_open param_regs
begin n = record {
  closed = λ v. subst (Closed all_open) (sym (home-replicate n v)) refl;
  one_each = λ v w e nz. absurd (nz (home-replicate n v));
  to_come = λ v.
      subst (λ h. All (λ r. h ≢ r) param_regs) (sym (home-replicate n v))
        (not_member reg_none param_regs refl);
  none_closed = refl;
}

params_differ : Different param_regs
params_differ = (
  not_member 8 (7 ∷ 3 ∷ 2 ∷ 9 ∷ 10 ∷ []) refl,
  (
    not_member 7 (3 ∷ 2 ∷ 9 ∷ 10 ∷ []) refl,
    (
      not_member 3 (2 ∷ 9 ∷ 10 ∷ []) refl,
      (not_member 2 (9 ∷ 10 ∷ []) refl, (not_member 9 (10 ∷ []) refl, (not_member 10 [] refl, tt))),
    ),
  ),
)

pub scan_init-Homes :
    (mf : MachFunc) → Homes (home_of (scan_init mf).vreg_to_reg) (Open (scan_init mf).reg_available)
unfolding scan_init
scan_init-Homes mf =
    let m =
      (map_params-Mapped mf.next_vreg mf.param_vregs param_regs (replicate mf.next_vreg reg_none)
        all_open (length-replicate mf.next_vreg reg_none) params_differ (begin mf.next_vreg)).0 in
    record {
      unpooled = λ v t. let f = m.closed v in cc;
      one_each = m.one_each;
      in_use = λ t. let f = m.none_closed in cc;
    }

pub length-scan_init : (mf : MachFunc) → length (scan_init mf).vreg_to_reg ≡ mf.next_vreg
unfolding scan_init
length-scan_init mf =
    (map_params-Mapped mf.next_vreg mf.param_vregs param_regs (replicate mf.next_vreg reg_none)
      all_open (length-replicate mf.next_vreg reg_none) params_differ (begin mf.next_vreg)).1

pub scan_init-Inv :
    (mf : MachFunc)
    → let sc = scan_init mf in Inv (home_of sc.vreg_to_reg) (Open sc.reg_available) sc 0 []
unfolding scan_init
scan_init-Inv mf = record {
  owners = record { taken = tt; in_pool = tt; apart = tt; recorded = tt; only_pool = λ r t. t };
  status = tt;
  pairs = tt;
}
