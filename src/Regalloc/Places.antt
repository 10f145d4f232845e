-- ===== src/Regalloc/Places.antt =====
-- An interval of src/regalloc.c that expiry passes by, that takes a free register, or that goes to
-- the stack.
use vortech.Prelude.{
  ℕ, ◌≤◌, ◌<◌, ◌≡◌, inl, inr, refl, sym, subst, ◌∙◌, Bool, true, false, List, [], ◌∷◌, ◌++◌, length,
  set, get_or, get_or-set_ne, get_or-set_self, get_or-set_default, All, All-map, All-append,
  All-map2, arith,
}
use vortech.Mach.Registers.{reg_none}
use vortech.Regalloc.{LiveInterval}
use vortech.Regalloc.Scan.{Scan, expired, assign, spill}
use vortech.Regalloc.Expire.{Other, Apart, Holds, expire-All, expire-Apart, expire-Holds}
use vortech.Regalloc.Available.{
  Taken, InPool, same_or, expire-Taken, expire-OnlyPool, set-false-OnlyPool,
}
use vortech.Regalloc.Owners.{
  reg_at, Recorded, OtherVreg, Earlier, Homes, Owners, Status, Inv, Waiting, others, held_reg,
  Pairs-Kept,
}

pub set-false-Taken :
    (av : List Bool) (r : ℕ) (a : LiveInterval) → Taken av a → Taken (set av r false) a
set-false-Taken av r a h = elim (same_or r a.phys_reg) [
  | inl e ↦ subst (λ i. get_or (set av r false) i false ≡ false) e (get_or-set_default av r false)
  | inr n ↦ get_or-set_ne av r a.phys_reg false false n ∙ h
]

Apart-append :
    (act : List LiveInterval) (c : LiveInterval)
    → All (Other c.phys_reg) act
    → Apart act
    → Apart (act ++ c ∷ [])
Apart-append [] c h k = (tt, tt)
Apart-append (a ∷ act) c h k = (
  All-append (Other a.phys_reg) act (c ∷ []) k.0 ((λ e. h.0 (sym e)), tt),
  Apart-append act c h.1 k.1,
)

pub set-reg_at :
    (rs : List ℕ) (c p : LiveInterval) (r : ℕ)
    → OtherVreg c p
    → reg_at (set rs c.vreg r) p ≡ reg_at rs p
set-reg_at rs c p r h = get_or-set_ne rs c.vreg p.vreg r reg_none h

Recorded-set :
    (rs : List ℕ) (c : LiveInterval) (r : ℕ) (act : List LiveInterval)
    → All (OtherVreg c) act
    → All (Recorded rs) act
    → All (Recorded (set rs c.vreg r)) act
Recorded-set rs c r [] h k = k
Recorded-set rs c r (a ∷ act) h k = (set-reg_at rs c a r h.0 ∙ k.0, Recorded-set rs c r act h.1 k.1)

Holds-append :
    (act more : List LiveInterval) (p : LiveInterval) → Holds act p → Holds (act ++ more) p
Holds-append [] more p h = elim h [ ]
Holds-append (a ∷ act) more p (inl e) = inl e
Holds-append (a ∷ act) more p (inr h) = inr (Holds-append act more p h)

Holds-last :
    (act : List LiveInterval) (c p : LiveInterval)
    → c.vreg ≡ p.vreg
    → c.end_ ≡ p.end_
    → Holds (act ++ c ∷ []) p
Holds-last [] c p e f = inl (e, f)
Holds-last (a ∷ act) c p e f = inr (Holds-last act c p e f)

Other-free :
    (act : List LiveInterval) (av : List Bool) (r : ℕ)
    → get_or av r false ≡ true
    → All (Taken av) act
    → All (Other r) act
Other-free act av r free h = All-map (Taken av) (λ a t e. clash a t e) act h
  where
    clash : (a : LiveInterval) → Taken av a → a.phys_reg ≡ r → ⊥
    clash a t e = let f = subst (λ i. get_or av i false ≡ false) e t in cc

module _ (home : ℕ → ℕ) (Pool : ℕ → Type 0) where
  pub expired-Inv :
      (sc : Scan) (t s : ℕ) (ps : List LiveInterval)
      → t ≤ s
      → Inv home Pool sc t ps
      → Inv home Pool (expired s sc) s ps
  unfolding expired
  expired-Inv sc t s ps le inv =
      let o = inv.owners in
      let n = length sc.active in
      record {
        owners = record {
          taken = expire-Taken n s sc.active sc.reg_available o.apart o.taken;
          in_pool = expire-All (InPool Pool) n s sc.active sc.reg_available o.in_pool;
          apart = expire-Apart n s sc.active sc.reg_available o.apart;
          recorded = expire-All (Recorded sc.vreg_to_reg) n s sc.active sc.reg_available o.recorded;
          only_pool = expire-OnlyPool Pool n s sc.active sc.reg_available o.in_pool o.only_pool;
        };
        status = All-map (Status home Pool sc t) later ps inv.status;
        pairs = inv.pairs;
      }
    where
      later : (p : LiveInterval) → Status home Pool sc t p → Status home Pool (expired s sc) s p
      later p (inl z) = inl z
      later p (inr (inl h)) = inr (inl h)
      later p (inr (inr (inl b))) = inr (inr (inl (omega (arith, b, le))))
      later p (inr (inr (inr held))) =
          elim (expire-Holds (length sc.active) s sc.active sc.reg_available p held) [
            | inl h ↦ inr (inr (inr h))
            | inr b ↦ inr (inr (inl b))
          ]

  module _ (homes : Homes home Pool) where
    -- A register that is free was held only by intervals that have ended.
    assign-Earlier :
        (sc : Scan) (r : ℕ) (c : LiveInterval) (ps : List LiveInterval)
        → Inv home Pool sc c.start ps
        → c.vreg < length sc.vreg_to_reg
        → get_or sc.reg_available r false ≡ true
        → (p : LiveInterval) → Status home Pool sc c.start p
        → OtherVreg c p
        → Earlier (set sc.vreg_to_reg c.vreg r) c p
    assign-Earlier sc r c ps inv len free p st other e n = go st
      where
        o : Owners home Pool sc
        o = inv.owners

        at_r : reg_at sc.vreg_to_reg p ≡ r
        at_r =
            sym (set-reg_at sc.vreg_to_reg c p r other)
            ∙ sym e
            ∙ get_or-set_self sc.vreg_to_reg c.vreg r reg_none len

        go : Status home Pool sc c.start p → p.end_ < c.start
        go (inl z) = absurd (n (e ∙ set-reg_at sc.vreg_to_reg c p r other ∙ z))
        go (inr (inl h)) =
            absurd (homes.unpooled p.vreg (subst Pool (sym at_r ∙ h) (o.only_pool r free)))
        go (inr (inr (inl b))) = b
        go (inr (inr (inr held))) =
            let (q, t) =
              held_reg home Pool homes sc.active sc.vreg_to_reg sc.reg_available p o.in_pool
                o.recorded o.taken held in
            let f = subst (λ i. get_or sc.reg_available i false ≡ false) at_r t in cc

    -- Giving a free register keeps the invariant.
    pub assign-Inv :
        (sc : Scan) (r : ℕ) (c : LiveInterval) (ps : List LiveInterval)
        → Inv home Pool sc c.start ps
        → Waiting home Pool sc c
        → All (OtherVreg c) ps
        → get_or sc.reg_available r false ≡ true
        → Inv home Pool (assign r c sc) c.start (c ∷ ps)
    assign-Inv sc r c ps inv waits fresh free =
        let o = inv.owners in
        let c' : LiveInterval = record c { phys_reg = r } in
        let rs = sc.vreg_to_reg in
        record {
          owners = record {
            taken =
                All-append (Taken _) sc.active (c' ∷ [])
                  (All-map (Taken sc.reg_available) (set-false-Taken sc.reg_available r) sc.active
                    o.taken)
                  (get_or-set_default sc.reg_available r false, tt);
            in_pool =
                All-append (InPool Pool) sc.active (c' ∷ []) o.in_pool (o.only_pool r free, tt);
            apart =
                Apart-append sc.active c' (Other-free sc.active sc.reg_available r free o.taken)
                  o.apart;
            recorded =
                All-append (Recorded _) sc.active (c' ∷ [])
                  (Recorded-set rs c r sc.active
                    (others home Pool homes sc.active rs c o.in_pool o.recorded waits.1) o.recorded)
                  (get_or-set_self rs c.vreg r reg_none waits.0, tt);
            only_pool = set-false-OnlyPool Pool sc.reg_available r o.only_pool;
          };
          status = (
            inr (inr (inr (Holds-last sc.active c' c refl refl))),
            All-map2 (Status home Pool sc c.start) later ps inv.status fresh,
          );
          pairs = (
            All-map2 (Status home Pool sc c.start) (assign-Earlier sc r c ps inv waits.0 free) ps
                inv.status fresh,
            Pairs-Kept rs (set rs c.vreg r) ps
                (All-map (OtherVreg c) (λ p n. inl (set-reg_at rs c p r n)) ps fresh) inv.pairs,
          );
        }
      where
        later :
            (p : LiveInterval)
            → Status home Pool sc c.start p
            → OtherVreg c p
            → Status home Pool (assign r c sc) c.start p
        later p (inl z) n = inl (set-reg_at sc.vreg_to_reg c p r n ∙ z)
        later p (inr (inl h)) n = inr (inl (set-reg_at sc.vreg_to_reg c p r n ∙ h))
        later p (inr (inr (inl b))) n = inr (inr (inl b))
        later p (inr (inr (inr held))) n = inr (inr (inr (Holds-append sc.active _ p held)))

    -- An interval that goes to the stack keeps the register that it had before the scan.
    pub spill-Inv :
        (sc : Scan) (c : LiveInterval) (ps : List LiveInterval)
        → Inv home Pool sc c.start ps
        → Waiting home Pool sc c
        → All (OtherVreg c) ps
        → Inv home Pool (spill c sc) c.start (c ∷ ps)
    spill-Inv sc c ps inv waits fresh = record {
      owners = record {
        taken = o.taken;
        in_pool = o.in_pool;
        apart = o.apart;
        recorded = o.recorded;
        only_pool = o.only_pool;
      };
      status = (inr (inl waits.1), inv.status);
      pairs = (All-map2 (Status home Pool sc c.start) earlier ps inv.status fresh, inv.pairs);
    }
      where
        o : Owners home Pool sc
        o = inv.owners

        earlier :
            (p : LiveInterval)
            → Status home Pool sc c.start p
            → OtherVreg c p
            → Earlier sc.vreg_to_reg c p
        earlier p (inl z) n e nz = absurd (nz (e ∙ z))
        earlier p (inr (inl h)) n e nz =
            absurd (n (homes.one_each c.vreg p.vreg (sym waits.1 ∙ e ∙ h) (λ z. nz (waits.1 ∙ z))))
        earlier p (inr (inr (inl b))) n e nz = b
        earlier p (inr (inr (inr held))) n e nz =
            let (q, t) =
              held_reg home Pool homes sc.active sc.vreg_to_reg sc.reg_available p o.in_pool
                o.recorded o.taken held in
            absurd (homes.unpooled c.vreg (subst Pool (sym e ∙ waits.1) q))

  pub spilled-Inv :
      (sc : Scan) (c : LiveInterval) (t : ℕ) (ps : List LiveInterval)
      → Inv home Pool sc t ps
      → Inv home Pool (spill c sc) t ps
  spilled-Inv sc c t ps inv =
      let o = inv.owners in
      record {
        owners = record {
          taken = o.taken;
          in_pool = o.in_pool;
          apart = o.apart;
          recorded = o.recorded;
          only_pool = o.only_pool;
        };
        status = inv.status;
        pairs = inv.pairs;
      }
