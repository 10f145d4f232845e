-- ===== src/Opt/Cse/Geps.antt =====
-- The geps that src/opt_cse.c passes over.
use vortech.Prelude.{
  ℕ, zero, suc, ◌≡◌, refl, sym, ap, ◌∙◌, subst, inl, inr, Option, none, some, List, [], ◌∷◌, ◌==◌,
  get_elem?, length, some-inj, Option-cases, if_both,
}
use vortech.Prelude.Int.{ℤ}
use vortech.Ssa.{invalid_vreg, Op, binop, unop, cmp, gep, Inst, Block, Func}
use vortech.Opt.Cse.{
  CseKey, key_of, find_entry, rename_op, rename_inst, killed, Cse, insts_of, cse_found, cse_inst,
  cse_insts, cse_blocks, opt_cse,
}
use vortech.Opt.Cse.Values.{IsCandidate}
use vortech.Opt.Cse.Loops.{
  Pairs, BlockPairs, put_inst-BlockPairs, rename-BlockPairs, self-BlockPairs, inst_at,
  inst_at-rename, IsCandidate-after,
}

-- A gep stays as it is.
abbrev Stays : Inst → Inst → Type 0
Stays i j = (p : ℕ) (o : ℤ) → i.op ≡ gep p o → j ≡ i

rename-Stays : (old new : ℕ) (x j : Inst) → Stays x j → Stays x (rename_inst old new j)
rename-Stays old new x j h p o q =
    let same = h p o q in
    ap (rename_inst old new) same
    ∙ ap (λ op. record { dst = x.dst; op = rename_op old new op }) q
    ∙ ap (λ op. record { dst = x.dst; op = op }) (sym q)

killed-Stays : (x j : Inst) → IsCandidate j.op → Stays x j → Stays x (killed j)
killed-Stays x j c h p o q = elim (subst IsCandidate (ap (λ (i : Inst). i.op) (h p o q) ∙ q) c) [ ]

key_of-IsCandidate : (o : Op) (k : CseKey) → key_of o ≡ some k → IsCandidate o
key_of-IsCandidate (binop o l r) k h = tt
key_of-IsCandidate (unop o v) k h = tt
key_of-IsCandidate (cmp o l r) k h = tt
key_of-IsCandidate _ k h = cc

cse_found-Stays :
    (bs : List Block) (bi ii : ℕ) (i : Inst) (k : CseKey) (st : Cse) (o : Option ℕ)
    → IsCandidate i.op
    → inst_at st.blocks bi ii ≡ some i
    → BlockPairs Stays bs st.blocks
    → BlockPairs Stays bs (cse_found bi ii i k st o).blocks
cse_found-Stays bs bi ii i k st none cand at h = h
cse_found-Stays bs bi ii i k st (some new) cand at h =
    put_inst-BlockPairs Stays bs _ bi ii (killed i)
      (λ x j at_j s.
        killed-Stays x (rename_inst i.dst new i) (IsCandidate-after i.dst new i.op cand)
          (subst (Stays x) (some-inj (sym at_j ∙ inst_at-rename i.dst new st.blocks bi ii at)) s))
      (rename-BlockPairs Stays i.dst new bs st.blocks (rename-Stays i.dst new) h)

cse_inst-Stays :
    (bs : List Block) (bi ii : ℕ) (st : Cse)
    → BlockPairs Stays bs st.blocks
    → BlockPairs Stays bs (cse_inst bi ii st (inst_at st.blocks bi ii)).blocks
cse_inst-Stays bs bi ii st h = elim (Option-cases (inst_at st.blocks bi ii)) [
  | inl none_ ↦ rw none_ h
  | inr (i, at) ↦ rw at (elim (Option-cases (key_of i.op)) [
    | inl none_ ↦ rw none_ h
    | inr (k, key) ↦ rw key (
        if_both (λ (x : Cse). BlockPairs Stays bs x.blocks) (i.dst == invalid_vreg) st _ h
          (cse_found-Stays bs bi ii i k st (find_entry k st.table) (key_of-IsCandidate i.op k key)
            at h))
  ])
]

cse_insts-Stays :
    (bs : List Block) (n bi ii : ℕ) (st : Cse)
    → BlockPairs Stays bs st.blocks
    → BlockPairs Stays bs (cse_insts n bi ii st).blocks
unfolding cse_insts
cse_insts-Stays bs zero bi ii st h = h
cse_insts-Stays bs (suc n) bi ii st h =
    cse_insts-Stays bs n bi (suc ii) _ (cse_inst-Stays bs bi ii st h)

cse_blocks-Stays :
    (bs : List Block) (n bi : ℕ) (st : Cse)
    → BlockPairs Stays bs st.blocks
    → BlockPairs Stays bs (cse_blocks n bi st).blocks
unfolding cse_blocks
cse_blocks-Stays bs zero bi st h = h
cse_blocks-Stays bs (suc n) bi st h =
    cse_blocks-Stays bs n (suc bi) _
      (cse_insts-Stays bs (length (insts_of (get_elem? st.blocks bi))) bi 0 _ h)

insts-Stays :
    (is js : List Inst) (ii : ℕ) {i : Inst} (p : ℕ) (o : ℤ)
    → Pairs Stays is js
    → get_elem? is ii ≡ some i
    → i.op ≡ gep p o
    → get_elem? js ii ≡ some i
insts-Stays [] js ii p o h at q = cc
insts-Stays (i ∷ is) [] ii p o h at q = elim h [ ]
insts-Stays (i ∷ is) (j ∷ js) zero p o h at q =
    let same = some-inj at in ap some (h.0 p o (ap (λ (x : Inst). x.op) same ∙ q)) ∙ at
insts-Stays (i ∷ is) (j ∷ js) (suc ii) p o h at q = insts-Stays is js ii p o h.1 at q

blocks-Stays :
    (bs cs : List Block) (bi ii : ℕ) {i : Inst} (p : ℕ) (o : ℤ)
    → BlockPairs Stays bs cs
    → inst_at bs bi ii ≡ some i
    → i.op ≡ gep p o
    → inst_at cs bi ii ≡ some i
blocks-Stays [] cs bi ii p o h at q = cc
blocks-Stays (b ∷ bs) [] bi ii p o h at q = elim h [ ]
blocks-Stays (b ∷ bs) (c ∷ cs) zero ii p o h at q = insts-Stays b.insts c.insts ii p o h.0 at q
blocks-Stays (b ∷ bs) (c ∷ cs) (suc bi) ii p o h at q = blocks-Stays bs cs bi ii p o h.1 at q

-- Common subexpression elimination leaves every gep as it is, in its place: its address is read
-- from the same register as before, also where the operation that defines this register was found
-- to be computed before and has become the constant 0.
pub opt_cse-gep :
    (f : Func) (bi ii d p : ℕ) (o : ℤ)
    → inst_at f.blocks bi ii ≡ some (record { dst = d; op = gep p o })
    → inst_at (opt_cse f).blocks bi ii ≡ some (record { dst = d; op = gep p o })
unfolding opt_cse
opt_cse-gep f bi ii d p o at =
    blocks-Stays f.blocks _ bi ii p o
      (cse_blocks-Stays f.blocks (length f.blocks) 0 (record { blocks = f.blocks; table = [] })
        (self-BlockPairs Stays (λ i p' o' q. refl) f.blocks))
      at refl
