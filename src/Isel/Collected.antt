-- ===== src/Isel/Collected.antt =====
-- What phi elimination in src/isel.c collects for each edge.
use vortech.Prelude.{
  ℕ, zero, suc, ◌+◌, ◌<◌, ◌≡◌, ◌≢◌, refl, sym, ap, ◌∙◌, true, false, ◌&&◌, Bool-cases, inl, inr,
  some, List, [], ◌∷◌, ◌++◌, ◌==◌, ==_iff, leb, if◌then◌else◌, some-inj, subst, if_both, get_elem?,
  arith,
}
use mathlib.Core.List.{append-nil, append_assoc}
use vortech.Ssa.{PhiArg, Inst, Block}
use vortech.Isel.Edges.{
  PhiCopy, EdgeCopies, is_edge, add_copy, collect_arg, collect_args, phi_args, collect_insts,
  collect_blocks,
}

-- The copies of the edge from `p` to `q`.
abbrev pub copies_of : List EdgeCopies → ℕ → ℕ → List PhiCopy
copies_of [] p q = []
copies_of (e ∷ es) p q = let more = copies_of es p q in if is_edge p q e then e.copies else more

abbrev pub one_copy : ℕ → ℕ → PhiArg → List PhiCopy
one_copy p d a =
    if a.src == d then [] else (if a.pred == p then record { dst = d; src = a.src } ∷ [] else [])

-- The copies that the entries of a phi into `d` make at the end of the block `p`.
abbrev pub arg_copies : ℕ → ℕ → List PhiArg → List PhiCopy
arg_copies p d [] = []
arg_copies p d (a ∷ as') = one_copy p d a ++ arg_copies p d as'

abbrev pub inst_copies : ℕ → List Inst → List PhiCopy
inst_copies p [] = []
inst_copies p (i ∷ is) = arg_copies p i.dst (phi_args i.op) ++ inst_copies p is

is_edge_self :
    (p q : ℕ) (cs : List PhiCopy)
    → is_edge p q (record { pred_bb = p; phi_bb = q; copies = cs }) ≡ true
is_edge_self p q cs = rw ((==_iff p p).1 refl, (==_iff q q).1 refl) refl

copies_of-add_copy :
    (es : List EdgeCopies) (p q : ℕ) (c : PhiCopy)
    → copies_of (add_copy p q c es) p q ≡ copies_of es p q ++ c ∷ []
copies_of-add_copy [] p q c = rw (is_edge_self p q (c ∷ [])) refl
copies_of-add_copy (e ∷ es) p q c = elim (Bool-cases (is_edge p q e)) [
  | inl t ↦ rw t (rw t refl)
  | inr f ↦ rw f (rw f (copies_of-add_copy es p q c))
]

copies_of-add_other :
    (es : List EdgeCopies) (p q p' q' : ℕ) (c : PhiCopy)
    → (p == p' && q == q') ≡ false
    → copies_of (add_copy p q c es) p' q' ≡ copies_of es p' q'
copies_of-add_other [] p q p' q' c other = rw other refl
copies_of-add_other (e ∷ es) p q p' q' c other =
    ground (arith, copies_of-add_other es p q p' q' c other)

other_edge : (p q p' q' : ℕ) → q ≢ q' → (p == p' && q == q') ≡ false
other_edge p q p' q' ne = ground arith

other_pred : (p q p' : ℕ) → (p == p') ≡ false → (p == p' && q == q) ≡ false
other_pred p q p' h = rw h refl

not_out : (n a p : ℕ) → a ≡ p → p < n → leb n a ≡ false
not_out n a p e lt = ground arith

collect_arg-same :
    (n q d : ℕ) (a : PhiArg) (es : List EdgeCopies) (p : ℕ)
    → p < n
    → copies_of (collect_arg n q d a es) p q ≡ copies_of es p q ++ one_copy p d a
collect_arg-same n q d a es p lt = elim (Bool-cases (a.src == d)) [
  | inl self ↦ rw self (sym (append-nil _))
  | inr other ↦ rw other (elim (Bool-cases (a.pred == p)) [
    | inl here ↦
        let e = (==_iff a.pred p).0 here in
        rw (here, not_out n a.pred p e lt)
          (subst
            (λ x.
              copies_of (add_copy x q (record { dst = d; src = a.src }) es) p q
              ≡ copies_of es p q ++ record { dst = d; src = a.src } ∷ [])
            (sym e) (copies_of-add_copy es p q (record { dst = d; src = a.src })))
    | inr there ↦ rw there (elim (Bool-cases (leb n a.pred)) [
      | inl out ↦ rw out (sym (append-nil _))
      | inr inside ↦
          rw inside (
            copies_of-add_other es a.pred q p q _ (other_pred a.pred q p there)
            ∙ sym (append-nil _))
    ])
  ])
]

-- Entries of one phi.
collect_args-same :
    (n q d : ℕ) (as' : List PhiArg) (es : List EdgeCopies) (p : ℕ)
    → p < n
    → copies_of (collect_args n q d as' es) p q ≡ copies_of es p q ++ arg_copies p d as'
collect_args-same n q d [] es p lt = sym (append-nil _)
collect_args-same n q d (a ∷ as') es p lt =
    collect_args-same n q d as' (collect_arg n q d a es) p lt
    ∙ ap (λ cs. cs ++ arg_copies p d as') (collect_arg-same n q d a es p lt)
    ∙ append_assoc (copies_of es p q) (one_copy p d a) (arg_copies p d as')

collect_args-other :
    (n q d : ℕ) (as' : List PhiArg) (es : List EdgeCopies) (p q' : ℕ)
    → q ≢ q'
    → copies_of (collect_args n q d as' es) p q' ≡ copies_of es p q'
collect_args-other n q d [] es p q' ne = refl
collect_args-other n q d (a ∷ as') es p q' ne =
    collect_args-other n q d as' (collect_arg n q d a es) p q' ne
    ∙ if_both (λ x. copies_of x p q' ≡ copies_of es p q') (a.src == d) es _ refl
        (if_both (λ x. copies_of x p q' ≡ copies_of es p q') (leb n a.pred) es _ refl
          (copies_of-add_other es a.pred q p q' _ (other_edge a.pred q p q' ne)))

collect_insts-same :
    (n q : ℕ) (is : List Inst) (es : List EdgeCopies) (p : ℕ)
    → p < n
    → copies_of (collect_insts n q is es) p q ≡ copies_of es p q ++ inst_copies p is
collect_insts-same n q [] es p lt = sym (append-nil _)
collect_insts-same n q (i ∷ is) es p lt =
    collect_insts-same n q is (collect_args n q i.dst (phi_args i.op) es) p lt
    ∙ ap (λ cs. cs ++ inst_copies p is) (collect_args-same n q i.dst (phi_args i.op) es p lt)
    ∙ append_assoc (copies_of es p q) (arg_copies p i.dst (phi_args i.op)) (inst_copies p is)

collect_insts-other :
    (n q : ℕ) (is : List Inst) (es : List EdgeCopies) (p q' : ℕ)
    → q ≢ q'
    → copies_of (collect_insts n q is es) p q' ≡ copies_of es p q'
collect_insts-other n q [] es p q' ne = refl
collect_insts-other n q (i ∷ is) es p q' ne =
    collect_insts-other n q is (collect_args n q i.dst (phi_args i.op) es) p q' ne
    ∙ collect_args-other n q i.dst (phi_args i.op) es p q' ne

collect_blocks-before :
    (n q : ℕ) (bs : List Block) (es : List EdgeCopies) (p q' : ℕ)
    → q' < q
    → copies_of (collect_blocks n q bs es) p q' ≡ copies_of es p q'
unfolding collect_blocks
collect_blocks-before n q [] es p q' lt = refl
collect_blocks-before n q (b ∷ bs) es p q' lt =
    collect_blocks-before n (suc q) bs (collect_insts n q b.insts es) p q' (omega arith)
    ∙ collect_insts-other n q b.insts es p q' (λ e. omega (arith, e, lt))

-- The edge to a block has the copies of that block's phis.
pub copies_of-collect_blocks :
    (n q j : ℕ) (bs : List Block) (es : List EdgeCopies) (p : ℕ) {b : Block}
    → p < n
    → get_elem? bs j ≡ some b
    → copies_of (collect_blocks n q bs es) p (q + j)
      ≡ copies_of es p (q + j) ++ inst_copies p b.insts
unfolding collect_blocks
copies_of-collect_blocks n q j [] es p lt at = cc
copies_of-collect_blocks n q zero (b' ∷ bs) es p {b} lt at =
    let here : q + 0 ≡ q = omega arith in
    rw here (
      collect_blocks-before n (suc q) bs (collect_insts n q b'.insts es) p q (omega arith)
      ∙ collect_insts-same n q b'.insts es p lt
      ∙ ap (λ (x : Block). copies_of es p q ++ inst_copies p x.insts) (some-inj at))
copies_of-collect_blocks n q (suc j) (b' ∷ bs) es p {b} lt at =
    let there : q + suc j ≡ suc q + j = omega arith in
    rw there (
      copies_of-collect_blocks n (suc q) j bs (collect_insts n q b'.insts es) p lt at
      ∙ ap (λ cs. cs ++ inst_copies p b.insts)
          (collect_insts-other n q b'.insts es p (suc q + j) (λ e. omega (arith, e))))
