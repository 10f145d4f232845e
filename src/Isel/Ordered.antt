-- ===== src/Isel/Ordered.antt =====
-- The order of the edges that src/isel.c collects.
use vortech.Prelude.{
  ℕ, suc, ◌+◌, ◌≤◌, ◌<◌, length, ◌≡◌, refl, false, Bool-cases, inl, inr, List, [], ◌∷◌, ◌++◌, ◌==◌,
  leb, if_both, if_cases, All, All-map, arith,
}
use vortech.Ssa.{PhiArg, Inst, Block}
use vortech.Isel.Edges.{
  PhiCopy, EdgeCopies, is_edge, add_copy, collect_arg, collect_args, phi_args, collect_insts,
  collect_blocks,
}
use vortech.Isel.Collected.{copies_of}

-- An edge that is collected later: to no earlier block, and another edge.
abbrev pub Later : EdgeCopies → EdgeCopies → Type 0
Later e e' = (e.phi_bb ≤ e'.phi_bb) × (is_edge e.pred_bb e.phi_bb e' ≡ false)

abbrev pub Nonempty : List PhiCopy → Type 0
Nonempty [] = ⊥
Nonempty (c ∷ cs) = Unit

abbrev pub IsOrdered : List EdgeCopies → Type 0
IsOrdered [] = Unit
IsOrdered (e ∷ es) = Nonempty e.copies × All (Later e) es × IsOrdered es

abbrev UpTo : ℕ → EdgeCopies → Type 0
UpTo q e = e.phi_bb ≤ q

Nonempty-snoc : (cs : List PhiCopy) (c : PhiCopy) → Nonempty (cs ++ c ∷ [])
Nonempty-snoc [] c = tt
Nonempty-snoc (d ∷ cs) c = tt

Nonempty-ne : (cs : List PhiCopy) → Nonempty cs → cs ≡ [] → ⊥
Nonempty-ne [] h z = h
Nonempty-ne (c ∷ cs) h z = cc

other_target : (e : EdgeCopies) (p t : ℕ) → t < e.phi_bb → is_edge p t e ≡ false
other_target e p t lt = ground arith

add_copy-Later :
    (e : EdgeCopies) (p q : ℕ) (c : PhiCopy) (es : List EdgeCopies)
    → e.phi_bb ≤ q
    → is_edge p q e ≡ false
    → All (Later e) es
    → All (Later e) (add_copy p q c es)
add_copy-Later e p q c [] le ne h = ((le, ground arith), tt)
add_copy-Later e p q c (e' ∷ es) le ne h =
    if_both (All (Later e)) (is_edge p q e') _ _ h (h.0, add_copy-Later e p q c es le ne h.1)

add_copy-IsOrdered :
    (p q : ℕ) (c : PhiCopy) (es : List EdgeCopies)
    → All (UpTo q) es
    → IsOrdered es
    → IsOrdered (add_copy p q c es)
add_copy-IsOrdered p q c [] up h = (tt, tt, tt)
add_copy-IsOrdered p q c (e ∷ es) up h =
    if_cases IsOrdered (is_edge p q e) _ _ (λ t. (Nonempty-snoc e.copies c, h.1, h.2))
      (λ f. (h.0, add_copy-Later e p q c es up.0 f h.1, add_copy-IsOrdered p q c es up.1 h.2))

add_copy-UpTo :
    (p q : ℕ) (c : PhiCopy) (es : List EdgeCopies)
    → All (UpTo q) es
    → All (UpTo q) (add_copy p q c es)
add_copy-UpTo p q c [] up = (omega arith, tt)
add_copy-UpTo p q c (e ∷ es) up =
    if_both (All (UpTo q)) (is_edge p q e) _ _ up (up.0, add_copy-UpTo p q c es up.1)

-- The edges so far are in order, and lead to blocks up to `q`.
abbrev Sound : ℕ → List EdgeCopies → Type 0
Sound q es = All (UpTo q) es × IsOrdered es

collect_args-Sound :
    (n q d : ℕ) (as' : List PhiArg) (es : List EdgeCopies)
    → Sound q es
    → Sound q (collect_args n q d as' es)
collect_args-Sound n q d [] es h = h
collect_args-Sound n q d (a ∷ as') es h = collect_args-Sound n q d as' (collect_arg n q d a es) (
    if_both (Sound q) (a.src == d) es _ h (
      if_both (Sound q) (leb n a.pred) es _ h
        (add_copy-UpTo a.pred q _ es h.0, add_copy-IsOrdered a.pred q _ es h.0 h.1)))

collect_insts-Sound :
    (n q : ℕ) (is : List Inst) (es : List EdgeCopies)
    → Sound q es
    → Sound q (collect_insts n q is es)
collect_insts-Sound n q [] es h = h
collect_insts-Sound n q (i ∷ is) es h =
    collect_insts-Sound n q is _ (collect_args-Sound n q i.dst (phi_args i.op) es h)

pub collect_blocks-IsOrdered :
    (n q : ℕ) (bs : List Block) (es : List EdgeCopies)
    → Sound q es
    → IsOrdered (collect_blocks n q bs es)
unfolding collect_blocks
collect_blocks-IsOrdered n q [] es h = h.1
collect_blocks-IsOrdered n q (b ∷ bs) es h =
    let k = collect_insts-Sound n q b.insts es h in
    collect_blocks-IsOrdered n (suc q) bs _ (All-map (UpTo q) (λ e u. omega (arith, u)) _ k.0, k.1)

-- No edge of the list leads from `p` to `q`.
abbrev pub NoEdge : ℕ → ℕ → List EdgeCopies → Type 0
NoEdge p q es = All (λ e. is_edge p q e ≡ false) es

pub NoEdge-of_copies :
    (p q : ℕ) (es : List EdgeCopies) → IsOrdered es → copies_of es p q ≡ [] → NoEdge p q es
NoEdge-of_copies p q [] h z = tt
NoEdge-of_copies p q (e ∷ es) h z = elim (Bool-cases (is_edge p q e)) [
  | inl t ↦ absurd (Nonempty-ne e.copies h.0 (rw t at z))
  | inr f ↦ (f, NoEdge-of_copies p q es h.2 (rw f at z))
]

-- Behind an edge, none leads to an earlier block.
pub NoEdge-Later :
    (e : EdgeCopies) (p t : ℕ) (es : List EdgeCopies)
    → t < e.phi_bb
    → All (Later e) es
    → NoEdge p t es
NoEdge-Later e p t [] lt h = tt
NoEdge-Later e p t (e' ∷ es) lt h =
    (other_target e' p t (omega (arith, lt, h.0.0)), NoEdge-Later e p t es lt h.1)

-- An edge between two of `n` blocks.
abbrev pub Inside : ℕ → EdgeCopies → Type 0
Inside n e = (e.pred_bb < n) × (e.phi_bb < n)

pub copies_of-none : (p q : ℕ) (es : List EdgeCopies) → NoEdge p q es → copies_of es p q ≡ []
copies_of-none p q [] h = refl
copies_of-none p q (e ∷ es) h = rw h.0 (copies_of-none p q es h.1)

add_copy-Inside :
    (n p q : ℕ) (c : PhiCopy) (es : List EdgeCopies)
    → p < n
    → q < n
    → All (Inside n) es
    → All (Inside n) (add_copy p q c es)
add_copy-Inside n p q c [] hp hq h = ((hp, hq), tt)
add_copy-Inside n p q c (e ∷ es) hp hq h =
    if_both (All (Inside n)) (is_edge p q e) _ _ h (h.0, add_copy-Inside n p q c es hp hq h.1)

collect_args-Inside :
    (n q d : ℕ) (as' : List PhiArg) (es : List EdgeCopies)
    → q < n
    → All (Inside n) es
    → All (Inside n) (collect_args n q d as' es)
collect_args-Inside n q d [] es hq h = h
collect_args-Inside n q d (a ∷ as') es hq h =
    collect_args-Inside n q d as' (collect_arg n q d a es) hq (
      if_both (All (Inside n)) (a.src == d) es _ h (
        if_cases (All (Inside n)) (leb n a.pred) es _ (λ out. h)
          (λ in_. add_copy-Inside n a.pred q _ es (ground arith) hq h)))

collect_insts-Inside :
    (n q : ℕ) (is : List Inst) (es : List EdgeCopies)
    → q < n
    → All (Inside n) es
    → All (Inside n) (collect_insts n q is es)
collect_insts-Inside n q [] es hq h = h
collect_insts-Inside n q (i ∷ is) es hq h =
    collect_insts-Inside n q is _ hq (collect_args-Inside n q i.dst (phi_args i.op) es hq h)

pub collect_blocks-Inside :
    (n q : ℕ) (bs : List Block) (es : List EdgeCopies)
    → q + length bs ≤ n
    → All (Inside n) es
    → All (Inside n) (collect_blocks n q bs es)
unfolding collect_blocks
collect_blocks-Inside n q [] es le h = h
collect_blocks-Inside n q (b ∷ bs) es le h =
    collect_blocks-Inside n (suc q) bs _ (omega (arith, le))
      (collect_insts-Inside n q b.insts es (omega (arith, le)) h)
