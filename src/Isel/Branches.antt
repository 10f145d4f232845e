-- ===== src/Isel/Branches.antt =====
-- How a block that ends with a branch ends once every edge of src/isel.c is processed.
use vortech.Prelude.{
  ℕ, ◌≤◌, ◌<◌, ◌≡◌, ◌≢◌, refl, sym, ap, ◌∙◌, ◌⊎◌, inl, inr, true, false, Bool-cases, some, List, [],
  ◌∷◌, ◌++◌, ==_iff, length, get_elem?, get_elem?-bound, All, All-map, arith,
}
use mathlib.Core.List.{append_assoc}
use vortech.Mach
use vortech.Mach.{MachInst, MachBlock}
use vortech.Isel.Lower.{jump_inst}
use vortech.Isel.Edges.{PhiCopy, EdgeCopies, is_edge}
use vortech.Isel.Split.{
  last?, copy_insts, patch_last, patch_insts, edge_block, process_edge, process_edges,
}
use vortech.Isel.Collected.{copies_of}
use vortech.Isel.Ordered.{Later, IsOrdered, NoEdge, NoEdge-Later, Inside, copies_of-none}
use vortech.Isel.Patched.{
  last?-snoc, patch_insts-snoc, branch_patch, patch_last-branch, length-process_edge,
}
use vortech.Isel.Shapes.{
  other_phi, same_edge, block, Idle, process_edge-Idle, process_edges-other, process_edge-split,
  Inserts, process_edges-insert, process_edges-inserted,
}

-- The two jumps of a branch behind the other instructions.
abbrev pub jumps : List MachInst → ℕ → ℕ → List PhiCopy → List MachInst
jumps g t f cs = g ++ jump_inst Mach.jne t ∷ (copy_insts cs ++ jump_inst Mach.jmp f ∷ [])

jumps-snoc :
    (g : List MachInst) (t f : ℕ) (cs : List PhiCopy)
    → g ++ jump_inst Mach.jne t ∷ [] ++ (copy_insts cs ++ jump_inst Mach.jmp f ∷ [])
      ≡ jumps g t f cs
jumps-snoc g t f cs = append_assoc g (jump_inst Mach.jne t ∷ []) _

patch_last-jumps :
    (e : EdgeCopies) (k t f : ℕ) (g : List MachInst)
    → let front = g ++ jump_inst Mach.jne t ∷ [] in
      patch_last e.copies e.phi_bb k front (jump_inst Mach.jmp f) (last? front)
      ≡ branch_patch e.copies e.phi_bb k t f g
patch_last-jumps e k t f g =
    let front = g ++ jump_inst Mach.jne t ∷ [] in
    ap (patch_last e.copies e.phi_bb k front (jump_inst Mach.jmp f))
      (last?-snoc g (jump_inst Mach.jne t))
    ∙ patch_last-branch e.copies e.phi_bb k t f g

patch_insts-jumps :
    (e : EdgeCopies) (k t f : ℕ) (g : List MachInst)
    → patch_insts e.copies e.phi_bb k (jumps g t f []) (last? (jumps g t f []))
      ≡ branch_patch e.copies e.phi_bb k t f g
patch_insts-jumps e k t f g =
    ap (λ is. patch_insts e.copies e.phi_bb k is (last? is)) (sym (jumps-snoc g t f []))
    ∙ patch_insts-snoc e.copies e.phi_bb k (g ++ jump_inst Mach.jne t ∷ []) _
    ∙ patch_last-jumps e k t f g

Inserts-branch :
    (p t f : ℕ) (g : List MachInst) (e : EdgeCopies)
    → is_edge p t e ≡ false
    → Inserts p f (g ++ jump_inst Mach.jne t ∷ []) e
Inserts-branch p t f g e ne eq k = patch_last-jumps e k t f g ∙ rw (other_phi e p t eq ne) refl

Idle-jumps :
    (p t f : ℕ) (g : List MachInst) (e : EdgeCopies)
    → is_edge p t e ≡ false
    → is_edge p f e ≡ false
    → Idle p (jumps g t f []) e
Idle-jumps p t f g e ht hf eq k =
    patch_insts-jumps e k t f g ∙ rw (other_phi e p t eq ht, other_phi e p f eq hf) refl

-- No edge leads to the first jump's block.
process_edges-second :
    (es : List EdgeCopies) (ms : List MachBlock) (p t f l : ℕ) (g : List MachInst)
    → NoEdge p t es
    → IsOrdered es
    → get_elem? ms p ≡ some (block l (jumps g t f []))
    → get_elem? (process_edges es ms) p ≡ some (block l (jumps g t f (copies_of es p f)))
process_edges-second es ms p t f l g none_ ord at =
    process_edges-insert es ms p f l (g ++ jump_inst Mach.jne t ∷ [])
      (All-map _ (Inserts-branch p t f g) es none_) ord
      (at ∙ ap (λ is. some (block l is)) (sym (jumps-snoc g t f [])))
    ∙ ap (λ is. some (block l is)) (jumps-snoc g t f (copies_of es p f))

-- The jump goes to the block `t` itself, or to one that makes the copies and then goes there.
abbrev pub Linked : List MachBlock → ℕ → List PhiCopy → ℕ → Type 0
Linked ms t cs t' = ((t' ≡ t) × (cs ≡ [])) ⊎ (get_elem? ms t' ≡ some (edge_block t' cs t))

abbrev pub Branched : List MachBlock → (p t f l : ℕ) → List MachInst → List EdgeCopies → Type 0
Branched ms p t f l g es =
    (t' : ℕ) × (get_elem? ms p ≡ some (block l (jumps g t' f (copies_of es p f))))
    × Linked ms t (copies_of es p t) t'

pub Branched-second :
    (es : List EdgeCopies) (ms : List MachBlock) (p t f l : ℕ) (g : List MachInst)
    → NoEdge p t es
    → IsOrdered es
    → get_elem? ms p ≡ some (block l (jumps g t f []))
    → Branched (process_edges es ms) p t f l g es
Branched-second es ms p t f l g none_ ord at =
    (t, process_edges-second es ms p t f l g none_ ord at, inl (refl, copies_of-none p t es none_))

other_way : (e : EdgeCopies) (p t f : ℕ) → t ≢ f → is_edge p t e ≡ true → is_edge p f e ≡ false
other_way e p t f ne h = ground arith

Branched-first :
    (n : ℕ) (e : EdgeCopies) (es : List EdgeCopies) (ms : List MachBlock) (p t f l : ℕ)
    (g : List MachInst)
    → n ≤ length ms
    → t ≢ f
    → All (Inside n) es
    → IsOrdered (e ∷ es)
    → is_edge p t e ≡ true
    → get_elem? ms p ≡ some (block l (jumps g t f []))
    → Branched (process_edges es (process_edge e ms)) p t f l g (e ∷ es)
Branched-first n e es ms p t f l g le ne inside ord here at =
    let (pe, qe) = same_edge e p t here in
    let k = length ms in
    let (at₁, edge) =
      process_edge-split e ms p (block l (jumps g t f [])) (jumps g k f []) pe at
        (patch_insts-jumps e k t f g ∙ rw ((==_iff t e.phi_bb).1 (sym qe)) refl) in
    rw (here, other_way e p t f ne here)
      (
        k,
        process_edges-second es (process_edge e ms) p k f l g
            (All-map (Inside n) (λ e' i. ground (arith, le, i.1)) es inside) ord.2 at₁,
        inr (
            process_edges-other es (process_edge e ms) k
              (All-map (Inside n) (λ e' i q. omega (arith, le, i.0, q)) es inside)
              (get_elem?-bound (process_edge e ms) k edge)
            ∙ edge
            ∙ ap (λ q. some (edge_block k e.copies q)) qe),
      )

-- A block that ends with a branch whose copies are for its second target only, or whose first
-- target is the earlier block of the two.
pub process_edges-Branched :
    (n : ℕ) (es : List EdgeCopies) (ms : List MachBlock) (p t f l : ℕ) (g : List MachInst)
    → n ≤ length ms
    → t ≢ f
    → (t < f) ⊎ NoEdge p f es
    → All (Inside n) es
    → IsOrdered es
    → get_elem? ms p ≡ some (block l (jumps g t f []))
    → Branched (process_edges es ms) p t f l g es
unfolding process_edges
process_edges-Branched n [] ms p t f l g le ne fits inside ord at = (t, at, inl (refl, refl))
process_edges-Branched n (e ∷ es) ms p t f l g le ne fits inside ord at =
    elim (Bool-cases (is_edge p t e)) [
      | inl here ↦ Branched-first n e es ms p t f l g le ne inside.1 ord here at
      | inr not_t ↦ elim (Bool-cases (is_edge p f e)) [
        | inl second ↦ elim fits [
          | inl lt ↦
              Branched-second (e ∷ es) ms p t f l g
                (not_t, NoEdge-Later e p t es (omega (arith, lt, (same_edge e p f second).1)) ord.1)
                ord at
          | inr none_ ↦ absurd (true-false (sym second ∙ none_.0))
        ]
        | inr not_f ↦
            rw (not_t, not_f)
              (process_edges-Branched n es (process_edge e ms) p t f l g
                (omega (arith, le, length-process_edge e ms)) ne
                (elim fits [ inl lt ↦ inl lt | inr none_ ↦ inr none_.1 ]) inside.1 ord.2
                (process_edge-Idle e ms p (Idle-jumps p t f g e not_t not_f) at))
      ]
    ]
  where
    true-false : true ≡ false → ⊥
    true-false q = cc

first_none :
    (e : EdgeCopies) (es : List EdgeCopies) (p t f : ℕ)
    → f < t
    → is_edge p t e ≡ true
    → All (Later e) es
    → copies_of (e ∷ es) p f ≡ []
first_none e es p t f lt here later =
    let not_f : is_edge p f e ≡ false = other_way e p t f (λ q. omega (arith, q, lt)) here in
    rw not_f (
      copies_of-none p f es
        (NoEdge-Later e p f es (omega (arith, lt, (same_edge e p t here).1)) later))

-- If the second target is the earlier block and has copies, they are all that is inserted.
pub process_edges-dropped :
    (es : List EdgeCopies) (ms : List MachBlock) (p t f l : ℕ) (g : List MachInst)
    → f < t
    → copies_of es p f ≢ []
    → IsOrdered es
    → get_elem? ms p ≡ some (block l (jumps g t f []))
    → get_elem? (process_edges es ms) p ≡ some (block l (jumps g t f (copies_of es p f)))
unfolding process_edges
process_edges-dropped [] ms p t f l g lt some_ ord at = absurd (some_ refl)
process_edges-dropped (e ∷ es) ms p t f l g lt some_ ord at = elim (Bool-cases (is_edge p t e)) [
  | inl here ↦ absurd (some_ (first_none e es p t f lt here ord.1))
  | inr not_t ↦ elim (Bool-cases (is_edge p f e)) [
    | inl second ↦ rw second (
        process_edges-inserted e es ms p f l (g ++ jump_inst Mach.jne t ∷ [])
          (Inserts-branch p t f g e not_t) ord second
          (at ∙ ap (λ is. some (block l is)) (sym (jumps-snoc g t f [])))
        ∙ ap (λ is. some (block l is)) (jumps-snoc g t f e.copies))
    | inr not_f ↦ rw not_f (
        process_edges-dropped es (process_edge e ms) p t f l g lt (rw not_f at some_) ord.2
          (process_edge-Idle e ms p (Idle-jumps p t f g e not_t not_f) at))
  ]
]
