-- ===== src/Isel/Shapes.antt =====
-- How a block ends once every edge of src/isel.c is processed, by the way in which it ended before.
use vortech.Prelude.{
  ℕ, ◌<◌, ◌≡◌, ◌≢◌, refl, sym, ap, ◌∙◌, subst, inl, inr, true, false, Bool-cases, Option, none,
  some, List, [], ◌∷◌, ◌++◌, ◌==◌, ==_iff, length, get_elem?, get_elem?-bound, All, All-map, arith,
}
use mathlib.Core.List.{append-nil, append_assoc}
use vortech.Mach
use vortech.Prelude.Int.{pos}
use vortech.Mach.{qword, MachInst, MachBlock}
use vortech.Isel.Lower.{mach_inst, jump_inst}
use vortech.Isel.Edges.{PhiCopy, EdgeCopies, is_edge}
use vortech.Isel.Split.{
  last?, copy_inst, copy_insts, keep, replace, split, patch_last, patch_insts, edge_block,
  patch_blocks, process_edge, process_edges,
}
use vortech.Isel.Collected.{copies_of}
use vortech.Isel.Ordered.{Later, Nonempty, IsOrdered, NoEdge}
use vortech.Isel.Patched.{
  last?-snoc, patch_insts-snoc, NotCond, jump_patch, patch_last-jump, process_edge-at,
  process_edge-other, patch_blocks-replace, patch_blocks-split, patch_blocks-edge,
  length-process_edge,
}

==_ne : (a b : ℕ) → (a == b) ≡ false → a ≢ b
==_ne a b h = ground arith

pub other_phi :
    (e : EdgeCopies) (p t : ℕ) → e.pred_bb ≡ p → is_edge p t e ≡ false → (t == e.phi_bb) ≡ false
other_phi e p t h k = ground arith

pub same_edge : (e : EdgeCopies) (p t : ℕ) → is_edge p t e ≡ true → (e.pred_bb ≡ p) × (e.phi_bb ≡ t)
same_edge e p t h = ground arith

abbrev pub block : ℕ → List MachInst → MachBlock
block l is = record { label = l; insts = is }

-- The edge leaves the instructions of the block `p` alone.
abbrev pub Idle : ℕ → List MachInst → EdgeCopies → Type 0
Idle p is e = e.pred_bb ≡ p → (k : ℕ) → patch_insts e.copies e.phi_bb k is (last? is) ≡ keep

pub process_edge-Idle :
    (e : EdgeCopies) (ms : List MachBlock) (p : ℕ) {b : MachBlock}
    → Idle p b.insts e
    → get_elem? ms p ≡ some b
    → get_elem? (process_edge e ms) p ≡ some b
process_edge-Idle e ms p {b} idle at = elim (Bool-cases (e.pred_bb == p)) [
  | inl here ↦
      let eq = (==_iff e.pred_bb p).0 here in
      ap (λ x. get_elem? x p)
        (process_edge-at e ms (ap (get_elem? ms) eq ∙ at)
          ∙ ap (patch_blocks e b ms) (idle eq (length ms)))
      ∙ at
  | inr there ↦ process_edge-other e ms p (==_ne e.pred_bb p there) (get_elem?-bound ms p at) ∙ at
]

process_edges-Idle :
    (es : List EdgeCopies) (ms : List MachBlock) (p : ℕ) {b : MachBlock}
    → All (Idle p b.insts) es
    → get_elem? ms p ≡ some b
    → get_elem? (process_edges es ms) p ≡ some b
unfolding process_edges
process_edges-Idle [] ms p idle at = at
process_edges-Idle (e ∷ es) ms p idle at =
    process_edges-Idle es (process_edge e ms) p idle.1 (process_edge-Idle e ms p idle.0 at)

pub process_edges-other :
    (es : List EdgeCopies) (ms : List MachBlock) (p : ℕ)
    → All (λ (e : EdgeCopies). e.pred_bb ≢ p) es
    → p < length ms
    → get_elem? (process_edges es ms) p ≡ get_elem? ms p
unfolding process_edges
process_edges-other [] ms p h lt = refl
process_edges-other (e ∷ es) ms p h lt =
    process_edges-other es (process_edge e ms) p h.1 (omega (arith, length-process_edge e ms, lt))
    ∙ process_edge-other e ms p h.0 lt

NotCond-copies :
    (front : List MachInst) (cs : List PhiCopy)
    → NotCond (last? front)
    → NotCond (last? (front ++ copy_insts cs))
NotCond-copies front [] h = subst (λ l. NotCond (last? l)) (sym (append-nil front)) h
NotCond-copies front (c ∷ cs) h =
    subst (λ l. NotCond (last? l)) (append_assoc front (copy_inst c ∷ []) (copy_insts cs))
      (NotCond-copies (front ++ copy_inst c ∷ []) cs
        (subst NotCond (sym (last?-snoc front (copy_inst c))) refl))

Nonempty-copies :
    (front : List MachInst) (cs : List PhiCopy)
    → Nonempty cs
    → NotCond (last? (front ++ copy_insts cs))
Nonempty-copies front [] h = elim h [ ]
Nonempty-copies front (c ∷ cs) h =
    subst (λ l. NotCond (last? l)) (append_assoc front (copy_inst c ∷ []) (copy_insts cs))
      (NotCond-copies (front ++ copy_inst c ∷ []) cs
        (subst NotCond (sym (last?-snoc front (copy_inst c))) refl))

Idle-jump :
    (e : EdgeCopies) (p t : ℕ) (front : List MachInst)
    → NotCond (last? front)
    → is_edge p t e ≡ false
    → Idle p (front ++ jump_inst Mach.jmp t ∷ []) e
Idle-jump e p t front h ne eq k =
    patch_insts-snoc e.copies e.phi_bb k front _
    ∙ patch_last-jump e.copies e.phi_bb k t front (last? front) h
    ∙ rw (other_phi e p t eq ne) refl

-- The block ends with a jump, and the edge puts its copies before it, if it is the jump's.
abbrev pub Inserts : (p t : ℕ) → List MachInst → EdgeCopies → Type 0
Inserts p t front e =
    e.pred_bb ≡ p
    → (k : ℕ)
    → patch_last e.copies e.phi_bb k front (jump_inst Mach.jmp t) (last? front)
      ≡ jump_patch e.copies e.phi_bb t front

process_edge-replace :
    (e : EdgeCopies) (ms : List MachBlock) (p : ℕ) (b : MachBlock) (is : List MachInst)
    → e.pred_bb ≡ p
    → get_elem? ms p ≡ some b
    → patch_insts e.copies e.phi_bb (length ms) b.insts (last? b.insts) ≡ replace is
    → get_elem? (process_edge e ms) p ≡ some (block b.label is)
process_edge-replace e ms p b is eq at h =
    let at' = ap (get_elem? ms) eq ∙ at in
    ap (get_elem? (process_edge e ms)) (sym eq)
    ∙ ap (λ x. get_elem? x e.pred_bb) (process_edge-at e ms at' ∙ ap (patch_blocks e b ms) h)
    ∙ patch_blocks-replace e ms b is (get_elem?-bound ms e.pred_bb at')

pub process_edge-split :
    (e : EdgeCopies) (ms : List MachBlock) (p : ℕ) (b : MachBlock) (is : List MachInst)
    → e.pred_bb ≡ p
    → get_elem? ms p ≡ some b
    → patch_insts e.copies e.phi_bb (length ms) b.insts (last? b.insts) ≡ split is
    → (get_elem? (process_edge e ms) p ≡ some (block b.label is))
      × (get_elem? (process_edge e ms) (length ms)
          ≡ some (edge_block (length ms) e.copies e.phi_bb))
process_edge-split e ms p b is eq at h =
    let at' = ap (get_elem? ms) eq ∙ at in
    let step = process_edge-at e ms at' ∙ ap (patch_blocks e b ms) h in
    (
      ap (get_elem? (process_edge e ms)) (sym eq)
          ∙ ap (λ x. get_elem? x e.pred_bb) step
          ∙ patch_blocks-split e ms b is (get_elem?-bound ms e.pred_bb at'),
      ap (λ x. get_elem? x (length ms)) step ∙ patch_blocks-edge e ms b is,
    )

pub NoEdge-same :
    (e : EdgeCopies) (p t : ℕ) (es : List EdgeCopies)
    → is_edge p t e ≡ true
    → All (Later e) es
    → NoEdge p t es
NoEdge-same e p t es h later =
    All-map (Later e) (λ e' k. ground (arith, same_edge e p t h, k.1)) es later

-- The copies of the edge stand before the jump, whatever edges come behind.
pub process_edges-inserted :
    (e : EdgeCopies) (es : List EdgeCopies) (ms : List MachBlock) (p t l : ℕ)
    (front : List MachInst)
    → Inserts p t front e
    → IsOrdered (e ∷ es)
    → is_edge p t e ≡ true
    → get_elem? ms p ≡ some (block l (front ++ jump_inst Mach.jmp t ∷ []))
    → get_elem? (process_edges es (process_edge e ms)) p
      ≡ some (block l (front ++ (copy_insts e.copies ++ jump_inst Mach.jmp t ∷ [])))
process_edges-inserted e es ms p t l front h ord here at =
    let (pe, qe) = same_edge e p t here in
    let more = append_assoc front (copy_insts e.copies) (jump_inst Mach.jmp t ∷ []) in
    process_edges-Idle es (process_edge e ms) p
      (subst (λ x. All (Idle p x) es) more
        (All-map _
          (λ e' k.
            Idle-jump e' p t (front ++ copy_insts e.copies) (Nonempty-copies front e.copies ord.0)
              k)
          es (NoEdge-same e p t es here ord.1)))
      (process_edge-replace e ms p _ _ pe at (
        patch_insts-snoc e.copies e.phi_bb (length ms) front _
        ∙ h pe (length ms)
        ∙ rw ((==_iff t e.phi_bb).1 (sym qe)) refl))

pub process_edges-insert :
    (es : List EdgeCopies) (ms : List MachBlock) (p t l : ℕ) (front : List MachInst)
    → All (Inserts p t front) es
    → IsOrdered es
    → get_elem? ms p ≡ some (block l (front ++ jump_inst Mach.jmp t ∷ []))
    → get_elem? (process_edges es ms) p
      ≡ some (block l (front ++ (copy_insts (copies_of es p t) ++ jump_inst Mach.jmp t ∷ [])))
unfolding process_edges
process_edges-insert [] ms p t l front h ord at = at
process_edges-insert (e ∷ es) ms p t l front h ord at = elim (Bool-cases (is_edge p t e)) [
  | inl here ↦ rw here (process_edges-inserted e es ms p t l front h.0 ord here at)
  | inr there ↦ rw there (
      process_edges-insert es (process_edge e ms) p t l front h.1 ord.2 (
        process_edge-Idle e ms p
          (λ eq k.
            patch_insts-snoc e.copies e.phi_bb k front _
            ∙ h.0 eq k
            ∙ rw (other_phi e p t eq there) refl)
          at))
]

-- A block that ends with a jump.
pub process_edges-jump :
    (es : List EdgeCopies) (ms : List MachBlock) (p t l : ℕ) (front : List MachInst)
    → NotCond (last? front)
    → IsOrdered es
    → get_elem? ms p ≡ some (block l (front ++ jump_inst Mach.jmp t ∷ []))
    → get_elem? (process_edges es ms) p
      ≡ some (block l (front ++ (copy_insts (copies_of es p t) ++ jump_inst Mach.jmp t ∷ [])))
process_edges-jump es ms p t l front h ord at =
    process_edges-insert es ms p t l front (inserts es) ord at
  where
    inserts : (es' : List EdgeCopies) → All (Inserts p t front) es'
    inserts [] = tt
    inserts (e ∷ es') =
        ((λ eq k. patch_last-jump e.copies e.phi_bb k t front (last? front) h), inserts es')

-- A block that ends with a return.
pub process_edges-ret :
    (es : List EdgeCopies) (ms : List MachBlock) (p l v : ℕ) (front : List MachInst)
    → let is = front ++ mach_inst Mach.ret 0 v 0 (pos 0) qword ∷ [] in
      get_elem? ms p ≡ some (block l is) → get_elem? (process_edges es ms) p ≡ some (block l is)
process_edges-ret es ms p l v front at = process_edges-Idle es ms p (idle es) at
  where
    stays :
        (e : EdgeCopies) (k : ℕ) (prev : Option MachInst)
        → patch_last e.copies e.phi_bb k front (mach_inst Mach.ret 0 v 0 (pos 0) qword) prev ≡ keep
    stays e k none = refl
    stays e k (some i) = refl

    idle :
        (es' : List EdgeCopies)
        → All (Idle p (front ++ mach_inst Mach.ret 0 v 0 (pos 0) qword ∷ [])) es'
    idle [] = tt
    idle (e ∷ es') =
        ((λ eq k. patch_insts-snoc e.copies e.phi_bb k front _ ∙ stays e k (last? front)), idle es')
