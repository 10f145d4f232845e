-- ===== src/Isel/Patched.antt =====
-- What an edge does to a block whose last instructions are known: the second pass of src/isel.c.
use vortech.Prelude.{
  ℕ, ◌≤◌, ◌<◌, ◌≡◌, ◌≢◌, refl, sym, ap, ◌∙◌, false, Option, none, some, List, [], ◌∷◌, ◌++◌, ◌==◌,
  if◌then◌else◌, length, get_elem?, get_elem?-append_left, get_elem?-append_length,
  get_elem?-set_self, get_elem?-set_ne, length-set, length-append, set, arith,
}
use vortech.Mach
use vortech.Mach.{MachInst, MachBlock}
use vortech.Isel.Lower.{jump_inst}
use vortech.Isel.Edges.{PhiCopy, EdgeCopies}
use vortech.Isel.Split.{
  last?, init, is_cond, copy_insts, Patch, keep, replace, split, patch_last, patch_insts,
  edge_block, patch_blocks, process_block, process_edge,
}

pub last?-snoc : (xs : List MachInst) (x : MachInst) → last? (xs ++ x ∷ []) ≡ some x
last?-snoc [] x = refl
last?-snoc (y ∷ []) x = refl
last?-snoc (y ∷ z ∷ xs) x = last?-snoc (z ∷ xs) x

pub init-snoc : (xs : List MachInst) (x : MachInst) → init (xs ++ x ∷ []) ≡ xs
init-snoc [] x = refl
init-snoc (y ∷ []) x = refl
init-snoc (y ∷ z ∷ xs) x = ap (λ l. y ∷ l) (init-snoc (z ∷ xs) x)

pub patch_insts-snoc :
    (cs : List PhiCopy) (q k : ℕ) (front : List MachInst) (last : MachInst)
    → patch_insts cs q k (front ++ last ∷ []) (last? (front ++ last ∷ []))
      ≡ patch_last cs q k front last (last? front)
patch_insts-snoc cs q k front last = rw (last?-snoc front last, init-snoc front last) refl

abbrev pub NotCond : Option MachInst → Type 0
NotCond none = Unit
NotCond (some i) = is_cond i.op ≡ false

-- Before the jump, if it goes to the phi's block.
abbrev pub jump_patch : List PhiCopy → (q t : ℕ) → List MachInst → Patch
jump_patch cs q t front =
    if t == q then replace (front ++ (copy_insts cs ++ jump_inst Mach.jmp t ∷ [])) else keep

pub patch_last-jump :
    (cs : List PhiCopy) (q k t : ℕ) (front : List MachInst) (prev : Option MachInst)
    → NotCond prev
    → patch_last cs q k front (jump_inst Mach.jmp t) prev ≡ jump_patch cs q t front
patch_last-jump cs q k t front none h = refl
patch_last-jump cs q k t front (some prev) h = rw h refl

-- A branch's first jump goes through the block `k` if it leads to the phi's block.
abbrev pub branch_patch : List PhiCopy → (q k t f : ℕ) → List MachInst → Patch
branch_patch cs q k t f front =
    if t == q
    then split (front ++ jump_inst Mach.jne k ∷ jump_inst Mach.jmp f ∷ [])
    else jump_patch cs q f (front ++ jump_inst Mach.jne t ∷ [])

pub patch_last-branch :
    (cs : List PhiCopy) (q k t f : ℕ) (front : List MachInst)
    → patch_last cs q k
        (front ++ jump_inst Mach.jne t ∷ [])
        (jump_inst Mach.jmp f)
        (some (jump_inst Mach.jne t))
      ≡ branch_patch cs q k t f front
patch_last-branch cs q k t f front = rw (init-snoc front (jump_inst Mach.jne t)) refl

module _ (e : EdgeCopies) (ms : List MachBlock) where
  abbrev patch_of : MachBlock → Patch
  patch_of b = patch_insts e.copies e.phi_bb (length ms) b.insts (last? b.insts)

  pub process_edge-at :
      {b : MachBlock}
      → get_elem? ms e.pred_bb ≡ some b
      → process_edge e ms ≡ patch_blocks e b ms (patch_of b)
  unfolding process_edge
  process_edge-at at = rw at refl

  patch_blocks-other :
      (p : ℕ) (b : MachBlock) (a : Patch)
      → e.pred_bb ≢ p
      → p < length ms
      → get_elem? (patch_blocks e b ms a) p ≡ get_elem? ms p
  patch_blocks-other p b keep ne lt = refl
  patch_blocks-other p b (replace is) ne lt = get_elem?-set_ne ms (record b { insts = is }) ne
  patch_blocks-other p b (split is) ne lt =
      get_elem?-append_left (set ms e.pred_bb (record b { insts = is })) _ p
        (omega (arith, length-set ms e.pred_bb (record b { insts = is }), lt))
      ∙ get_elem?-set_ne ms (record b { insts = is }) ne

  -- Every other block stays.
  pub process_edge-other :
      (p : ℕ) → e.pred_bb ≢ p → p < length ms → get_elem? (process_edge e ms) p ≡ get_elem? ms p
  unfolding process_edge
  process_edge-other p ne lt =
      elim (get_elem? ms e.pred_bb) as (λ o. get_elem? (process_block e ms o) p ≡ get_elem? ms p) [
        | none ↦ refl
        | some b ↦ patch_blocks-other p b (patch_of b) ne lt
      ]

  pub patch_blocks-replace :
      (b : MachBlock) (is : List MachInst)
      → e.pred_bb < length ms
      → get_elem? (patch_blocks e b ms (replace is)) e.pred_bb ≡ some (record b { insts = is })
  patch_blocks-replace b is lt = get_elem?-set_self ms e.pred_bb _ lt

  pub patch_blocks-split :
      (b : MachBlock) (is : List MachInst)
      → e.pred_bb < length ms
      → get_elem? (patch_blocks e b ms (split is)) e.pred_bb ≡ some (record b { insts = is })
  patch_blocks-split b is lt =
      get_elem?-append_left (set ms e.pred_bb (record b { insts = is })) _ e.pred_bb
        (omega (arith, length-set ms e.pred_bb (record b { insts = is }), lt))
      ∙ get_elem?-set_self ms e.pred_bb _ lt

  pub patch_blocks-edge :
      (b : MachBlock) (is : List MachInst)
      → get_elem? (patch_blocks e b ms (split is)) (length ms)
        ≡ some (edge_block (length ms) e.copies e.phi_bb)
  patch_blocks-edge b is =
      ap (get_elem? _) (sym (length-set ms e.pred_bb (record b { insts = is })))
      ∙ get_elem?-append_length (set ms e.pred_bb (record b { insts = is })) _

  length-patch_blocks : (b : MachBlock) (a : Patch) → length ms ≤ length (patch_blocks e b ms a)
  length-patch_blocks b keep = omega arith
  length-patch_blocks b (replace is) =
      omega (arith, length-set ms e.pred_bb (record b { insts = is }))
  length-patch_blocks b (split is) = omega (
    arith,
    length-set ms e.pred_bb (record b { insts = is }),
    length-append (set ms e.pred_bb (record b { insts = is }))
        (edge_block (length ms) e.copies e.phi_bb ∷ []),
  )

  pub length-process_edge : length ms ≤ length (process_edge e ms)
  unfolding process_edge
  length-process_edge =
      elim (get_elem? ms e.pred_bb) as (λ o. length ms ≤ length (process_block e ms o)) [
        | none ↦ omega arith
        | some b ↦ length-patch_blocks b (patch_of b)
      ]
