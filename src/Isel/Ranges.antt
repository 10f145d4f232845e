-- ===== src/Isel/Ranges.antt =====
-- The blocks and the registers that instructions name, through the second pass of src/isel.c.
use vortech.Prelude.{
  ℕ, suc, ◌≤◌, ◌<◌, inr, Option, none, some, List, [], ◌∷◌, ◌++◌, ◌==◌, if_both, All, All-map,
  All-append, arith,
}
use vortech.Mach.{MachInst, MachBlock}
use vortech.Regalloc.Physical.{IsVreg, NamesVregs}
use vortech.Isel.Edges.{PhiCopy, EdgeCopies}
use vortech.Isel.Split.{
  last?, init, is_jmp, cond_to, copy_insts, retarget, Patch, keep, replace, split, patch_last,
  patch_insts, edge_block,
}

-- The instruction's target is one of `k` blocks, and its registers are virtual ones below `n`.
abbrev pub InRange : ℕ → ℕ → MachInst → Type 0
InRange n k i = (i.target_bb < k) × NamesVregs n i

abbrev pub BlocksInRange : ℕ → ℕ → List MachBlock → Type 0
BlocksInRange n k ms = All (λ (b : MachBlock). All (InRange n k) b.insts) ms

abbrev pub CopyInRange : ℕ → PhiCopy → Type 0
CopyInRange n c = IsVreg n c.dst × IsVreg n c.src

abbrev pub EdgeInRange : ℕ → ℕ → EdgeCopies → Type 0
EdgeInRange n k e = (e.phi_bb < k) × All (CopyInRange n) e.copies

pub InRange-wider : (n k k' : ℕ) (i : MachInst) → k ≤ k' → InRange n k i → InRange n k' i
InRange-wider n k k' i le h = (omega (arith, le, h.0), h.1)

pub BlocksInRange-wider :
    (n k k' : ℕ) (ms : List MachBlock) → k ≤ k' → BlocksInRange n k ms → BlocksInRange n k' ms
BlocksInRange-wider n k k' ms le h =
    All-map _ (λ (b : MachBlock) a. All-map _ (λ i r. InRange-wider n k k' i le r) b.insts a) ms h

abbrev pub LastInRange : ℕ → ℕ → Option MachInst → Type 0
LastInRange n k none = Unit
LastInRange n k (some i) = InRange n k i

-- A split adds the block `k`.
abbrev pub PatchInRange : ℕ → ℕ → Patch → Type 0
PatchInRange n k keep = Unit
PatchInRange n k (replace is) = All (InRange n k) is
PatchInRange n k (split is) = All (InRange n (suc k)) is

module _ (n k : ℕ) (some_vreg : 0 < n) (some_block : 0 < k) where
  copy_insts-InRange :
      (cs : List PhiCopy) → All (CopyInRange n) cs → All (InRange n k) (copy_insts cs)
  copy_insts-InRange [] h = tt
  copy_insts-InRange (c ∷ cs) h =
      ((some_block, (h.0.0, h.0.1, inr some_vreg)), copy_insts-InRange cs h.1)

  init-InRange : (is : List MachInst) → All (InRange n k) is → All (InRange n k) (init is)
  init-InRange [] h = tt
  init-InRange (x ∷ []) h = tt
  init-InRange (x ∷ y ∷ is) h = (h.0, init-InRange (y ∷ is) h.1)

  pub last?-InRange : (is : List MachInst) → All (InRange n k) is → LastInRange n k (last? is)
  last?-InRange [] h = tt
  last?-InRange (x ∷ []) h = h.0
  last?-InRange (x ∷ y ∷ is) h = last?-InRange (y ∷ is) h.1

  wider : (is : List MachInst) → All (InRange n k) is → All (InRange n (suc k)) is
  wider is h = All-map _ (λ i r. InRange-wider n k (suc k) i (omega arith) r) is h

  moved : (i : MachInst) → InRange n k i → InRange n (suc k) (retarget k i)
  moved i h = (omega arith, h.1)

  split-last :
      (front : List MachInst) (x : MachInst)
      → All (InRange n k) front
      → InRange n k x
      → All (InRange n (suc k)) (front ++ retarget k x ∷ [])
  split-last front x h hx = All-append (InRange n (suc k)) front _ (wider front h) (moved x hx, tt)

  replaced :
      (cs : List PhiCopy) (front : List MachInst) (x : MachInst)
      → All (CopyInRange n) cs
      → All (InRange n k) front
      → InRange n k x
      → All (InRange n k) (front ++ (copy_insts cs ++ x ∷ []))
  replaced cs front x hc h hx =
      All-append (InRange n k) front _ h
        (All-append (InRange n k) (copy_insts cs) _ (copy_insts-InRange cs hc) (hx, tt))

  patch_last-InRange :
      (cs : List PhiCopy) (q : ℕ) (front : List MachInst) (x : MachInst) (prev : Option MachInst)
      → All (CopyInRange n) cs
      → All (InRange n k) front
      → InRange n k x
      → LastInRange n k prev
      → PatchInRange n k (patch_last cs q k front x prev)
  patch_last-InRange cs q front x none hc h hx hp =
      if_both (PatchInRange n k) (is_jmp x.op) _ _
        (if_both (PatchInRange n k) (x.target_bb == q) _ _ (replaced cs front x hc h hx) tt)
        (if_both (PatchInRange n k) (cond_to q (some x)) _ _ (split-last front x h hx) tt)
  patch_last-InRange cs q front x (some prev) hc h hx hp =
      if_both (PatchInRange n k) (is_jmp x.op) _ _
        (if_both (PatchInRange n k) (cond_to q (some prev)) _ _
          (All-append (InRange n (suc k)) (init front) _ (wider (init front) (init-InRange front h))
            (moved prev hp, (InRange-wider n k (suc k) x (omega arith) hx, tt)))
          (if_both (PatchInRange n k) (x.target_bb == q) _ _ (replaced cs front x hc h hx) tt))
        (if_both (PatchInRange n k) (cond_to q (some x)) _ _ (split-last front x h hx) tt)

  pub patch_insts-InRange :
      (cs : List PhiCopy) (q : ℕ) (is : List MachInst) (last : Option MachInst)
      → All (CopyInRange n) cs
      → All (InRange n k) is
      → LastInRange n k last
      → PatchInRange n k (patch_insts cs q k is last)
  patch_insts-InRange cs q is none hc h hl = copy_insts-InRange cs hc
  patch_insts-InRange cs q is (some x) hc h hl =
      patch_last-InRange cs q (init is) x (last? (init is)) hc (init-InRange is h) hl
        (last?-InRange (init is) (init-InRange is h))

  pub edge_block-InRange :
      (cs : List PhiCopy) (q : ℕ)
      → All (CopyInRange n) cs
      → q < k
      → All (InRange n k) (edge_block k cs q).insts
  edge_block-InRange cs q hc lt =
      All-append (InRange n k) (copy_insts cs) _ (copy_insts-InRange cs hc)
        ((lt, (inr some_vreg, inr some_vreg, inr some_vreg)), tt)
