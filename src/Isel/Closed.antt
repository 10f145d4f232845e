-- ===== src/Isel/Closed.antt =====
-- Blocks whose instructions name only these blocks stay so in the second pass of src/isel.c.
use vortech.Prelude.{
  ℕ, suc, ◌<◌, ◌≡◌, sym, subst, inl, inr, List, [], ◌∷◌, ◌++◌, length, length-set, length-append,
  get_elem?, set, All, All-map, All-append, All-set, All-get_elem?, Option-cases, arith,
}
use vortech.Mach.{MachBlock}
use vortech.Isel.Edges.{EdgeCopies}
use vortech.Isel.Split.{
  last?, Patch, keep, replace, split, patch_insts, edge_block, patch_blocks, process_edge,
  process_edges,
}
use vortech.Isel.Patched.{length-process_edge}
use vortech.Isel.Ranges.{
  InRange, BlocksInRange, EdgeInRange, BlocksInRange-wider, PatchInRange, last?-InRange,
  patch_insts-InRange, edge_block-InRange,
}

module _ (n : ℕ) (some_vreg : 0 < n) where
  -- Every instruction names blocks of the list and registers below `n`.
  abbrev pub Closed : List MachBlock → Type 0
  Closed ms = BlocksInRange n (length ms) ms

  abbrev pub AllInRange : ℕ → MachBlock → Type 0
  AllInRange k b = All (InRange n k) b.insts

  patch_blocks-Closed :
      (e : EdgeCopies) (b : MachBlock) (ms : List MachBlock) (a : Patch)
      → EdgeInRange n (length ms) e
      → 0 < length ms
      → PatchInRange n (length ms) a
      → Closed ms
      → Closed (patch_blocks e b ms a)
  patch_blocks-Closed e b ms keep edge pos_ pa h = h
  patch_blocks-Closed e b ms (replace is) edge pos_ pa h =
      subst (λ k. BlocksInRange n k (set ms e.pred_bb (record b { insts = is })))
        (sym (length-set ms e.pred_bb (record b { insts = is })))
        (All-set (AllInRange (length ms)) ms e.pred_bb _ h pa)
  patch_blocks-Closed e b ms (split is) edge pos_ pa h =
      let k = length ms in
      let patched = set ms e.pred_bb (record b { insts = is }) in
      let new = edge_block k e.copies e.phi_bb in
      let longer : suc k ≡ length (patched ++ new ∷ []) = omega (
        arith,
        length-append patched (new ∷ []),
        length-set ms e.pred_bb (record b { insts = is }),
      ) in
      subst (λ j. BlocksInRange n j (patched ++ new ∷ [])) longer
        (All-append (AllInRange (suc k)) patched (new ∷ [])
          (All-set (AllInRange (suc k)) ms e.pred_bb _
            (BlocksInRange-wider n k (suc k) ms (omega arith) h) pa)
          (BlocksInRange-wider n k (suc k) (new ∷ []) (omega arith)
            (edge_block-InRange n k some_vreg pos_ e.copies e.phi_bb edge.1 edge.0, tt)))

  process_edge-Closed :
      (e : EdgeCopies) (ms : List MachBlock)
      → EdgeInRange n (length ms) e
      → 0 < length ms
      → Closed ms
      → Closed (process_edge e ms)
  unfolding process_edge
  process_edge-Closed e ms edge pos_ h = elim (Option-cases (get_elem? ms e.pred_bb)) [
    | inl gone ↦ rw gone h
    | inr (b, at) ↦
        let k = length ms in
        let here = All-get_elem? (AllInRange k) ms e.pred_bb h at in
        rw at (
          patch_blocks-Closed e b ms (patch_insts e.copies e.phi_bb k b.insts (last? b.insts)) edge
            pos_
            (patch_insts-InRange n k some_vreg pos_ e.copies e.phi_bb b.insts (last? b.insts) edge.1
              here (last?-InRange n k some_vreg pos_ b.insts here))
            h)
  ]

  pub process_edges-Closed :
      (es : List EdgeCopies) (ms : List MachBlock)
      → All (EdgeInRange n (length ms)) es
      → 0 < length ms
      → Closed ms
      → Closed (process_edges es ms)
  unfolding process_edges
  process_edges-Closed [] ms edges pos_ h = h
  process_edges-Closed (e ∷ es) ms edges pos_ h =
      let le = length-process_edge e ms in
      process_edges-Closed es (process_edge e ms)
        (All-map _ (λ (e' : EdgeCopies) r. (omega (arith, r.0, le), r.1)) es edges.1)
        (omega (arith, le, pos_)) (process_edge-Closed e ms edges.0 pos_ h)
