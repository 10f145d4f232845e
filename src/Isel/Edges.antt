-- ===== src/Isel/Edges.antt =====
-- The copies of phi elimination in src/isel.c, collected by the edge that they belong to.
use vortech.Prelude.{ℕ, suc, Bool, ◌&&◌, List, [], ◌∷◌, ◌++◌, ◌==◌, leb, if◌then◌else◌}
use vortech.Ssa.{PhiArg, Op, phi, Inst, Block}

pub record PhiCopy : Type 0 where
  pub dst : ℕ
  pub src : ℕ

pub record EdgeCopies : Type 0 where
  pub pred_bb : ℕ
  pub phi_bb : ℕ
  pub copies : List PhiCopy

abbrev pub is_edge : ℕ → ℕ → EdgeCopies → Bool
is_edge p q e = e.pred_bb == p && e.phi_bb == q

-- Behind the copies of the edge, or of a new one.
abbrev pub add_copy : ℕ → ℕ → PhiCopy → List EdgeCopies → List EdgeCopies
add_copy p q c [] = record { pred_bb = p; phi_bb = q; copies = c ∷ [] } ∷ []
add_copy p q c (e ∷ es) =
    let rest = add_copy p q c es in
    if is_edge p q e then record e { copies = e.copies ++ c ∷ [] } ∷ es else e ∷ rest

-- One entry of a phi of the block `q`; one that copies the phi to itself, or comes from no block,
-- is passed over.
abbrev pub collect_arg : ℕ → ℕ → ℕ → PhiArg → List EdgeCopies → List EdgeCopies
collect_arg nblocks q d a es =
    if a.src == d
    then es
    else (if leb nblocks a.pred then es else add_copy a.pred q (record { dst = d; src = a.src }) es)

abbrev pub collect_args : ℕ → ℕ → ℕ → List PhiArg → List EdgeCopies → List EdgeCopies
collect_args nblocks q d [] es = es
collect_args nblocks q d (a ∷ as') es = collect_args nblocks q d as' (collect_arg nblocks q d a es)

abbrev pub phi_args : Op → List PhiArg
phi_args (phi args) = args
phi_args o = []

abbrev pub collect_insts : ℕ → ℕ → List Inst → List EdgeCopies → List EdgeCopies
collect_insts nblocks q [] es = es
collect_insts nblocks q (i ∷ is) es =
    collect_insts nblocks q is (collect_args nblocks q i.dst (phi_args i.op) es)

unfoldable pub collect_blocks : ℕ → ℕ → List Block → List EdgeCopies → List EdgeCopies
collect_blocks nblocks q [] es = es
collect_blocks nblocks q (b ∷ bs) es =
    collect_blocks nblocks (suc q) bs (collect_insts nblocks q b.insts es)
