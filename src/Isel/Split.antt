-- ===== src/Isel/Split.antt =====
-- The second pass of `isel_select` in src/isel.c: the copies of each edge are put before the jump
-- to the phi's block, or into a new block on the edge.
use vortech.Prelude.{
  ℕ, Bool, true, false, ◌&&◌, Option, none, some, List, [], ◌∷◌, ◌++◌, map, ◌==◌, if◌then◌else◌,
  length, get_elem?, set,
}
use vortech.Prelude.Int.{pos}
use vortech.Mach
use vortech.Mach.{MachOpcode, qword, MachInst, MachBlock}
use vortech.Isel.Lower.{mach_inst, jump_inst}
use vortech.Isel.Edges.{PhiCopy, EdgeCopies}

abbrev pub last? : List MachInst → Option MachInst
last? [] = none
last? (x ∷ []) = some x
last? (x ∷ y ∷ xs) = last? (y ∷ xs)

-- The list without its last element.
abbrev pub init : List MachInst → List MachInst
init [] = []
init (x ∷ []) = []
init (x ∷ y ∷ xs) = x ∷ init (y ∷ xs)

abbrev pub is_jmp : MachOpcode → Bool
is_jmp Mach.jmp = true
is_jmp o = false

-- `MINST_JNE` or `MINST_JE`
abbrev pub is_cond : MachOpcode → Bool
is_cond Mach.jne = true
is_cond Mach.je = true
is_cond o = false

abbrev pub copy_inst : PhiCopy → MachInst
copy_inst c = mach_inst Mach.mov c.dst c.src 0 (pos 0) qword

abbrev pub copy_insts : List PhiCopy → List MachInst
copy_insts cs = map copy_inst cs

-- A conditional jump to the block `q`.
abbrev pub cond_to : ℕ → Option MachInst → Bool
cond_to q none = false
cond_to q (some i) = is_cond i.op && i.target_bb == q

abbrev pub retarget : ℕ → MachInst → MachInst
retarget t i = record i { target_bb = t }

-- What becomes of a block's instructions: they stay, they are replaced, or they are replaced and the
-- copies go to a new block.
pub data Patch : Type 0 where
  keep : Patch
  replace split : List MachInst → Patch

-- `last` is the last instruction, behind `front`, and `prev` the last one of these.
abbrev pub patch_last :
    List PhiCopy → (q edge_bb : ℕ) → List MachInst → MachInst → Option MachInst → Patch
patch_last cs q edge_bb front last none =
    if is_jmp last.op
    then (if last.target_bb == q then replace (front ++ (copy_insts cs ++ last ∷ [])) else keep)
    else (if cond_to q (some last) then split (front ++ retarget edge_bb last ∷ []) else keep)
patch_last cs q edge_bb front last (some prev) =
    if is_jmp last.op
    then (if cond_to q (some prev)
        then split (init front ++ retarget edge_bb prev ∷ last ∷ [])
        else (if last.target_bb == q
            then replace (front ++ (copy_insts cs ++ last ∷ []))
            else keep))
    else (if cond_to q (some last) then split (front ++ retarget edge_bb last ∷ []) else keep)

abbrev pub patch_insts : List PhiCopy → (q edge_bb : ℕ) → List MachInst → Option MachInst → Patch
patch_insts cs q edge_bb insts none = replace (copy_insts cs)
patch_insts cs q edge_bb insts (some last) =
    patch_last cs q edge_bb (init insts) last (last? (init insts))

abbrev pub edge_block : ℕ → List PhiCopy → ℕ → MachBlock
edge_block edge_bb cs q = record {
  label = edge_bb;
  insts = copy_insts cs ++ jump_inst Mach.jmp q ∷ [];
}

abbrev pub patch_blocks : EdgeCopies → MachBlock → List MachBlock → Patch → List MachBlock
patch_blocks e b blocks keep = blocks
patch_blocks e b blocks (replace is) = set blocks e.pred_bb (record b { insts = is })
patch_blocks e b blocks (split is) =
    set blocks e.pred_bb (record b { insts = is })
    ++ edge_block (length blocks) e.copies e.phi_bb ∷ []

abbrev pub process_block : EdgeCopies → List MachBlock → Option MachBlock → List MachBlock
process_block e blocks none = blocks
process_block e blocks (some b) =
    patch_blocks e b blocks (patch_insts e.copies e.phi_bb (length blocks) b.insts (last? b.insts))

-- An edge has a copy; the source passes over one that has none.
unfoldable pub process_edge : EdgeCopies → List MachBlock → List MachBlock
process_edge e blocks = process_block e blocks (get_elem? blocks e.pred_bb)

unfoldable pub process_edges : List EdgeCopies → List MachBlock → List MachBlock
unfolding process_edge
process_edges [] blocks = blocks
process_edges (e ∷ es) blocks = process_edges es (process_edge e blocks)
