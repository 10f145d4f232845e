-- ===== src/Isel/Ended.antt =====
-- How every block of the function that src/isel.c selects ends.
use vortech.Prelude.{
  ℕ, ◌+◌, ◌≤◌, ◌<◌, ◌≡◌, sym, ap, ◌∙◌, subst, inl, inr, some, List, [], ◌∷◌, ◌++◌, length,
  get_elem?, All, arith,
}
use vortech.Prelude.Int.{pos}
use mathlib.Core.List.{append_assoc}
use vortech.Mach
use vortech.Mach.{Width, qword, MachInst, MachBlock}
use vortech.Ssa.{Op, branch, jump, ret, Block}
use vortech.Isel.Lower.{mach_inst, jump_inst, lower}
use vortech.Isel.Edges.{EdgeCopies, collect_blocks}
use vortech.Isel.Split.{last?, copy_insts, process_edges}
use vortech.Isel.Collected.{inst_copies, copies_of, copies_of-collect_blocks}
use vortech.Isel.Ordered.{
  IsOrdered, Inside, NoEdge-of_copies, collect_blocks-IsOrdered, collect_blocks-Inside,
}
use vortech.Isel.Patched.{NotCond}
use vortech.Isel.Shapes.{block, process_edges-jump, process_edges-ret}
use vortech.Isel.Branches.{jumps, Linked, Branched, Branched-second, process_edges-Branched}
use vortech.Isel.Parts.{block_copies, phi_copies, Enters, Leaves}

abbrev pub test_inst : ℕ → MachInst
test_inst c = mach_inst Mach.test 0 c c (pos 0) qword

abbrev pub ret_inst : ℕ → MachInst
ret_inst v = mach_inst Mach.ret 0 v 0 (pos 0) qword

-- The block `p` of `ms` has the label `l` and, behind `g`, the code of the terminator with the
-- copies of its edges.
abbrev pub Ended : List Block → List MachBlock → (p l : ℕ) → List MachInst → Op → Type 0
Ended bs ms p l g (jump t) =
    get_elem? ms p
    ≡ some (block l (g ++ (copy_insts (phi_copies bs p t) ++ jump_inst Mach.jmp t ∷ [])))
Ended bs ms p l g (branch c t f) =
    (t' : ℕ) × (get_elem? ms p
      ≡ some (block l (jumps (g ++ test_inst c ∷ []) t' f (phi_copies bs p f))))
    × Linked ms t (phi_copies bs p t) t'
Ended bs ms p l g (ret v) = get_elem? ms p ≡ some (block l (g ++ ret_inst v ∷ []))
Ended bs ms p l g o = ⊥

module _ (bs : List Block) where
  abbrev pub edges : List EdgeCopies
  edges = collect_blocks (length bs) 0 bs []

  pub copies_of-edges :
      (p q : ℕ) → p < length bs → Enters bs p q → copies_of edges p q ≡ phi_copies bs p q
  copies_of-edges p q lt (b, at, one) =
      let here : 0 + q ≡ q = omega arith in
      subst (λ j. copies_of edges p j ≡ inst_copies p b.insts) here
        (copies_of-collect_blocks (length bs) 0 q bs [] p lt at)
      ∙ ap (block_copies p) (sym at)

  pub edges-IsOrdered : IsOrdered edges
  edges-IsOrdered = collect_blocks-IsOrdered (length bs) 0 bs [] (tt, tt)

  pub edges-Inside : All (Inside (length bs)) edges
  edges-Inside = collect_blocks-Inside (length bs) 0 bs [] (omega arith) tt

  module _ (ms : List MachBlock) (p l : ℕ) (g : List MachInst) where
    Ended-branch :
        (c t f : ℕ)
        → length bs ≤ length ms
        → p < length bs
        → Leaves bs p (branch c t f)
        → get_elem? ms p ≡ some (block l (jumps (g ++ test_inst c ∷ []) t f []))
        → Ended bs (process_edges edges ms) p l g (branch c t f)
    Ended-branch c t f le lt (enter_t, enter_f, ne, fits) at =
        let (t', at', linked) = branched in
        (
          t',
          subst
              (λ cs.
                get_elem? (process_edges edges ms) p
                ≡ some (block l (jumps (g ++ test_inst c ∷ []) t' f cs)))
              (copies_of-edges p f lt enter_f) at',
          subst (λ cs. Linked (process_edges edges ms) t cs t') (copies_of-edges p t lt enter_t)
              linked,
        )
      where
        branched : Branched (process_edges edges ms) p t f l (g ++ test_inst c ∷ []) edges
        branched = elim fits [
          | inl earlier ↦
              process_edges-Branched (length bs) edges ms p t f l (g ++ test_inst c ∷ []) le ne
                (inl earlier) edges-Inside edges-IsOrdered at
          | inr (inl none_t) ↦
              Branched-second edges ms p t f l (g ++ test_inst c ∷ [])
                (NoEdge-of_copies p t edges edges-IsOrdered
                  (copies_of-edges p t lt enter_t ∙ none_t))
                edges-IsOrdered at
          | inr (inr none_f) ↦
              process_edges-Branched (length bs) edges ms p t f l (g ++ test_inst c ∷ []) le ne
                (inr (
                  NoEdge-of_copies p f edges edges-IsOrdered
                    (copies_of-edges p f lt enter_f ∙ none_f)))
                edges-Inside edges-IsOrdered at
        ]

    -- Any terminator.
    pub process_edges-Ended :
        (o : Op) (d : ℕ) (w : Width)
        → length bs ≤ length ms
        → p < length bs
        → Leaves bs p o
        → NotCond (last? g)
        → get_elem? ms p ≡ some (block l (g ++ lower o d w))
        → Ended bs (process_edges edges ms) p l g o
    process_edges-Ended (jump t) d w le lt enter plain at =
        process_edges-jump edges ms p t l g plain edges-IsOrdered at
        ∙ ap (λ cs. some (block l (g ++ (copy_insts cs ++ jump_inst Mach.jmp t ∷ []))))
            (copies_of-edges p t lt enter)
    process_edges-Ended (branch c t f) d w le lt leaves plain at =
        Ended-branch c t f le lt leaves
          (at ∙ ap (λ is. some (block l is)) (sym (append_assoc g (test_inst c ∷ []) _)))
    process_edges-Ended (ret v) d w le lt leaves plain at = process_edges-ret edges ms p l v g at
    process_edges-Ended o d w le lt leaves plain at = elim leaves [ ]
