-- ===== src/Tests/Selection.antt =====
-- Instruction selection at a concrete function, whose branch leads to a block with a phi.
use vortech.Prelude.{
  ℕ, zero, suc, ◌+◌, ◌≡◌, ◌≢◌, refl, subst, inl, true, not, Option, some, List, [], ◌∷◌, ◌==◌,
  if◌then◌else◌, length, get_elem?, some-inj, All, arith,
}
use vortech.Prelude.Int.{ℤ, pos, negsuc}
use vortech.Mach
use vortech.Mach.{Width, qword}
use vortech.Ssa
use vortech.Ssa.{BinOpKind, UnOpKind, CmpKind, binop, branch, jump, ret, phi, Inst, Block, Func}
use vortech.Ssa.Run.{Machine, run, exec, done}
use vortech.Regalloc.Scan.{regalloc_linear_scan}
use vortech.Regalloc.Apply.{regalloc_apply}
use vortech.Regalloc.Physical.{NamesGprs}
use vortech.Tests.Sorting.{insertion_sort, insertion_sort-SortsIntervals}
use vortech.Isel.{isel_select}
use vortech.Isel.Lower.{mach_inst, jump_inst, label_inst, select_blocks}
use vortech.Isel.Edges.{collect_blocks}
use vortech.Isel.Split.{process_edge, process_edges}
use vortech.Isel.Vregs.{Runs}
use vortech.Isel.Straight.{IsPhi, IsProcessor}
use vortech.Ssa.Verify.{ssa_verify_func}
use vortech.Isel.Parts.{Apart, phi_copies, IsParted, Leaves, IsSelectable}
use vortech.Isel.Ranges.{BlocksInRange}
use vortech.Isel.Verified.{GepsInRange, isel_select-InRange, isel_select-NamesGprs}
use vortech.Isel.Dropped.{isel_select-drops}
use vortech.Isel.Simulates.{isel_select-Runs, isel_select-only}
use vortech.Tests.Samples.{inst, effect}

-- Numbers from 0 on; only the operations of the function below are those of the processor.
abbrev counter : Machine
counter = record {
  Value = ℕ;
  World = List ℕ;
  undefined = 0;
  literal = number;
  binop_value = calculate;
  unop_value = λ k v. if v == 0 then 1 else 0;
  cmp_value = decide;
  truth = λ v. not (v == 0);
  load_value = λ p w. 0;
  store_to = λ p v w. w;
  offset = λ p o. p;
  call_function = λ f ext args w. (0, w);
  stack_address = λ d n w. d;
  arena_address = λ d a n w. d;
  reset = λ a w. w;
  print_value = λ v w. v ∷ w;
}
  where
    number : ℤ → ℕ
    number (pos n) = n
    number (negsuc n) = 0

    calculate : BinOpKind → ℕ → ℕ → ℕ
    calculate BinOpKind.and x y = if x == 0 then 0 else y
    calculate k x y = x + y

    decide : CmpKind → ℕ → ℕ → ℕ
    decide CmpKind.eq x y = if x == y then 1 else 0
    decide k x y = if x == y then 0 else 1

-- The calls of `counter`, by name.
abbrev silent : List ℕ → List ℕ → List ℕ → ℕ × List ℕ
silent name vs w = (0, w)

counter-IsProcessor : IsProcessor counter silent
counter-IsProcessor = record {
  call_law = λ f ext vs w. refl;
  not_law = λ x. ground arith;
  truth_law = λ x. ground arith;
}

-- v0 = 5; v1 = 3; branch v0, to block 1 or 2.
abbrev head : List Inst
head = inst 0 (Ssa.const (pos 5)) ∷ inst 1 (Ssa.const (pos 3)) ∷ effect (branch 0 1 2) ∷ []

-- v3 = phi(v1 from block 0, v2 from block 2); ret v3.
abbrev join : List Inst
join =
    inst 3 (phi (record { src = 1; pred = 0 } ∷ record { src = 2; pred = 2 } ∷ []))
    ∷ effect (ret 3)
    ∷ []

-- v2 = v0 + v1; jump to block 1.
abbrev side : List Inst
side = inst 2 (binop BinOpKind.add 0 1) ∷ effect (jump 1) ∷ []

abbrev code : ℕ → List Inst → Block
code l is = record { label = l; insts = is; preds = []; succs = [] }

abbrev choice : Func
choice = record {
  blocks = code 0 head ∷ code 1 join ∷ code 2 side ∷ [];
  entry = 0;
  next_vreg = 4;
  param_vregs = [];
}

abbrev wide : ℕ → ℕ → Width
wide bi ii = qword

abbrev copy : ℕ → ℕ → Mach.MachInst
copy d s = mach_inst Mach.mov d s 0 (pos 0) qword

-- The copy of the branch's first edge is in a block of its own, block 3.
choice_selected :
    (isel_select [] wide choice).blocks
    ≡ record {
      label = 0;
      insts =
          label_inst
          ∷ mach_inst Mach.mov_imm 0 0 0 (pos 5) qword
          ∷ mach_inst Mach.mov_imm 1 0 0 (pos 3) qword
          ∷ mach_inst Mach.test 0 0 0 (pos 0) qword
          ∷ jump_inst Mach.jne 3
          ∷ jump_inst Mach.jmp 2
          ∷ [];
    }
      ∷ record { label = 1; insts = label_inst ∷ mach_inst Mach.ret 0 3 0 (pos 0) qword ∷ [] }
      ∷ record {
        label = 2;
        insts =
            label_inst
            ∷ mach_inst Mach.add 2 0 1 (pos 0) qword
            ∷ copy 3 2
            ∷ jump_inst Mach.jmp 1
            ∷ [];
      }
      ∷ record { label = 3; insts = copy 3 1 ∷ jump_inst Mach.jmp 1 ∷ [] }
      ∷ []
unfolding isel_select select_blocks collect_blocks process_edges process_edge
choice_selected = refl

abbrev Selects : ℕ → Block → Type 0
Selects p b = (parts : IsParted b) × Apart parts.phis × Leaves choice.blocks p parts.last.op

head-Selects : Selects 0 (code 0 head)
head-Selects = (
  record {
    phis = [];
    body = inst 0 (Ssa.const (pos 5)) ∷ inst 1 (Ssa.const (pos 3)) ∷ [];
    last = effect (branch 0 1 2);
    parts = refl;
    phi_law = tt;
    straight_law = (tt, (tt, tt));
  },
  tt,
  (
    (code 1 join, refl, (refl, (tt, tt))),
    (code 2 side, refl, (tt, (tt, tt))),
    (λ e. omega (arith, e)),
    inl (omega arith),
  ),
)

join-Selects : Selects 1 (code 1 join)
join-Selects = (
  record {
    phis = inst 3 (phi (record { src = 1; pred = 0 } ∷ record { src = 2; pred = 2 } ∷ [])) ∷ [];
    body = [];
    last = effect (ret 3);
    parts = refl;
    phi_law = (tt, tt);
    straight_law = tt;
  },
  (tt, tt),
  tt,
)

side-Selects : Selects 2 (code 2 side)
side-Selects = (
  record {
    phis = [];
    body = inst 2 (binop BinOpKind.add 0 1) ∷ [];
    last = effect (jump 1);
    parts = refl;
    phi_law = tt;
    straight_law = (tt, tt);
  },
  tt,
  (code 1 join, refl, (refl, (tt, tt))),
)

choice-Selects : (p : ℕ) (b : Block) → get_elem? choice.blocks p ≡ some b → Selects p b
choice-Selects zero b at = subst (Selects 0) (some-inj at) head-Selects
choice-Selects (suc zero) b at = subst (Selects 1) (some-inj at) join-Selects
choice-Selects (suc (suc zero)) b at = subst (Selects 2) (some-inj at) side-Selects
choice-Selects (suc (suc (suc p))) b at = cc

NoPhis : Block → Type 0
NoPhis b = All (λ (i : Inst). IsPhi i.op → ⊥) b.insts

choice-IsSelectable : IsSelectable choice
unfolding NoPhis
choice-IsSelectable = record {
  parted = choice-Selects;
  entry_law = λ b at. subst NoPhis (some-inj at) ((λ h. h), ((λ h. h), ((λ h. h), tt)));
}

choice_runs : run counter 2 choice.blocks 0 0 (λ v. 0) [] ≡ done (some 3) []
unfolding run exec
choice_runs = refl

isel_select-Runs_example :
    Runs counter silent (isel_select [] wide choice).blocks 0 (λ v. 0) [] (some 3) []
isel_select-Runs_example =
    isel_select-Runs counter silent counter-IsProcessor wide choice choice-IsSelectable [] 2 0
      (λ v. 0) [] [] (some 3) choice_runs

isel_select-only_example : (◌≡◌ {A = Option ℕ} (some 3) (some 3)) × (◌≡◌ {A = List ℕ} [] [])
isel_select-only_example =
    isel_select-only counter silent counter-IsProcessor wide choice choice-IsSelectable [] 2 0
      (λ v. 0) [] [] [] (some 3) (some 3) choice_runs isel_select-Runs_example

choice_verified : ssa_verify_func choice ≡ true
unfolding ssa_verify_func
choice_verified = refl

choice-GepsInRange : GepsInRange choice
choice-GepsInRange = ((tt, (tt, (tt, tt))), ((tt, (tt, tt)), ((tt, (tt, tt)), tt)))

isel_select-InRange_example :
    BlocksInRange 4 (length (isel_select [] wide choice).blocks) (isel_select [] wide choice).blocks
unfolding isel_select
isel_select-InRange_example =
    isel_select-InRange [] wide choice choice_verified (omega arith) choice-GepsInRange

-- v0 = 5; branch v0, to block 2 or 1: the copies of block 2 are missing.
abbrev back_head : List Inst
back_head = inst 0 (Ssa.const (pos 5)) ∷ effect (branch 0 2 1) ∷ []

-- A phi of v0, and a return of it.
abbrev landing : ℕ → List Inst
landing d = inst d (phi (record { src = 0; pred = 0 } ∷ [])) ∷ effect (ret d) ∷ []

abbrev back : Func
back = record {
  blocks = code 0 back_head ∷ code 1 (landing 1) ∷ code 2 (landing 2) ∷ [];
  entry = 0;
  next_vreg = 3;
  param_vregs = [];
}

abbrev back-IsParted : IsParted (code 0 back_head)
back-IsParted = record {
  phis = [];
  body = inst 0 (Ssa.const (pos 5)) ∷ [];
  last = effect (branch 0 2 1);
  parts = refl;
  phi_law = tt;
  straight_law = (tt, tt);
}

has_copies : phi_copies back.blocks 0 1 ≢ []
has_copies e = cc

isel_select-drops_example :
    get_elem? (isel_select [] wide back).blocks 0
    ≡ some (record {
      label = 0;
      insts =
          label_inst
          ∷ mach_inst Mach.mov_imm 0 0 0 (pos 5) qword
          ∷ mach_inst Mach.test 0 0 0 (pos 0) qword
          ∷ jump_inst Mach.jne 2
          ∷ copy 1 0
          ∷ jump_inst Mach.jmp 1
          ∷ [];
    })
isel_select-drops_example =
    isel_select-drops [] wide back 0 (code 0 back_head) back-IsParted 0 2 1 refl refl (omega arith)
      (code 1 (landing 1), refl, (refl, (tt, tt))) has_copies

isel_select-NamesGprs_example :
    (let mf = isel_select [] wide choice in
      All
        (λ (b : Mach.MachBlock). All NamesGprs b.insts)
        (regalloc_apply mf (regalloc_linear_scan insertion_sort mf)).blocks)
isel_select-NamesGprs_example =
    isel_select-NamesGprs insertion_sort [] wide choice insertion_sort-SortsIntervals
      choice_verified (omega arith) choice-GepsInRange
