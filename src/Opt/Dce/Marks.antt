-- ===== src/Opt/Dce/Marks.antt =====
-- What `mark_used` of src/opt_dce.c marks.
use vortech.Prelude.{ℕ, zero, suc, ◌≡◌, refl, Bool, true, List, [], ◌∷◌, set, get_or, All}
use vortech.Ssa.{Inst, Block, Func, operands}
use vortech.Opt.Dce.{mark, mark_insts, mark_blocks, mark_used}

-- A register that the sweep takes for used.
abbrev pub IsUsed : List Bool → ℕ → Type 0
IsUsed used v = get_or used v true ≡ true

-- Every register that the instruction reads is taken for used.
abbrev pub Covers : List Bool → Inst → Type 0
Covers used i = All (IsUsed used) (operands i.op)

IsUsed-set_self : (used : List Bool) (v : ℕ) → IsUsed (set used v true) v
IsUsed-set_self [] v = refl
IsUsed-set_self (u ∷ us) zero = refl
IsUsed-set_self (u ∷ us) (suc v) = IsUsed-set_self us v

IsUsed-set : (used : List Bool) (v w : ℕ) → IsUsed used w → IsUsed (set used v true) w
IsUsed-set [] v w h = h
IsUsed-set (u ∷ us) zero zero h = refl
IsUsed-set (u ∷ us) zero (suc w) h = h
IsUsed-set (u ∷ us) (suc v) zero h = h
IsUsed-set (u ∷ us) (suc v) (suc w) h = IsUsed-set us v w h

IsUsed-mark : (vs : List ℕ) (used : List Bool) (w : ℕ) → IsUsed used w → IsUsed (mark vs used) w
unfolding mark
IsUsed-mark [] used w h = h
IsUsed-mark (v ∷ vs) used w h = IsUsed-mark vs (set used v true) w (IsUsed-set used v w h)

mark-IsUsed : (vs : List ℕ) (used : List Bool) → All (IsUsed (mark vs used)) vs
unfolding mark
mark-IsUsed [] used = tt
mark-IsUsed (v ∷ vs) used =
    (IsUsed-mark vs (set used v true) v (IsUsed-set_self used v), mark-IsUsed vs (set used v true))

-- Marking only adds to what is used.
abbrev Grows : (List Bool → List Bool) → Type 0
Grows f = (used : List Bool) (w : ℕ) → IsUsed used w → IsUsed (f used) w

mark_insts-Grows : (is : List Inst) → Grows (mark_insts is)
unfolding mark_insts
mark_insts-Grows [] used w h = h
mark_insts-Grows (i ∷ is) used w h =
    mark_insts-Grows is (mark (operands i.op) used) w (IsUsed-mark (operands i.op) used w h)

mark_blocks-Grows : (bs : List Block) → Grows (mark_blocks bs)
unfolding mark_blocks
mark_blocks-Grows [] used w h = h
mark_blocks-Grows (b ∷ bs) used w h =
    mark_blocks-Grows bs (mark_insts b.insts used) w (mark_insts-Grows b.insts used w h)

All-IsUsed :
    (f : List Bool → List Bool)
    → Grows f
    → (used : List Bool) (vs : List ℕ) → All (IsUsed used) vs
    → All (IsUsed (f used)) vs
All-IsUsed f g used [] h = tt
All-IsUsed f g used (v ∷ vs) h = (g used v h.0, All-IsUsed f g used vs h.1)

All-Covers :
    (f : List Bool → List Bool)
    → Grows f
    → (used : List Bool) (is : List Inst) → All (Covers used) is
    → All (Covers (f used)) is
All-Covers f g used [] h = tt
All-Covers f g used (i ∷ is) h =
    (All-IsUsed f g used (operands i.op) h.0, All-Covers f g used is h.1)

mark_insts-Covers : (is : List Inst) (used : List Bool) → All (Covers (mark_insts is used)) is
unfolding mark_insts
mark_insts-Covers [] used = tt
mark_insts-Covers (i ∷ is) used = (
  All-IsUsed (mark_insts is) (mark_insts-Grows is) (mark (operands i.op) used) (operands i.op)
      (mark-IsUsed (operands i.op) used),
  mark_insts-Covers is (mark (operands i.op) used),
)

abbrev pub CoversBlock : List Bool → Block → Type 0
CoversBlock used b = All (Covers used) b.insts

mark_blocks-CoversBlock :
    (bs : List Block) (used : List Bool) → All (CoversBlock (mark_blocks bs used)) bs
unfolding mark_blocks
mark_blocks-CoversBlock [] used = tt
mark_blocks-CoversBlock (b ∷ bs) used = (
  All-Covers (mark_blocks bs) (mark_blocks-Grows bs) (mark_insts b.insts used) b.insts
      (mark_insts-Covers b.insts used),
  mark_blocks-CoversBlock bs (mark_insts b.insts used),
)

All-CoversBlock :
    (f : List Bool → List Bool)
    → Grows f
    → (used : List Bool) (bs : List Block) → All (CoversBlock used) bs
    → All (CoversBlock (f used)) bs
All-CoversBlock f g used [] h = tt
All-CoversBlock f g used (b ∷ bs) h =
    (All-Covers f g used b.insts h.0, All-CoversBlock f g used bs h.1)

-- `mark_used` covers every operand of every instruction of the function.
pub mark_used-CoversBlock : (f : Func) → All (CoversBlock (mark_used f)) f.blocks
unfolding mark_used
mark_used-CoversBlock f =
    All-CoversBlock (mark f.param_vregs) (λ used w h. IsUsed-mark f.param_vregs used w h) _ f.blocks
      (mark_blocks-CoversBlock f.blocks _)
