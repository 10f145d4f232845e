-- ===== src/Isel/Terminators.antt =====
-- A terminator of an SSA block and the code that src/isel.c leaves for it go the same way.
use vortech.Prelude.{
  ℕ, ◌≡◌, sym, ap, ◌∙◌, subst, inl, inr, Bool-cases, Option, none, some, List, [], ◌∷◌, ◌++◌,
  if◌then◌else◌, get_elem?,
}
use vortech.Prelude.Int.{pos}
use mathlib.Core.List.{append_assoc}
use vortech.Mach
use vortech.Mach.{MachInst, MachBlock}
use vortech.Ssa.{BinOpKind, Op, branch, jump, ret, Block}
use vortech.Ssa.Run
use vortech.Ssa.Run.{
  Machine, Env, Control, resume, control, Outcome, goto, returned, fell, Result, done, lost,
  out_of_fuel, run, exec,
}
use vortech.Isel.Lower.{jump_inst}
use vortech.Isel.Edges.{PhiCopy}
use vortech.Isel.Split.{copy_insts}
use vortech.Isel.Vregs.{Vregs, exec_insts, exec_block, Runs, stops, jumps}
use vortech.Isel.Straight.{IsProcessor}
use vortech.Isel.Branches
use vortech.Isel.Branches.{Linked}
use vortech.Isel.Copies.{copied, exec_insts-copies}
use vortech.Isel.Parts.{phi_copies, Enters, Leaves}
use vortech.Isel.Ended.{test_inst, ret_inst, Ended}

module _ (m : Machine) (call_name : List ℕ → List m.Value → m.World → m.Value × m.World) where
  abbrev pub start : Env m → m.World → Vregs m call_name
  start e w = record { env = e; left = m.undefined; right = m.undefined; world = w }

  -- Copies and a jump behind them.
  exec_insts-goto :
      (cs : List PhiCopy) (t : ℕ) (s : Vregs m call_name)
      → exec_insts m call_name (copy_insts cs ++ jump_inst Mach.jmp t ∷ []) s
        ≡ goto t (copied m call_name cs s.env) s.world
  unfolding exec_insts
  exec_insts-goto cs t s = exec_insts-copies m call_name cs (jump_inst Mach.jmp t ∷ []) s

  module _ (laws : IsProcessor m call_name) (bs : List Block) (ms : List MachBlock) where
    -- A jump that is linked to the block `t` makes the copies on its way.
    Runs-linked :
        (t t' : ℕ) (cs : List PhiCopy) {e e₁ : Env m} {w w₁ w' : m.World} {r : Option m.Value}
        (p : ℕ) {b : MachBlock}
        → Linked ms t cs t'
        → get_elem? ms p ≡ some b
        → exec_block m call_name b e w ≡ goto t' e₁ w₁
        → Runs m call_name ms t (copied m call_name cs e₁) w₁ r w'
        → Runs m call_name ms p e w r w'
    unfolding exec_insts
    Runs-linked t t' cs {e₁} {w₁} {w'} {r} p (inl (same, none_)) at goes rest = jumps at goes (
        subst (λ x. Runs m call_name ms x e₁ w₁ r w') (sym same)
          (subst (λ ds. Runs m call_name ms t (copied m call_name ds e₁) w₁ r w') none_ rest))
    Runs-linked t t' cs {e₁} {w₁} p (inr edge) at goes rest =
        jumps at goes (jumps edge (exec_insts-goto cs t (start e₁ w₁)) rest)

    module _ (g : List MachInst) (e : Env m) (w : m.World) (s : Vregs m call_name)
        (front : (rest : List MachInst)
          → exec_insts m call_name (g ++ rest) (start e w) ≡ exec_insts m call_name rest s) where
      -- Up to the conditional jump.
      exec_insts-tested :
          (c : ℕ) (rest : List MachInst)
          → exec_insts m call_name (g ++ test_inst c ∷ [] ++ rest) (start e w)
            ≡ exec_insts m call_name rest (record s {
              left = m.binop_value BinOpKind.and (s.env c) (s.env c);
              right = m.literal (pos 0);
            })
      unfolding exec_insts
      exec_insts-tested c rest =
          ap (λ is. exec_insts m call_name is (start e w)) (append_assoc g (test_inst c ∷ []) rest)
          ∙ front (test_inst c ∷ rest)

      exec_insts-branch :
          (c t' f : ℕ) (cs : List PhiCopy)
          → exec_insts m call_name (Branches.jumps (g ++ test_inst c ∷ []) t' f cs) (start e w) ≡ (
              if m.truth (s.env c)
              then goto t' s.env s.world
              else goto f (copied m call_name cs s.env) s.world)
      unfolding exec_insts
      exec_insts-branch c t' f cs =
          let tested : Vregs m call_name = record s {
            left = m.binop_value BinOpKind.and (s.env c) (s.env c);
            right = m.literal (pos 0);
          } in
          exec_insts-tested c _
          ∙ ap
              (λ b.
                if b
                then goto t' s.env s.world
                else exec_insts m call_name (copy_insts cs ++ jump_inst Mach.jmp f ∷ []) tested)
              (laws.truth_law (s.env c))
          ∙ ap (λ o. if m.truth (s.env c) then goto t' s.env s.world else o)
              (exec_insts-goto cs f tested)

      module _ (fuel p : ℕ) (r : Option m.Value) (w' : m.World)
          (next : (t : ℕ) (e₁ : Env m) (w₁ : m.World)
            → Enters bs p t
            → run m fuel bs t p e₁ w₁ ≡ done r w'
            → Runs m call_name ms t (copied m call_name (phi_copies bs p t) e₁) w₁ r w') where
        -- Control goes on as it does behind the SSA terminator.
        pub Ended-Runs :
            (l : ℕ) (o : Op)
            → Ended bs ms p l g o
            → Leaves bs p o
            → Run.follow m
                (λ t e₁ w₁. run m fuel bs t p e₁ w₁)
                p
                (resume m (control m o s.env) s.env s.world (fell s.env s.world))
              ≡ done r w'
            → Runs m call_name ms p e w r w'
        unfolding exec_insts
        Ended-Runs l (jump t) ended leaves h =
            jumps ended (front _ ∙ exec_insts-goto (phi_copies bs p t) t s)
              (next t s.env s.world leaves h)
        Ended-Runs l (branch c t f) (t', at, linked) (enter_t, enter_f, ne, fits) h =
            let goes = exec_insts-branch c t' f (phi_copies bs p f) in
            elim (Bool-cases (m.truth (s.env c))) [
              | inl yes_ ↦
                  Runs-linked t t' (phi_copies bs p t) p linked at (rw yes_ at goes)
                    (next t s.env s.world enter_t (rw yes_ at h))
              | inr no_ ↦ jumps at (rw no_ at goes) (next f s.env s.world enter_f (rw no_ at h))
            ]
        Ended-Runs l (ret v) ended leaves h =
            stops ended (front (ret_inst v ∷ []) ∙ ap as_outcome h)
          where
            as_outcome : Result m.Value m.World → Outcome m.Value m.World
            as_outcome (done x y) = returned x y
            as_outcome (lost y) = returned none y
            as_outcome (out_of_fuel y) = returned none y
        Ended-Runs l o ended leaves h = elim leaves [ ]
