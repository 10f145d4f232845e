-- ===== src/Isel/Simulates.antt =====
-- The function that src/isel.c selects runs as the SSA function does.
use vortech.Prelude.{
  ℕ, zero, suc, ◌+◌, ◌≡◌, refl, sym, ap, ◌∙◌, subst, Option, none, some, List, [], ◌∷◌, ◌++◌,
  length, get_elem?, get_elem?-bound, All, All-left, Option-cases, inl, inr, arith,
}
use vortech.Mach.{Width, MachBlock}
use vortech.Ssa.{Op, const, binop, unop, cmp, gep, call, phi, branch, jump, ret, Inst, Block, Func}
use vortech.Ssa.Run.{
  Machine, Env, write, continue, control, perform, resume, seen, Outcome, fell, Result, done, lost,
  follow, run, exec,
}
use vortech.Isel.{isel_select}
use vortech.Isel.Lower.{select_blocks}
use vortech.Isel.Split.{process_edges}
use vortech.Isel.Vregs.{exec_insts, Runs}
use vortech.Isel.Functional.{Runs-functional}
use vortech.Isel.Straight.{IsStraight, IsPhi, IsProcessor, after, lower_insts-Reaches}
use vortech.Isel.Copies.{OneFrom, copied, after-world, copied-phis}
use vortech.Isel.Parts.{
  IsParted, Apart, phi_copies, Enters, Leaves, IsSelectable, Leaves-phi_args, front, selected_at,
  front-NotCond, inst_copies-phis, block_copies,
}
use vortech.Isel.Parallel.{exec-phis, phis_self}
use vortech.Isel.Ended.{edges, process_edges-Ended}
use vortech.Isel.Terminators.{start, Ended-Runs}

pub length-select_blocks :
    (width_at : ℕ → ℕ → Width) (bi : ℕ) (bs : List Block)
    → length (select_blocks width_at bi bs) ≡ length bs
unfolding select_blocks
length-select_blocks width_at bi [] = refl
length-select_blocks width_at bi (b ∷ bs) = ap suc (length-select_blocks width_at (suc bi) bs)

module _ (m : Machine) (call_name : List ℕ → List m.Value → m.World → m.Value × m.World) where
  straight-continue : (o : Op) (e : Env m) → IsStraight o → control m o e ≡ continue
  straight-continue (const c) e h = refl
  straight-continue (binop k l r) e h = refl
  straight-continue (unop k v) e h = refl
  straight-continue (cmp k l r) e h = refl
  straight-continue (gep p o) e h = refl
  straight-continue (call f args ext) e h = refl
  straight-continue o e h = elim h [ ]

  straight-seen : (o : Op) (entry e : Env m) → IsStraight o → seen m o entry e ≡ e
  straight-seen (phi args) entry e h = elim h [ ]
  straight-seen _ entry e h = refl

  exec-after :
      (prev : ℕ) (is rest : List Inst) (entry e : Env m) (w : m.World)
      → All (λ (i : Inst). IsStraight i.op) is
      → let out = after m call_name prev is e w in
        exec m prev (is ++ rest) entry e w ≡ exec m prev rest entry out.0 out.1
  unfolding exec
  exec-after prev [] rest entry e w h = refl
  exec-after prev (i ∷ is) rest entry e w h =
      let out = perform m i.op i.dst prev e w in
      rw (straight-continue i.op e h.0, straight-seen i.op entry e h.0)
        (exec-after prev is rest entry (write m i.dst out.0 e) out.1 h.1)

  resume-Leaves :
      (bs : List Block) (p : ℕ) (o : Op) (e : Env m) (w : m.World) (x y : Outcome m.Value m.World)
      → Leaves bs p o
      → resume m (control m o e) e w x ≡ resume m (control m o e) e w y
  resume-Leaves bs p (jump t) e w x y h = refl
  resume-Leaves bs p (branch c t f) e w x y h = refl
  resume-Leaves bs p (ret v) e w x y h = refl
  resume-Leaves bs p o e w x y h = elim h [ ]

  -- What an SSA block does, its phis first.
  exec-parted :
      (bs : List Block) (p prev : ℕ) (b : Block) (s : IsParted b) (e : Env m) (w : m.World)
      → Apart s.phis
      → Leaves bs p s.last.op
      → let out = after m call_name prev s.body (after m call_name prev s.phis e w).0 w in
        exec m prev b.insts e e w
        ≡ resume m (control m s.last.op out.0) out.0 out.1 (fell out.0 out.1)
  unfolding exec
  exec-parted bs p prev b s e w apart leaves =
      let e₁ = (after m call_name prev s.phis e w).0 in
      let out = after m call_name prev s.body e₁ w in
      ap (λ is. exec m prev is e e w) s.parts
      ∙ exec-phis m call_name prev s.phis (s.body ++ s.last ∷ []) e e w s.phi_law apart
          (phis_self m call_name e s.phis)
      ∙ ap (exec m prev (s.body ++ s.last ∷ []) e e₁)
          (after-world m call_name prev s.phis e w s.phi_law)
      ∙ exec-after prev s.body (s.last ∷ []) e e₁ w s.straight_law
      ∙ resume-Leaves bs p s.last.op out.0 out.1 _ _ leaves

  run-at :
      (fuel : ℕ) (bs : List Block) (p prev : ℕ) (b : Block) (e : Env m) (w : m.World)
      → get_elem? bs p ≡ some b
      → run m (suc fuel) bs p prev e w
        ≡ follow m (λ t e₁ w₁. run m fuel bs t p e₁ w₁) p (exec m prev b.insts e e w)
  unfolding run
  run-at fuel bs p prev b e w at = rw at refl

  not_done :
      (bs : List Block) (p prev : ℕ) (e : Env m) (w w' : m.World) (r : Option m.Value)
      → run m zero bs p prev e w ≡ done r w'
      → ⊥
  unfolding run
  not_done bs p prev e w w' r h = cc

  not_there :
      (fuel : ℕ) (bs : List Block) (p prev : ℕ) (e : Env m) (w w' : m.World) (r : Option m.Value)
      → get_elem? bs p ≡ none
      → run m (suc fuel) bs p prev e w ≡ done r w'
      → ⊥
  unfolding run
  not_there fuel bs p prev e w w' r at h = elim (lost-done (rw at at h)) [ ]
    where
      lost-done : lost w ≡ done r w' → ⊥
      lost-done q = cc

  no_phis : (b : Block) (s : IsParted b) → All (λ (i : Inst). IsPhi i.op → ⊥) b.insts → s.phis ≡ []
  no_phis b s h =
      empty s.phis s.phi_law
        (All-left _ s.phis _ (subst (All (λ (i : Inst). IsPhi i.op → ⊥)) s.parts h))
    where
      empty :
          (is : List Inst)
          → All (λ (i : Inst). IsPhi i.op) is
          → All (λ (i : Inst). IsPhi i.op → ⊥) is
          → is ≡ []
      empty [] k l = refl
      empty (i ∷ is) k l = absurd (l.0 k.0)

  phis-OneFrom :
      (p : ℕ) (b : Block) (s : IsParted b)
      → All (λ (i : Inst). OneFrom p i.op) b.insts
      → All (λ (i : Inst). OneFrom p i.op) s.phis
  phis-OneFrom p b s h =
      All-left (λ (i : Inst). OneFrom p i.op) s.phis _
        (subst (All (λ (i : Inst). OneFrom p i.op)) s.parts h)

  module _ (laws : IsProcessor m call_name) (width_at : ℕ → ℕ → Width) (f : Func)
      (sel : IsSelectable f) where
    abbrev blocks : List MachBlock
    blocks = process_edges (edges f.blocks) (select_blocks width_at 0 f.blocks)

    -- The phis of a block.
    abbrev phis_of : (p : ℕ) (b : Block) → get_elem? f.blocks p ≡ some b → List Inst
    phis_of p b at = (sel.parted p b at).0.phis

    abbrev Arrives : (fuel : ℕ) → Option m.Value → m.World → Type 0
    Arrives fuel r w' =
        (p t : ℕ) (e₁ : Env m) (w₁ : m.World)
        → Enters f.blocks p t
        → run m fuel f.blocks t p e₁ w₁ ≡ done r w'
        → Runs m call_name blocks t (copied m call_name (phi_copies f.blocks p t) e₁) w₁ r w'

    -- The run from the terminator of the block `p` on.
    abbrev behind : ℕ → ℕ → Op → Env m → m.World → Result m.Value m.World
    behind fuel p o e w =
        follow m (λ t x y. run m fuel f.blocks t p x y) p (resume m (control m o e) e w (fell e w))

    Runs-block :
        (fuel p prev : ℕ) (b : Block) (at : get_elem? f.blocks p ≡ some b) (e : Env m)
        (w w' : m.World) (r : Option m.Value)
        → Arrives fuel r w'
        → run m (suc fuel) f.blocks p prev e w ≡ done r w'
        → Runs m call_name blocks p (after m call_name prev (phis_of p b at) e w).0 w r w'
    unfolding exec_insts
    Runs-block fuel p prev b at e w w' r next h =
        let (s, apart, leaves) = sel.parted p b at in
        let width = width_at (0 + p) in
        let (last_width, at₀) = selected_at s width_at f.blocks p at in
        let lt = get_elem?-bound f.blocks p at in
        let e₁ = (after m call_name prev s.phis e w).0 in
        let out = after m call_name prev s.body e₁ w in
        let (s₁, front_run, env, world) =
          lower_insts-Reaches m call_name laws width (0 + length s.phis) prev s.body
            (start m call_name e₁ w) s.straight_law in
        Ended-Runs m call_name laws f.blocks blocks (front s width) e₁ w s₁ front_run fuel p r w'
          (next p) b.label s.last.op
          (process_edges-Ended f.blocks (select_blocks width_at 0 f.blocks) p b.label
            (front s width) s.last.op s.last.dst last_width
            (omega (arith, length-select_blocks width_at 0 f.blocks)) lt leaves
            (front-NotCond s width) at₀)
          leaves
          (ap (λ x. behind fuel p s.last.op x s₁.world) env
            ∙ ap (behind fuel p s.last.op out.0) world
            ∙ ap (follow m (λ t x y. run m fuel f.blocks t p x y) p)
                (sym (exec-parted f.blocks p prev b s e w apart leaves))
            ∙ sym (run-at fuel f.blocks p prev b e w at)
            ∙ h)

    -- A block that is entered from `p`, behind the copies of the edge.
    Runs-entered : (fuel : ℕ) (r : Option m.Value) (w' : m.World) → Arrives fuel r w'
    Runs-entered zero r w' p t e w enter h = absurd (not_done f.blocks t p e w w' r h)
    Runs-entered (suc fuel) r w' p t e w (b, at, one) h =
        let (s, apart, leaves) = sel.parted t b at in
        subst (λ x. Runs m call_name blocks t x w r w')
          (sym (copied-phis m call_name p s.phis e w s.phi_law (phis-OneFrom p b s one))
            ∙ ap (λ cs. copied m call_name cs e)
                (sym (inst_copies-phis s p (Leaves-phi_args f.blocks t s.last.op leaves))
                  ∙ ap (block_copies p) (sym at)))
          (Runs-block fuel t p b at e w w' r (Runs-entered fuel r w') h)

    -- For a machine with the processor's calls and conditions, a function whose blocks are phis,
    -- operations on registers and calls, and a terminator, whose phis have one entry from each
    -- predecessor and read no register that an earlier phi of their block writes, whose entry block has no phi, and whose branches have two targets, of which the
    -- first is the earlier block if both have copies: if the SSA function returns from the entry
    -- block within some fuel, the selected function, on virtual registers, returns the same value
    -- in the same world.
    pub isel_select-Runs :
        (name : List ℕ) (fuel prev : ℕ) (e : Env m) (w w' : m.World) (r : Option m.Value)
        → run m fuel f.blocks f.entry prev e w ≡ done r w'
        → Runs m call_name (isel_select name width_at f).blocks f.entry e w r w'
    unfolding isel_select
    isel_select-Runs name zero prev e w w' r h = absurd (not_done f.blocks f.entry prev e w w' r h)
    isel_select-Runs name (suc fuel) prev e w w' r h =
        elim (Option-cases (get_elem? f.blocks f.entry)) [
          | inl gone ↦ absurd (not_there fuel f.blocks f.entry prev e w w' r gone h)
          | inr (b, at) ↦
              let s = (sel.parted f.entry b at).0 in
              subst
                (λ (is : List Inst).
                  Runs m call_name blocks f.entry (after m call_name prev is e w).0 w r w')
                (no_phis b s (sel.entry_law b at))
                (Runs-block fuel f.entry prev b at e w w' r (Runs-entered fuel r w') h)
        ]

    -- The selected function returns nothing else, for a machine with the processor's calls and
    -- conditions and a function whose blocks are phis, operations on registers and calls, and a
    -- terminator, whose phis have one entry from each predecessor and read no register that an
    -- earlier phi of their block writes, whose entry block has no phi, and whose branches have two
    -- targets, of which the first is the earlier block if both have copies: if the SSA function
    -- returns from the entry block within some fuel, every run of the selected function from there
    -- that returns has its value and its world.
    pub isel_select-only :
        (name : List ℕ) (fuel prev : ℕ) (e : Env m) (w w' v : m.World) (r s : Option m.Value)
        → run m fuel f.blocks f.entry prev e w ≡ done r w'
        → Runs m call_name (isel_select name width_at f).blocks f.entry e w s v
        → (s ≡ r) × (v ≡ w')
    isel_select-only name fuel prev e w w' v r s h other =
        Runs-functional m call_name (isel_select name width_at f).blocks other
          (isel_select-Runs name fuel prev e w w' r h)
