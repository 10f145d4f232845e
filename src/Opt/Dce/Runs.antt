-- ===== src/Opt/Dce/Runs.antt =====
-- Dead code elimination does not change what a function does.
use mathlib.Core.Option
use vortech.Prelude.{
  ℕ, zero, suc, ◌≡◌, refl, inl, inr, Bool, Option, none, some, List, [], ◌∷◌, ◌==◌, get_elem?, All,
  Bool-cases, Option-cases, All-get_elem?, sym, ◌∙◌, ap,
}
use vortech.Ssa.{invalid_block, Inst, Block, Func}
use vortech.Ssa.Run.{
  Machine, Control, continue, jump_to, leave, Outcome, goto, returned, fell, Result, Env, write,
  control, perform, seen, exec, run, resume, follow,
}
use vortech.Opt.Dce.{
  mark_used, keep, sweep_insts, sweep_blocks, sweep, dce_loop, opt_dce, max_iterations,
}
use vortech.Opt.Dce.Marks.{Covers, CoversBlock, mark_used-CoversBlock}
use vortech.Opt.Dce.Agree.{
  Agree, seen-Agree, perform-Agree, control-Agree, write-Agree, drop-Agree, quiet-control,
  quiet-world, keep-quiet,
}

module _ (m : Machine) (used : List Bool) where
  open m use {Value, World}

  -- Two ends of a block that differ only in registers that nothing reads.
  data Same : Outcome Value World → Outcome Value World → Type 0 where
    same_goto :
        {b : ℕ} {e e' : Env m} {w : World} → Agree m used e e' → Same (goto b e w) (goto b e' w)
    same_returned : {r : Option Value} {w : World} → Same (returned r w) (returned r w)
    same_fell : {e e' : Env m} {w : World} → Agree m used e e' → Same (fell e w) (fell e' w)

  Same-resume :
      (c : Control Value) (w : World) (e e' : Env m) {n n' : Outcome Value World}
      → Agree m used e e'
      → Same n n'
      → Same (resume m c e w n) (resume m c e' w n')
  Same-resume continue w e e' a s = s
  Same-resume (jump_to b) w e e' a s = same_goto a
  Same-resume (leave r) w e e' a s = same_returned

  exec-Same :
      (prev : ℕ) (is : List Inst) (entry entry' e e' : Env m) (w : World)
      → Agree m used entry entry'
      → Agree m used e e'
      → All (Covers used) is
      → Same (exec m prev is entry e w) (exec m prev (sweep_insts used is).0 entry' e' w)
  unfolding exec sweep_insts
  exec-Same prev [] entry entry' e e' w b a h = same_fell a
  exec-Same prev (i ∷ is) entry entry' e e' w b a h = elim (Bool-cases (keep used i)) [
    | inl kept ↦
        let out = perform m i.op i.dst prev (seen m i.op entry e) w in
        let rest =
          exec-Same prev is entry entry' (write m i.dst out.0 e) (write m i.dst out.0 e') out.1 b
            (write-Agree m used i.dst out.0 e e' a) h.1 in
        rw
          (
            kept,
            ← control-Agree m used i.op e e' a h.0,
            ← perform-Agree m used i.op i.dst prev (seen m i.op entry e) (seen m i.op entry' e') w
                (seen-Agree m used i.op entry entry' e e' b a) h.0,
          )
          (Same-resume (control m i.op e) w e e' a rest)
    | inr dropped ↦
        let quiet = keep-quiet m used i dropped in
        let x = (perform m i.op i.dst prev (seen m i.op entry e) w).0 in
        rw
          (
            dropped,
            quiet-control m used i.op e quiet,
            quiet-world m used i.op i.dst prev (seen m i.op entry e) w quiet,
          )
          (exec-Same prev is entry entry' (write m i.dst x e) e' w b
            (drop-Agree m used i x e e' dropped a) h.1)
  ]

  swept : Block → Block
  swept b = record b { insts = (sweep_insts used b.insts).0 }

  get_elem?-sweep_none :
      (bs : List Block) (bi : ℕ)
      → get_elem? bs bi ≡ none
      → get_elem? (sweep_blocks used bs).0 bi ≡ none
  unfolding sweep_blocks
  get_elem?-sweep_none [] bi q = refl
  get_elem?-sweep_none (b ∷ bs) zero q = cc
  get_elem?-sweep_none (b ∷ bs) (suc bi) q = get_elem?-sweep_none bs bi q

  get_elem?-sweep_some :
      (bs : List Block) (bi : ℕ) {b : Block}
      → get_elem? bs bi ≡ some b
      → get_elem? (sweep_blocks used bs).0 bi ≡ some (swept b)
  unfolding sweep_blocks swept
  get_elem?-sweep_some [] bi q = cc
  get_elem?-sweep_some (b ∷ bs) zero q = ap (Option.map swept) q
  get_elem?-sweep_some (b ∷ bs) (suc bi) q = get_elem?-sweep_some bs bi q

  follow-Same :
      (next next' : ℕ → Env m → World → Result Value World) (bi : ℕ) {o o' : Outcome Value World}
      → ((t : ℕ) (e e' : Env m) (w : World) → Agree m used e e' → next t e w ≡ next' t e' w)
      → Same o o'
      → follow m next bi o ≡ follow m next' bi o'
  follow-Same next next' bi k (same_goto {b} {e} {e'} {w} a) = k b e e' w a
  follow-Same next next' bi k same_returned = refl
  follow-Same next next' bi k (same_fell {e} {e'} {w} a) = k (suc bi) e e' w a

  run-sweep :
      (fuel : ℕ) (bs : List Block) (bi prev : ℕ) (e e' : Env m) (w : World)
      → Agree m used e e'
      → All (CoversBlock used) bs
      → run m fuel bs bi prev e w ≡ run m fuel (sweep_blocks used bs).0 bi prev e' w
  unfolding run swept
  run-sweep zero bs bi prev e e' w a h = refl
  run-sweep (suc fuel) bs bi prev e e' w a h = elim (Option-cases (get_elem? bs bi)) [
    | inl q ↦ rw (q, get_elem?-sweep_none bs bi q)
    | inr (b, q) ↦
        rw (q, get_elem?-sweep_some bs bi q)
          (follow-Same _ _ bi (λ t x y w' s. run-sweep fuel bs t bi x y w' s h)
            (exec-Same prev b.insts e e' e e' w a a (All-get_elem? (CoversBlock used) bs bi h q)))
  ]

-- A run of a function, from its entry.
abbrev pub run_func : (m : Machine) → ℕ → Func → Env m → m.World → Result m.Value m.World
run_func m fuel f e w = run m fuel f.blocks f.entry invalid_block e w

run_func-sweep :
    (m : Machine) (fuel : ℕ) (f : Func) (e : Env m) (w : m.World)
    → run_func m fuel (sweep f).0 e w ≡ run_func m fuel f e w
unfolding sweep Agree
run_func-sweep m fuel f e w = sym (
    run-sweep m (mark_used f) fuel f.blocks f.entry invalid_block e e w (λ v u. refl)
      (mark_used-CoversBlock f))

run_func-dce_loop :
    (m : Machine) (n fuel : ℕ) (f : Func) (e : Env m) (w : m.World)
    → run_func m fuel (dce_loop n f) e w ≡ run_func m fuel f e w
unfolding dce_loop
run_func-dce_loop m zero fuel f e w = refl
run_func-dce_loop m (suc n) fuel f e w = elim (Bool-cases (sweep f).1) [
  | inl again ↦
      rw (again, dce_loop)
        (run_func-dce_loop m n fuel (sweep f).0 e w ∙ run_func-sweep m fuel f e w)
  | inr clean ↦ rw (clean, dce_loop) (run_func-sweep m fuel f e w)
]

-- Dead code elimination keeps what a function does: on every machine, from every register file
-- and world and for every number of blocks run, the optimised function ends like the original
-- one, with the same returned value and the same world.
pub run_func-opt_dce :
    (m : Machine) (fuel : ℕ) (f : Func) (e : Env m) (w : m.World)
    → run_func m fuel (opt_dce f) e w ≡ run_func m fuel f e w
unfolding opt_dce
run_func-opt_dce m fuel f e w = elim (Bool-cases (f.next_vreg == 0)) [
  | inl z ↦ rw z
  | inr n ↦ rw n (run_func-dce_loop m max_iterations fuel f e w)
]
