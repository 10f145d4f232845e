-- ===== src/Tests/Passes.antt =====
-- The verifier and the passes on SSA form at concrete functions.
use vortech.Prelude.{
  ℕ, zero, suc, ◌≡◌, refl, ◌↔◌, inl, true, false, [], ◌∷◌, arith, some, none, ◌≢◌,
}
use vortech.Prelude.Int.{ℤ, pos}
use vortech.Ssa
use vortech.Ssa.{BinOpKind, binop, Func}
use vortech.Ssa.Verify.{ssa_verify_func}
use vortech.Ssa.Verify.WellFormed.{IsWellFormed, verify_func-IsWellFormed}
use vortech.Ssa.Int64.{fold_binop}
use vortech.Ssa.Run.{run, exec, done}
use vortech.Opt.Dce.{opt_dce}
use vortech.Opt.Dce.Runs.{run_func, run_func-opt_dce}
use vortech.Opt.ConstFold.{opt_const_fold, fold_op, is_const_val}
use vortech.Ssa.Arith.{fold_binop-law}
use vortech.Opt.ConstFold.Values.{AllInsts, HoldsOp}
use vortech.Opt.ConstFold.Rules.{Sound}
use vortech.Opt.ConstFold.Loops.{opt_const_fold-Sound, fold_zero-wrong}
use vortech.Opt.CopyProp.{opt_copy_prop, source, copies, build_copy_map}
use vortech.Opt.CopyProp.Values.{behaviours, behaviours-opt_copy_prop}
use vortech.Opt.CopyProp.Roots.{Ends, here, next, build_copy_map-root}
use vortech.Opt.Cse.{CseKey, zero_key, Cse, find_entry, cse_insts, cse_blocks, opt_cse}
use vortech.Opt.Cse.Loops.{inst_at}
use vortech.Opt.Cse.Geps.{opt_cse-gep}
use vortech.Tests.Samples.{inst, effect, host, machine, func, sum_func, zero_func, copy_func}

verify_accepts : ssa_verify_func sum_func ≡ true
unfolding ssa_verify_func
verify_accepts = refl

verify_rejects : ssa_verify_func (func (inst 0 (binop BinOpKind.add 0 9) ∷ []) 1) ≡ false
unfolding ssa_verify_func
verify_rejects = refl

verify_func-IsWellFormed_example : (ssa_verify_func sum_func ≡ true) ↔ IsWellFormed sum_func
verify_func-IsWellFormed_example = verify_func-IsWellFormed sum_func

dce_runs :
    opt_dce sum_func
    ≡ func
        (inst 0 (Ssa.const (pos 5))
          ∷ inst 1 (Ssa.const (pos 3))
          ∷ inst 2 (binop BinOpKind.add 0 1)
          ∷ effect (Ssa.print 2)
          ∷ effect (Ssa.ret 2)
          ∷ [])
        4
unfolding opt_dce
dce_runs = refl

sum_func_prints : run_func machine 2 sum_func (λ v. pos 0) [] ≡ done (some (pos 8)) (pos 8 ∷ [])
unfolding run exec fold_binop
sum_func_prints = refl

run_func-opt_dce_example :
    run_func machine 2 (opt_dce sum_func) (λ v. pos 0) []
    ≡ run_func machine 2 sum_func (λ v. pos 0) []
run_func-opt_dce_example = run_func-opt_dce machine 2 sum_func (λ v. pos 0) []

-- The registers of `sum_func` after its run.
abbrev sum_values : ℕ → ℤ
sum_values zero = pos 5
sum_values (suc zero) = pos 3
sum_values (suc (suc zero)) = pos 8
sum_values (suc (suc (suc n))) = pos 15

sum_func-Sound : AllInsts (Sound host sum_values) sum_func
unfolding fold_binop
sum_func-Sound = (
  (
    (refl, refl),
    (
      (refl, refl),
      (
        (fold_binop-law host BinOpKind.add (pos 5) (pos 3), refl),
        ((fold_binop-law host BinOpKind.mul (pos 5) (pos 3), refl), ((tt, refl), ((tt, refl), tt))),
      ),
    ),
  ),
  tt,
)

opt_const_fold-Sound_example : AllInsts (Sound host sum_values) (opt_const_fold host sum_func)
opt_const_fold-Sound_example = opt_const_fold-Sound host sum_values sum_func sum_func-Sound

const_fold_runs :
    opt_const_fold host sum_func
    ≡ func
        (inst 0 (Ssa.const (pos 5))
          ∷ inst 1 (Ssa.const (pos 3))
          ∷ inst 2 (Ssa.const (pos 8))
          ∷ inst 3 (Ssa.const (pos 15))
          ∷ effect (Ssa.print 2)
          ∷ effect (Ssa.ret 2)
          ∷ [])
        4
unfolding opt_const_fold fold_binop
const_fold_runs = refl

-- Register 1 is 4, so the sum in register 2 is 4 as well.
abbrev zero_values : ℕ → ℤ
zero_values zero = pos 0
zero_values (suc n) = pos 4

four_is_not_zero : pos 4 ≢ pos 0
four_is_not_zero e = cc

zero_func_lookups : (is_const_val zero_func 1 ≡ none) × (is_const_val zero_func 0 ≡ some (pos 0))
unfolding is_const_val
zero_func_lookups = (refl, refl)

zero_func_holds : HoldsOp host zero_values 2 (binop BinOpKind.add 1 0)
unfolding fold_binop
zero_func_holds = fold_binop-law host BinOpKind.add (pos 4) (pos 0)

fold_zero-wrong_example :
    ¬ HoldsOp host zero_values 2 (fold_op host zero_func (binop BinOpKind.add 1 0)).0
fold_zero-wrong_example =
    fold_zero-wrong host zero_values zero_func 2 1 0 BinOpKind.add (inl refl) zero_func_lookups.0
      zero_func_lookups.1 refl four_is_not_zero refl zero_func_holds

seven_is_a_register : 0 ≢ Ssa.invalid_vreg
seven_is_a_register e = omega arith

one_is_a_register : 1 ≢ Ssa.invalid_vreg
one_is_a_register e = omega arith

behaviours-opt_copy_prop_example :
    behaviours machine (λ v. pos 7) [] 0 (opt_copy_prop copy_func)
    ≡ behaviours machine (λ v. pos 7) [] 0 copy_func
behaviours-opt_copy_prop_example =
    behaviours-opt_copy_prop machine (λ v. pos 7) [] 0 copy_func
      ((tt, ((refl, seven_is_a_register), ((refl, one_is_a_register), (tt, (tt, tt))))), tt)

copy_prop_runs : build_copy_map copy_func ≡ 0 ∷ 0 ∷ 0 ∷ []
unfolding build_copy_map
copy_prop_runs = refl

copies_end : (j : ℕ) → (s : ℕ) × Ends (copies copy_func) 100 j s
unfolding copies
copies_end zero = (0, here refl)
copies_end (suc zero) = (0, next {n = 99} (here refl))
copies_end (suc (suc zero)) = (0, next {n = 99} (next {n = 98} (here refl)))
copies_end (suc (suc (suc j))) = (suc (suc (suc j)), here refl)

chain_of_two : Ends (copies copy_func) 100 2 0
unfolding copies
chain_of_two = next {n = 99} (next {n = 98} (here refl))

build_copy_map-root_example : source (build_copy_map copy_func) 2 ≡ 0
build_copy_map-root_example =
    build_copy_map-root copy_func 2 0 copies_end (omega arith) chain_of_two

-- v0 = 5; v1 = 3; v2 = v0 + v1; v3 = v0 + v1; v4 = v3 * v0; ret v3.
abbrev twice : Func
twice =
    func
      (inst 0 (Ssa.const (pos 5))
        ∷ inst 1 (Ssa.const (pos 3))
        ∷ inst 2 (binop BinOpKind.add 0 1)
        ∷ inst 3 (binop BinOpKind.add 0 1)
        ∷ inst 4 (binop BinOpKind.mul 3 0)
        ∷ effect (Ssa.ret 3)
        ∷ [])
      5

cse_runs :
    opt_cse twice
    ≡ func
        (inst 0 (Ssa.const (pos 5))
          ∷ inst 1 (Ssa.const (pos 3))
          ∷ inst 2 (binop BinOpKind.add 0 1)
          ∷ inst 3 (Ssa.const (pos 0))
          ∷ inst 4 (binop BinOpKind.mul 2 0)
          ∷ effect (Ssa.ret 2)
          ∷ [])
        5
unfolding opt_cse cse_blocks cse_insts find_entry
cse_runs = refl

-- The third instruction's key, and the pass at the fourth instruction, which repeats it.
abbrev sum_key : CseKey
sum_key = record zero_key { op = 1; binop_kind = BinOpKind.add; operand1 = 0; operand2 = 1 }

abbrev at_repeat : Cse
at_repeat = record { blocks = twice.blocks; table = record { key = sum_key; vreg = 2 } ∷ [] }

-- v0 = 5; v1 = 3; v2 = v0 + v1; v3 = v0 + v1; v4 = v3 + 8 as an address; ret v4.
abbrev far : Func
far =
    func
      (inst 0 (Ssa.const (pos 5))
        ∷ inst 1 (Ssa.const (pos 3))
        ∷ inst 2 (binop BinOpKind.add 0 1)
        ∷ inst 3 (binop BinOpKind.add 0 1)
        ∷ inst 4 (Ssa.gep 3 (pos 8))
        ∷ effect (Ssa.ret 4)
        ∷ [])
      5

opt_cse-gep_example : inst_at (opt_cse far).blocks 0 4 ≡ some (inst 4 (Ssa.gep 3 (pos 8)))
opt_cse-gep_example = opt_cse-gep far 0 4 4 3 (pos 8) refl

far_killed : inst_at (opt_cse far).blocks 0 3 ≡ some (inst 3 (Ssa.const (pos 0)))
unfolding opt_cse cse_blocks cse_insts find_entry
far_killed = refl
