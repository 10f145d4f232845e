-- ===== src/Tests/Samples.antt =====
-- The programs and the machine that the tests share.
use vortech.Prelude.{ℕ, List, [], ◌∷◌, not}
use vortech.Prelude.Int.{ℤ, pos}
use vortech.Ssa.{invalid_vreg, BinOpKind, const, binop, phi, print, ret, Op, Inst, Func}
use vortech.Ssa.Int64.{Host, fold_binop, fold_unop, fold_cmp, of_bool, eq_ℤ}
use vortech.Ssa.Run.{Machine}

abbrev pub inst : ℕ → Op → Inst
inst d o = record { dst = d; op = o }

abbrev pub effect : Op → Inst
effect o = inst invalid_vreg o

-- A compiler whose undefined operations give 0.
abbrev pub host : Host
host = record { undefined_binop = λ k l r. pos 0; undefined_neg = λ v. pos 0 }

-- The world is the list of the printed values, the last one first.
abbrev pub machine : Machine
machine = record {
  Value = ℤ;
  World = List ℤ;
  undefined = pos 0;
  literal = λ c. c;
  binop_value = fold_binop host;
  unop_value = fold_unop host;
  cmp_value = λ k l r. of_bool (fold_cmp k l r);
  truth = λ v. not (eq_ℤ v (pos 0));
  load_value = λ p w. pos 0;
  store_to = λ p v w. w;
  offset = λ p o. p;
  call_function = λ f ext args w. (pos 0, w);
  stack_address = λ d n w. pos d;
  arena_address = λ d a n w. pos d;
  reset = λ a w. w;
  print_value = λ v w. v ∷ w;
}

-- v0 = 5; v1 = 3; v2 = v0 + v1; v3 = v0 * v1; print v2; ret v2. Nothing reads v3.
abbrev pub sum_insts : List Inst
sum_insts =
    inst 0 (const (pos 5))
    ∷ inst 1 (const (pos 3))
    ∷ inst 2 (binop BinOpKind.add 0 1)
    ∷ inst 3 (binop BinOpKind.mul 0 1)
    ∷ effect (print 2)
    ∷ effect (ret 2)
    ∷ []

abbrev pub func : List Inst → ℕ → Func
func is n = record {
  blocks = record { label = 0; insts = is; preds = []; succs = [] } ∷ [];
  entry = 0;
  next_vreg = n;
  param_vregs = [];
}

abbrev pub sum_func : Func
sum_func = func sum_insts 4

-- v0 = 0; v2 = v1 + v0, where v1 is a parameter.
abbrev pub zero_func : Func
zero_func = func (inst 0 (const (pos 0)) ∷ inst 2 (binop BinOpKind.add 1 0) ∷ effect (ret 2) ∷ []) 3

-- v0 = 7; v1 = phi(v0); v2 = phi(v1); print v2; ret v2.
abbrev pub copy_func : Func
copy_func =
    func
      (inst 0 (const (pos 7))
        ∷ inst 1 (phi (record { src = 0; pred = 0 } ∷ []))
        ∷ inst 2 (phi (record { src = 1; pred = 0 } ∷ []))
        ∷ effect (print 2)
        ∷ effect (ret 2)
        ∷ [])
      3
