-- ===== src/Opt/Cse/Values.antt =====
-- The operations that src/opt_cse.c looks for.
use vortech.Ssa.{Op, binop, unop, cmp}

-- A binary operation, a comparison or a unary operation.
abbrev pub IsCandidate : Op → Type 0
IsCandidate (binop k l r) = Unit
IsCandidate (unop k v) = Unit
IsCandidate (cmp k l r) = Unit
IsCandidate o = ⊥
