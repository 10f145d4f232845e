-- ===== src/Opt/Cse/Uses.antt =====
-- The uses of a register whose operation src/opt_cse.c deletes.
use vortech.Prelude.{ℕ, ◌≡◌, ◌≢◌, ◌⊎◌, some, List, All, get_elem?}
use vortech.Ssa.{gep, Inst, operands}
use vortech.Opt.Cse.{CseKey, CseEntry, Cse}

-- The instruction reads another register than `old` only, or is a gep.
abbrev pub Spares : ℕ → Inst → Type 0
Spares old i = ((p : ℕ) × (o : _) × (i.op ≡ gep p o)) ⊎ All (λ v. v ≢ old) (operands i.op)

-- An entry of the table with the key and the register.
abbrev pub Listed : CseKey → ℕ → List CseEntry → Type 0
Listed k v es = (at : ℕ) × (get_elem? es at ≡ some (record { key = k; vreg = v }))
