-- ===== src/Opt/CopyProp.antt =====
-- Copy propagation: src/opt_copyprop.c. The map is an array of `next_vreg` registers. C leaves a
-- read out of its bounds undefined; here it gives the register itself.
pub mod Values
pub mod Roots
use vortech.Prelude.{
  ℕ, zero, suc, Bool, true, false, not, ◌&&◌, List, [], ◌∷◌, map, ltb, ◌==◌, if◌then◌else◌, get_or,
  set,
}
use vortech.Ssa.{
  invalid_vreg, PhiArg, Op, const, binop, unop, load, store, gep, cmp, branch, jump, call, ret, phi,
  alloc, arena_alloc, arena_reset, print, Inst, Block, Func,
}

-- `map[v]`
abbrev pub source : List ℕ → ℕ → ℕ
source m v = get_or m v v

-- `for (i …) map[i] = i`, from `i` on for `n` rounds.
unfoldable pub identity_map : ℕ → ℕ → List ℕ
identity_map i zero = []
identity_map i (suc n) = i ∷ identity_map (suc i) n

-- A phi with one entry is a copy of it.
record_copy : ℕ → ℕ → Op → List ℕ → List ℕ
record_copy next d (phi (a ∷ [])) m = if ltb d next then set m d a.src else m
record_copy next d o m = m

record_copies : ℕ → List Inst → List ℕ → List ℕ
unfolding record_copy
record_copies next [] m = m
record_copies next (i ∷ is) m = record_copies next is (record_copy next i.dst i.op m)

record_blocks : ℕ → List Block → List ℕ → List ℕ
unfolding record_copies
record_blocks next [] m = m
record_blocks next (b ∷ bs) m = record_blocks next bs (record_copies next b.insts m)

-- `while (map[current] != current && depth < 100)`, with the rounds that are left.
chase : ℕ → List ℕ → ℕ → ℕ
chase zero m current = current
chase (suc n) m current =
    let on = chase n m (source m current) in if source m current == current then current else on

-- `for (i …) map[i] = …`, in place, from `i` on for `n` rounds.
resolve : ℕ → ℕ → List ℕ → List ℕ
resolve zero i m = m
resolve (suc n) i m = resolve n (suc i) (set m i (chase 100 m i))

unfoldable pub copies : Func → List ℕ
unfolding record_blocks identity_map
copies f = record_blocks f.next_vreg f.blocks (identity_map 0 f.next_vreg)

unfoldable pub build_copy_map : Func → List ℕ
unfolding resolve chase copies
build_copy_map f = resolve f.next_vreg 0 (copies f)

replace_phi : List ℕ → List PhiArg → List PhiArg
replace_phi m [] = []
replace_phi m (a ∷ rest) = record a { src = source m a.src } ∷ replace_phi m rest

unfoldable pub replace_uses : List ℕ → Op → Op
unfolding replace_phi
replace_uses m (binop k l r) = binop k (source m l) (source m r)
replace_uses m (unop k v) = unop k (source m v)
replace_uses m (load p) = load (source m p)
replace_uses m (store p v) = store (source m p) (source m v)
replace_uses m (gep p o) = gep (source m p) o
replace_uses m (cmp k l r) = cmp k (source m l) (source m r)
replace_uses m (branch c t f) = branch (source m c) t f
replace_uses m (call f args ext) = call f (map (source m) args) ext
replace_uses m (ret v) = ret (if v == invalid_vreg then v else source m v)
replace_uses m (phi args) = phi (replace_phi m args)
replace_uses m (print v) = print (source m v)
replace_uses m o = o

replace_insts : List ℕ → List Inst → List Inst
unfolding replace_uses
replace_insts m [] = []
replace_insts m (i ∷ is) = record i { op = replace_uses m i.op } ∷ replace_insts m is

replace_blocks : List ℕ → List Block → List Block
unfolding replace_insts
replace_blocks m [] = []
replace_blocks m (b ∷ bs) = record b { insts = replace_insts m b.insts } ∷ replace_blocks m bs

-- `has_copies`, from `i` on.
has_copies : ℕ → List ℕ → Bool
has_copies i [] = false
has_copies i (v ∷ vs) = if v == i then has_copies (suc i) vs else true

unfoldable pub opt_copy_prop : Func → Func
unfolding build_copy_map has_copies replace_blocks
opt_copy_prop f =
    if f.next_vreg == 0
    then f
    else (if has_copies 0 (build_copy_map f)
        then record f { blocks = replace_blocks (build_copy_map f) f.blocks }
        else f)
