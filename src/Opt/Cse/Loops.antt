-- ===== src/Opt/Cse/Loops.antt =====
-- What the loops of src/opt_cse.c keep.
use vortech.Prelude.{
  ℕ, zero, suc, ◌≡◌, refl, ap, Option, some, List, [], ◌∷◌, map, set, get_elem?, some-inj, All,
}
use vortech.Ssa.{Op, binop, unop, cmp, Inst, Block}
use vortech.Opt.Cse.{rename_op, rename_inst, rename_block, put_inst, insts_of}
use vortech.Opt.Cse.Values.{IsCandidate}

-- The elements of two lists of one length, in pairs.
abbrev pub Pairs {ℓ} : {A : Type ℓ} → (A → A → Type 0) → List A → List A → Type 0
Pairs R [] [] = Unit
Pairs R [] (y ∷ ys) = ⊥
Pairs R (x ∷ xs) [] = ⊥
Pairs R (x ∷ xs) (y ∷ ys) = R x y × Pairs R xs ys

module _ {ℓ} {A : Type ℓ} (R : A → A → Type 0) where
  Pairs-refl : ((x : A) → R x x) → (xs : List A) → Pairs R xs xs
  Pairs-refl h [] = tt
  Pairs-refl h (x ∷ xs) = (h x, Pairs-refl h xs)

  Pairs-map :
      (f : A → A)
      → ((x y : A) → R x y → R x (f y))
      → (xs ys : List A) → Pairs R xs ys
      → Pairs R xs (map f ys)
  Pairs-map f k [] [] h = tt
  Pairs-map f k [] (y ∷ ys) h = h
  Pairs-map f k (x ∷ xs) [] h = h
  Pairs-map f k (x ∷ xs) (y ∷ ys) h = (k x y h.0, Pairs-map f k xs ys h.1)

  Pairs-set :
      (xs ys : List A) (i : ℕ) (v : A)
      → ((x y : A) → get_elem? ys i ≡ some y → R x y → R x v)
      → Pairs R xs ys
      → Pairs R xs (set ys i v)
  Pairs-set [] [] i v k h = tt
  Pairs-set [] (y ∷ ys) i v k h = elim h [ ]
  Pairs-set (x ∷ xs) [] i v k h = h
  Pairs-set (x ∷ xs) (y ∷ ys) zero v k h = (k x y refl h.0, h.1)
  Pairs-set (x ∷ xs) (y ∷ ys) (suc i) v k h = (h.0, Pairs-set xs ys i v k h.1)

All-of_map :
    {A : Type 0} {P : A → Type 0} (Q : A → Type 0) (f : A → A)
    → ((x : A) → P x → Q (f x))
    → (xs : List A) → All P xs
    → All Q (map f xs)
All-of_map Q f k [] h = tt
All-of_map Q f k (x ∷ xs) h = (k x h.0, All-of_map Q f k xs h.1)

get_elem?-map :
    {A : Type 0} (f : A → A) (xs : List A) (i : ℕ) {x : A}
    → get_elem? xs i ≡ some x
    → get_elem? (map f xs) i ≡ some (f x)
get_elem?-map f [] i h = cc
get_elem?-map f (y ∷ ys) zero h = ap (λ x. some (f x)) (some-inj h)
get_elem?-map f (y ∷ ys) (suc i) h = get_elem?-map f ys i h

abbrev pub inst_at : List Block → ℕ → ℕ → Option Inst
inst_at bs bi ii = get_elem? (insts_of (get_elem? bs bi)) ii

pub inst_at-rename :
    (old new : ℕ) (bs : List Block) (bi ii : ℕ) {i : Inst}
    → inst_at bs bi ii ≡ some i
    → inst_at (map (rename_block old new) bs) bi ii ≡ some (rename_inst old new i)
inst_at-rename old new [] bi ii h = cc
inst_at-rename old new (b ∷ bs) zero ii h = get_elem?-map (rename_inst old new) b.insts ii h
inst_at-rename old new (b ∷ bs) (suc bi) ii h = inst_at-rename old new bs bi ii h

abbrev pub BlockPairs : (Inst → Inst → Type 0) → List Block → List Block → Type 0
BlockPairs R bs cs = Pairs (λ (b c : Block). Pairs R b.insts c.insts) bs cs

pub put_inst-BlockPairs :
    (R : Inst → Inst → Type 0) (bs cs : List Block) (bi ii : ℕ) (v : Inst)
    → ((x j : Inst) → inst_at cs bi ii ≡ some j → R x j → R x v)
    → BlockPairs R bs cs
    → BlockPairs R bs (put_inst bi ii v cs)
put_inst-BlockPairs R [] [] bi ii v k h = tt
put_inst-BlockPairs R [] (c ∷ cs) bi ii v k h = elim h [ ]
put_inst-BlockPairs R (b ∷ bs) [] bi ii v k h = h
put_inst-BlockPairs R (b ∷ bs) (c ∷ cs) zero ii v k h =
    (Pairs-set R b.insts c.insts ii v k h.0, h.1)
put_inst-BlockPairs R (b ∷ bs) (c ∷ cs) (suc bi) ii v k h =
    (h.0, put_inst-BlockPairs R bs cs bi ii v k h.1)

pub rename-BlockPairs :
    (R : Inst → Inst → Type 0) (old new : ℕ) (bs cs : List Block)
    → ((x j : Inst) → R x j → R x (rename_inst old new j))
    → BlockPairs R bs cs
    → BlockPairs R bs (map (rename_block old new) cs)
rename-BlockPairs R old new bs cs k h =
    Pairs-map (λ (b c : Block). Pairs R b.insts c.insts) (rename_block old new)
      (λ x y p. Pairs-map R (rename_inst old new) k x.insts y.insts p) bs cs h

pub self-BlockPairs :
    (R : Inst → Inst → Type 0) → ((x : Inst) → R x x) → (bs : List Block) → BlockPairs R bs bs
self-BlockPairs R h bs =
    Pairs-refl (λ (b c : Block). Pairs R b.insts c.insts) (λ b. Pairs-refl R h b.insts) bs

pub IsCandidate-after : (old new : ℕ) (o : Op) → IsCandidate o → IsCandidate (rename_op old new o)
IsCandidate-after old new (binop k l r) h = tt
IsCandidate-after old new (unop k v) h = tt
IsCandidate-after old new (cmp k l r) h = tt
IsCandidate-after old new o h = elim h [ ]
