-- ===== src/Tests/Sorting.antt =====
-- A sort for the parameter `qsort` of register allocation.
use vortech.Prelude.{
  ◌≡◌, refl, Bool, true, false, Bool-cases, inl, inr, List, [], ◌∷◌, if◌then◌else◌, All, All-map,
  arith,
}
use vortech.Prelude.Int.{ℤ, pos, negsuc}
use mathlib.Core.List.{Permᴰ}
use mathlib.Core.List.Permᴰ
use vortech.Regalloc.{LiveInterval}
use vortech.Regalloc.Scan.{cmp_interval_start}
use vortech.Regalloc.Owners.{OtherVreg}
use vortech.Regalloc.Disjoint.{AllPairs}
use vortech.Regalloc.Allocation.{NotAfter, SortsIntervals, All-perm}

abbrev is_negative : ℤ → Bool
is_negative (pos n) = false
is_negative (negsuc n) = true

unfoldable pub before : LiveInterval → LiveInterval → Bool
unfolding cmp_interval_start
before p q = is_negative (cmp_interval_start p q)

unfoldable pub insert : LiveInterval → List LiveInterval → List LiveInterval
unfolding before
insert x [] = x ∷ []
insert x (y ∷ ys) = let rest = insert x ys in if before x y then x ∷ y ∷ ys else y ∷ rest

unfoldable pub insertion_sort : List LiveInterval → List LiveInterval
unfolding insert
insertion_sort [] = []
insertion_sort (x ∷ xs) = insert x (insertion_sort xs)

before-NotAfter : (p q : LiveInterval) → before p q ≡ true → NotAfter p q
unfolding before cmp_interval_start
before-NotAfter p q h = ground arith

not_before-NotAfter : (p q : LiveInterval) → before p q ≡ false → OtherVreg p q → NotAfter q p
unfolding before cmp_interval_start
not_before-NotAfter p q h n = ground arith

NotAfter-trans : (p q r : LiveInterval) → NotAfter p q → NotAfter q r → NotAfter p r
unfolding cmp_interval_start
NotAfter-trans p q r h k = ground arith

insert-perm : (x : LiveInterval) (ys : List LiveInterval) → Permᴰ (insert x ys) (x ∷ ys)
unfolding insert
insert-perm x [] = Permᴰ.refl _
insert-perm x (y ∷ ys) = elim (Bool-cases (before x y)) [
  | inl t ↦ rw t (Permᴰ.refl _)
  | inr f ↦ rw f (Permᴰ.trans (Permᴰ.cons refl (insert-perm x ys)) (Permᴰ.swap refl refl))
]

insertion_sort-perm : (xs : List LiveInterval) → Permᴰ (insertion_sort xs) xs
unfolding insertion_sort
insertion_sort-perm [] = Permᴰ.nil
insertion_sort-perm (x ∷ xs) =
    Permᴰ.trans (insert-perm x (insertion_sort xs)) (Permᴰ.cons refl (insertion_sort-perm xs))

insert-sorted :
    (x : LiveInterval) (ys : List LiveInterval)
    → All (OtherVreg x) ys
    → AllPairs NotAfter ys
    → AllPairs NotAfter (insert x ys)
unfolding insert
insert-sorted x [] n h = (tt, tt)
insert-sorted x (y ∷ ys) n h = elim (Bool-cases (before x y)) [
  | inl t ↦ rw t (
      (
        (
          before-NotAfter x y t,
          All-map (NotAfter y) (λ z k. NotAfter-trans x y z (before-NotAfter x y t) k) ys h.0,
        ),
        h,
      ))
  | inr f ↦ rw f (
      (
        All-perm (NotAfter y) (Permᴰ.symm (insert-perm x ys)) (not_before-NotAfter x y f n.0, h.0),
        insert-sorted x ys n.1 h.1,
      ))
]

insertion_sort-sorted :
    (xs : List LiveInterval) → AllPairs OtherVreg xs → AllPairs NotAfter (insertion_sort xs)
unfolding insertion_sort
insertion_sort-sorted [] h = tt
insertion_sort-sorted (x ∷ xs) h =
    insert-sorted x (insertion_sort xs)
      (All-perm (OtherVreg x) (Permᴰ.symm (insertion_sort-perm xs)) h.0)
      (insertion_sort-sorted xs h.1)

pub insertion_sort-SortsIntervals : SortsIntervals insertion_sort
insertion_sort-SortsIntervals = record {
  permutes = insertion_sort-perm;
  sorted = insertion_sort-sorted;
}
