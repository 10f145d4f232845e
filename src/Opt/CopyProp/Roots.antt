-- ===== src/Opt/CopyProp/Roots.antt =====
-- The copy map of src/opt_copyprop.c leads every register to the end of its chain of copies.
use vortech.Prelude.{
  ℕ, zero, suc, ◌+◌, ◌≤◌, ◌<◌, ◌≡◌, refl, sym, ◌∙◌, subst, inl, inr, ◌&&◌, List, [], ◌∷◌, get_or,
  arith, ltb, ◌==◌, set, length, Bool-cases, ==_iff,
}
use native.Mathlib.Nat.{add-zero}
use vortech.Ssa.{Func}
use vortech.Opt.CopyProp.{source, chase, resolve, copies, build_copy_map}
use vortech.Opt.CopyProp.Values.{source-set}

-- In at most `n` copies the chain of `v` ends, at the register `r`, which is a copy of no other.
pub data Ends (m : List ℕ) : (n v r : ℕ) → Type 0 where
  here : {n r : ℕ} → source m r ≡ r → Ends m n r r
  next : {n v r : ℕ} → Ends m n (source m v) r → Ends m (suc n) v r

chase-root : (m : List ℕ) (n r : ℕ) → source m r ≡ r → chase n m r ≡ r
unfolding chase
chase-root m zero r root = refl
chase-root m (suc n) r root = rw ((==_iff (source m r) r).1 root) refl

chase-Ends : (m : List ℕ) (n v r : ℕ) → Ends m n v r → chase n m v ≡ r
unfolding chase
chase-Ends m n v r (here root) = chase-root m n r root
chase-Ends m (suc n) v r (next e) = elim (Bool-cases (source m v == v)) [
  | inl stop ↦
      let root : source m v ≡ v = (==_iff (source m v) v).0 stop in
      rw stop (sym (chase-root m n v root) ∙ (rw root at (chase-Ends m n (source m v) r e)))
  | inr on ↦ rw on (chase-Ends m n (source m v) r e)
]

Ends-root : {m : List ℕ} {n v r : ℕ} → Ends m n v r → source m r ≡ r
Ends-root (here root) = root
Ends-root (next e) = Ends-root e

-- A register that is a copy of no other is the end of its own chain.
Ends-self : (m : List ℕ) (n v r : ℕ) → source m v ≡ v → Ends m n v r → v ≡ r
Ends-self m n v r root (here end) = refl
Ends-self m (suc n) v r root (next e) = Ends-self m n v r root (subst (λ x. Ends m n x r) root e)

Ends-unique : (m : List ℕ) (n k v r s : ℕ) → Ends m n v r → Ends m k v s → r ≡ s
Ends-unique m n k v r s (here root) e = Ends-self m k r s root e
Ends-unique m n k v r s d (here root) = sym (Ends-self m n v r root d)
Ends-unique m (suc n) (suc k) v r s (next d) (next e) = Ends-unique m n k (source m v) r s d e

get_or-beyond : (m : List ℕ) (j k : ℕ) → length m ≤ j → get_or m j k ≡ k
get_or-beyond [] j k h = refl
get_or-beyond (x ∷ xs) zero k h = absurd (omega arith)
get_or-beyond (x ∷ xs) (suc j) k h = get_or-beyond xs j k (omega arith)

module _ (m : List ℕ) (n i r : ℕ) (end : Ends m n i r) where
  -- Writing the end of a chain into the map keeps the ends of all chains.
  set-root : (s : ℕ) → source m s ≡ s → source (set m i r) s ≡ s
  set-root s root = elim (Bool-cases (i == s && ltb s (length m))) [
    | inl changed ↦
        let same : i ≡ s = ground arith in
        rw (source-set m i r s s, changed)
          (sym (Ends-self m n s r root (subst (λ x. Ends m n x r) same end)))
    | inr kept ↦ rw (source-set m i r s s, kept) root
  ]

  set-Ends : (k v s : ℕ) → Ends m k v s → Ends (set m i r) k v s
  set-Ends k v s (here root) = here (set-root s root)
  set-Ends (suc k) v s (next e) = elim (Bool-cases (i == v && ltb v (length m))) [
    | inl changed ↦
        let same : i ≡ v = ground arith in
        let joined : r ≡ s =
          Ends-unique m n (suc k) v r s (subst (λ x. Ends m n x r) same end) (next e) in
        let goes : source (set m i r) v ≡ s = rw (source-set m i r v v, changed) joined in
        next (subst (λ x. Ends (set m i r) k x s) (sym goes) (here (set-root s (Ends-root e))))
    | inr kept ↦
        let stays : source (set m i r) v ≡ source m v = rw (source-set m i r v v, kept) refl in
        next (subst (λ x. Ends (set m i r) k x s) (sym stays) (set-Ends k (source m v) s e))
  ]

  set-source : source (set m i r) i ≡ r
  set-source = elim (Bool-cases (i == i && ltb i (length m))) [
    | inl changed ↦ rw (source-set m i r i i, changed) refl
    | inr beyond ↦
        let itself : source m i ≡ i = get_or-beyond m i i (ground arith) in
        rw (source-set m i r i i, beyond) (itself ∙ Ends-self m n i r itself end)
  ]

-- The chains of `c` end in `m` where they end in `c`, and the registers below `i` lead there at once.
record Upto (c : List ℕ) (i : ℕ) (m : List ℕ) : Type 0 where
  ends : (k v r : ℕ) → Ends c k v r → Ends m k v r
  done : (j r : ℕ) → j < i → Ends c 100 j r → source m j ≡ r

module _ (c : List ℕ) (all : (v : ℕ) → (r : ℕ) × Ends c 100 v r) where
  set-done :
      (m : List ℕ) (i : ℕ)
      → Upto c i m
      → (j r : ℕ) → j < suc i
      → Ends c 100 j r
      → source (set m i (chase 100 m i)) j ≡ r
  set-done m i u j r h e =
      let (s, d) = all i in
      let end = u.ends 100 i s d in
      let stops = chase-Ends m 100 i s end in
      let new : source (set m i (chase 100 m i)) i ≡ s = rw stops (set-source m 100 i s end) in
      elim (Bool-cases (i == j)) [
        | inl same ↦
            let at : i ≡ j = (==_iff i j).0 same in
            subst (λ x. source (set m i (chase 100 m i)) x ≡ r) at
              (new ∙ Ends-unique c 100 100 i s r d (subst (λ x. Ends c 100 x r) (sym at) e))
        | inr other ↦
            let kept : source (set m i (chase 100 m i)) j ≡ source m j =
              ground (arith, source-set m i (chase 100 m i) j j) in
            kept ∙ u.done j r (ground arith) e
      ]

  resolve-Upto : (n i : ℕ) (m : List ℕ) → Upto c i m → Upto c (i + n) (resolve n i m)
  unfolding resolve
  resolve-Upto zero i m u = rw add-zero u
  resolve-Upto (suc n) i m u =
      let (r, e) = all i in
      let end = u.ends 100 i r e in
      let stops : r ≡ chase 100 m i = sym (chase-Ends m 100 i r end) in
      let end' = subst (Ends m 100 i) stops end in
      let index : suc i + n ≡ i + suc n = omega arith in
      subst (λ k. Upto c k (resolve (suc n) i m)) index
        (resolve-Upto n (suc i) (set m i (chase 100 m i)) (record {
          ends = λ k v s d. set-Ends m 100 i (chase 100 m i) end' k v s (u.ends k v s d);
          done = set-done m i u;
        }))

-- If the chain of copies of every register ends after at most 100 copies, the finished map leads
-- every register of the function to the end of its chain at once.
pub build_copy_map-root :
    (f : Func) (v r : ℕ)
    → ((j : ℕ) → (s : ℕ) × Ends (copies f) 100 j s)
    → v < f.next_vreg
    → Ends (copies f) 100 v r
    → source (build_copy_map f) v ≡ r
unfolding build_copy_map
build_copy_map-root f v r all h e =
    let start : Upto (copies f) 0 (copies f) = record {
      ends = λ k w s d. d;
      done = λ j s k d. elim k [ ];
    } in
    (resolve-Upto (copies f) all f.next_vreg 0 (copies f) start).done v r (omega arith) e
