-- ===== src/Arena/Products.antt =====
-- The overflow check of `arena_calloc`.
use native.Mathlib.Nat.{mul-div-le, mul-div_cancel_left, zero-mul}
use vortech.Prelude.{
  ℕ, ◌≡◌, refl, ap, subst, ◌∙◌, ◌*◌, ◌/◌, ◌^◌, ◌≤◌, ◌<◌, arith, if◌then◌else◌, some, none, true,
  false, ◌==◌, ltb, Bool-cases, inl, inr,
}
use vortech.Arena.{Arena, size_t, overflows, arena_calloc, arena_alloc}

overflows-small :
    (count elem_size : ℕ) → count * elem_size < 2 ^ 64 → overflows count elem_size ≡ false
overflows-small count elem_size small = elim (Bool-cases (count == 0)) [
  | inl z ↦ rw z refl
  | inr nz ↦
      let e : size_t (count * elem_size) ≡ count * elem_size = omega arith in
      let back : count * elem_size / count ≡ elem_size =
        mul-div_cancel_left elem_size (ground arith) in
      rw (nz, e, back) (ground arith)
]

overflows-big :
    (count elem_size : ℕ) → 2 ^ 64 ≤ count * elem_size → overflows count elem_size ≡ true
overflows-big count elem_size big = elim (Bool-cases (count == 0)) [
  | inl z ↦
      let zc : count ≡ 0 = ground arith in
      let p : count * elem_size ≡ 0 = ap (λ c. c * elem_size) zc ∙ zero-mul elem_size in
      ground arith
  | inr nz ↦ elim (Bool-cases (size_t (count * elem_size) / count == elem_size)) [
    | inl same ↦
        let le = mul-div-le (size_t (count * elem_size)) count in
        let q : size_t (count * elem_size) / count ≡ elem_size = ground arith in
        let le' = subst (λ x. count * x ≤ size_t (count * elem_size)) q le in ground arith
    | inr other ↦ rw (nz, other) refl
  ]
]

-- `arena_calloc` ends the program exactly if the product of its arguments does not fit in a
-- `size_t`, and otherwise allocates that many bytes.
pub arena_calloc-exact :
    (malloc : ℕ → ℕ) (count elem_size : ℕ) (a : Arena)
    → arena_calloc malloc count elem_size a ≡ (
        if ltb (count * elem_size) (2 ^ 64)
        then some (arena_alloc malloc (count * elem_size) a)
        else none)
unfolding arena_calloc
arena_calloc-exact malloc count elem_size a = elim (Bool-cases (ltb (count * elem_size) (2 ^ 64))) [
  | inl small ↦
      let e : size_t (count * elem_size) ≡ count * elem_size = ground arith in
      rw (overflows-small count elem_size (ground arith), small, e) refl
  | inr big ↦ rw (overflows-big count elem_size (ground arith), big) refl
]
