-- ===== src/Arena/Bounds.antt =====
-- What an allocation of src/arena.c gets, and what a valid arena is.
use native.Mathlib.Nat.{div-add-mod', mod-lt, mul-mod_left, one-le-pow}
use vortech.Prelude.{
  ℕ, ◌≡◌, refl, ap, ◌∙◌, ◌+◌, ◌-◌, ◌*◌, ◌/◌, ◌%◌, ◌^◌, ◌≤◌, ◌<◌, arith, List, [], ◌∷◌, All,
  if◌then◌else◌, if_both, if_cases, Option, some, ◌==◌, ltb,
}
use vortech.Arena.{
  Page, Arena, size_t, aligned, padding, fits, bump, make_room, arena_new_page, new_capacity,
  arena_alloc_aligned, arena_create, arena_reset, arena_used, default_page_size,
}

-- A page in the lower half of the address space.
abbrev pub IsPage : Page → Type 0
IsPage p = (p.base + p.capacity ≤ 2 ^ 63) × (p.used ≤ p.capacity)

-- Rounding up to a multiple.
round_up :
    (n x : ℕ)
    → 0 < n
    → (x ≤ (x + n - 1) / n * n) × ((x + n - 1) / n * n < x + n) × ((x + n - 1) / n * n % n ≡ 0)
round_up n x pos =
    let e = div-add-mod' (x + n - 1) n in
    let lt = mod-lt (x + n - 1) pos in (omega arith, omega arith, mul-mod_left _ _)

-- An address behind the bytes in use.
record IsAligned (k : ℕ) (p : Page) : Type 0 where
  whole : aligned k p % 2 ^ k ≡ 0
  behind : p.base + p.used + padding k p ≡ aligned k p
  near : padding k p < 2 ^ k

aligned_lem : (k : ℕ) (p : Page) → IsPage p → 2 ^ k ≤ 2 ^ 61 → IsAligned k p
unfolding aligned
aligned_lem k p (low, within) small =
    let pos : 0 < 2 ^ k = one-le-pow k 2 (omega arith) in
    let o = p.base + p.used in
    let (above, below, multiple) = round_up (2 ^ k) o pos in
    let e : size_t (o + 2 ^ k - 1) ≡ o + 2 ^ k - 1 = omega arith in
    let at : aligned k p ≡ (o + 2 ^ k - 1) / 2 ^ k * 2 ^ k = ap (λ x. x / 2 ^ k * 2 ^ k) e in
    let o_small : size_t o ≡ o = omega arith in
    let whole : aligned k p % 2 ^ k ≡ 0 = ap (λ x. x % 2 ^ k) at ∙ multiple in
    let behind : o + padding k p ≡ aligned k p = omega arith in
    record { whole = whole; behind = behind; near = omega arith }

new_capacity_lem :
    (page_size min_size : ℕ)
    → 0 < page_size
    → page_size ≤ 2 ^ 61
    → min_size ≤ 2 ^ 62
    → (min_size ≤ new_capacity page_size min_size) × (new_capacity page_size min_size ≤ 2 ^ 63)
unfolding new_capacity
new_capacity_lem page_size min_size pos small few =
    if_cases (λ c. (min_size ≤ c) × (c ≤ 2 ^ 63)) (ltb page_size min_size) _ _
      (λ more.
        let (above, below, _) = round_up page_size min_size pos in
        let e : size_t (min_size + page_size - 1) ≡ min_size + page_size - 1 = omega arith in
        let at = ap (λ x. size_t (x / page_size * page_size)) e in (omega arith, omega arith))
      (λ enough. (ground arith, omega arith))

unfoldable pub sum_used : List Page → ℕ
sum_used [] = 0
sum_used (p ∷ ps) = p.used + sum_used ps

-- Every page is one, and `total_allocated` counts the bytes in use.
pub record IsValid (a : Arena) : Type 0 where
  pub first : IsPage a.first
  pub rest : All IsPage a.rest
  pub pos : 0 < a.page_size
  pub small : a.page_size ≤ 2 ^ 61
  pub total : a.total_allocated ≡ size_t (a.first.used + sum_used a.rest)

-- `malloc` gives blocks in the lower half of the address space.
abbrev pub IsMalloc : (ℕ → ℕ) → Type 0
IsMalloc malloc = (n : ℕ) → n ≤ 2 ^ 63 → malloc n + n ≤ 2 ^ 63

-- There is room for the allocation in the first page.
abbrev HasRoom : ℕ → ℕ → Arena → Type 0
HasRoom size k a = IsValid a × (a.first.used + padding k a.first + size ≤ a.first.capacity)

make_room-HasRoom :
    (malloc : ℕ → ℕ) (size k : ℕ) (a : Arena)
    → IsMalloc malloc
    → IsValid a
    → size ≤ 2 ^ 61
    → 2 ^ k ≤ 2 ^ 61
    → HasRoom size k (make_room malloc size k a)
unfolding arena_new_page sum_used
make_room-HasRoom malloc size k a good valid few small =
    if_cases (HasRoom size k) (fits size k a.first) _ _
      (λ fit.
        let at = aligned_lem k a.first valid.first small in
        let near = at.near in let page = valid.first in (valid, ground arith))
      (λ full.
        let e : size_t (size + 2 ^ k) ≡ size + 2 ^ k = omega arith in
        let cap = new_capacity a.page_size (size + 2 ^ k) in
        let (holds, low) =
          new_capacity_lem a.page_size (size + 2 ^ k) valid.pos valid.small (omega arith) in
        let page : IsPage (arena_new_page malloc a (size + 2 ^ k)) = (good cap low, omega arith) in
        let near = (aligned_lem k _ page small).near in
        rw e (
          record {
            first = page;
            rest = (valid.first, valid.rest);
            pos = valid.pos;
            small = valid.small;
            total = let t = valid.total in omega arith;
          },
          omega arith,
        ))

-- What `arena_alloc_aligned` hands out from the page `p`, which it leaves as `p'`: `size` bytes at
-- `address`, aligned, behind the bytes that were in use, inside the page, and in use from now on.
pub record Granted (size k address : ℕ) (p p' : Page) : Type 0 where
  pub whole : address % 2 ^ k ≡ 0
  pub fresh : p.base + p.used ≤ address
  pub taken : address + size ≡ p'.base + p'.used
  pub inside : address + size ≤ p.base + p.capacity
  pub same_base : p'.base ≡ p.base
  pub same_capacity : p'.capacity ≡ p.capacity

bump-Granted :
    (size k : ℕ) (a : Arena)
    → HasRoom size k a
    → 2 ^ k ≤ 2 ^ 61
    → Granted size k (bump size k a).0 a.first (bump size k a).1.first × IsValid (bump size k a).1
bump-Granted size k a (valid, fit) small =
    let at = aligned_lem k a.first valid.first small in
    let behind = at.behind in
    let (low, within) = valid.first in
    let total = valid.total in
    (
      record {
        whole = at.whole;
        fresh = omega arith;
        taken = omega arith;
        inside = omega arith;
        same_base = refl;
        same_capacity = refl;
      },
      record {
        first = (low, omega arith);
        rest = valid.rest;
        pos = valid.pos;
        small = valid.small;
        total = omega arith;
      },
    )

-- The page that an allocation is made from: the first one, or a new one in front of it.
pub data From (a : Arena) : Page → Arena → Type 0 where
  same : {b : Arena} → b.rest ≡ a.rest → From a a.first b
  added : {p : Page} {b : Arena} → p.used ≡ 0 → b.rest ≡ a.first ∷ a.rest → From a p b

make_room-From :
    (malloc : ℕ → ℕ) (size k : ℕ) (a : Arena)
    → (let room = make_room malloc size k a in From a room.first (bump size k room).1)
unfolding arena_new_page
make_room-From malloc size k a =
    if_both (λ room. From a room.first (bump size k room).1) (fits size k a.first) _ _ (same refl)
      (added refl refl)

-- A successful allocation: its address, and the page it is from.
pub record IsAllocated (size k : ℕ) (a : Arena) (r : Option ℕ × Arena) : Type 0 where
  pub page : Page
  pub address : ℕ
  pub result : r.0 ≡ some address
  pub from : From a page r.1
  pub granted : Granted size k address page r.1.first
  pub valid : IsValid r.1

-- If a valid arena is asked for some bytes, at most 2^61, at a power of two up to 2^61, and `malloc`
-- gives blocks in the lower half of the address space, then `arena_alloc_aligned` returns an aligned
-- block of that many bytes, behind the bytes in use of the first page or in a fresh page put in
-- front, inside that page and in use from now on, and leaves a valid arena.
pub arena_alloc_aligned-IsAllocated :
    (malloc : ℕ → ℕ) (size k : ℕ) (a : Arena)
    → IsMalloc malloc
    → IsValid a
    → 0 < size
    → size ≤ 2 ^ 61
    → 2 ^ k ≤ 2 ^ 61
    → IsAllocated size k a (arena_alloc_aligned malloc size k a)
unfolding arena_alloc_aligned
arena_alloc_aligned-IsAllocated malloc size k a good valid some_bytes few small =
    let room = make_room malloc size k a in
    let (granted, after) =
      bump-Granted size k room (make_room-HasRoom malloc size k a good valid few small) small in
    if_cases (IsAllocated size k a) (size == 0) _ _ (λ none_at_all. ground arith)
      (λ bytes. record {
        page = room.first;
        address = (bump size k room).0;
        result = refl;
        from = make_room-From malloc size k a;
        granted = granted;
        valid = after;
      })

-- If `malloc` gives blocks in the lower half of the address space, an arena of pages of at most 2^61
-- bytes is valid when it is made, and a valid arena is valid after `arena_reset`, which leaves
-- nothing in use.
pub arena_reset-IsValid :
    (malloc : ℕ → ℕ) (page_size : ℕ) (a : Arena)
    → IsMalloc malloc
    → page_size ≤ 2 ^ 61
    → IsValid a
    → IsValid (arena_create malloc page_size)
      × IsValid (arena_reset a)
      × (arena_used (arena_reset a) ≡ 0)
unfolding arena_create arena_reset sum_used
arena_reset-IsValid malloc page_size a good few valid =
    let size = if ltb 0 page_size then page_size else default_page_size in
    let (pos, small) : (0 < size) × (size ≤ 2 ^ 61) = ground arith in
    let low = good size (omega arith) in
    let (low_first, _) = valid.first in
    (
      record { first = (low, omega arith); rest = tt; pos = pos; small = small; total = refl },
      record {
        first = (low_first, omega arith);
        rest = tt;
        pos = valid.pos;
        small = valid.small;
        total = refl;
      },
      refl,
    )
