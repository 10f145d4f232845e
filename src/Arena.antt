-- ===== src/Arena.antt =====
-- The arena allocator: src/arena.c and src/arena.h.
-- The arena's `current` page is the page `first` here: the source sets both fields to the same page
-- wherever it sets one of them. A page is its base address, its bytes in use and its capacity; what
-- the allocations hold is not part of the model. `malloc` is a parameter: the address it returns
-- for a number of bytes. A `size_t` is a number modulo 2^64. An alignment is a power of two, given
-- by its exponent, so that `x & ~(align - 1)` is `x / align * align`.
use vortech.Prelude.{
  Option, none, some, ℕ, ◌+◌, ◌-◌, ◌*◌, ◌/◌, ◌%◌, ◌^◌, Bool, not, ◌&&◌, List, [], ◌∷◌, ltb, ◌==◌,
  if◌then◌else◌,
}
pub mod Bounds
pub mod Products

pub record Page : Type 0 where
  pub base : ℕ
  pub used : ℕ
  pub capacity : ℕ

pub record Arena : Type 0 where
  pub first : Page
  -- The pages behind it.
  pub rest : List Page
  pub page_size : ℕ
  pub total_allocated : ℕ

abbrev pub size_t : ℕ → ℕ
size_t n = n % 2 ^ 64

abbrev pub default_page_size : ℕ
default_page_size = 64 * 1024

abbrev pub page_at : ℕ → ℕ → Page
page_at address cap = record { base = address; used = 0; capacity = cap }

unfoldable pub arena_create : (ℕ → ℕ) → ℕ → Arena
arena_create malloc page_size =
    let size = if ltb 0 page_size then page_size else default_page_size in
    record { first = page_at (malloc size) size; rest = []; page_size = size; total_allocated = 0 }

-- The least multiple of the page size that `min_size` bytes fit in, if they exceed a page.
unfoldable pub new_capacity : ℕ → ℕ → ℕ
new_capacity page_size min_size =
    if ltb page_size min_size
    then size_t (size_t (min_size + page_size - 1) / page_size * page_size)
    else page_size

unfoldable pub arena_new_page : (ℕ → ℕ) → Arena → ℕ → Page
unfolding new_capacity
arena_new_page malloc a min_size =
    let cap = new_capacity a.page_size min_size in page_at (malloc cap) cap

-- The first aligned address that is not in use.
unfoldable pub aligned : ℕ → Page → ℕ
aligned k p = size_t (p.base + p.used + 2 ^ k - 1) / 2 ^ k * 2 ^ k

abbrev pub padding : ℕ → Page → ℕ
padding k p = size_t (aligned k p + 2 ^ 64 - size_t (p.base + p.used))

abbrev pub fits : ℕ → ℕ → Page → Bool
fits size k p = not (ltb p.capacity (size_t (p.used + padding k p + size)))

-- The allocation from the first page.
abbrev pub bump : ℕ → ℕ → Arena → ℕ × Arena
bump size k a =
    let taken = padding k a.first + size in
    (
      aligned k a.first,
      record a {
        first = record a.first { used = size_t (a.first.used + taken) };
        total_allocated = size_t (a.total_allocated + taken);
      },
    )

-- The page that is put in front if the allocation does not fit in the first one.
abbrev pub make_room : (ℕ → ℕ) → ℕ → ℕ → Arena → Arena
make_room malloc size k a = if fits size k a.first then a else record a {
  first = arena_new_page malloc a (size_t (size + 2 ^ k));
  rest = a.first ∷ a.rest;
}

unfoldable pub arena_alloc_aligned : (ℕ → ℕ) → ℕ → ℕ → Arena → Option ℕ × Arena
unfolding aligned arena_new_page
arena_alloc_aligned malloc size k a =
    if size == 0
    then (none, a)
    else (let r = bump size k (make_room malloc size k a) in (some r.0, r.1))

-- Aligned to `sizeof(void *)`.
unfoldable pub arena_alloc : (ℕ → ℕ) → ℕ → Arena → Option ℕ × Arena
unfolding arena_alloc_aligned
arena_alloc malloc size a = arena_alloc_aligned malloc size 3 a

-- The overflow check of `arena_calloc`.
abbrev pub overflows : ℕ → ℕ → Bool
overflows count elem_size =
    not (count == 0) && not (size_t (count * elem_size) / count == elem_size)

-- None where the program ends because the product does not fit in a `size_t`.
unfoldable pub arena_calloc : (ℕ → ℕ) → ℕ → ℕ → Arena → Option (Option ℕ × Arena)
unfolding arena_alloc
arena_calloc malloc count elem_size a =
    if overflows count elem_size
    then none
    else some (arena_alloc malloc (size_t (count * elem_size)) a)

-- The pages behind the first one are freed.
unfoldable pub arena_reset : Arena → Arena
arena_reset a = record a { first = record a.first { used = 0 }; rest = []; total_allocated = 0 }

abbrev pub arena_used : Arena → ℕ
arena_used a = a.total_allocated
