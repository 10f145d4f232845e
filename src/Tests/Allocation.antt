-- ===== src/Tests/Allocation.antt =====
-- The arena at concrete sizes.
use vortech.Prelude.{ℕ, ◌*◌, ◌^◌, ◌≡◌, refl, arith, some, none, [], ltb, if◌then◌else◌}
use vortech.Arena.{
  Arena, arena_create, arena_alloc_aligned, arena_alloc, arena_calloc, arena_reset, arena_used,
  aligned, arena_new_page, new_capacity,
}
use vortech.Arena.Bounds.{
  IsMalloc, IsValid, IsAllocated, sum_used, arena_alloc_aligned-IsAllocated, arena_reset-IsValid,
}
use vortech.Arena.Products.{arena_calloc-exact}

-- Every block begins at 4096, or at 0 if it is huge.
abbrev malloc : ℕ → ℕ
malloc n = if ltb n (2 ^ 62) then 4096 else 0

malloc-IsMalloc : IsMalloc malloc
malloc-IsMalloc n few = ground arith

-- Pages of 64 bytes, 10 of them in use.
abbrev small_pages : Arena
small_pages = record {
  first = record { base = 4096; used = 10; capacity = 64 };
  rest = [];
  page_size = 64;
  total_allocated = 10;
}

small_pages-IsValid : IsValid small_pages
unfolding sum_used
small_pages-IsValid = record {
  first = (omega arith, omega arith);
  rest = tt;
  pos = omega arith;
  small = omega arith;
  total = refl;
}

-- Six bytes are left out before the block.
alloc_runs : (arena_alloc malloc 20 small_pages).0 ≡ some 4112
unfolding arena_alloc arena_alloc_aligned aligned
alloc_runs = refl

-- A block of 100 bytes gets a page of 128.
alloc_grows : (arena_alloc malloc 100 small_pages).1.first.capacity ≡ 128
unfolding arena_alloc arena_alloc_aligned aligned arena_new_page new_capacity
alloc_grows = refl

arena_alloc_aligned-IsAllocated_example :
    IsAllocated 100 3 small_pages (arena_alloc_aligned malloc 100 3 small_pages)
arena_alloc_aligned-IsAllocated_example =
    arena_alloc_aligned-IsAllocated malloc 100 3 small_pages malloc-IsMalloc small_pages-IsValid
      (omega arith) (omega arith) (omega arith)

arena_reset-IsValid_example :
    IsValid (arena_create malloc 0)
    × IsValid (arena_reset small_pages)
    × (arena_used (arena_reset small_pages) ≡ 0)
arena_reset-IsValid_example =
    arena_reset-IsValid malloc 0 small_pages malloc-IsMalloc (omega arith) small_pages-IsValid

arena_calloc-exact_example : arena_calloc malloc (2 ^ 33) (2 ^ 33) small_pages ≡ (
    if ltb (2 ^ 33 * 2 ^ 33) (2 ^ 64)
    then some (arena_alloc malloc (2 ^ 33 * 2 ^ 33) small_pages)
    else none)
arena_calloc-exact_example = arena_calloc-exact malloc (2 ^ 33) (2 ^ 33) small_pages
