-- ===== src/Allocator/Tests.antt =====
-- The functions of c/c_lab07_b.c at concrete inputs, and the theorems on them.
use posix_intro.Common.{
  whole_pages, ℕ, ◌+◌, ◌≤◌, ◌<◌, ◌≡◌, refl, none, some, List, [], ◌∷◌, arith, get_or, length, All,
}
use posix_intro.Allocator.{
  null, map_failed, at, class_sizes, arr_heap, find_heap, returned, segfault, header_size,
  my_malloc, Call, test_malloc,
}
use posix_intro.Allocator.Classes.{sizes, counters, IsFirst, find_heap-smallest}
use posix_intro.Allocator.Blocks.{
  total, Counted, my_malloc-returns, my_malloc-segfaults, my_malloc-refuses, my_malloc-overruns,
  IsBlock, test_malloc-counts,
}

hundred : (my_malloc (at 4096) (at 8192) 100 arr_heap).0 ≡ returned (at 8200) (some (8192, 4))
unfolding my_malloc
hundred = refl

find_heap-smallest_example :
    let found = (find_heap (at 4096) 100 arr_heap).0 in
    (0x7f000000 < 100 → found ≡ none)
    × (100 ≤ 0x7f000000
        → (i : ℕ) × (found ≡ some i)
          × (100 ≤ get_or class_sizes i 0)
          × ((j : ℕ)
              → j < length class_sizes
              → 100 ≤ get_or class_sizes j 0
              → get_or class_sizes i 0 ≤ get_or class_sizes j 0))
find_heap-smallest_example = find_heap-smallest (at 4096) 100 arr_heap refl refl

my_malloc-returns_example :
    (i : ℕ) × IsFirst 100 class_sizes i
    × ((my_malloc (at 4096) (at 8192) 100 arr_heap).0
        ≡ returned (at (8192 + header_size)) (some (8192, i)))
    × Counted i arr_heap (my_malloc (at 4096) (at 8192) 100 arr_heap).1
my_malloc-returns_example = my_malloc-returns (at 4096) 100 arr_heap refl refl 8192 (omega arith)

my_malloc-segfaults_test : (my_malloc (at 4096) map_failed 100 arr_heap).0 ≡ segfault
my_malloc-segfaults_test = my_malloc-segfaults (at 4096) 100 arr_heap refl refl (omega arith)

huge_refused :
    ((my_malloc (at 4096) (at 8192) 0x7f000001 arr_heap).0 ≡ returned null none)
    × (counters (my_malloc (at 4096) (at 8192) 0x7f000001 arr_heap).1 ≡ counters arr_heap)
huge_refused = my_malloc-refuses (at 4096) 0x7f000001 arr_heap refl refl (at 8192) (omega arith)

-- A request of 4096 bytes gets a block of 4096, with 4088 behind the header.
my_malloc-overruns_example :
    (q : ℕ) × ((my_malloc (at 4096) (at 8192) 4096 arr_heap).0 ≡ returned (at q) (some (8192, 9)))
    × (8192 + whole_pages 4096 < q + 4096)
my_malloc-overruns_example =
    my_malloc-overruns (at 4096) 4096 arr_heap refl refl 8192 9 (omega arith) refl (omega arith)
      (omega arith)

abbrev two_calls : List Call
two_calls =
    record { random = 5; first = at 4096; second = at 8192 }
    ∷ record { random = 300; first = at 12288; second = at 16384 }
    ∷ []

test_malloc-counts_example :
    let (ms, hs') = test_malloc two_calls arr_heap in
    All IsBlock ms
    × (length ms ≡ length two_calls)
    × (total (counters hs') ≡ total (counters arr_heap) + length two_calls)
    × (sizes hs' ≡ class_sizes)
test_malloc-counts_example =
    test_malloc-counts two_calls arr_heap refl ((refl, (8192, refl)), ((refl, (16384, refl)), tt))
