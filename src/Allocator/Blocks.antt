-- ===== src/Allocator/Blocks.antt =====
-- The blocks that `my_malloc` of c/c_lab07_b.c hands out.
use posix_intro.Common.{
  whole_pages, ℕ, zero, suc, ◌+◌, ◌%◌, ◌≤◌, ◌<◌, ◌≡◌, ◌≢◌, refl, false, Option, none, some, List,
  [], ◌∷◌, arith, get_or, inl, inr, length, All, ap, ◌∙◌, dec_lt,
}
use posix_intro.Allocator.{
  Ptr, null, map_failed, at, is_null, MyHeap, class_sizes, find_heap, count_block, Malloc, returned,
  segfault, header_size, start_block, use_class, my_malloc, Call, char_max, test_malloc,
}
use posix_intro.Allocator.Classes.{
  sizes, counters, IsFirst, find_heap-IsFirst, find_heap-smallest, class_sizes_gap,
  class_sizes_mono,
}

-- How many blocks the classes have counted.
abbrev pub total : List ℕ → ℕ
total [] = 0
total (c ∷ cs) = c + total cs

count_block-total :
    (k : ℕ) (hs : List MyHeap)
    → k < length (sizes hs)
    → (total (counters (count_block k hs)) ≡ total (counters hs) + 1)
      × (get_or (counters (count_block k hs)) k 0 ≡ get_or (counters hs) k 0 + 1)
      × ((j : ℕ) → j ≢ k → get_or (counters (count_block k hs)) j 0 ≡ get_or (counters hs) j 0)
unfolding count_block
count_block-total k [] h = elim h [ ]
count_block-total zero (h ∷ hs) lt = (omega arith, refl, other)
  where
    other :
        (j : ℕ)
        → j ≢ 0
        → get_or ((h.counter + 1) ∷ counters hs) j 0 ≡ get_or (h.counter ∷ counters hs) j 0
    other zero ne = absurd (ne refl)
    other (suc j) ne = refl
count_block-total (suc k) (h ∷ hs) lt =
    let (sum, here, others) = count_block-total k hs (omega arith) in
    (omega arith, here, other others)
  where
    other :
        ((j : ℕ) → j ≢ k → get_or (counters (count_block k hs)) j 0 ≡ get_or (counters hs) j 0)
        → (j : ℕ) → j ≢ suc k
        → get_or (h.counter ∷ counters (count_block k hs)) j 0
          ≡ get_or (h.counter ∷ counters hs) j 0
    other rest zero ne = refl
    other rest (suc j) ne = rest j (λ e. ne (ap suc e))

sizes-count_block : (k : ℕ) (hs : List MyHeap) → sizes (count_block k hs) ≡ sizes hs
unfolding count_block
sizes-count_block k [] = refl
sizes-count_block zero (h ∷ hs) = refl
sizes-count_block (suc k) (h ∷ hs) = ap (λ s. h.max_size ∷ s) (sizes-count_block k hs)

-- What a call does to the classes when it counts a block of class `i`.
pub record Counted (i : ℕ) (hs hs' : List MyHeap) : Type 0 where
  pub same_sizes : sizes hs' ≡ sizes hs
  pub one_more : get_or (counters hs') i 0 ≡ get_or (counters hs) i 0 + 1
  pub others : (j : ℕ) → j ≢ i → get_or (counters hs') j 0 ≡ get_or (counters hs) j 0
  pub sum : total (counters hs') ≡ total (counters hs) + 1

count_block-Counted :
    (i : ℕ) (hs hs' : List MyHeap)
    → sizes hs' ≡ sizes hs
    → counters hs' ≡ counters hs
    → i < length (sizes hs)
    → Counted i hs (count_block i hs')
count_block-Counted i hs hs' s c lt =
    let (sum, here, others) = count_block-total i hs' (rw s lt) in
    record {
      same_sizes = sizes-count_block i hs' ∙ s;
      one_more = rw (here, c);
      others = λ j ne. others j ne ∙ ap (λ cs. get_or cs j 0) c;
      sum = rw (sum, c);
    }

-- What `find_heap` has done when a request fits class `i`.
record Chosen (first : Ptr) (size : ℕ) (hs : List MyHeap) (i : ℕ) : Type 0 where
  found : (find_heap first size hs).0 ≡ some i
  is_first : IsFirst size (sizes hs) i
  same_sizes : sizes (find_heap first size hs).1 ≡ sizes hs
  same_counters : counters (find_heap first size hs).1 ≡ counters hs

choose :
    (first : Ptr) (size : ℕ) (hs : List MyHeap)
    → is_null first ≡ false
    → sizes hs ≡ class_sizes
    → size ≤ 0x7f000000
    → (i : ℕ) × Chosen first size hs i
choose first size hs ok e small =
    let (cases, s, c) = find_heap-IsFirst first size hs ok in
    elim cases [
      | inl (missing, all) ↦ absurd (omega (arith, (rw e at all) 28 (omega arith)))
      | inr (i, here, is_first) ↦
          (i, record { found = here; is_first = is_first; same_sizes = s; same_counters = c })
    ]

use_class_of_some :
    (tmp : Ptr) (r : Option ℕ × List MyHeap) (k : ℕ)
    → r.0 ≡ some k
    → use_class tmp r ≡ start_block k tmp r.1
unfolding use_class
use_class_of_some tmp (none, hs) k e = absurd (cc)
use_class_of_some tmp (some j, hs) k e = ground arith

use_class_of_none :
    (tmp : Ptr) (r : Option ℕ × List MyHeap)
    → r.0 ≡ none
    → use_class tmp r ≡ (returned null none, r.1)
unfolding use_class
use_class_of_none tmp (none, hs) e = refl
use_class_of_none tmp (some j, hs) e = absurd (cc)

-- A call with the sizes of `arr_heap`, where `mmap` does not return NULL for the class.
module _ (first : Ptr) (size : ℕ) (hs : List MyHeap) (answered : is_null first ≡ false)
    (classes : sizes hs ≡ class_sizes) where
  -- A request that fits some class, when the second `mmap` gives the address `b`, gets the address
  -- behind the block's header, which names the first class that fits; that class counts one block
  -- more, and nothing else of the classes' sizes and counters changes.
  pub my_malloc-returns :
      (b : ℕ)
      → size ≤ 0x7f000000
      → (i : ℕ) × IsFirst size class_sizes i
        × ((my_malloc first (at b) size hs).0 ≡ returned (at (b + header_size)) (some (b, i)))
        × Counted i hs (my_malloc first (at b) size hs).1
  unfolding my_malloc start_block
  my_malloc-returns b small =
      let (i, c) = choose first size hs answered classes small in
      let used = use_class_of_some (at b) (find_heap first size hs) i c.found in
      (
        i,
        rw classes at c.is_first,
        rw used refl,
        rw used (count_block-Counted i hs _ c.same_sizes c.same_counters c.is_first.inside),
      )

  -- A request that fits some class, when the second `mmap` fails, writes through MAP_FAILED: the
  -- comparison with NULL does not notice the failure.
  pub my_malloc-segfaults : size ≤ 0x7f000000 → (my_malloc first map_failed size hs).0 ≡ segfault
  unfolding my_malloc start_block
  my_malloc-segfaults small =
      let (i, c) = choose first size hs answered classes small in
      rw (use_class_of_some map_failed (find_heap first size hs) i c.found) refl

  -- A request larger than every class gets NULL, and no class counts it.
  pub my_malloc-refuses :
      (second : Ptr)
      → 0x7f000000 < size
      → ((my_malloc first second size hs).0 ≡ returned null none)
        × (counters (my_malloc first second size hs).1 ≡ counters hs)
  unfolding my_malloc
  my_malloc-refuses second big =
      let missing = (find_heap-smallest first size hs answered classes).0 big in
      rw (use_class_of_none second (find_heap first size hs) missing)
        (refl, (find_heap-IsFirst first size hs answered).2)

  -- For each class whose size is a whole number of pages of 4096 bytes, and each request that fits it
  -- with less than eight bytes to spare: where the second mmap gives the address `b`, my_malloc
  -- returns an address in a block of this class, and the last byte of the request lies behind
  -- the pages that mmap has given for it.
  pub my_malloc-overruns :
      (b i : ℕ)
      → i < length class_sizes
      → get_or class_sizes i 0 % 4096 ≡ 0
      → size ≤ get_or class_sizes i 0
      → get_or class_sizes i 0 < size + 8
      → (q : ℕ) × ((my_malloc first (at b) size hs).0 ≡ returned (at q) (some (b, i)))
        × (b + whole_pages (get_or class_sizes i 0) < q + size)
  my_malloc-overruns b i inside whole fits close =
      let small : size ≤ 0x7f000000 =
        omega (arith, class_sizes_mono i 28 (omega arith) (omega arith)) in
      let (k, is_first, result, counted) = my_malloc-returns b small in
      let same : k ≡ i = elim (dec_lt k i) [
        | yes below ↦ absurd (omega (arith, is_first.fits, class_sizes_gap k i below inside))
        | no above ↦ elim (dec_lt i k) [
          | yes behind ↦ absurd (omega (arith, is_first.others i behind))
          | no equal ↦ omega arith
        ]
      ] in
      (b + header_size, rw (← same) result, omega arith)

-- A call that returned an address.
abbrev pub IsBlock : Malloc → Type 0
IsBlock (returned (at q) header) = Unit
IsBlock _ = ⊥

-- The calls of `test_malloc` for which `mmap` answers with addresses.
abbrev pub Served : Call → Type 0
Served c = (is_null c.first ≡ false) × ((b : ℕ) × (c.second ≡ at b))

-- `test_malloc(my_malloc)` with working `mmap` calls gives every entry of `arr` a block, and the
-- classes count one block for each.
pub test_malloc-counts :
    (cs : List Call) (hs : List MyHeap)
    → sizes hs ≡ class_sizes
    → All Served cs
    → let (ms, hs') = test_malloc cs hs in
      All IsBlock ms
      × (length ms ≡ length cs)
      × (total (counters hs') ≡ total (counters hs) + length cs)
      × (sizes hs' ≡ class_sizes)
unfolding test_malloc
test_malloc-counts [] hs e ok = (tt, refl, omega arith, e)
test_malloc-counts (c ∷ cs) hs e ok =
    let small : c.random % char_max ≤ 0x7f000000 = omega arith in
    let (b, second) = ok.0.1 in
    let (i, is_first, result, counted) =
      my_malloc-returns c.first (c.random % char_max) hs ok.0.0 e b small in
    let (blocks, len, sum, classes) =
      test_malloc-counts cs (my_malloc c.first (at b) (c.random % char_max) hs).1
        (counted.same_sizes ∙ e) ok.1 in
    rw second ((rw result (tt), blocks), ap suc len, omega (arith, sum, counted.sum), classes)
