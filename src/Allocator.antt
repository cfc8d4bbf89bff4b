-- ===== src/Allocator.antt =====
-- c/c_lab07_b.c: `my_malloc`, an allocator of size classes over `mmap`. `mmap` is the system's: how
-- it answers is an argument of each function that calls it. The program's second half only calls
-- `rand`, the allocators and `free` in loops; of it `test_malloc` is modelled for `my_malloc`.
pub mod Classes
pub mod Blocks
mod Tests
use posix_intro.Common.{
  ℕ, zero, suc, ◌+◌, ◌*◌, ◌%◌, Bool, true, false, Option, none, some, List, [], ◌∷◌, map, leb,
  if◌then◌else◌,
}

-- A pointer: NULL, `mmap`'s MAP_FAILED, or an address.
pub data Ptr : Type 0 where
  null map_failed : Ptr
  at : (address : ℕ) → Ptr

-- How `p == NULL` answers.
abbrev pub is_null : Ptr → Bool
is_null null = true
is_null _ = false

-- `my_heap`; `counter` counts blocks, and does not reach 2 ^ 64.
pub record MyHeap : Type 0 where
  pub p : Ptr
  pub counter : ℕ
  pub max_size : ℕ

-- The sizes in the initialiser of `arr_heap`.
abbrev pub class_sizes : List ℕ
class_sizes =
    0x00000008 ∷ 0x00000010 ∷ 0x00000020 ∷ 0x00000040 ∷ 0x00000080 ∷ 0x00000100 ∷ 0x00000200
    ∷ 0x00000400 ∷ 0x00000800 ∷ 0x00001000 ∷ 0x00002000 ∷ 0x00004000 ∷ 0x00008000 ∷ 0x00010000
    ∷ 0x00020000 ∷ 0x00040000 ∷ 0x00080000 ∷ 0x00100000 ∷ 0x00200000 ∷ 0x00400000 ∷ 0x00800000
    ∷ 0x01000000 ∷ 0x02000000 ∷ 0x04000000 ∷ 0x08000000 ∷ 0x10000000 ∷ 0x20000000 ∷ 0x40000000
    ∷ 0x7f000000 ∷ []

abbrev pub unused : ℕ → MyHeap
unused size = record { p = null; counter = 0; max_size = size }

-- `arr_heap`
abbrev pub arr_heap : List MyHeap
arr_heap = map unused class_sizes

-- `find_heap` from the class number `k` on, `reply` being what its call of `mmap` returns: the
-- number of the class that it points to, and the classes left.
pub find_from : Ptr → ℕ → ℕ → List MyHeap → Option ℕ × List MyHeap
find_from reply size k [] = (none, [])
find_from reply size k (h ∷ hs) =
    let (rest, hs') = find_from reply size (suc k) hs in
    if leb size h.max_size
    then (if is_null h.p
        then (if is_null reply then none else some k, record h { p = reply } ∷ hs)
        else (some k, h ∷ hs))
    else (rest, h ∷ hs')

-- `find_heap`
pub find_heap : Ptr → ℕ → List MyHeap → Option ℕ × List MyHeap
unfolding find_from
find_heap reply size hs = find_from reply size 0 hs

-- `p->counter++` for the class number `k`.
pub count_block : ℕ → List MyHeap → List MyHeap
count_block k [] = []
count_block zero (h ∷ hs) = record h { counter = h.counter + 1 } ∷ hs
count_block (suc k) (h ∷ hs) = h ∷ count_block k hs

-- What `my_malloc` does: it returns a pointer, having written the number of the class, if any, as
-- a pointer at the start of the block; or it writes through a pointer that is no address.
pub data Malloc : Type 0 where
  returned : (result : Ptr) → (header : Option (ℕ × ℕ)) → Malloc
  segfault : Malloc

-- sizeof(my_heap *)
abbrev pub header_size : ℕ
header_size = 8

-- The end of `my_malloc`, once `find_heap` has found class `k` and `mmap` has returned `tmp`.
pub start_block : ℕ → Ptr → List MyHeap → Malloc × List MyHeap
start_block k null hs = (returned null none, hs)
start_block k map_failed hs = (segfault, count_block k hs)
start_block k (at address) hs =
    (returned (at (address + header_size)) (some (address, k)), count_block k hs)

-- The part of `my_malloc` behind its call of `find_heap`.
pub use_class : Ptr → Option ℕ × List MyHeap → Malloc × List MyHeap
unfolding start_block count_block
use_class tmp (none, hs) = (returned null none, hs)
use_class tmp (some k, hs) = start_block k tmp hs

-- `my_malloc`: `first` and `second` are what the calls of `mmap` in `find_heap` and in `my_malloc`
-- itself return.
pub my_malloc : Ptr → Ptr → ℕ → List MyHeap → Malloc × List MyHeap
unfolding use_class find_heap
my_malloc first second size hs = use_class second (find_heap first size hs)

-- A call that `test_malloc` makes: the size that it draws, and the answers of `mmap`.
pub record Call : Type 0 where
  pub random : ℕ
  pub first : Ptr
  pub second : Ptr

-- CHAR_MAX
abbrev pub char_max : ℕ
char_max = 127

-- `test_malloc(my_malloc)`: the entries of `arr` and the classes left, a call for each entry.
pub test_malloc : List Call → List MyHeap → List Malloc × List MyHeap
unfolding my_malloc
test_malloc [] hs = ([], hs)
test_malloc (c ∷ cs) hs =
    let (m, hs') = my_malloc c.first c.second (c.random % char_max) hs in
    let (ms, hs'') = test_malloc cs hs' in (m ∷ ms, hs'')
