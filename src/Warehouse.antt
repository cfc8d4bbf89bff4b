-- ===== src/Warehouse.antt =====
-- c/c_lab05_b.c: the warehouse. This file has the shared buffer and the functions on it; the
-- threads are in Warehouse.System. The semaphores come from posix_semaphore.h (Semaphore).
pub mod Queue
pub mod Ring
pub mod System
pub mod Invariant
pub mod Safety
pub mod Display
pub mod Progress
mod Schedule
mod Tests
use Prim.Native.String.{String}
use posix_intro.Common.{
  ℕ, zero, suc, ◌+◌, ◌%◌, ℤ, pos, negsuc, List, [], ◌∷◌, ◌++◌, ◌==◌, if◌then◌else◌, get_or, set,
  replicate,
}

-- BUFFER_LEN
abbrev pub buffer_len : ℕ
buffer_len = 10

-- The file's static variables `buffer`, `producer_idx_buff` and `consumer_idx_buff`. The indices
-- are an int32_t that never is negative.
pub record Store : Type 0 where
  pub buffer : List ℤ
  pub producer_idx_buff : ℕ
  pub consumer_idx_buff : ℕ

-- Their initial values.
abbrev pub empty_store : Store
empty_store = record {
  buffer = replicate buffer_len (pos 0);
  producer_idx_buff = 0;
  consumer_idx_buff = 0;
}

-- `produce`, given what `rand()` returns, which is not negative.
unfoldable pub produce : ℕ → ℤ
produce r = pos (r % 9 + 1)

-- `add_to_buffer`
unfoldable pub add_to_buffer : ℤ → Store → Store
add_to_buffer item s = record s {
  buffer = set s.buffer s.producer_idx_buff item;
  producer_idx_buff = (s.producer_idx_buff + 1) % buffer_len;
}

-- `remove_from_buffer`: the item returned, and the store left.
unfoldable pub remove_from_buffer : Store → ℤ × Store
remove_from_buffer s = (
  get_or s.buffer s.consumer_idx_buff (pos 0),
  record s {
    buffer = set s.buffer s.consumer_idx_buff (negsuc 0);
    consumer_idx_buff = (s.consumer_idx_buff + 1) % buffer_len;
  },
)

-- One round of the loop in `print_buffer`: the slot left, and the character written.
pub print_slot : ℤ → ℤ × ℕ
print_slot (pos zero) = (pos 0, b'0')
print_slot (negsuc zero) = (pos 0, b'+')
print_slot slot = (slot, b'*')

-- The loop over the slots.
pub print_slots : List ℤ → List ℤ × List ℕ
unfolding print_slot
print_slots [] = ([], [])
print_slots (slot ∷ slots) =
    let (slot', c) = print_slot slot in
    let (slots', cs) = print_slots slots in (slot' ∷ slots', c ∷ cs)

-- `print_buffer`: the store left, and the characters written.
unfoldable pub print_buffer : Store → Store × List ℕ
unfolding print_slots
print_buffer s =
    let (slots, cs) = print_slots s.buffer in (record s { buffer = slots }, b'[' ∷ cs ++ b']' ∷ [])

-- The `switch` of `print_item`, for a positive item.
pub item_name : ℕ → String
item_name item =
    if item == 1
    then "hat"
    else if item == 2
    then "phone"
    else if item == 3
    then "dress"
    else if item == 4
    then "pants"
    else if item == 5
    then "shoes"
    else if item == 6
    then "burrito"
    else if item == 7
    then "sushi"
    else if item == 8
    then "sandals"
    else if item == 9
    then "pc"
    else "other"

-- `print_item`
pub print_item : ℤ → String
unfolding item_name
print_item (pos item) = item_name item
print_item (negsuc item) = "other"
