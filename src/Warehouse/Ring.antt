-- ===== src/Warehouse/Ring.antt =====
-- The ring in `buffer`, `producer_idx_buff` and `consumer_idx_buff` of c/c_lab05_b.c holds a
-- queue, and `add_to_buffer`, `remove_from_buffer` and `print_buffer` act on that queue.
use posix_intro.Common.{
  ℕ, zero, suc, ◌+◌, ◌%◌, ◌≤◌, ◌<◌, ◌≡◌, ◌≢◌, refl, ℤ, pos, negsuc, List, [], ◌∷◌, ◌++◌, arith,
  replicate, length, length-append, length-set, get_or, All, All-append, get_or-set_self,
  get_or-set_ne, dec_lt, ℕ_discrete, ap,
}
use posix_intro.Warehouse.{
  buffer_len, Store, empty_store, produce, add_to_buffer, remove_from_buffer, print_slot,
  print_slots, print_buffer,
}

-- What `produce` makes: a number from 1 to 9.
abbrev pub IsItem : ℤ → Type 0
IsItem (pos n) = (0 < n) × (n ≤ 9)
IsItem (negsuc n) = ⊥

-- A slot without an item: 0, or the mark -1 of a slot that was just emptied.
abbrev pub IsFree : ℤ → Type 0
IsFree (pos n) = n ≡ 0
IsFree (negsuc n) = n ≡ 0

-- The slot `k` places after the oldest item.
abbrev pub slot : Store → ℕ → ℤ
slot s k = get_or s.buffer ((s.consumer_idx_buff + k) % buffer_len) (pos 0)

pub record Holds (s : Store) (q : List ℤ) : Type 0 where
  pub whole : length s.buffer ≡ buffer_len
  pub consumer_in : s.consumer_idx_buff < buffer_len
  pub fits : length q ≤ buffer_len
  pub producer_at : s.producer_idx_buff ≡ (s.consumer_idx_buff + length q) % buffer_len
  pub same : (k : ℕ) → k < length q → slot s k ≡ get_or q k (pos 0)
  pub free : (k : ℕ) → length q ≤ k → k < buffer_len → IsFree (slot s k)
  pub items : All IsItem q

get_or-append_left :
    (q : List ℤ) (x d : ℤ) (k : ℕ) → k < length q → get_or (q ++ x ∷ []) k d ≡ get_or q k d
get_or-append_left [] x d k h = elim h [ ]
get_or-append_left (y ∷ q) x d zero h = refl
get_or-append_left (y ∷ q) x d (suc k) h = get_or-append_left q x d k (omega arith)

get_or-append_last : (q : List ℤ) (x d : ℤ) (k : ℕ) → k ≡ length q → get_or (q ++ x ∷ []) k d ≡ x
get_or-append_last [] x d zero h = refl
get_or-append_last [] x d (suc k) h = absurd (omega arith)
get_or-append_last (y ∷ q) x d zero h = absurd (omega arith)
get_or-append_last (y ∷ q) x d (suc k) h = get_or-append_last q x d k (omega arith)

pub produce-IsItem : (r : ℕ) → IsItem (produce r)
unfolding produce
produce-IsItem r = omega arith

get_or-replicate : (n k : ℕ) → get_or (replicate n (pos 0)) k (pos 0) ≡ pos 0
get_or-replicate zero k = refl
get_or-replicate (suc n) zero = refl
get_or-replicate (suc n) (suc k) = get_or-replicate n k

all_zero : (k : ℕ) → IsFree (slot empty_store k)
all_zero k = rw (get_or-replicate buffer_len ((0 + k) % buffer_len)) refl

pub empty_store-Holds : Holds empty_store []
empty_store-Holds = record {
  whole = refl;
  consumer_in = omega arith;
  fits = omega arith;
  producer_at = refl;
  same = λ k lt. elim lt [ ];
  free = λ k ge lt. all_zero k;
  items = tt;
}

-- With room left, `add_to_buffer` appends the item to the queue.
pub add_to_buffer-Holds :
    (s : Store) (q : List ℤ) (item : ℤ)
    → Holds s q
    → length q < buffer_len
    → IsItem item
    → Holds (add_to_buffer item s) (q ++ item ∷ [])
unfolding add_to_buffer
add_to_buffer-Holds s q item h room good = record {
  whole = omega (arith, h.whole, length-set s.buffer s.producer_idx_buff item);
  consumer_in = h.consumer_in;
  fits = omega (arith, length-append q (item ∷ []));
  producer_at = omega (arith, h.producer_at, length-append q (item ∷ []));
  same = λ k lt. elim (dec_lt k (length q)) [
    | yes old ↦ ground (
      arith,
      h.same k,
      h.producer_at,
      h.consumer_in,
      get_or-append_left q item (pos 0) k,
      get_or-set_ne s.buffer s.producer_idx_buff ((s.consumer_idx_buff + k) % buffer_len) item
          (pos 0),
    )
    | no new ↦ ground (
      arith,
      h.producer_at,
      h.whole,
      length-append q (item ∷ []),
      get_or-append_last q item (pos 0) k,
      get_or-set_self s.buffer s.producer_idx_buff item (pos 0),
    )
  ];
  free = λ k ge lt.
      let more = length-append q (item ∷ []) in
      let apart : s.producer_idx_buff ≢ (s.consumer_idx_buff + k) % buffer_len = omega arith in
      rw (get_or-set_ne s.buffer s.producer_idx_buff _ item (pos 0) apart)
        (h.free k (omega arith) lt);
  items = All-append IsItem q (item ∷ []) h.items (good, tt);
}

-- From a queue with an item, `remove_from_buffer` returns the oldest, and leaves the others.
pub remove_from_buffer-Holds :
    (s : Store) (oldest : ℤ) (q : List ℤ)
    → Holds s (oldest ∷ q)
    → let (item, s') = remove_from_buffer s in (item ≡ oldest) × Holds s' q
unfolding remove_from_buffer
remove_from_buffer-Holds s oldest q h = (
  ground (arith, h.same 0, h.consumer_in),
  record {
    whole = omega (arith, length-set s.buffer s.consumer_idx_buff (negsuc 0));
    consumer_in = omega arith;
    fits = omega arith;
    producer_at = omega (arith, h.producer_at);
    same = λ k lt.
        let apart : s.consumer_idx_buff ≢ place k = omega arith in
        rw (get_or-set_ne s.buffer s.consumer_idx_buff (place k) (negsuc 0) (pos 0) apart, shift k)
          (h.same (suc k) (omega arith));
    free = λ k ge lt. elim (ℕ_discrete s.consumer_idx_buff (place k)) [
      | yes e ↦
          rw (← e, get_or-set_self s.buffer s.consumer_idx_buff (negsuc 0) (pos 0) (omega arith))
            refl
      | no apart ↦
          rw
            (get_or-set_ne s.buffer s.consumer_idx_buff (place k) (negsuc 0) (pos 0) apart, shift k)
            (h.free (suc k) (omega arith) (omega arith))
    ];
    items = h.items.1;
  },
)
  where
    place : ℕ → ℕ
    place k = ((s.consumer_idx_buff + 1) % buffer_len + k) % buffer_len

    shift : (k : ℕ) → place k ≡ (s.consumer_idx_buff + suc k) % buffer_len
    shift k = omega arith

print_slot_of_IsItem : (x : ℤ) → IsItem x → (print_slot x).0 ≡ x
unfolding print_slot
print_slot_of_IsItem (pos zero) h = absurd (omega arith)
print_slot_of_IsItem (pos (suc n)) h = refl
print_slot_of_IsItem (negsuc n) h = elim h [ ]

print_slot_of_IsFree : (x : ℤ) → IsFree x → IsFree (print_slot x).0
unfolding print_slot
print_slot_of_IsFree (pos zero) h = refl
print_slot_of_IsFree (pos (suc n)) h = h
print_slot_of_IsFree (negsuc zero) h = refl
print_slot_of_IsFree (negsuc (suc n)) h = h

length-print_slots : (xs : List ℤ) → length (print_slots xs).0 ≡ length xs
unfolding print_slots
length-print_slots [] = refl
length-print_slots (x ∷ xs) = ap suc (length-print_slots xs)

get_or-print_slots :
    (xs : List ℤ) (j : ℕ)
    → get_or (print_slots xs).0 j (pos 0) ≡ (print_slot (get_or xs j (pos 0))).0
unfolding print_slots
get_or-print_slots [] j = refl
get_or-print_slots (x ∷ xs) zero = refl
get_or-print_slots (x ∷ xs) (suc j) = get_or-print_slots xs j

pub All-get_or : (q : List ℤ) (k : ℕ) → All IsItem q → k < length q → IsItem (get_or q k (pos 0))
All-get_or [] k h lt = elim lt [ ]
All-get_or (x ∷ q) zero h lt = h.0
All-get_or (x ∷ q) (suc k) h lt = All-get_or q k h.1 (omega arith)

-- `print_buffer` clears the marks, and leaves the queue as it is.
pub print_buffer-Holds : (s : Store) (q : List ℤ) → Holds s q → Holds (print_buffer s).0 q
unfolding print_buffer
print_buffer-Holds s q h = record {
  whole = omega (arith, length-print_slots s.buffer);
  consumer_in = h.consumer_in;
  fits = h.fits;
  producer_at = h.producer_at;
  same = λ k lt.
      rw (get_or-print_slots s.buffer ((s.consumer_idx_buff + k) % buffer_len), h.same k lt)
        (print_slot_of_IsItem (get_or q k (pos 0)) (All-get_or q k h.items lt));
  free = λ k ge lt.
      rw (get_or-print_slots s.buffer ((s.consumer_idx_buff + k) % buffer_len))
        (print_slot_of_IsFree (slot s k) (h.free k ge lt));
  items = h.items;
}
