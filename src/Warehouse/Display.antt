-- ===== src/Warehouse/Display.antt =====
-- What c/c_lab05_b.c shows: the stars of `print_buffer`, and the names of `print_item`.
use Prim.Native.String.{String}
use text.Mathlib.Text.{◌==◌ as str_eq}
use posix_intro.Common.{
  ℕ, zero, suc, ◌+◌, ◌%◌, ◌≤◌, ◌<◌, ◌≡◌, ◌≢◌, refl, ℤ, pos, negsuc, List, [], ◌∷◌, ◌++◌, arith,
  length, length-append, get_or, ◌==◌, if◌then◌else◌, ap, dec_lt,
}
use posix_intro.Semaphore.{SemaphoreApi}
use posix_intro.Warehouse.{
  buffer_len, Store, produce, print_slot, print_slots, print_buffer, item_name, print_item,
}
use posix_intro.Warehouse.Queue.{Event, added_items, taken_items}
use posix_intro.Warehouse.Ring.{IsItem, IsFree, slot, Holds, All-get_or}
use posix_intro.Warehouse.System.{System, Runs}
use posix_intro.Warehouse.Safety.{run-refines, replay-items}

-- How often `*` stands in what is written.
abbrev pub stars : List ℕ → ℕ
stars [] = 0
stars (c ∷ cs) = (if c == b'*' then 1 else 0) + stars cs

-- 1 for a slot that `print_buffer` shows as taken.
abbrev taken_slot : ℤ → ℕ
taken_slot (pos zero) = 0
taken_slot (negsuc zero) = 0
taken_slot _ = 1

taken_slot_of_item : (x : ℤ) → IsItem x → taken_slot x ≡ 1
taken_slot_of_item (pos zero) h = absurd (omega arith)
taken_slot_of_item (pos (suc n)) h = refl
taken_slot_of_item (negsuc n) h = elim h [ ]

taken_slot_of_free : (x : ℤ) → IsFree x → taken_slot x ≡ 0
taken_slot_of_free (pos zero) h = refl
taken_slot_of_free (pos (suc n)) h = absurd (omega arith)
taken_slot_of_free (negsuc zero) h = refl
taken_slot_of_free (negsuc (suc n)) h = absurd (omega arith)

sum_below : ℕ → (ℕ → ℕ) → ℕ
sum_below zero f = 0
sum_below (suc n) f = sum_below n f + f n

-- Dropping the first term and adding the next one.
sum_below-shift : (n : ℕ) (f : ℕ → ℕ) → sum_below n (λ k. f (suc k)) + f 0 ≡ sum_below n f + f n
unfolding sum_below
sum_below-shift zero f = refl
sum_below-shift (suc n) f = omega (arith, sum_below-shift n f)

sum_below_congr :
    (n : ℕ) (f g : ℕ → ℕ) → ((k : ℕ) → k < n → f k ≡ g k) → sum_below n f ≡ sum_below n g
unfolding sum_below
sum_below_congr zero f g h = refl
sum_below_congr (suc n) f g h =
    omega (arith, h n (omega arith), sum_below_congr n f g (λ k lt. h k (omega arith)))

-- Going once round the ring gives the same sum wherever it starts.
sum_round :
    (f : ℕ → ℕ) (c : ℕ)
    → sum_below buffer_len (λ k. f ((c + k) % buffer_len)) ≡ sum_below buffer_len f
sum_round f zero = sum_below_congr buffer_len _ f (λ k lt. ap f (omega arith))
sum_round f (suc c) =
    let wrap : (c + buffer_len) % buffer_len ≡ (c + 0) % buffer_len = omega arith in
    omega (
      arith,
      sum_round f c,
      sum_below-shift buffer_len (λ k. f ((c + k) % buffer_len)),
      sum_below_congr buffer_len (λ k. f ((suc c + k) % buffer_len))
          (λ k. f ((c + suc k) % buffer_len)) (λ k lt. ap f (omega arith)),
      ap f wrap,
    )

-- The first `n` terms are 1 and the others 0.
sum_step :
    (m n : ℕ) (f : ℕ → ℕ)
    → n ≤ m
    → ((k : ℕ) → k < n → f k ≡ 1)
    → ((k : ℕ) → n ≤ k → k < m → f k ≡ 0)
    → sum_below m f ≡ n
unfolding sum_below
sum_step zero n f h ones zeros = omega arith
sum_step (suc m) n f h ones zeros = elim (dec_lt m n) [
  | yes all ↦ omega (
    arith,
    ones m all,
    sum_step m m f (omega arith) (λ k lt. ones k (omega arith)) (λ k ge lt. absurd (omega arith)),
  )
  | no part ↦ omega (
    arith,
    zeros m (omega arith) (omega arith),
    sum_step m n f (omega arith) ones (λ k ge lt. zeros k ge (omega arith)),
  )
]

print_slot-star : (x : ℤ) → (if (print_slot x).1 == b'*' then 1 else 0) ≡ taken_slot x
unfolding print_slot
print_slot-star (pos zero) = refl
print_slot-star (pos (suc n)) = refl
print_slot-star (negsuc zero) = refl
print_slot-star (negsuc (suc n)) = refl

sum_of_list :
    (xs : List ℤ)
    → sum_below (length xs) (λ j. taken_slot (get_or xs j (pos 0))) ≡ stars (print_slots xs).1
unfolding sum_below print_slots
sum_of_list [] = refl
sum_of_list (x ∷ xs) = omega (
  arith,
  print_slot-star x,
  sum_of_list xs,
  sum_below-shift (length xs) (λ j. taken_slot (get_or (x ∷ xs) j (pos 0))),
)

stars-append : (cs ds : List ℕ) → stars (cs ++ ds) ≡ stars cs + stars ds
stars-append [] ds = omega arith
stars-append (c ∷ cs) ds = omega (arith, stars-append cs ds)

length-shown : (xs : List ℤ) → length (print_slots xs).1 ≡ length xs
unfolding print_slots
length-shown [] = refl
length-shown (x ∷ xs) = ap suc (length-shown xs)

-- `print_buffer` writes a bracket, a character for each slot and a bracket, with a star for each
-- item of the queue.
pub print_buffer-shows :
    (s : Store) (q : List ℤ)
    → Holds s q
    → (stars (print_buffer s).1 ≡ length q) × (length (print_buffer s).1 ≡ buffer_len + 2)
unfolding print_buffer
print_buffer-shows s q h = (
  omega (
    arith,
    stars-append (print_slots s.buffer).1 (b']' ∷ []),
    sum_of_list s.buffer,
    h.whole,
    ap (λ n. sum_below n (λ j. taken_slot (get_or s.buffer j (pos 0)))) h.whole,
    sum_round (λ j. taken_slot (get_or s.buffer j (pos 0))) s.consumer_idx_buff,
    in_order,
  ),
  omega (arith, length-append (print_slots s.buffer).1 (b']' ∷ []), length-shown s.buffer, h.whole),
)
  where
    in_order : sum_below buffer_len (λ k. taken_slot (slot s k)) ≡ length q
    in_order =
        sum_step buffer_len (length q) (λ k. taken_slot (slot s k)) h.fits
          (λ k lt. taken_slot_of_item (slot s k) (rw (h.same k lt) (All-get_or q k h.items lt)))
          (λ k ge lt. taken_slot_of_free (slot s k) (h.free k ge lt))

module _ (api : SemaphoreApi) {n trucks : ℕ} {es : List Event} {s : System api} where
  -- At any time `print_buffer` would show as many stars as items were added and not yet taken.
  pub stars-count_items :
      Runs api n trucks es s
      → stars (print_buffer s.shared.store).1 + length (taken_items es) ≡ length (added_items es)
  stars-count_items r =
      let (q, ran, holds) = run-refines api r in
      omega (
        arith,
        print_buffer-shows s.shared.store q holds,
        length-append (taken_items es) q,
        ap length (replay-items es [] q ran),
      )

-- The item of a name, and 0 for any other text.
item_number : String → ℕ
item_number name =
    if str_eq name "hat"
    then 1
    else if str_eq name "phone"
    then 2
    else if str_eq name "dress"
    then 3
    else if str_eq name "pants"
    then 4
    else if str_eq name "shoes"
    then 5
    else if str_eq name "burrito"
    then 6
    else if str_eq name "sushi"
    then 7
    else if str_eq name "sandals"
    then 8
    else if str_eq name "pc"
    then 9
    else 0

item_number-item_name : (n : ℕ) → 0 < n → n ≤ 9 → item_number (item_name n) ≡ n
unfolding item_number item_name
item_number-item_name zero h k = elim h [ ]
item_number-item_name (suc zero) h k = refl
item_number-item_name (suc (suc zero)) h k = refl
item_number-item_name (suc (suc (suc zero))) h k = refl
item_number-item_name (suc (suc (suc (suc zero)))) h k = refl
item_number-item_name (suc (suc (suc (suc (suc zero))))) h k = refl
item_number-item_name (suc (suc (suc (suc (suc (suc zero)))))) h k = refl
item_number-item_name (suc (suc (suc (suc (suc (suc (suc zero))))))) h k = refl
item_number-item_name (suc (suc (suc (suc (suc (suc (suc (suc zero)))))))) h k = refl
item_number-item_name (suc (suc (suc (suc (suc (suc (suc (suc (suc zero))))))))) h k = refl
item_number-item_name (suc (suc (suc (suc (suc (suc (suc (suc (suc (suc n)))))))))) h k =
    absurd (omega arith)

item_number-other : item_number "other" ≡ 0
unfolding item_number
item_number-other = refl

-- What `produce` makes has a name of its own, which is not the default one: two draws of `rand()`
-- give the same name exactly when they give the same item.
pub print_item-produce :
    (r t : ℕ)
    → (print_item (produce r) ≢ "other")
      × (print_item (produce r) ≡ print_item (produce t) → produce r ≡ produce t)
unfolding print_item produce
print_item-produce r t = (
  λ e. absurd (omega (arith, number r, ap item_number e, item_number-other)),
  λ e. ap pos (omega (arith, number r, number t, ap item_number e)),
)
  where
    number : (x : ℕ) → item_number (item_name (x % 9 + 1)) ≡ x % 9 + 1
    number x = item_number-item_name (x % 9 + 1) (omega arith) (omega arith)
