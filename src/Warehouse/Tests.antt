-- ===== src/Warehouse/Tests.antt =====
-- The functions of c/c_lab05_b.c at concrete inputs, and the theorems on concrete runs.
use posix_intro.Common.{
  ℕ, ◌+◌, ◌≤◌, ◌<◌, ◌≡◌, ◌≢◌, refl, ℤ, pos, some, List, [], ◌∷◌, ◌++◌, arith, length, get_or,
}
use posix_intro.Semaphore.Counting.{counting}
use posix_intro.Warehouse.{
  buffer_len, empty_store, produce, add_to_buffer, remove_from_buffer, print_buffer, print_item,
}
use posix_intro.Warehouse.Queue.{Event, replay, added_items, taken_items}
use posix_intro.Warehouse.Ring.{IsItem, IsFree, Holds}
use posix_intro.Warehouse.System.{System, Step, no_th, n_producers}
use posix_intro.Warehouse.Safety.{
  run-refines, fifo_order, mutual_exclusion, adding-finds-IsFree, removing-finds-IsItem,
}
use posix_intro.Warehouse.Display.{stars, stars-count_items, print_item-produce}
use posix_intro.Warehouse.Progress.{deadlock_free}
use posix_intro.Warehouse.Schedule.{
  run, stored_one, about_to_add, about_to_take, two_stored_one_taken,
}

show_after_take :
    (print_buffer
      (remove_from_buffer (add_to_buffer (pos 7) (add_to_buffer (pos 4) empty_store))).1).1
    ≡ b'[' ∷ b'+' ∷ b'*' ∷ b'0' ∷ b'0' ∷ b'0' ∷ b'0' ∷ b'0' ∷ b'0' ∷ b'0' ∷ b'0' ∷ b']' ∷ []
unfolding print_buffer remove_from_buffer add_to_buffer
show_after_take = refl

two_stored_one_taken-items :
    (added_items two_stored_one_taken.events ≡ pos 2 ∷ pos 3 ∷ [])
    × (taken_items two_stored_one_taken.events ≡ pos 2 ∷ [])
unfolding run added_items taken_items produce remove_from_buffer print_buffer add_to_buffer
two_stored_one_taken-items = (refl, refl)

run-refines_example :
    (q : List ℤ) × (replay two_stored_one_taken.events [] ≡ some q)
    × Holds two_stored_one_taken.last.shared.store q
run-refines_example = run-refines counting two_stored_one_taken.runs

fifo_order_example :
    (q : List ℤ) × (added_items two_stored_one_taken.events
      ≡ taken_items two_stored_one_taken.events ++ q)
    × (length q ≤ buffer_len)
fifo_order_example = fifo_order counting two_stored_one_taken.runs

mutual_exclusion_example : ◌≡◌ {A = ℕ} 1 1
unfolding run
mutual_exclusion_example =
    mutual_exclusion counting about_to_add.runs 1 1 (omega arith) (omega arith) refl refl

adding-finds-IsFree_example :
    (about_to_add.last.shared.store.producer_idx_buff
      < length about_to_add.last.shared.store.buffer)
    × IsFree (
        get_or about_to_add.last.shared.store.buffer
          about_to_add.last.shared.store.producer_idx_buff
          (pos 0))
unfolding run produce
adding-finds-IsFree_example =
    adding-finds-IsFree counting about_to_add.runs 1 (pos 3) (omega arith) refl

removing-finds-IsItem_example :
    (about_to_take.last.shared.store.consumer_idx_buff
      < length about_to_take.last.shared.store.buffer)
    × IsItem (
        get_or about_to_take.last.shared.store.buffer
          about_to_take.last.shared.store.consumer_idx_buff
          (pos 0))
unfolding run
removing-finds-IsItem_example =
    removing-finds-IsItem counting about_to_take.runs 3 (omega arith) refl

stars-count_items_test :
    stars (print_buffer two_stored_one_taken.last.shared.store).1
      + length (taken_items two_stored_one_taken.events)
    ≡ length (added_items two_stored_one_taken.events)
stars-count_items_test = stars-count_items counting two_stored_one_taken.runs

print_item-produce_test :
    (print_item (produce 3) ≢ "other")
    × (print_item (produce 3) ≡ print_item (produce 12) → produce 3 ≡ produce 12)
print_item-produce_test = print_item-produce 3 12

deadlock_free_example :
    (e : Event) × (t : System counting) × Step counting no_th n_producers stored_one.last e t
deadlock_free_example = deadlock_free counting (omega arith) (omega arith) stored_one.runs
