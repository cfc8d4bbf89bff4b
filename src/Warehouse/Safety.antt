-- ===== src/Warehouse/Safety.antt =====
-- What c/c_lab05_b.c guarantees in every reachable state, for any number of trucks and workers.
use posix_intro.Common.{
  ℕ, ◌+◌, ◌≤◌, ◌<◌, ◌≡◌, ◌%◌, ℤ, pos, some, List, [], ◌∷◌, ◌++◌, arith, length, get_or,
  append_assoc, append-nil, ℕ_discrete, eq_ℤ→eq,
}
use posix_intro.Common.Threads.{two_weights-le-tally}
use posix_intro.Semaphore.{SemaphoreApi}
use posix_intro.Warehouse.{buffer_len, Store}
use posix_intro.Warehouse.Queue.{Event, added, taken, accept, replay, added_items, taken_items}
use posix_intro.Warehouse.Ring.{IsItem, IsFree, Holds}
use posix_intro.Warehouse.System.{adding, removing, System, Runs}
use posix_intro.Warehouse.Invariant.{locked, count_bounds, Runs-Inv}

-- Items that a run has put in and not yet taken out are its final queue, in order.
pub replay-items :
    (es : List Event) (p q : List ℤ)
    → replay es p ≡ some q
    → p ++ added_items es ≡ taken_items es ++ q
unfolding replay added_items taken_items accept
replay-items [] p q h = ground (arith, append-nil p)
replay-items (added item ∷ es) p q h =
    ground (arith, replay-items es (p ++ item ∷ []) q, append_assoc p (item ∷ []) (added_items es))
replay-items (taken item ∷ es) [] q h = absurd (cc)
replay-items (taken item ∷ es) (oldest ∷ p) q h =
    ground (arith, replay-items es p q, eq_ℤ→eq oldest item)
replay-items (_ ∷ es) p q h = replay-items es p q h

-- The slot that `remove_from_buffer` reads, where something waits.
oldest-IsItem :
    (s : Store) (q : List ℤ)
    → Holds s q
    → 0 < length q
    → IsItem (get_or s.buffer s.consumer_idx_buff (pos 0))
oldest-IsItem s [] h there = elim there [ ]
oldest-IsItem s (oldest ∷ q) h there =
    let here : (s.consumer_idx_buff + 0) % buffer_len ≡ s.consumer_idx_buff =
      omega (arith, h.consumer_in) in
    rw (← here, h.same 0 there) h.items.0

module _ (api : SemaphoreApi) {n trucks : ℕ} {es : List Event} {s : System api} where
  -- Whatever the scheduler does, the puts and takes of a run are those of the bounded queue, and
  -- the buffer holds exactly that queue.
  pub run-refines :
      Runs api n trucks es s → (q : List ℤ) × (replay es [] ≡ some q) × Holds s.shared.store q
  run-refines r = let (q, ran, inv) = Runs-Inv api r in (q, ran, inv.holds)

  -- Items leave in the order in which they came, none is lost or made up, and at most ten wait.
  pub fifo_order :
      Runs api n trucks es s
      → (q : List ℤ) × (added_items es ≡ taken_items es ++ q) × (length q ≤ buffer_len)
  fifo_order r = let (q, ran, holds) = run-refines r in (q, replay-items es [] q ran, holds.fits)

  -- Two threads are never both between the wait on `sem_lock` and its post.
  pub mutual_exclusion :
      Runs api n trucks es s
      → (i j : ℕ) → i < n
      → j < n
      → locked (s.pcs i) ≡ 1
      → locked (s.pcs j) ≡ 1
      → i ≡ j
  mutual_exclusion r i j hi hj li lj =
      let (q, ran, inv) = Runs-Inv api r in
      elim (ℕ_discrete i j) [
        | yes same ↦ same
        | no apart ↦
            absurd
              (omega (arith, inv.counts.lock, two_weights-le-tally locked n s.pcs i j hi hj apart))
      ]

  -- A truck that is about to write finds a slot inside the buffer that holds no item.
  pub adding-finds-IsFree :
      Runs api n trucks es s
      → (i : ℕ) (item : ℤ) → i < n
      → s.pcs i ≡ adding item
      → (s.shared.store.producer_idx_buff < length s.shared.store.buffer)
        × IsFree (get_or s.shared.store.buffer s.shared.store.producer_idx_buff (pos 0))
  adding-finds-IsFree r i item lt at =
      let (q, ran, inv) = Runs-Inv api r in
      let h = inv.holds in
      let room : length q < buffer_len = ground (arith, count_bounds api inv.counts i lt) in
      (omega (arith, h.whole, h.producer_at), ground (arith, h.producer_at, h.free (length q)))

  -- A worker that is about to read finds an item inside the buffer.
  pub removing-finds-IsItem :
      Runs api n trucks es s
      → (i : ℕ) → i < n
      → s.pcs i ≡ removing
      → (s.shared.store.consumer_idx_buff < length s.shared.store.buffer)
        × IsItem (get_or s.shared.store.buffer s.shared.store.consumer_idx_buff (pos 0))
  removing-finds-IsItem r i lt at =
      let (q, ran, inv) = Runs-Inv api r in
      let h = inv.holds in
      let there : 0 < length q = ground (arith, count_bounds api inv.counts i lt) in
      (omega (arith, h.whole, h.consumer_in), oldest-IsItem s.shared.store q h there)
