-- ===== src/Warehouse/Invariant.antt =====
-- What holds in every reachable state of c/c_lab05_b.c: the semaphores count the threads at each
-- place (Counts), the buffer holds a queue of items (Contents), and the run's events replay to it.
mod Sums
mod Contents
pub use Sums.{locked, claimed, unposted, promised, vacated, Counts, count_bounds}
pub use Contents.{Inv, Move-Inv, Carries, is_truck, queue_after}
use posix_intro.Common.{
  ℕ, ◌+◌, ◌≤◌, ◌<◌, ◌≡◌, refl, ltb, if◌then◌else◌, Bool, true, false, ℤ, none, some, List, [], ◌∷◌,
  ◌++◌, arith, Bool-cases, length,
}
use posix_intro.Common.Threads.{move, tally, tally-eq-zero}
use posix_intro.Semaphore.{SemaphoreApi, sem_value_max, rk_sema_init}
use posix_intro.Warehouse.{buffer_len, empty_store}
use posix_intro.Warehouse.Ring.{empty_store-Holds}
use posix_intro.Warehouse.Queue.{Event, replay, replay-snoc}
use posix_intro.Warehouse.System.{
  Pc, producing, waits_full, Shared, System, init, init_semaphores, Step, pick, Runs, start, later,
}

module _ (api : SemaphoreApi) where
  open api use {value}

  -- The semaphores that `init_semaphores` makes: no item, ten slots, the lock free.
  pub init_semaphores-value :
      (m : Shared api)
      → let m' = init_semaphores api m in
        (value m'.sem_full ≡ 0)
        × (value m'.sem_empty ≡ buffer_len)
        × (value m'.sem_lock ≡ 1)
        × (m'.store ≡ m.store)
  unfolding init_semaphores
  init_semaphores-value m =
      ground
        (arith, api.sem_init_succeeds 0, api.sem_init_succeeds buffer_len, api.sem_init_succeeds 1)

  abbrev unset : Shared api
  unset = record {
    store = empty_store;
    sem_full = api.zeroed;
    sem_empty = api.zeroed;
    sem_lock = api.zeroed;
  }

  init-Counts : (n trucks : ℕ) → Counts api n (init api trucks).shared (init api trucks).pcs 0
  init-Counts n trucks = omega (
    arith,
    init_semaphores-value unset,
    nobody locked (λ i. ground arith),
    nobody claimed (λ i. ground arith),
    nobody unposted (λ i. ground arith),
    nobody promised (λ i. ground arith),
    nobody vacated (λ i. ground arith),
  )
    where
      nobody :
          (w : Pc → ℕ)
          → ((i : ℕ) → w ((init api trucks).pcs i) ≡ 0)
          → tally w n (init api trucks).pcs ≡ 0
      nobody w h = tally-eq-zero w n (init api trucks).pcs h

  init-Inv : (n trucks : ℕ) → Inv api n trucks (init api trucks).shared (init api trucks).pcs []
  init-Inv n trucks = record {
    counts = init-Counts n trucks;
    holds = rw ((init_semaphores-value (unset)).3) empty_store-Holds;
    carries = λ i. ground arith;
    roles = λ i. ground arith;
  }

  -- A run's events replay to a queue that the state holds.
  pub Runs-Inv :
      {n trucks : ℕ} {es : List Event} {s : System api}
      → Runs api n trucks es s
      → (q : List ℤ) × (replay es [] ≡ some q) × Inv api n trucks s.shared s.pcs q
  unfolding replay
  Runs-Inv {n} {trucks} start = ([], refl, init-Inv n trucks)
  Runs-Inv (later {es = es} r (pick i lt mv)) =
      let (q, ran, inv) = Runs-Inv r in
      let (allowed, inv') = Move-Inv api i lt inv mv in
      (_, replay-snoc es _ [] q _ ran allowed, inv')
