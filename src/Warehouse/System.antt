-- ===== src/Warehouse/System.antt =====
-- The threads of c/c_lab05_b.c, interleaved in any order. A thread's place in `producer` or
-- `consumer` is a Pc; one statement that touches shared state or writes is one Move. `sleep(1)` is
-- no move, since it only lets others run. `i` numbers the entries of the array `threads`: those
-- below `n_producers` are trucks.
use posix_intro.Common.{
  ℕ, ◌+◌, ◌-◌, ◌<◌, ℤ, Option, none, some, List, [], ◌∷◌, ◌++◌, ltb, if◌then◌else◌,
}
use posix_intro.Common.Threads.{move}
use posix_intro.Semaphore.{SemaphoreApi, rk_sema_init, rk_sema_post, Waits}
use posix_intro.Warehouse.{
  buffer_len, Store, empty_store, produce, add_to_buffer, remove_from_buffer, print_buffer,
  print_item,
}
use posix_intro.Warehouse.Queue.{
  Event, quiet, added, taken, shown, truck_line, worker_line, sending_line,
}

-- NO_TH, and the values that `main` gives to `n_producers` and `n_consumers`.
abbrev pub no_th : ℕ
no_th = 5

abbrev pub n_producers : ℕ
n_producers = 3

-- Before which statement a thread stands, with its local `item` where that is live.
pub data Pc : Type 0 where
  producing : Pc
  waits_empty truck_waits_lock adding truck_printing : (item : ℤ) → Pc
  truck_reporting truck_posts_lock : (item : ℤ) → Pc
  posts_full : Pc
  waits_full worker_waits_lock removing : Pc
  worker_printing worker_reporting worker_posts_lock posts_empty consuming : (item : ℤ) → Pc

-- The `producer_id` or `consumer_id` of thread `i`, of which the first `trucks` are producers.
abbrev pub shown_id : ℕ → ℕ → ℕ
shown_id trucks i = if ltb i trucks then i + 1 else i - trucks + 1

module _ (api : SemaphoreApi) where
  open api use {Sem, zeroed}

  -- The shared static variables.
  pub record Shared : Type 0 where
    pub store : Store
    pub sem_full : Sem
    pub sem_empty : Sem
    pub sem_lock : Sem

  -- A semaphore that `rk_sema_init` could not set keeps its content: its result is not read.
  abbrev pub stored : Sem → Option Sem → Sem
  stored old none = old
  stored old (some s) = s

  -- `init_semaphores`
  unfoldable pub init_semaphores : Shared → Shared
  unfolding rk_sema_init
  init_semaphores m = record m {
    sem_full = stored m.sem_full (rk_sema_init api 0 0);
    sem_empty = stored m.sem_empty (rk_sema_init api 0 buffer_len);
    sem_lock = stored m.sem_lock (rk_sema_init api 0 1);
  }

  -- One statement of the thread that prints itself as number `id`.
  pub data Move (m : Shared) (id : ℕ) : Pc → Event → Shared → Pc → Type 0 where
    produces : (r : ℕ) → Move m id producing quiet m (waits_empty (produce r))
    takes_empty :
        {item : ℤ} {s : Sem}
        → Waits api m.sem_empty s
        → Move m id (waits_empty item) quiet (record m { sem_empty = s }) (truck_waits_lock item)
    truck_locks :
        {item : ℤ} {s : Sem}
        → Waits api m.sem_lock s
        → Move m id (truck_waits_lock item) quiet (record m { sem_lock = s }) (adding item)
    adds :
        {item : ℤ}
        → Move m id
            (adding item)
            (added item)
            (record m { store = add_to_buffer item m.store })
            (truck_printing item)
    truck_prints :
        {item : ℤ}
        → Move m id
            (truck_printing item)
            (shown (print_buffer m.store).1)
            (record m { store = (print_buffer m.store).0 })
            (truck_reporting item)
    truck_reports :
        {item : ℤ}
        → Move m id
            (truck_reporting item)
            (truck_line id (print_item item))
            m
            (truck_posts_lock item)
    truck_unlocks :
        {item : ℤ}
        → Move m id
            (truck_posts_lock item)
            quiet
            (record m { sem_lock = rk_sema_post api m.sem_lock })
            posts_full
    gives_full :
        Move m id posts_full quiet (record m { sem_full = rk_sema_post api m.sem_full }) producing
    takes_full :
        {s : Sem}
        → Waits api m.sem_full s
        → Move m id waits_full quiet (record m { sem_full = s }) worker_waits_lock
    worker_locks :
        {s : Sem}
        → Waits api m.sem_lock s
        → Move m id worker_waits_lock quiet (record m { sem_lock = s }) removing
    removes :
        Move m id removing
          (taken (remove_from_buffer m.store).0)
          (record m { store = (remove_from_buffer m.store).1 })
          (worker_printing (remove_from_buffer m.store).0)
    worker_prints :
        {item : ℤ}
        → Move m id
            (worker_printing item)
            (shown (print_buffer m.store).1)
            (record m { store = (print_buffer m.store).0 })
            (worker_reporting item)
    worker_reports :
        {item : ℤ}
        → Move m id
            (worker_reporting item)
            (worker_line id (print_item item))
            m
            (worker_posts_lock item)
    worker_unlocks :
        {item : ℤ}
        → Move m id
            (worker_posts_lock item)
            quiet
            (record m { sem_lock = rk_sema_post api m.sem_lock })
            (posts_empty item)
    gives_empty :
        {item : ℤ}
        → Move m id
            (posts_empty item)
            quiet
            (record m { sem_empty = rk_sema_post api m.sem_empty })
            (consuming item)
    consumes :
        {item : ℤ} → Move m id (consuming item) (sending_line id (print_item item)) m waits_full

  -- A number from `n` on names no thread: it is never picked.
  pub record System : Type 0 where
    pub shared : Shared
    pub pcs : ℕ → Pc

  -- What `main` has made when all its threads are created: `trucks` run `producer`, the others
  -- `consumer`.
  abbrev pub init : ℕ → System
  init trucks = record {
    shared =
        init_semaphores (record {
          store = empty_store;
          sem_full = zeroed;
          sem_empty = zeroed;
          sem_lock = zeroed;
        });
    pcs = λ i. if ltb i trucks then producing else waits_full;
  }

  -- One step of the program with `n` threads: the scheduler picks one of them.
  pub data Step (n trucks : ℕ) (s : System) : Event → System → Type 0 where
    pick :
        (i : ℕ) {e : Event} {m : Shared} {p : Pc}
        → i < n
        → Move s.shared (shown_id trucks i) (s.pcs i) e m p
        → Step n trucks s e (record { shared = m; pcs = move s.pcs i p })

  -- The runs from `main` on, each with its events in order.
  pub data Runs (n trucks : ℕ) : List Event → System → Type 0 where
    start : Runs n trucks [] (init trucks)
    later :
        {es : List Event} {e : Event} {s t : System}
        → Runs n trucks es s
        → Step n trucks s e t
        → Runs n trucks (es ++ e ∷ []) t
