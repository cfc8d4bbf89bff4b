-- ===== src/Warehouse/Schedule.antt =====
-- Runs of c/c_lab05_b.c by evaluation, over the semaphores of Semaphore.Counting: the threads are
-- picked in a given order, and one that would block is passed over.
use mathlib.Core.List.{foldl}
use posix_intro.Common.{ℕ, Option, none, some, List, [], ◌∷◌, ◌++◌, dec_lt}
use posix_intro.Semaphore.{rk_sema_post}
use posix_intro.Semaphore.Counting.{counting}
use posix_intro.Semaphore.Laws.{Waits-of_pos}
use posix_intro.Warehouse.Queue.{Event}
use posix_intro.Warehouse.System.{
  Pc, producing, waits_empty, truck_waits_lock, adding, truck_printing, truck_reporting,
  truck_posts_lock, posts_full, waits_full, worker_waits_lock, removing, worker_printing,
  worker_reporting, worker_posts_lock, posts_empty, consuming, Shared, Move, System, pick, Runs,
  start, later, shown_id, no_th, n_producers, init, init_semaphores,
}

abbrev Result : Shared counting → ℕ → Pc → Type 0
Result m id p =
    Option ((e : Event) × (m' : Shared counting) × (p' : Pc) × Move counting m id p e m' p')

-- The move of a thread at `p`, if it does not block; the truck `id` draws the random number `id`.
move_of : (m : Shared counting) (id : ℕ) (p : Pc) → Result m id p
unfolding dec_lt
move_of m id producing = some (_, _, _, Move.produces id)
move_of m id (waits_empty item) = elim (dec_lt 0 m.sem_empty) [
  | yes h ↦ some (_, _, _, Move.takes_empty (Waits-of_pos counting m.sem_empty h))
  | no _ ↦ none
]
move_of m id (truck_waits_lock item) = elim (dec_lt 0 m.sem_lock) [
  | yes h ↦ some (_, _, _, Move.truck_locks (Waits-of_pos counting m.sem_lock h))
  | no _ ↦ none
]
move_of m id (adding item) = some (_, _, _, Move.adds)
move_of m id (truck_printing item) = some (_, _, _, Move.truck_prints)
move_of m id (truck_reporting item) = some (_, _, _, Move.truck_reports)
move_of m id (truck_posts_lock item) = some (_, _, _, Move.truck_unlocks)
move_of m id posts_full = some (_, _, _, Move.gives_full)
move_of m id waits_full = elim (dec_lt 0 m.sem_full) [
  | yes h ↦ some (_, _, _, Move.takes_full (Waits-of_pos counting m.sem_full h))
  | no _ ↦ none
]
move_of m id worker_waits_lock = elim (dec_lt 0 m.sem_lock) [
  | yes h ↦ some (_, _, _, Move.worker_locks (Waits-of_pos counting m.sem_lock h))
  | no _ ↦ none
]
move_of m id removing = some (_, _, _, Move.removes)
move_of m id (worker_printing item) = some (_, _, _, Move.worker_prints)
move_of m id (worker_reporting item) = some (_, _, _, Move.worker_reports)
move_of m id (worker_posts_lock item) = some (_, _, _, Move.worker_unlocks)
move_of m id (posts_empty item) = some (_, _, _, Move.gives_empty)
move_of m id (consuming item) = some (_, _, _, Move.consumes)

-- A run of the program as `main` sets it up, with its proof.
pub record Run : Type 0 where
  pub events : List Event
  pub last : System counting
  pub runs : Runs counting no_th n_producers events last

turn : Run → ℕ → Run
unfolding move_of dec_lt init_semaphores rk_sema_post
turn r i = elim (dec_lt i no_th) [
  | yes lt ↦ elim (move_of r.last.shared (shown_id n_producers i) (r.last.pcs i)) [
    | some (e, m, p, mv) ↦ record {
      events = r.events ++ e ∷ [];
      last = _;
      runs = later r.runs (pick i lt mv);
    }
    | none ↦ r
  ]
  | no _ ↦ r
]

unfoldable pub run : List ℕ → Run
unfolding turn
run order =
    foldl turn (record { events = []; last = init counting n_producers; runs = start }) order

-- Truck 1 stores an item and stands before its post on `sem_full`; worker 1 is blocked.
abbrev pub stored_one : Run
stored_one = run (0 ∷ 3 ∷ 0 ∷ 0 ∷ 0 ∷ 0 ∷ 0 ∷ 0 ∷ [])

-- Truck 2 is about to write, with the lock; truck 1 waits for it.
abbrev pub about_to_add : Run
about_to_add = run (0 ∷ 1 ∷ 1 ∷ 1 ∷ 0 ∷ 0 ∷ [])

-- Truck 1 has stored an item, and worker 1 is about to take it.
abbrev pub about_to_take : Run
about_to_take = run (0 ∷ 0 ∷ 0 ∷ 0 ∷ 0 ∷ 0 ∷ 0 ∷ 0 ∷ 3 ∷ 3 ∷ [])

-- Two items stored by trucks 1 and 2, and one taken by worker 2.
abbrev pub two_stored_one_taken : Run
two_stored_one_taken =
    run (0 ∷ 0 ∷ 0 ∷ 0 ∷ 0 ∷ 0 ∷ 0 ∷ 0 ∷ 1 ∷ 1 ∷ 1 ∷ 1 ∷ 1 ∷ 1 ∷ 1 ∷ 1 ∷ 4 ∷ 4 ∷ 4 ∷ 4 ∷ 4 ∷ [])
