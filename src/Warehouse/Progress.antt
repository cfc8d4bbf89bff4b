-- ===== src/Warehouse/Progress.antt =====
-- The threads of c/c_lab05_b.c never all block: the three semaphores cannot deadlock.
use posix_intro.Common.{ℕ, ◌+◌, ◌<◌, ◌≡◌, true, false, inl, inr, List, arith, length, dec_lt}
use posix_intro.Common.Threads.{tally, tally-cases, tally_of_light}
use posix_intro.Semaphore.{SemaphoreApi}
use posix_intro.Semaphore.Laws.{Waits-of_pos}
use posix_intro.Warehouse.Queue.{Event}
use posix_intro.Warehouse.System.{
  Pc, producing, waits_empty, truck_waits_lock, adding, truck_printing, truck_reporting,
  truck_posts_lock, posts_full, waits_full, worker_waits_lock, removing, worker_printing,
  worker_reporting, worker_posts_lock, posts_empty, consuming, Shared, Move, produces, takes_empty,
  truck_locks, adds, truck_prints, truck_reports, truck_unlocks, gives_full, takes_full,
  worker_locks, removes, worker_prints, worker_reports, worker_unlocks, gives_empty, consumes,
  System, Step, pick, Runs, shown_id,
}
use posix_intro.Warehouse.Invariant.{
  Inv, is_truck, locked, claimed, unposted, promised, vacated, Runs-Inv,
}

-- 1 for a thread that stands before no wait.
abbrev ready : Pc → ℕ
ready (waits_empty _) = 0
ready (truck_waits_lock _) = 0
ready waits_full = 0
ready worker_waits_lock = 0
ready _ = 1

-- 1 for a thread that waits for the lock.
abbrev wants_lock : Pc → ℕ
wants_lock (truck_waits_lock _) = 1
wants_lock worker_waits_lock = 1
wants_lock _ = 0

module _ (api : SemaphoreApi) where
  open api use {value}

  -- Some move of a thread at `p`.
  Movable : Shared api → ℕ → Pc → Type 0
  Movable m id p = (e : Event) × (m' : Shared api) × (p' : Pc) × Move api m id p e m' p'

  ready-Movable : (m : Shared api) (id : ℕ) (p : Pc) → 0 < ready p → Movable m id p
  unfolding Movable
  ready-Movable m id producing h = (_, _, _, produces 0)
  ready-Movable m id (waits_empty item) h = elim h [ ]
  ready-Movable m id (truck_waits_lock item) h = elim h [ ]
  ready-Movable m id (adding item) h = (_, _, _, adds)
  ready-Movable m id (truck_printing item) h = (_, _, _, truck_prints)
  ready-Movable m id (truck_reporting item) h = (_, _, _, truck_reports)
  ready-Movable m id (truck_posts_lock item) h = (_, _, _, truck_unlocks)
  ready-Movable m id posts_full h = (_, _, _, gives_full)
  ready-Movable m id waits_full h = elim h [ ]
  ready-Movable m id worker_waits_lock h = elim h [ ]
  ready-Movable m id removing h = (_, _, _, removes)
  ready-Movable m id (worker_printing item) h = (_, _, _, worker_prints)
  ready-Movable m id (worker_reporting item) h = (_, _, _, worker_reports)
  ready-Movable m id (worker_posts_lock item) h = (_, _, _, worker_unlocks)
  ready-Movable m id (posts_empty item) h = (_, _, _, gives_empty)
  ready-Movable m id (consuming item) h = (_, _, _, consumes)

  -- With the lock free, a thread that waits for it can go on.
  lock-Movable :
      (m : Shared api) (id : ℕ) (p : Pc) → 0 < value m.sem_lock → 0 < wants_lock p → Movable m id p
  unfolding Movable
  lock-Movable m id (truck_waits_lock item) free h =
      (_, _, _, truck_locks (Waits-of_pos api m.sem_lock free))
  lock-Movable m id worker_waits_lock free h =
      (_, _, _, worker_locks (Waits-of_pos api m.sem_lock free))
  lock-Movable m id p free h = absurd (omega arith)

  -- A truck that neither is ready nor waits for the lock waits for a slot.
  truck-Movable :
      (m : Shared api) (id : ℕ) (p : Pc)
      → 0 < value m.sem_empty
      → ready p + wants_lock p ≡ 0
      → is_truck p ≡ true
      → Movable m id p
  unfolding Movable
  truck-Movable m id (waits_empty item) free h t =
      (_, _, _, takes_empty (Waits-of_pos api m.sem_empty free))
  truck-Movable m id p free h t = absurd (ground arith)

  -- And such a worker waits for an item.
  worker-Movable :
      (m : Shared api) (id : ℕ) (p : Pc)
      → 0 < value m.sem_full
      → ready p + wants_lock p ≡ 0
      → is_truck p ≡ false
      → Movable m id p
  unfolding Movable
  worker-Movable m id waits_full free h t = (_, _, _, takes_full (Waits-of_pos api m.sem_full free))
  worker-Movable m id p free h t = absurd (ground arith)

  module _ {n trucks : ℕ} {s : System api} {q : List _}
      (inv : Inv api n trucks s.shared s.pcs q) where
    -- The semaphores, when no thread is ready.
    idle_values :
        ((i : ℕ) → i < n → ready (s.pcs i) ≡ 0)
        → (value s.shared.sem_lock ≡ 1)
          × (((i : ℕ) → i < n → wants_lock (s.pcs i) ≡ 0)
              → (value s.shared.sem_empty + length q ≡ 10) × (value s.shared.sem_full ≡ length q))
    idle_values idle = (
      omega (arith, inv.counts.lock, none locked (λ i lt. ground (arith, idle i lt))),
      λ calm. omega (
        arith,
        inv.counts.room,
        inv.counts.stock,
        none claimed (λ i lt. ground (arith, idle i lt, calm i lt)),
        none vacated (λ i lt. ground (arith, idle i lt)),
        none unposted (λ i lt. ground (arith, idle i lt)),
        none promised (λ i lt. ground (arith, idle i lt, calm i lt)),
      ),
    )
      where
        none : (w : Pc → ℕ) → ((i : ℕ) → i < n → w (s.pcs i) ≡ 0) → tally w n s.pcs ≡ 0
        none w h = tally_of_light w n s.pcs h

    -- Some thread can move.
    some_Movable :
        0 < trucks → trucks < n → (i : ℕ) × (i < n) × Movable s.shared (shown_id trucks i) (s.pcs i)
    some_Movable pos below = elim (tally-cases ready n s.pcs) [
      | inl (i, lt, h) ↦ (i, lt, ready-Movable s.shared _ (s.pcs i) h)
      | inr idle ↦ elim (tally-cases wants_lock n s.pcs) [
        | inl (i, lt, h) ↦
            (i, lt, lock-Movable s.shared _ (s.pcs i) (omega (arith, (idle_values idle).0)) h)
        | inr calm ↦
            let (room, stock) = (idle_values idle).1 calm in
            elim (dec_lt 0 (length q)) [
              | yes waiting ↦ (
                trucks,
                below,
                worker-Movable s.shared _ (s.pcs trucks) (omega arith)
                    (omega (arith, idle trucks below, calm trucks below))
                    (ground (arith, inv.roles trucks)),
              )
              | no empty ↦ (
                0,
                omega arith,
                truck-Movable s.shared _ (s.pcs 0) (omega arith)
                    (omega (arith, idle 0 (omega arith), calm 0 (omega arith)))
                    (ground (arith, inv.roles 0)),
              )
            ]
      ]
    ]

  -- With at least one truck and one worker, every reachable state has a next step: the program
  -- never deadlocks.
  pub deadlock_free :
      {n trucks : ℕ} {es : List Event} {s : System api}
      → 0 < trucks
      → trucks < n
      → Runs api n trucks es s
      → (e : Event) × (t : System api) × Step api n trucks s e t
  unfolding Movable
  deadlock_free some_truck some_worker r =
      let (q, ran, inv) = Runs-Inv api r in
      let (i, lt, moves) = some_Movable inv some_truck some_worker in
      let (e, m, p, mv) = moves in (e, _, pick i lt mv)
