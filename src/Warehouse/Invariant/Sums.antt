-- ===== src/Warehouse/Invariant/Sums.antt =====
-- How the three semaphores of c/c_lab05_b.c count the threads: each move keeps the sums.
use posix_intro.Common.{ℕ, ◌+◌, ◌-◌, ◌≤◌, ◌<◌, ◌≡◌, arith}
use posix_intro.Common.Threads.{move, tally, tally-move, weight-le-tally}
use posix_intro.Semaphore.{SemaphoreApi}
use posix_intro.Semaphore.Laws.{Waits-value, value-rk_sema_post}
use posix_intro.Warehouse.{buffer_len}
use posix_intro.Warehouse.Queue.{Event, added, taken}
use posix_intro.Warehouse.System.{
  Pc, truck_waits_lock, adding, truck_printing, truck_reporting, truck_posts_lock, posts_full,
  worker_waits_lock, removing, worker_printing, worker_reporting, worker_posts_lock, posts_empty,
  Shared, Move, takes_empty, truck_locks, truck_unlocks, gives_full, takes_full, worker_locks,
  worker_unlocks, gives_empty,
}

-- 1 for a thread that owns the lock: between its wait on `sem_lock` and its post.
abbrev pub locked : Pc → ℕ
locked (adding _) = 1
locked (truck_printing _) = 1
locked (truck_reporting _) = 1
locked (truck_posts_lock _) = 1
locked removing = 1
locked (worker_printing _) = 1
locked (worker_reporting _) = 1
locked (worker_posts_lock _) = 1
locked _ = 0

-- 1 for a truck that has taken a unit of `sem_empty` and not yet used the slot.
abbrev pub claimed : Pc → ℕ
claimed (truck_waits_lock _) = 1
claimed (adding _) = 1
claimed _ = 0

-- 1 for a truck whose item is in the buffer, but not yet counted by `sem_full`.
abbrev pub unposted : Pc → ℕ
unposted (truck_printing _) = 1
unposted (truck_reporting _) = 1
unposted (truck_posts_lock _) = 1
unposted posts_full = 1
unposted _ = 0

-- 1 for a worker that has taken a unit of `sem_full`, but not yet the item.
abbrev pub promised : Pc → ℕ
promised worker_waits_lock = 1
promised removing = 1
promised _ = 0

-- 1 for a worker that has emptied a slot, which `sem_empty` does not yet count.
abbrev pub vacated : Pc → ℕ
vacated (worker_printing _) = 1
vacated (worker_reporting _) = 1
vacated (worker_posts_lock _) = 1
vacated (posts_empty _) = 1
vacated _ = 0

-- The number of items that wait after an event, if `len` wait before it.
abbrev pub len_after : Event → ℕ → ℕ
len_after (added _) len = len + 1
len_after (taken _) len = len - 1
len_after _ len = len

module _ (api : SemaphoreApi) where
  open api use {value}

  pub record Counts (n : ℕ) (m : Shared api) (pcs : ℕ → Pc) (len : ℕ) : Type 0 where
    pub lock : value m.sem_lock + tally locked n pcs ≡ 1
    pub room : value m.sem_empty + tally claimed n pcs + len + tally vacated n pcs ≡ buffer_len
    pub stock : value m.sem_full + tally promised n pcs + tally unposted n pcs ≡ len

  module _ {n : ℕ} {m : Shared api} {pcs : ℕ → Pc} {len : ℕ} (c : Counts n m pcs len) where
    -- A truck at `adding` finds a slot, a worker at `removing` an item, and each is alone there.
    pub count_bounds : (i : ℕ) → i < n → record {
      room_left : len + claimed (pcs i) ≤ buffer_len;
      item_there : promised (pcs i) ≤ len;
      posts_fit :
          (value m.sem_lock ≤ 1)
          × (value m.sem_empty ≤ buffer_len)
          × (value m.sem_full ≤ buffer_len);
    }
    count_bounds i lt = omega (
      arith,
      c.lock,
      c.room,
      c.stock,
      weight-le-tally claimed n pcs i lt,
      weight-le-tally promised n pcs i lt,
    )

    -- What a move of thread `i` from `p` to `p'` does to the five sums.
    record Moved (i : ℕ) (p p' : Pc) : Type 0 where
      locks : tally locked n (move pcs i p') + locked p ≡ tally locked n pcs + locked p'
      claims : tally claimed n (move pcs i p') + claimed p ≡ tally claimed n pcs + claimed p'
      unposts : tally unposted n (move pcs i p') + unposted p ≡ tally unposted n pcs + unposted p'
      promises : tally promised n (move pcs i p') + promised p ≡ tally promised n pcs + promised p'
      vacates : tally vacated n (move pcs i p') + vacated p ≡ tally vacated n pcs + vacated p'
      posts_fit :
          (value m.sem_lock ≤ 1)
          × (value m.sem_empty ≤ buffer_len)
          × (value m.sem_full ≤ buffer_len)
      item_there : promised p ≤ len

    moved : (i : ℕ) (p' : Pc) → i < n → Moved i (pcs i) p'
    moved i p' lt = record {
      locks = tally-move locked n pcs i p' lt;
      claims = tally-move claimed n pcs i p' lt;
      unposts = tally-move unposted n pcs i p' lt;
      promises = tally-move promised n pcs i p' lt;
      vacates = tally-move vacated n pcs i p' lt;
      posts_fit = (count_bounds i lt).posts_fit;
      item_there = (count_bounds i lt).item_there;
    }

    Moved-Counts :
        {id : ℕ} {e : Event} {m' : Shared api} {p p' : Pc} (i : ℕ)
        → Move api m id p e m' p'
        → Moved i p p'
        → Counts n m' (move pcs i p') (len_after e len)
    Moved-Counts i (takes_empty w) f = omega (arith, c.lock, c.room, c.stock, f, Waits-value api w)
    Moved-Counts i (truck_locks w) f = omega (arith, c.lock, c.room, c.stock, f, Waits-value api w)
    Moved-Counts i (takes_full w) f = omega (arith, c.lock, c.room, c.stock, f, Waits-value api w)
    Moved-Counts i (worker_locks w) f = omega (arith, c.lock, c.room, c.stock, f, Waits-value api w)
    Moved-Counts i truck_unlocks f =
        omega (arith, c.lock, c.room, c.stock, f, value-rk_sema_post api m.sem_lock)
    Moved-Counts i worker_unlocks f =
        omega (arith, c.lock, c.room, c.stock, f, value-rk_sema_post api m.sem_lock)
    Moved-Counts i gives_full f =
        omega (arith, c.lock, c.room, c.stock, f, value-rk_sema_post api m.sem_full)
    Moved-Counts i gives_empty f =
        omega (arith, c.lock, c.room, c.stock, f, value-rk_sema_post api m.sem_empty)
    Moved-Counts i mv f = omega (arith, c.lock, c.room, c.stock, f)

    -- Every move keeps the sums, with the number of items that its event leaves.
    pub Move-Counts :
        {id : ℕ} {e : Event} {m' : Shared api} {p' : Pc} (i : ℕ)
        → i < n
        → Move api m id (pcs i) e m' p'
        → Counts n m' (move pcs i p') (len_after e len)
    Move-Counts {p'} i lt mv = Moved-Counts i mv (moved i p' lt)
