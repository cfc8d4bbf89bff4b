-- ===== src/OddEven.antt =====
-- c/c_lab05_a.c: two threads that print the odd and the even numbers in turn, by two binary
-- semaphores. One statement that touches shared state or writes is one Step; the threads may
-- interleave in any order.
pub mod Invariant
pub mod Output
pub mod Termination
mod Tests
use posix_intro.Common.{ℕ, ◌+◌, ◌≡◌, Bool, true, false, List, [], ◌∷◌, ◌++◌, leb, if◌then◌else◌}
use posix_intro.Common.Outcome.{Outcome, ok, exits, ◌>>=◌, checked}
use posix_intro.Semaphore.{SemaphoreApi, rk_sema_init, rk_sema_post, rk_sema_destroy, Waits}

-- MAX_N
abbrev pub max_n : ℕ
max_n = 30

-- Before which statement of its loop a thread stands; `end` is its local variable.
pub data Pc : Type 0 where
  waiting printing testing : Pc
  posting : (end : Bool) → Pc
  finished : Pc

-- What one step writes.
pub data Event : Type 0 where
  quiet : Event
  odd_line even_line : ℕ → Event

module _ (api : SemaphoreApi) where
  open api use {Sem}

  -- The file's static variables, and where its two threads stand. `counter` is an int32_t that
  -- stays between 1 and 31.
  pub record System : Type 0 where
    pub sem_even : Sem
    pub sem_odd : Sem
    pub counter : ℕ
    pub odd : Pc
    pub even : Pc

  -- `init_semaphores`
  unfoldable pub init_semaphores : System → Outcome System
  unfolding rk_sema_init
  init_semaphores s = do
    odd ← checked (rk_sema_init api 0 1) "Error init semaphore for odd lock"
    even ← checked (rk_sema_init api 0 0) "Error init semaphore for even lock"
    ok (record s { sem_odd = odd; sem_even = even })

  -- `close_semaphores`
  pub close_semaphores : System → Outcome (Unit {0})
  unfolding rk_sema_destroy
  close_semaphores s =
      if rk_sema_destroy api s.sem_odd
      then (if rk_sema_destroy api s.sem_even
          then ok tt
          else exits "Error destroying Semaphore even lock")
      else exits "Error destroying Semaphore odd lock"

  -- The state before `main` runs: static storage, and no thread inside its loop.
  abbrev pub zeroed_system : System
  zeroed_system = record {
    sem_even = api.zeroed;
    sem_odd = api.zeroed;
    counter = 1;
    odd = waiting;
    even = waiting;
  }

  -- One statement of `print_odd` or of `print_even`.
  pub data Step (s : System) : Event → System → Type 0 where
    odd_waits :
        {t : Sem}
        → s.odd ≡ waiting
        → Waits api s.sem_odd t
        → Step s quiet (record s { sem_odd = t; odd = printing })
    odd_prints :
        s.odd ≡ printing
        → Step s (odd_line s.counter) (record s { counter = s.counter + 1; odd = testing })
    odd_tests : s.odd ≡ testing → Step s quiet (record s { odd = posting (leb max_n s.counter) })
    odd_posts :
        {end : Bool}
        → s.odd ≡ posting end
        → Step s quiet (record s {
          sem_even = rk_sema_post api s.sem_even;
          odd = if end then finished else waiting;
        })
    even_waits :
        {t : Sem}
        → s.even ≡ waiting
        → Waits api s.sem_even t
        → Step s quiet (record s { sem_even = t; even = printing })
    even_prints :
        s.even ≡ printing
        → Step s (even_line s.counter) (record s { counter = s.counter + 1; even = testing })
    even_tests : s.even ≡ testing → Step s quiet (record s { even = posting (leb max_n s.counter) })
    even_posts :
        {end : Bool}
        → s.even ≡ posting end
        → Step s quiet (record s {
          sem_odd = rk_sema_post api s.sem_odd;
          even = if end then finished else waiting;
        })

  -- The runs from the point where `main` has made the semaphores and both threads.
  pub data Runs : List Event → System → Type 0 where
    start : {s : System} → init_semaphores zeroed_system ≡ ok s → Runs [] s
    later :
        {es : List Event} {e : Event} {s t : System}
        → Runs es s
        → Step s e t
        → Runs (es ++ e ∷ []) t
