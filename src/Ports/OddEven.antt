-- ===== src/Ports/OddEven.antt =====
-- cpp/include/buffer.hh, Custom::Binary::Semaphore, with cpp/cc_lab05_a.cc: the odd and the even
-- numbers of task 5a. Its loop tests the counter after its post, where the other thread may already
-- be counting.
pub mod Invariant
pub mod Ending
mod Tests
use posix_intro.Common.{
  ℕ, ◌+◌, ◌≡◌, Bool, true, false, Option, none, some, List, [], ◌∷◌, ◌++◌, ltb, if◌then◌else◌,
}
use posix_intro.Semaphore.{SemaphoreApi, rk_sema_init, rk_sema_post, Waits}
use posix_intro.OddEven.{Event, quiet, odd_line, even_line}

-- LEN, as `main` gives it.
abbrev pub len : ℕ
len = 30

-- Before which statement of its loop a thread stands.
pub data Pc : Type 0 where
  waiting printing posting testing finished : Pc

-- The test of the loop, for this value of the counter.
pub after_test : ℕ → Pc
after_test counter = if ltb counter len then waiting else finished

module _ (api : SemaphoreApi) where
  open api use {Sem}

  -- The fields of the object, and where its two threads stand.
  pub record System : Type 0 where
    pub sem_even : Sem
    pub sem_odd : Sem
    pub counter : ℕ
    pub odd : Pc
    pub even : Pc

  -- What a call of `rk_sema_init` leaves in a field; where it fails, the constructor only writes a
  -- message.
  abbrev pub initialised : Sem → Option Sem → Sem
  initialised s none = s
  initialised s (some t) = t

  -- The constructor, over storage with this content, and both threads as `run` starts them.
  pub constructed : (odd even : Sem) → System
  unfolding rk_sema_init
  constructed odd even = record {
    sem_odd = initialised odd (rk_sema_init api 0 1);
    sem_even = initialised even (rk_sema_init api 0 0);
    counter = 1;
    odd = waiting;
    even = waiting;
  }

  -- One statement of `print_number` in either thread.
  pub data Step (s : System) : Event → System → Type 0 where
    odd_waits :
        {t : Sem}
        → s.odd ≡ waiting
        → Waits api s.sem_odd t
        → Step s quiet (record s { sem_odd = t; odd = printing })
    odd_prints :
        s.odd ≡ printing
        → Step s (odd_line s.counter) (record s { counter = s.counter + 1; odd = posting })
    odd_posts :
        s.odd ≡ posting
        → Step s quiet (record s { sem_even = rk_sema_post api s.sem_even; odd = testing })
    odd_tests : s.odd ≡ testing → Step s quiet (record s { odd = after_test s.counter })
    even_waits :
        {t : Sem}
        → s.even ≡ waiting
        → Waits api s.sem_even t
        → Step s quiet (record s { sem_even = t; even = printing })
    even_prints :
        s.even ≡ printing
        → Step s (even_line s.counter) (record s { counter = s.counter + 1; even = posting })
    even_posts :
        s.even ≡ posting
        → Step s quiet (record s { sem_odd = rk_sema_post api s.sem_odd; even = testing })
    even_tests : s.even ≡ testing → Step s quiet (record s { even = after_test s.counter })

  -- The runs once `run` has started both threads.
  pub data Runs : List Event → System → Type 0 where
    start : (odd even : Sem) → Runs [] (constructed odd even)
    later :
        {es : List Event} {e : Event} {s t : System}
        → Runs es s
        → Step s e t
        → Runs (es ++ e ∷ []) t
