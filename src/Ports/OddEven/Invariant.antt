-- ===== src/Ports/OddEven/Invariant.antt =====
-- What holds in every reachable state of the two threads.
use posix_intro.Common.{ℕ, ◌+◌, ◌%◌, ◌≤◌, ◌<◌, ◌≡◌, List, arith}
use posix_intro.Semaphore.{SemaphoreApi}
use posix_intro.Semaphore.Laws.{Waits-value, value-rk_sema_post}
use posix_intro.OddEven.{Event}
use posix_intro.Ports.OddEven.{
  len, Pc, waiting, printing, posting, testing, finished, after_test, System, constructed, Step,
  odd_waits, odd_prints, odd_posts, odd_tests, even_waits, even_prints, even_posts, even_tests,
  Runs, start, later,
}

-- 1 for a thread between its wait and its post, before and after its line.
abbrev pub inside : Pc → ℕ
inside printing = 1
inside posting = 1
inside _ = 0

abbrev before : Pc → ℕ
before printing = 1
before _ = 0

abbrev printed : Pc → ℕ
printed posting = 1
printed _ = 0

-- How far the counter has come when the odd thread, and the even thread, stands at a place.
abbrev OddAt : ℕ → Pc → Type 0
OddAt c waiting = c < len
OddAt c printing = c < len
OddAt c posting = c ≤ len
OddAt c testing = c ≤ len + 1
OddAt c finished = (len ≤ c) × (c ≤ len + 1)

abbrev EvenAt : ℕ → Pc → Type 0
EvenAt c waiting = c ≤ len
EvenAt c printing = c ≤ len
EvenAt c posting = c ≤ len + 1
EvenAt c testing = c ≤ len + 1
EvenAt c finished = (len ≤ c) × (c ≤ len + 1)

module _ (api : SemaphoreApi) where
  open api use {value}

  pub record Inv (s : System api) : Type 0 where
    pub token : value s.sem_odd + value s.sem_even + inside s.odd + inside s.even ≡ 1
    pub parity : s.counter % 2 ≡ value s.sem_odd + before s.odd + printed s.even
    pub odd_at : OddAt s.counter s.odd
    pub even_at : EvenAt s.counter s.even
    pub started : 1 ≤ s.counter

  start-Inv : (odd even : api.Sem) → Inv (constructed api odd even)
  unfolding constructed
  start-Inv odd even = ground (arith, api.sem_init_succeeds 0, api.sem_init_succeeds 1)

  pub Step-Inv : {e : Event} {s t : System api} → Step api s e t → Inv s → Inv t
  unfolding after_test
  Step-Inv (odd_waits at w) inv = ground (arith, Waits-value api w)
  Step-Inv (even_waits at w) inv = ground (arith, Waits-value api w)
  Step-Inv {s = s} (odd_posts at) inv = ground (arith, value-rk_sema_post api s.sem_even)
  Step-Inv {s = s} (even_posts at) inv = ground (arith, value-rk_sema_post api s.sem_odd)
  Step-Inv (odd_prints at) inv = ground arith
  Step-Inv (even_prints at) inv = ground arith
  Step-Inv (odd_tests at) inv = ground arith
  Step-Inv (even_tests at) inv = ground arith

  pub Runs-Inv : {es : List Event} {s : System api} → Runs api es s → Inv s
  Runs-Inv (start odd even) = start-Inv odd even
  Runs-Inv (later r st) = Step-Inv st (Runs-Inv r)
