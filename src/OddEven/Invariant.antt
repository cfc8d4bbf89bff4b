-- ===== src/OddEven/Invariant.antt =====
-- What holds in every reachable state of c/c_lab05_a.c.
use posix_intro.Common.{ℕ, ◌+◌, ◌%◌, ◌≤◌, ◌<◌, ◌≡◌, true, false, List, arith}
use posix_intro.Common.Outcome.{ok}
use posix_intro.Semaphore.{SemaphoreApi}
use posix_intro.Semaphore.Laws.{Waits-value, value-rk_sema_post}
use posix_intro.OddEven.{
  max_n, Pc, waiting, printing, testing, posting, finished, Event, System, init_semaphores,
  zeroed_system, Step, odd_waits, odd_prints, odd_tests, odd_posts, even_waits, even_prints,
  even_tests, even_posts, Runs, start, later,
}

-- 1 for a thread between its wait and its post.
abbrev pub inside : Pc → ℕ
inside waiting = 0
inside finished = 0
inside _ = 1

-- 1 for a thread that has taken its turn and not yet printed, and that has printed.
abbrev before : Pc → ℕ
before printing = 1
before _ = 0

abbrev printed : Pc → ℕ
printed testing = 1
printed (posting _) = 1
printed _ = 0

-- How far the counter has come when the odd thread, and the even thread, stands at a place.
abbrev OddAt : ℕ → Pc → Type 0
OddAt c waiting = c < max_n
OddAt c printing = c < max_n
OddAt c testing = c ≤ max_n
OddAt c (posting true) = c ≡ max_n
OddAt c (posting false) = c < max_n
OddAt c finished = max_n ≤ c

abbrev EvenAt : ℕ → Pc → Type 0
EvenAt c waiting = c ≤ max_n
EvenAt c printing = c ≤ max_n
EvenAt c testing = c ≤ max_n + 1
EvenAt c (posting true) = c ≡ max_n + 1
EvenAt c (posting false) = c < max_n
EvenAt c finished = c ≡ max_n + 1

module _ (api : SemaphoreApi) where
  open api use {value}

  pub record Inv (s : System api) : Type 0 where
    pub token : value s.sem_odd + value s.sem_even + inside s.odd + inside s.even ≡ 1
    pub parity : s.counter % 2 ≡ value s.sem_odd + before s.odd + printed s.even
    pub odd_at : OddAt s.counter s.odd
    pub even_at : EvenAt s.counter s.even
    pub started : 1 ≤ s.counter

  start-Inv : {s : System api} → init_semaphores api (zeroed_system api) ≡ ok s → Inv s
  unfolding init_semaphores
  start-Inv {s} e = ground (arith, api.sem_init_succeeds 0, api.sem_init_succeeds 1)

  pub Step-Inv : {e : Event} {s t : System api} → Step api s e t → Inv s → Inv t
  Step-Inv (odd_waits at w) inv = ground (arith, Waits-value api w)
  Step-Inv (even_waits at w) inv = ground (arith, Waits-value api w)
  Step-Inv {s = s} (odd_posts at) inv = ground (arith, value-rk_sema_post api s.sem_even)
  Step-Inv {s = s} (even_posts at) inv = ground (arith, value-rk_sema_post api s.sem_odd)
  Step-Inv (odd_prints at) inv = ground arith
  Step-Inv (even_prints at) inv = ground arith
  Step-Inv (odd_tests at) inv = ground arith
  Step-Inv (even_tests at) inv = ground arith

  pub Runs-Inv : {es : List Event} {s : System api} → Runs api es s → Inv s
  Runs-Inv (start e) = start-Inv e
  Runs-Inv (later r st) = Step-Inv st (Runs-Inv r)
