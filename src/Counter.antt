-- ===== src/Counter.antt =====
-- c/c_lab03_a.c: ten threads that count on, fifty lines each, under one mutex.
pub mod Numbers
mod Tests
use posix_intro.Common.{ℕ, zero, suc, ◌+◌, ◌%◌, ◌==◌, if◌then◌else◌, List, [], ◌∷◌, ◌++◌, replicate}
use posix_intro.Locks.{MutexApi, mutex_lock}
use posix_intro.Critical.{Statement, counts, locks, unlocks, System, Runs, Event}

-- N_MAX and NO_TH
abbrev pub n_max : ℕ
n_max = 50

abbrev pub no_th : ℕ
no_th = 10

-- The lines of `func1` and of `func2`: the counter, and the thread's number.
pub data Line : Type 0 where
  function1 function2 : (counter thread : ℕ) → Line

-- `func1` and `func2` in the thread that was given `n`.
unfoldable pub func1 : ℕ → List (Statement Line)
func1 n = locks ∷ replicate n_max (counts (λ c. function1 c (n + 1))) ++ unlocks ∷ []

unfoldable pub func2 : ℕ → List (Statement Line)
func2 n = locks ∷ replicate n_max (counts (λ c. function2 c (n + 1))) ++ unlocks ∷ []

-- The function that `main` gives to its thread `i`.
unfoldable pub thread : ℕ → List (Statement Line)
unfolding func1 func2
thread i = if i % 2 == 0 then func1 i else func2 i

-- The program once `main` has made the threads; `counter` starts at 1.
abbrev pub start_system : (api : MutexApi) → System (mutex_lock api) Line
start_system api = record { state = api.initializer; counter = 1; rest = thread }

abbrev pub CounterRuns :
    (api : MutexApi) → List (Event Line) → System (mutex_lock api) Line → Type 0
CounterRuns api es t = Runs (mutex_lock api) Line no_th (start_system api) es t
