-- ===== src/Ports/Counter.antt =====
-- cpp/cc_lab03_a.cc: the counting threads of task 3a in C++. One function serves for both of the C
-- program, and is told which one it is; its lock is given back at the end of its scope.
pub mod Same
mod Tests
use posix_intro.Common.{ℕ, zero, suc, ◌+◌, ◌%◌, ◌==◌, if◌then◌else◌, List, [], ◌∷◌, ◌++◌, replicate}
use posix_intro.Locks.{MutexApi, mutex_lock}
use posix_intro.Critical.{Statement, counts, locks, unlocks, System, Runs, Event}

-- no_th and n_max
abbrev pub no_th : ℕ
no_th = 10

abbrev pub n_max : ℕ
n_max = 50

-- The line of `func`.
pub record Line : Type 0 where
  pub fun_id : ℕ
  pub counter : ℕ
  pub thread : ℕ

-- `func`, in the thread that was given `n`.
unfoldable pub func : (fun_id n : ℕ) → List (Statement Line)
func fun_id n =
    locks ∷ replicate n_max (counts (λ c. record { fun_id = fun_id; counter = c; thread = n + 1 }))
    ++ unlocks ∷ []

-- What `main` gives to its thread `i`.
unfoldable pub thread : ℕ → List (Statement Line)
unfolding func
thread i = func (if i % 2 == 0 then 1 else 2) i

-- The program once `main` has made the threads.
abbrev pub start_system : (api : MutexApi) → System (mutex_lock api) Line
start_system api = record { state = api.initializer; counter = 1; rest = thread }

abbrev pub ThreadRuns : (api : MutexApi) → List (Event Line) → System (mutex_lock api) Line → Type 0
ThreadRuns api es t = Runs (mutex_lock api) Line no_th (start_system api) es t
