-- ===== src/Airport.antt =====
-- c/c_lab04.c and c/c_lab06.c: airplanes that land one at a time, with a mutex and with a binary
-- semaphore. Both thread functions are the same but for the lock.
pub mod Landing
mod Tests
use posix_intro.Common.{ℕ, zero, suc, ◌+◌, ◌≡◌, List, [], ◌∷◌, Option, if◌then◌else◌}
use posix_intro.Common.Outcome.{Outcome, ok, exits, ◌>>=◌, checked}
use posix_intro.Semaphore.{SemaphoreApi, rk_sema_init, rk_sema_destroy}
use posix_intro.Locks.{MutexApi, mutex_lock, semaphore_lock}
use posix_intro.Critical.{Statement, writes, locks, unlocks, Event, System, Runs}

-- NO_TH
abbrev pub no_th : ℕ
no_th = 5

-- The lines of `airplanes`.
pub data Line : Type 0 where
  asks granted landed : (airplane : ℕ) → Line
  available : Line

-- `airplanes` in thread `i`
unfoldable pub airplanes : ℕ → List (Statement Line)
airplanes i =
    let n = i + 1 in
    writes (asks n)
    ∷ locks
    ∷ writes (granted n)
    ∷ writes (landed n)
    ∷ writes available
    ∷ unlocks
    ∷ []

-- c_lab04.c once `main` has made the threads.
abbrev pub mutex_start : (api : MutexApi) → System (mutex_lock api) Line
mutex_start api = record { state = api.initializer; counter = 0; rest = airplanes }

-- `init_semaphore` of c_lab06.c
pub init_semaphore : (api : SemaphoreApi) → Outcome api.Sem
unfolding rk_sema_init
init_semaphore api = checked (rk_sema_init api 0 1) "Error init binary semaphore"

-- `close_semaphore` of c_lab06.c
pub close_semaphore : (api : SemaphoreApi) → api.Sem → Outcome (Unit {0})
unfolding rk_sema_destroy
close_semaphore api s =
    if rk_sema_destroy api s then ok tt else exits "Error destroying binary semaphore"

-- c_lab06.c once `main` has made the semaphore and the threads.
abbrev pub semaphore_start : (api : SemaphoreApi) → api.Sem → System (semaphore_lock api) Line
semaphore_start api s = record { state = s; counter = 0; rest = airplanes }

-- The runs of the two programs, each with its events and the state reached.
abbrev pub MutexRuns : (api : MutexApi) → List (Event Line) → System (mutex_lock api) Line → Type 0
MutexRuns api es t = Runs (mutex_lock api) Line no_th (mutex_start api) es t

abbrev pub SemaphoreRuns :
    (api : SemaphoreApi) → List (Event Line) → System (semaphore_lock api) Line → Type 0
SemaphoreRuns api es t =
    (s : api.Sem) × (init_semaphore api ≡ ok s)
    × Runs (semaphore_lock api) Line no_th (semaphore_start api s) es t
