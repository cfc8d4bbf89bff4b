-- ===== src/Ports/Airport.antt =====
-- cpp/cc_lab04.cc: the airplanes of task 4 in C++. Each takes the mutex for its question, too, and
-- gives the one of its landing back at the end of a scope.
pub mod Landing
mod Tests
use posix_intro.Common.{ℕ, ◌+◌, List, [], ◌∷◌}
use posix_intro.Locks.{MutexApi, mutex_lock}
use posix_intro.Critical.{Statement, writes, locks, unlocks, Event, System, Runs}

-- no_th
abbrev pub no_th : ℕ
no_th = 5

-- The lines of `airplanes`. That of the landing has another text than in the C programs: "I have
-- landed the runway" for "I have landed to runway".
pub data Line : Type 0 where
  asks granted landed_the : (airplane : ℕ) → Line
  available : Line

-- `airplanes`
unfoldable pub airplanes : (airplane_id : ℕ) → List (Statement Line)
airplanes airplane_id =
    locks
    ∷ writes (asks airplane_id)
    ∷ unlocks
    ∷ locks
    ∷ writes (granted airplane_id)
    ∷ writes (landed_the airplane_id)
    ∷ writes available
    ∷ unlocks
    ∷ []

-- What `main` gives to its threads, of which the first one, here number 0, has the number 1 there.
unfoldable pub thread : ℕ → List (Statement Line)
thread i = airplanes (i + 1)

-- The program once `main` has made the threads.
abbrev pub start_system : (api : MutexApi) → System (mutex_lock api) Line
start_system api = record { state = api.initializer; counter = 0; rest = thread }

abbrev pub LandingRuns :
    (api : MutexApi) → List (Event Line) → System (mutex_lock api) Line → Type 0
LandingRuns api es t = Runs (mutex_lock api) Line no_th (start_system api) es t
