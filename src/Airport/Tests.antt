-- ===== src/Airport/Tests.antt =====
-- Runs of c/c_lab04.c and c/c_lab06.c by evaluation, and the theorems on them.
use posix_intro.Common.{
  ◌≤◌, ◌≡◌, refl, [], ◌∷◌, ◌⊎◌, length, ◌↔◌, ℕ, Option, none, some, true, false,
}
use posix_intro.Semaphore.Counting.{counting}
use posix_intro.Locks.{mutex_lock, semaphore_lock, flag_mutex}
use posix_intro.Critical.{entered, left, wrote, System}
use posix_intro.Critical.Ending.{HasStep}
use posix_intro.Critical.Blocks.{Covered}
use posix_intro.Critical.Serial.{serial}
use posix_intro.Critical.Written.{Wrote}
use posix_intro.Critical.Schedule.{Run, run}
use posix_intro.Airport.{
  no_th, Line, asks, granted, landed, available, airplanes, mutex_start, MutexRuns, SemaphoreRuns,
}
use posix_intro.Airport.Landing.{
  landing_lines, OnRunway, mutex-blocks, mutex-same-semaphore, semaphore-progress,
}

-- Airplane 2 asks first and lands; airplane 1 asks meanwhile and waits.
abbrev landing : Run Line no_th (mutex_start flag_mutex)
landing = run Line no_th (mutex_start flag_mutex) (1 ∷ 1 ∷ 0 ∷ 0 ∷ 1 ∷ 0 ∷ 1 ∷ 1 ∷ 1 ∷ 0 ∷ 0 ∷ [])

landing_events :
    landing.events
    ≡ wrote false 1 (asks 2)
      ∷ entered 1
      ∷ wrote false 0 (asks 1)
      ∷ wrote true 1 (granted 2)
      ∷ wrote true 1 (landed 2)
      ∷ wrote true 1 available
      ∷ left 1
      ∷ entered 0
      ∷ wrote true 0 (granted 1)
      ∷ []
unfolding run airplanes
landing_events = refl

mutex-blocks_example :
    Wrote OnRunway landing.events
    × ((o : Option ℕ) × (serial landing.events none ≡ some o))
    × Covered (mutex_lock flag_mutex) landing_lines no_th landing.last landing.events
mutex-blocks_example = mutex-blocks flag_mutex landing.runs

mutex-same-semaphore_example :
    ((t : System (mutex_lock flag_mutex) Line) × MutexRuns flag_mutex landing.events t)
    ↔ ((t : System (semaphore_lock counting) Line) × SemaphoreRuns counting landing.events t)
mutex-same-semaphore_example = mutex-same-semaphore flag_mutex counting landing.events

-- The same run over the semaphores.
landing_semaphore :
    (t : System (semaphore_lock counting) Line) × SemaphoreRuns counting landing.events t
landing_semaphore =
    (mutex-same-semaphore flag_mutex counting landing.events).0 (landing.last, landing.runs)

semaphore-progress_test :
    (length landing.events ≤ 30)
    × (HasStep (semaphore_lock counting) no_th landing_semaphore.0 ⊎ (length landing.events ≡ 30))
semaphore-progress_test = semaphore-progress counting landing_semaphore.1
