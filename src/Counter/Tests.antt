-- ===== src/Counter/Tests.antt =====
-- Runs of c/c_lab03_a.c by evaluation, and the theorems on them.
use posix_intro.Common.{ℕ, ◌≤◌, ◌+◌, ◌≡◌, refl, Option, none, some, [], ◌∷◌, ◌⊎◌, length, map, true}
use posix_intro.Locks.{mutex_lock, flag_mutex}
use posix_intro.Critical.{entered, wrote}
use posix_intro.Critical.Ending.{HasStep, lines, up_from}
use posix_intro.Critical.Written.{Held, Wrote}
use posix_intro.Critical.Serial.{serial}
use posix_intro.Critical.Schedule.{Run, run}
use posix_intro.Counter.{no_th, Line, function2, func1, func2, thread, start_system}
use posix_intro.Counter.Numbers.{number, Runs-in_order, Runs-complete}

-- Thread 1 takes the lock and counts three times; thread 0 waits.
abbrev counting_on : Run Line no_th (start_system flag_mutex)
counting_on = run Line no_th (start_system flag_mutex) (1 ∷ 1 ∷ 0 ∷ 1 ∷ 0 ∷ 1 ∷ [])

counting_on_events :
    counting_on.events
    ≡ entered 1
      ∷ wrote true 1 (function2 1 2)
      ∷ wrote true 1 (function2 2 2)
      ∷ wrote true 1 (function2 3 2)
      ∷ []
unfolding run thread func1 func2
counting_on_events = refl

Runs-in_order_example :
    ((k : ℕ) × (counting_on.last.counter ≡ 1 + k)
      × (map number (lines counting_on.events) ≡ up_from 1 k))
    × Wrote Held counting_on.events
    × ((o : Option ℕ) × (serial counting_on.events none ≡ some o))
Runs-in_order_example = Runs-in_order flag_mutex counting_on.runs

Runs-complete_example :
    (length counting_on.events ≤ 520)
    × (HasStep (mutex_lock flag_mutex) no_th counting_on.last
        ⊎ ((length counting_on.events ≡ 520)
            × (counting_on.last.counter ≡ 501)
            × (map number (lines counting_on.events) ≡ up_from 1 500)))
Runs-complete_example = Runs-complete flag_mutex counting_on.runs
