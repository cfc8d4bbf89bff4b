-- ===== src/Ports/Counter/Tests.antt =====
-- Runs of cpp/cc_lab03_a.cc by evaluation, and the theorem on them.
use posix_intro.Common.{◌≡◌, refl, true, ◌↔◌, List, [], ◌∷◌, map}
use posix_intro.Locks.{mutex_lock, flag_mutex}
use posix_intro.Critical.{entered, wrote, Event, System}
use posix_intro.Critical.Schedule.{Run, run}
use posix_intro.Critical.Relabel.{event}
use posix_intro.Counter as C
use posix_intro.Ports.Counter.{no_th, Line, func, thread, start_system, ThreadRuns}
use posix_intro.Ports.Counter.Same.{in_cpp, threads-same_runs}

-- Thread 4 takes the lock and counts twice; thread 1 waits.
abbrev counting_on : Run Line no_th (start_system flag_mutex)
counting_on = run Line no_th (start_system flag_mutex) (4 ∷ 4 ∷ 1 ∷ 4 ∷ [])

counting_on_events :
    counting_on.events
    ≡ entered 4
      ∷ wrote true 4 (record { fun_id = 1; counter = 1; thread = 5 })
      ∷ wrote true 4 (record { fun_id = 1; counter = 2; thread = 5 })
      ∷ []
unfolding run thread func
counting_on_events = refl

threads-same_runs_example :
    ((t : System (mutex_lock flag_mutex) Line) × ThreadRuns flag_mutex counting_on.events t) ↔ (
      (ds : List (Event C.Line)) × (s : System (mutex_lock flag_mutex) C.Line) × (counting_on.events
        ≡ map (event in_cpp) ds)
      × C.CounterRuns flag_mutex ds s)
threads-same_runs_example = threads-same_runs flag_mutex counting_on.events
