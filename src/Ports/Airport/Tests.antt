-- ===== src/Ports/Airport/Tests.antt =====
-- Runs of cpp/cc_lab04.cc by evaluation, and the theorem on them.
use posix_intro.Common.{◌≡◌, ◌≤◌, refl, true, ◌⊎◌, List, [], ◌∷◌, length, map}
use posix_intro.Locks.{mutex_lock, flag_mutex}
use posix_intro.Critical.{entered, left, wrote, Event, System}
use posix_intro.Critical.Ending.{lines, HasStep}
use posix_intro.Critical.Schedule.{Run, run}
use posix_intro.Airport as C
use posix_intro.Ports.Airport.{Line, asks, no_th, airplanes, thread, start_system}
use posix_intro.Ports.Airport.Landing.{in_cpp, airplanes-same_lines}

-- Airplane 2 asks; airplane 1 waits for the lock meanwhile, and asks then.
abbrev asking : Run Line no_th (start_system flag_mutex)
asking = run Line no_th (start_system flag_mutex) (1 ∷ 0 ∷ 1 ∷ 1 ∷ 0 ∷ 0 ∷ [])

asking_events :
    asking.events
    ≡ entered 1 ∷ wrote true 1 (asks 2) ∷ left 1 ∷ entered 0 ∷ wrote true 0 (asks 1) ∷ []
unfolding run thread airplanes
asking_events = refl

airplanes-same_lines_example :
    ((ds : List (Event C.Line)) × (s : System (mutex_lock flag_mutex) C.Line) × C.MutexRuns
        flag_mutex ds s
      × (lines asking.events ≡ map in_cpp (lines ds)))
    × (length asking.events ≤ 40)
    × (HasStep (mutex_lock flag_mutex) no_th asking.last ⊎ (length asking.events ≡ 40))
airplanes-same_lines_example = airplanes-same_lines flag_mutex asking.runs
