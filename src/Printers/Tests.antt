-- ===== src/Printers/Tests.antt =====
-- Runs of c/c_lab03_b.c by evaluation, and the theorems on them.
use posix_intro.Common.{◌≤◌, ◌≡◌, refl, [], ◌∷◌, ◌⊎◌, length, true}
use posix_intro.Locks.{mutex_lock, flag_mutex}
use posix_intro.Critical.{entered, wrote}
use posix_intro.Critical.Ending.{HasStep}
use posix_intro.Critical.Blocks.{Covered}
use posix_intro.Critical.Written.{Held, Wrote}
use posix_intro.Critical.Schedule.{Run, run}
use posix_intro.Printers.{
  no_th, Line, thread_two, unknown, print_line, print_lines, print_thread, func_rounds, func,
  start_system,
}
use posix_intro.Printers.Turns.{Runs-whole_blocks, Runs-finish}

-- Thread 1 takes the lock and writes; thread 0 waits.
abbrev writing : Run Line no_th (start_system flag_mutex)
writing = run Line no_th (start_system flag_mutex) (1 ∷ 0 ∷ 1 ∷ 1 ∷ 0 ∷ [])

writing_events :
    writing.events ≡ entered 1 ∷ wrote true 1 (thread_two 1) ∷ wrote true 1 (thread_two 1001) ∷ []
unfolding run func func_rounds print_thread print_lines print_line
writing_events = refl

unknown_thread : print_line 2 5 ≡ unknown 2
unfolding print_line
unknown_thread = refl

Runs-whole_blocks_example :
    Wrote Held writing.events
    × Covered (mutex_lock flag_mutex) print_thread no_th writing.last writing.events
Runs-whole_blocks_example = Runs-whole_blocks flag_mutex writing.runs

writing_goes_on :
    (length writing.events ≤ 240)
    × (HasStep (mutex_lock flag_mutex) no_th writing.last ⊎ (length writing.events ≡ 240))
writing_goes_on = Runs-finish flag_mutex writing.runs
