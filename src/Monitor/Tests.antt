-- ===== src/Monitor/Tests.antt =====
-- The monitor at some sequences of sections.
use posix_intro.Common.{◌+◌, ◌/◌, ◌%◌, ◌<◌, ◌≡◌, ◌==◌, refl, arith, List, ◌∷◌, replicate}
use posix_intro.Monitor.{max_num, Monitor, monitor_init, Section, waits, returns, knocks, run}
use posix_intro.Monitor.Knocks.{counted, run-signals, returns-forgets}

-- A thread waits, and twelve knocks follow one that came too early.
abbrev visits : List Section
visits = knocks ∷ waits ∷ replicate 12 knocks

run-signals_example :
    ((run visits monitor_init).1
      ≡ (0 + counted (monitor_init.somebody_waits == 1) visits) / max_num)
    × ((run visits monitor_init).0.cnt
        ≡ (0 + counted (monitor_init.somebody_waits == 1) visits) % max_num)
run-signals_example = run-signals visits monitor_init (omega arith)

one_signal : (run visits monitor_init).1 ≡ 1
unfolding run
one_signal = refl

abbrev two_wait : Monitor
two_wait = record { cnt = 0; somebody_waits = 1; sleeping = 2 }

returns-forgets_example :
    ((run (returns ∷ replicate 40 knocks) two_wait).1 ≡ 0)
    × (0 < (run (returns ∷ replicate 40 knocks) two_wait).0.sleeping)
returns-forgets_example = returns-forgets two_wait 40 (omega arith)
