-- ===== src/Monitor.antt =====
-- c/include/simple_monitor.h: threads that wait for MAX_NUM knocks. Every function holds the mutex
-- from its first statement to its last, but for the wait on the condition, which gives it up; so an
-- execution is a sequence of the sections below, in the order in which they take the mutex.
pub mod Knocks
mod Tests
use posix_intro.Common.{
  ℕ, zero, suc, ◌+◌, ◌-◌, ◌==◌, Bool, true, false, List, [], ◌∷◌, if◌then◌else◌,
}

-- MAX_NUM
abbrev pub max_num : ℕ
max_num = 10

-- `monitor_tag`, where `somebody_waits` is 0 or 1, and how many threads wait on its condition.
pub record Monitor : Type 0 where
  pub cnt : ℕ
  pub somebody_waits : ℕ
  pub sleeping : ℕ

-- `monitor_init`
abbrev pub monitor_init : Monitor
monitor_init = record { cnt = 0; somebody_waits = 0; sleeping = 0 }

-- `monitor_wait` up to its wait, and from there on.
unfoldable pub begin_wait : Monitor → Monitor
begin_wait m = record m { somebody_waits = 1; sleeping = m.sleeping + 1 }

unfoldable pub end_wait : Monitor → Monitor
end_wait m = record m { somebody_waits = 0; sleeping = m.sleeping - 1 }

-- `monitor_knock`, and whether it signals the condition.
unfoldable pub monitor_knock : Monitor → Monitor × Bool
monitor_knock m =
    if m.somebody_waits == 1
    then (if m.cnt + 1 == max_num
        then (record m { cnt = 0 }, true)
        else (record m { cnt = m.cnt + 1 }, false))
    else (m, false)

-- A section that a thread runs with the mutex: it waits, returns from its wait, or knocks. A wait
-- may return without a signal.
pub data Section : Type 0 where
  waits returns knocks : Section

abbrev pub one_if : Bool → ℕ
one_if true = 1
one_if false = 0

-- The monitor behind a sequence of sections, and how many signals were sent.
unfoldable pub run : List Section → Monitor → Monitor × ℕ
unfolding begin_wait end_wait monitor_knock
run [] m = (m, 0)
run (waits ∷ rest) m = run rest (begin_wait m)
run (returns ∷ rest) m = run rest (end_wait m)
run (knocks ∷ rest) m =
    let (m', signals) = run rest (monitor_knock m).0 in (m', one_if (monitor_knock m).1 + signals)
