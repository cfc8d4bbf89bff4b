-- ===== src/Printers.antt =====
-- c/c_lab03_b.c: two threads that each write ten blocks of ten lines, a block at a time under one
-- mutex.
pub mod Turns
mod Tests
use posix_intro.Common.{ℕ, zero, suc, ◌+◌, ◌*◌, List, [], ◌∷◌, ◌++◌, map}
use posix_intro.Locks.{MutexApi, mutex_lock}
use posix_intro.Critical.{Statement, writes, locks, unlocks, System, Runs, Event}

-- NO_TH
abbrev pub no_th : ℕ
no_th = 2

-- The lines of `print_thread`; the last one goes to stderr.
pub data Line : Type 0 where
  thread_one thread_two : (number : ℕ) → Line
  unknown : (thread : ℕ) → Line

-- The `switch` of `print_thread`.
pub print_line : (thread i : ℕ) → Line
print_line zero i = thread_one (i * 1000 + 1)
print_line (suc zero) i = thread_two (i * 1000 + 1)
print_line (suc (suc n)) i = unknown (suc (suc n))

-- The loop of `print_thread` from `i` on, with this many rounds left.
pub print_lines : (thread rounds i : ℕ) → List Line
print_lines thread zero i = []
print_lines thread (suc rounds) i = print_line thread i ∷ print_lines thread rounds (i + 1)

-- `print_thread`
pub print_thread : ℕ → List Line
print_thread thread = print_lines thread 10 0

-- The loop of `func` in the thread that was given `n`, with this many rounds left.
pub func_rounds : (n rounds : ℕ) → List (Statement Line)
func_rounds n zero = []
func_rounds n (suc rounds) = locks ∷ map writes (print_thread n) ++ unlocks ∷ func_rounds n rounds

-- `func`
pub func : ℕ → List (Statement Line)
func n = func_rounds n 10

-- The program once `main` has made the threads.
abbrev pub start_system : (api : MutexApi) → System (mutex_lock api) Line
start_system api = record { state = api.initializer; counter = 0; rest = func }

abbrev pub PrinterRuns :
    (api : MutexApi) → List (Event Line) → System (mutex_lock api) Line → Type 0
PrinterRuns api es t = Runs (mutex_lock api) Line no_th (start_system api) es t
