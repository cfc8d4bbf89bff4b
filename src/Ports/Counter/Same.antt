-- ===== src/Ports/Counter/Same.antt =====
-- What cpp/cc_lab03_a.cc shares with c/c_lab03_a.c.
use posix_intro.Common.{ℕ, ◌%◌, ◌==◌, ◌≡◌, refl, Bool-cases, inl, inr, ◌↔◌, List, map}
use posix_intro.Locks.{MutexApi, mutex_lock}
use posix_intro.Critical.{System, Event}
use posix_intro.Critical.Relabel.{relabelled, event, IsImage, Runs-IsImage, IsImage-Runs}
use posix_intro.Counter as C
use posix_intro.Counter.{function1, function2, CounterRuns, func1, func2}
use posix_intro.Ports.Counter.{Line, thread, start_system, ThreadRuns}

-- The C++ line in the place of a line of the C program.
abbrev pub in_cpp : C.Line → Line
in_cpp (function1 c n) = record { fun_id = 1; counter = c; thread = n }
in_cpp (function2 c n) = record { fun_id = 2; counter = c; thread = n }

thread-relabelled : (i : ℕ) → thread i ≡ map (relabelled in_cpp) (C.thread i)
unfolding thread C.thread func1 func2
thread-relabelled i = elim (Bool-cases (i % 2 == 0)) [ inl e ↦ rw e refl | inr e ↦ rw e refl ]

starts-IsImage :
    (api : MutexApi) → IsImage in_cpp (mutex_lock api) (C.start_system api) (start_system api)
starts-IsImage api = record {
  same_state = refl;
  same_counter = refl;
  same_rest = thread-relabelled;
}

-- The C++ program has exactly the runs of the C program, with "Function 1" for the lines of func1
-- and "Function 2" for those of func2, the same counter and the same thread in each.
pub threads-same_runs :
    (api : MutexApi) (es : List (Event Line))
    → ((t : System (mutex_lock api) Line) × ThreadRuns api es t) ↔ (
        (ds : List (Event C.Line)) × (s : System (mutex_lock api) C.Line) × (es
          ≡ map (event in_cpp) ds)
        × CounterRuns api ds s)
threads-same_runs api es = (
  λ run.
      let (t, r) = run in
      let (ds, s, same, r', m) =
        IsImage-Runs in_cpp (mutex_lock api) (C.start_system api) (starts-IsImage api) r in
      (ds, s, same, r'),
  λ run.
      let (ds, s, same, r) = run in
      let (t, r', m) =
        Runs-IsImage in_cpp (mutex_lock api) (start_system api) (starts-IsImage api) r in
      (t, rw same r'),
)
