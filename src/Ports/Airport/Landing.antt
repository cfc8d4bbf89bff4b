-- ===== src/Ports/Airport/Landing.antt =====
-- What cpp/cc_lab04.cc guarantees, against c/c_lab04.c.
use posix_intro.Common.{
  ℕ, ◌≤◌, ◌≡◌, refl, ap, ◌∙◌, map, false, ◌⊎◌, inl, inr, List, [], ◌∷◌, length, arith,
}
use posix_intro.Common.Threads.{tally, tally_of_const}
use posix_intro.Locks.{MutexApi, mutex_lock}
use posix_intro.Critical.{Event, entered, left, wrote, System, IsGuarded}
use posix_intro.Critical.Relabel.{relabelled, event, IsImage, IsImage-Runs}
use posix_intro.Critical.Exclusion.{CanStart}
use posix_intro.Critical.Ending.{lines, HasStep, Runs-progress}
use posix_intro.Critical.Thinning.{Thins, ended, keeps, opens}
use posix_intro.Critical.Refinement.{IsThinned, Runs-lines}
use posix_intro.Airport as C
use posix_intro.Ports.Airport.{
  Line, asks, granted, landed_the, available, no_th, airplanes, thread, start_system, LandingRuns,
}

thread-IsGuarded : (i : ℕ) → IsGuarded false (thread i)
unfolding thread airplanes
thread-IsGuarded i = tt

start-CanStart : (api : MutexApi) → CanStart (mutex_lock api) (start_system api)
start-CanStart api = record { free = rw api.is_locked-initializer refl; guarded = thread-IsGuarded }

-- The C++ line in the place of a line of the C program.
abbrev pub in_cpp : C.Line → Line
in_cpp (C.asks n) = asks n
in_cpp (C.granted n) = granted n
in_cpp (C.landed n) = landed_the n
in_cpp C.available = available

-- The C program with the lines of the C++ program.
c_start : (api : MutexApi) → System (mutex_lock api) Line
c_start api = record {
  state = api.initializer;
  counter = 0;
  rest = λ i. map (relabelled in_cpp) (C.airplanes i);
}

c_start-CanStart : (api : MutexApi) → CanStart (mutex_lock api) (c_start api)
unfolding C.airplanes c_start
c_start-CanStart api = record { free = rw api.is_locked-initializer refl; guarded = λ i. tt }

c_start-IsImage :
    (api : MutexApi) → IsImage in_cpp (mutex_lock api) (C.mutex_start api) (c_start api)
unfolding c_start
c_start-IsImage api = record { same_state = refl; same_counter = refl; same_rest = λ i. refl }

thread-Thins : (i : ℕ) → Thins (thread i) (map (relabelled in_cpp) (C.airplanes i))
unfolding thread airplanes C.airplanes
thread-Thins i =
    opens refl refl (
      keeps refl refl (keeps refl refl (keeps refl refl (keeps refl refl (keeps refl refl ended)))))

start-IsThinned :
    (api : MutexApi) → IsThinned (mutex_lock api) (mutex_lock api) (start_system api) (c_start api)
unfolding c_start
start-IsThinned api = record { same_counter = refl; thins = thread-Thins }

lines-event : (ds : List (Event C.Line)) → lines (map (event in_cpp) ds) ≡ map in_cpp (lines ds)
lines-event [] = refl
lines-event (entered i ∷ ds) = lines-event ds
lines-event (left i ∷ ds) = lines-event ds
lines-event (wrote held i l ∷ ds) = ap (λ ls. in_cpp l ∷ ls) (lines-event ds)

length-thread : (i : ℕ) → length (thread i) ≡ 8
unfolding thread airplanes
length-thread i = refl

all_statements : tally length no_th thread ≡ 40
all_statements = tally_of_const length no_th 8 thread (λ i lt. length-thread i)

-- Whatever lines the C++ program writes, in whatever interleaving, the C program has a run that
-- writes them in the same order, but for the text of the line of the landing; and the C++ program
-- has at most forty steps, and after fewer some thread can go on.
pub airplanes-same_lines :
    (api : MutexApi) {es : List (Event Line)} {t : System (mutex_lock api) Line}
    → LandingRuns api es t
    → ((ds : List (Event C.Line)) × (s : System (mutex_lock api) C.Line) × C.MutexRuns api ds s
        × (lines es ≡ map in_cpp (lines ds)))
      × (length es ≤ 40)
      × (HasStep (mutex_lock api) no_th t ⊎ (length es ≡ 40))
airplanes-same_lines api r =
    let (cs, u, r', same, m) =
      Runs-lines (mutex_lock api) (mutex_lock api) (c_start api) (start-CanStart api)
        (c_start-CanStart api) (start-IsThinned api) r in
    let (ds, s, relabelling, r'', m') =
      IsImage-Runs in_cpp (mutex_lock api) (C.mutex_start api) (c_start-IsImage api) r' in
    let (most, cases) = Runs-progress (mutex_lock api) (start-CanStart api) r in
    (
      (ds, s, r'', same ∙ ap lines relabelling ∙ lines-event ds),
      omega (arith, most, all_statements),
      elim cases [
        | inl more ↦ inl more
        | inr (steps, counter) ↦ inr (omega (arith, steps, all_statements))
      ],
    )
