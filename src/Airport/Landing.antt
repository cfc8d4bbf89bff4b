-- ===== src/Airport/Landing.antt =====
-- What c/c_lab04.c and c/c_lab06.c guarantee.
use posix_intro.Common.{
  ◌∷◌, [], ◌+◌, ℕ, ◌≡◌, refl, sym, List, arith, length, Bool, true, false, Option, none, some, ◌↔◌,
  ◌∙◌, ◌≤◌, ◌⊎◌, inl, inr,
}
use posix_intro.Common.Outcome.{ok}
use posix_intro.Common.Threads.{tally, tally_of_const}
use posix_intro.Semaphore.{SemaphoreApi}
use posix_intro.Locks.{MutexApi, mutex_lock, semaphore_lock}
use posix_intro.Critical.{Event, System, IsGuarded}
use posix_intro.Critical.Blocks.{HasBlock, Covered, Runs-Covered}
use posix_intro.Critical.Serial.{serial, Runs-serial}
use posix_intro.Critical.Written.{WillWrite, Wrote, Runs-Wrote}
use posix_intro.Critical.Exclusion.{CanStart}
use posix_intro.Critical.Ending.{HasStep, Runs-progress}
use posix_intro.Critical.Equivalence.{Same, Runs-Same}
use posix_intro.Airport.{
  no_th, Line, asks, granted, landed, available, airplanes, mutex_start, init_semaphore,
  semaphore_start, MutexRuns, SemaphoreRuns,
}

airplanes-IsGuarded : (i : ℕ) → IsGuarded false (airplanes i)
unfolding airplanes
airplanes-IsGuarded i = tt

mutex-CanStart : (api : MutexApi) → CanStart (mutex_lock api) (mutex_start api)
mutex-CanStart api = record {
  free = rw api.is_locked-initializer refl;
  guarded = airplanes-IsGuarded;
}

semaphore-CanStart :
    (api : SemaphoreApi) (s : api.Sem)
    → init_semaphore api ≡ ok s
    → CanStart (semaphore_lock api) (semaphore_start api s)
unfolding init_semaphore
semaphore-CanStart api s e = record {
  free = ground (arith, api.sem_init_succeeds 1);
  guarded = airplanes-IsGuarded;
}

length-airplanes : (i : ℕ) → length (airplanes i) ≡ 6
unfolding airplanes
length-airplanes i = refl

all_statements : tally length no_th airplanes ≡ 30
all_statements = tally_of_const length no_th 6 airplanes (λ i lt. length-airplanes i)

-- What `airplanes` writes with the lock, in thread `i`.
abbrev pub landing_lines : ℕ → List Line
landing_lines i = granted (i + 1) ∷ landed (i + 1) ∷ available ∷ []

airplanes-HasBlock : (i : ℕ) → HasBlock (landing_lines i) (airplanes i)
unfolding airplanes
airplanes-HasBlock i = (refl, tt)

-- The question is asked at any time, and the other lines only with the lock.
abbrev pub OnRunway : Bool → Line → Type 0
OnRunway held (asks n) = Unit
OnRunway held (granted n) = held ≡ true
OnRunway held (landed n) = held ≡ true
OnRunway held available = held ≡ true

airplanes-WillWrite : (i : ℕ) → WillWrite OnRunway (airplanes i)
unfolding airplanes
airplanes-WillWrite i = (tt, (refl, (refl, (refl, tt))))

-- In every run of c_lab04.c every line but the questions is written by an airplane that has the
-- lock, from an airplane's lock to its unlock no other one takes the lock, gives it back or writes
-- such a line, and the lines written with the lock are the three landing lines of one airplane after
-- another, in the order in which they took the lock, where the last one may still have lines to
-- write.
pub mutex-blocks :
    (api : MutexApi) {es : List (Event Line)} {t : System (mutex_lock api) Line}
    → MutexRuns api es t
    → Wrote OnRunway es
      × ((o : Option ℕ) × (serial es none ≡ some o))
      × Covered (mutex_lock api) landing_lines no_th t es
mutex-blocks api r =
    let (o, ran, owns) = Runs-serial (mutex_lock api) (mutex-CanStart api) r in
    (
      Runs-Wrote OnRunway (mutex_lock api) airplanes-WillWrite r,
      (o, ran),
      (Runs-Covered (mutex_lock api) landing_lines (mutex-CanStart api) airplanes-HasBlock r).0,
    )

made_semaphore : (api : SemaphoreApi) → (s : api.Sem) × (init_semaphore api ≡ ok s)
unfolding init_semaphore
made_semaphore api = let (s, made, one) = api.sem_init_succeeds 1 (omega arith) in (s, rw made refl)

starts-Same :
    (m : MutexApi) (api : SemaphoreApi) (s : api.Sem)
    → init_semaphore api ≡ ok s
    → Same (mutex_lock m) (semaphore_lock api) (mutex_start m) (semaphore_start api s)
starts-Same m api s made = record {
  same_units = (mutex-CanStart m).free ∙ sym (semaphore-CanStart api s made).free;
  same_counter = refl;
  same_rest = refl;
}

starts-Same' :
    (m : MutexApi) (api : SemaphoreApi) (s : api.Sem)
    → init_semaphore api ≡ ok s
    → Same (semaphore_lock api) (mutex_lock m) (semaphore_start api s) (mutex_start m)
starts-Same' m api s made = record {
  same_units = (semaphore-CanStart api s made).free ∙ sym (mutex-CanStart m).free;
  same_counter = refl;
  same_rest = refl;
}

-- The two programs have the same runs: every sequence of events of c_lab04.c is one of c_lab06.c,
-- and the other way round.
pub mutex-same-semaphore :
    (m : MutexApi) (s : SemaphoreApi) (es : List (Event Line))
    → ((t : System (mutex_lock m) Line) × MutexRuns m es t)
      ↔ ((t : System (semaphore_lock s) Line) × SemaphoreRuns s es t)
mutex-same-semaphore m s es = (
  λ run.
      let (t, r) = run in
      let (u, made) = made_semaphore s in
      let (t', r', same) =
        Runs-Same (mutex_lock m) (semaphore_lock s) (semaphore_start s u) (mutex-CanStart m)
          (starts-Same m s u made) r in
      (t', (u, made, r')),
  λ run.
      let (t, (u, made, r)) = run in
      let (t', r', same) =
        Runs-Same (semaphore_lock s) (mutex_lock m) (mutex_start m) (semaphore-CanStart s u made)
          (starts-Same' m s u made) r in
      (t', r'),
)

-- Neither program stops early: c_lab06.c has at most thirty steps, and after fewer some thread can
-- go on.
pub semaphore-progress :
    (api : SemaphoreApi) {es : List (Event Line)} {t : System (semaphore_lock api) Line}
    → SemaphoreRuns api es t
    → (length es ≤ 30) × (HasStep (semaphore_lock api) no_th t ⊎ (length es ≡ 30))
semaphore-progress api (s, made, r) =
    let (most, cases) = Runs-progress (semaphore_lock api) (semaphore-CanStart api s made) r in
    (
      omega (arith, most, all_statements),
      elim cases [
        | inl more ↦ inl more
        | inr (steps, counter) ↦ inr (omega (arith, steps, all_statements))
      ],
    )
