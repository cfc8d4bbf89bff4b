-- ===== src/Counter/Numbers.antt =====
-- What c/c_lab03_a.c writes.
use posix_intro.Common.{
  ℕ, zero, suc, ◌+◌, ◌%◌, ◌≡◌, refl, true, false, ◌==◌, Bool-cases, inl, inr, Option, none, some,
  List, [], ◌∷◌, ◌++◌, map, replicate, arith, length, ◌≤◌, ◌⊎◌,
}
use posix_intro.Common.Threads.{tally, tally_of_const}
use posix_intro.Locks.{MutexApi, mutex_lock}
use posix_intro.Critical.{Statement, counts, unlocks, Event, System, IsGuarded, inside}
use posix_intro.Critical.Written.{Held, WillWrite, Wrote, Runs-Wrote}
use posix_intro.Critical.Exclusion.{CanStart}
use posix_intro.Critical.Serial.{serial, Runs-serial}
use posix_intro.Critical.Ending.{
  IsNumbered, lines, uses, up_from, Runs-numbers, HasStep, Runs-progress,
}
use posix_intro.Counter.{
  n_max, no_th, Line, function1, function2, func1, func2, thread, start_system, CounterRuns,
}

-- The number in a line.
abbrev pub number : Line → ℕ
number (function1 c thread) = c
number (function2 c thread) = c

counting-IsGuarded :
    (k : ℕ) (f : ℕ → Line) → IsGuarded true (replicate k (counts f) ++ unlocks ∷ [])
counting-IsGuarded zero f = tt
counting-IsGuarded (suc k) f = counting-IsGuarded k f

counting-IsNumbered :
    (k : ℕ) (f : ℕ → Line)
    → ((c : ℕ) → number (f c) ≡ c)
    → IsNumbered number (replicate k (counts f) ++ unlocks ∷ [])
counting-IsNumbered zero f h = tt
counting-IsNumbered (suc k) f h = (h, counting-IsNumbered k f h)

counting-inside : (k : ℕ) (f : ℕ → Line) → inside (replicate k (counts f) ++ unlocks ∷ []) ≡ true
counting-inside zero f = refl
counting-inside (suc k) f = counting-inside k f

counting-WillWrite :
    (k : ℕ) (f : ℕ → Line) → WillWrite Held (replicate k (counts f) ++ unlocks ∷ [])
counting-WillWrite zero f = tt
counting-WillWrite (suc k) f = (λ c. counting-inside k f, counting-WillWrite k f)

-- A property of both functions is one of every thread.
thread_cases {ℓ} :
    (P : List (Statement Line) → Type ℓ) (i : ℕ) → P (func1 i) → P (func2 i) → P (thread i)
unfolding thread
thread_cases P i one two = elim (Bool-cases (i % 2 == 0)) [ inl e ↦ rw e one | inr e ↦ rw e two ]

thread-IsGuarded : (i : ℕ) → IsGuarded false (thread i)
unfolding func1 func2
thread-IsGuarded i =
    thread_cases (IsGuarded false) i (counting-IsGuarded n_max (λ c. function1 c (i + 1)))
      (counting-IsGuarded n_max (λ c. function2 c (i + 1)))

thread-IsNumbered : (i : ℕ) → IsNumbered number (thread i)
unfolding func1 func2
thread-IsNumbered i =
    thread_cases (IsNumbered number) i
      (counting-IsNumbered n_max (λ c. function1 c (i + 1)) (λ c. refl))
      (counting-IsNumbered n_max (λ c. function2 c (i + 1)) (λ c. refl))

thread-WillWrite : (i : ℕ) → WillWrite Held (thread i)
unfolding func1 func2
thread-WillWrite i =
    thread_cases (WillWrite Held) i (counting-WillWrite n_max (λ c. function1 c (i + 1)))
      (counting-WillWrite n_max (λ c. function2 c (i + 1)))

thread_sizes : (i : ℕ) → (length (thread i) ≡ 52) × (uses (thread i) ≡ 50)
unfolding func1 func2
thread_sizes i = thread_cases (λ p. (length p ≡ 52) × (uses p ≡ 50)) i (refl, refl) (refl, refl)

all_statements : tally length no_th thread ≡ 520
all_statements = tally_of_const length no_th 52 thread (λ i lt. (thread_sizes i).0)

all_uses : tally uses no_th thread ≡ 500
all_uses = tally_of_const uses no_th 50 thread (λ i lt. (thread_sizes i).1)

start-CanStart : (api : MutexApi) → CanStart (mutex_lock api) (start_system api)
start-CanStart api = record { free = rw api.is_locked-initializer refl; guarded = thread-IsGuarded }

module _ (api : MutexApi) {es : List (Event Line)} {t : System (mutex_lock api) Line} where
  -- The fifty lines of a thread are not interrupted: in every run, from a thread's lock to its
  -- unlock, no other thread takes the lock, gives it back or writes a locked line.
  Runs-uninterrupted : CounterRuns api es t → (o : Option ℕ) × (serial es none ≡ some o)
  Runs-uninterrupted r =
      let (o, ran, owns) = Runs-serial (mutex_lock api) (start-CanStart api) r in (o, ran)

  -- At any time in any interleaving the lines that the ten threads have written carry the numbers
  -- from 1 up to the one before the counter, in order and each once; every line is written by a
  -- thread that has the lock, and from its lock to its unlock no other thread takes the lock, gives
  -- it back or writes a line.
  pub Runs-in_order :
      CounterRuns api es t
      → ((k : ℕ) × (t.counter ≡ 1 + k) × (map number (lines es) ≡ up_from 1 k))
        × Wrote Held es
        × ((o : Option ℕ) × (serial es none ≡ some o))
  Runs-in_order r =
      let (k, count, same, all) = Runs-numbers (mutex_lock api) number thread-IsNumbered r in
      ((k, count, same), Runs-Wrote Held (mutex_lock api) thread-WillWrite r, Runs-uninterrupted r)

  -- The program does not deadlock: it has at most 520 steps, after fewer some thread can go on, and
  -- after all of them it has written the numbers 1 to 500, in order, and the counter is 501.
  pub Runs-complete :
      CounterRuns api es t
      → (length es ≤ 520)
        × (HasStep (mutex_lock api) no_th t
            ⊎ ((length es ≡ 520) × (t.counter ≡ 501) × (map number (lines es) ≡ up_from 1 500)))
  Runs-complete r =
      let (most, cases) = Runs-progress (mutex_lock api) (start-CanStart api) r in
      let (k, count, numbers) = (Runs-in_order r).0 in
      (
        omega (arith, most, all_statements),
        elim cases [
          | inl more ↦ inl more
          | inr (steps, counter) ↦
              let all : k ≡ 500 = omega (arith, counter, count, all_uses) in
              inr (
                omega (arith, steps, all_statements),
                omega (arith, counter, all_uses),
                rw (← all) numbers,
              )
        ],
      )
