-- ===== src/OddEven/Output.antt =====
-- What c/c_lab05_a.c writes.
use posix_intro.Common.{
  ℕ, zero, suc, ◌+◌, ◌-◌, ◌%◌, ◌≤◌, ◌≡◌, refl, List, [], ◌∷◌, ◌++◌, arith, ◌==◌, if◌then◌else◌,
  append-nil,
}
use posix_intro.Semaphore.{SemaphoreApi}
use posix_intro.OddEven.{
  printing, Event, quiet, odd_line, even_line, System, Step, odd_waits, odd_prints, odd_tests,
  odd_posts, even_waits, even_prints, even_tests, even_posts, Runs, start, later, init_semaphores,
}
use posix_intro.OddEven.Invariant.{Inv, Runs-Inv}

-- The lines that a run writes.
abbrev pub written : List Event → List Event
written [] = []
written (quiet ∷ es) = written es
written (e ∷ es) = e ∷ written es

-- The line that belongs to a number.
abbrev pub line : ℕ → Event
line n = if n % 2 == 1 then odd_line n else even_line n

-- The lines of 1, 2, …, n.
unfoldable pub lines_up_to : ℕ → List Event
lines_up_to zero = []
lines_up_to (suc n) = lines_up_to n ++ line (suc n) ∷ []

pub written-append : (es fs : List Event) → written (es ++ fs) ≡ written es ++ written fs
written-append [] fs = refl
written-append (quiet ∷ es) fs = written-append es fs
written-append (odd_line n ∷ es) fs = rw (written-append es fs)
written-append (even_line n ∷ es) fs = rw (written-append es fs)

pub lines_up_to-next :
    (c : ℕ) → 1 ≤ c → lines_up_to (c - 1) ++ line c ∷ [] ≡ lines_up_to (c + 1 - 1)
unfolding lines_up_to
lines_up_to-next zero h = elim h [ ]
lines_up_to-next (suc n) h =
    let same : suc n - 1 ≡ n = omega arith in
    let next : suc n + 1 - 1 ≡ suc n = omega arith in rw (same, next)

module _ (api : SemaphoreApi) where
  line_of_odd :
      (s : System api) → Inv api s → s.odd ≡ printing → line s.counter ≡ odd_line s.counter
  line_of_odd s inv at = ground arith

  line_of_even :
      (s : System api) → Inv api s → s.even ≡ printing → line s.counter ≡ even_line s.counter
  line_of_even s inv at = ground arith

  -- What a step adds to the transcript.
  Step-written :
      {e : Event} {s t : System api}
      → Step api s e t
      → Inv api s
      → lines_up_to (s.counter - 1) ++ written (e ∷ []) ≡ lines_up_to (t.counter - 1)
  unfolding lines_up_to
  Step-written {s = s} (odd_prints at) inv =
      rw (← line_of_odd s inv at) (lines_up_to-next s.counter inv.started)
  Step-written {s = s} (even_prints at) inv =
      rw (← line_of_even s inv at) (lines_up_to-next s.counter inv.started)
  Step-written (odd_waits at w) inv = append-nil _
  Step-written (odd_tests at) inv = append-nil _
  Step-written (odd_posts at) inv = append-nil _
  Step-written (even_waits at w) inv = append-nil _
  Step-written (even_tests at) inv = append-nil _
  Step-written (even_posts at) inv = append-nil _

  -- At any time the program has written the lines of the numbers below the counter, each once, in
  -- order, the odd ones by the odd thread and the even ones by the even thread.
  pub Runs-written :
      {es : List Event} {s : System api} → Runs api es s → written es ≡ lines_up_to (s.counter - 1)
  unfolding lines_up_to init_semaphores
  Runs-written (start e) = ground (arith, api.sem_init_succeeds 0, api.sem_init_succeeds 1)
  Runs-written (later {es = es} {e = e} r st) =
      rw (written-append es (e ∷ []), Runs-written r) (Step-written st (Runs-Inv api r))
