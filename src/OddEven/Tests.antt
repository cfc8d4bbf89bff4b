-- ===== src/OddEven/Tests.antt =====
-- Runs of c/c_lab05_a.c by evaluation over Semaphore.Counting, and the theorems on them.
use posix_intro.Common.{
  ℕ, zero, suc, ◌≤◌, ◌≡◌, refl, Option, none, some, List, [], ◌∷◌, ◌++◌, dec_lt, length, ◌-◌,
}
use posix_intro.Semaphore.{rk_sema_post}
use posix_intro.Semaphore.Counting.{counting}
use posix_intro.Semaphore.Laws.{Waits-of_pos}
use posix_intro.OddEven.{
  max_n, Pc, waiting, printing, testing, posting, finished, Event, odd_line, even_line, System,
  init_semaphores, Step, Runs, start, later,
}
use posix_intro.OddEven.Output.{written, lines_up_to, Runs-written}
use posix_intro.OddEven.Termination.{max_steps, terminates, stops_finished, finished-stuck}

abbrev Next : System counting → Type 0
Next s = Option ((e : Event) × (t : System counting) × Step counting s e t)

odd_step : (s : System counting) (p : Pc) → s.odd ≡ p → Next s
unfolding dec_lt
odd_step s waiting at = elim (dec_lt 0 s.sem_odd) [
  | yes h ↦ some (_, _, Step.odd_waits at (Waits-of_pos counting s.sem_odd h))
  | no _ ↦ none
]
odd_step s printing at = some (_, _, Step.odd_prints at)
odd_step s testing at = some (_, _, Step.odd_tests at)
odd_step s (posting end) at = some (_, _, Step.odd_posts at)
odd_step s finished at = none

even_step : (s : System counting) (p : Pc) → s.even ≡ p → Next s
unfolding dec_lt
even_step s waiting at = elim (dec_lt 0 s.sem_even) [
  | yes h ↦ some (_, _, Step.even_waits at (Waits-of_pos counting s.sem_even h))
  | no _ ↦ none
]
even_step s printing at = some (_, _, Step.even_prints at)
even_step s testing at = some (_, _, Step.even_tests at)
even_step s (posting end) at = some (_, _, Step.even_posts at)
even_step s finished at = none

-- The odd thread moves if it can, and otherwise the even one.
next : (s : System counting) → Next s
unfolding odd_step even_step
next s = elim (odd_step s s.odd refl) [ some st ↦ some st | none ↦ even_step s s.even refl ]

record Run : Type 0 where
  events : List Event
  last : System counting
  runs : Runs counting events last

run : ℕ → Run
unfolding next init_semaphores rk_sema_post
run zero = record { events = []; last = _; runs = start refl }
run (suc n) =
    let r = run n in
    elim (next r.last) [
      | some (e, t, st) ↦ record { events = r.events ++ e ∷ []; last = t; runs = later r.runs st }
      | none ↦ r
    ]

abbrev three_lines : Run
three_lines = run 12

three_lines-written : written three_lines.events ≡ odd_line 1 ∷ even_line 2 ∷ odd_line 3 ∷ []
unfolding run
three_lines-written = refl

Runs-written_example : written three_lines.events ≡ lines_up_to (three_lines.last.counter - 1)
Runs-written_example = Runs-written counting three_lines.runs

terminates_example : length three_lines.events ≤ max_steps
terminates_example = terminates counting three_lines.runs

abbrev whole : Run
whole = run 130

stops_finished_example :
    (whole.last.odd ≡ finished)
    × (whole.last.even ≡ finished)
    × (written whole.events ≡ lines_up_to max_n)
unfolding run
stops_finished_example =
    stops_finished counting whole.runs (λ e t. finished-stuck counting refl refl)
