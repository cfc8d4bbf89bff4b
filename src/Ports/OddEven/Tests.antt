-- ===== src/Ports/OddEven/Tests.antt =====
-- Runs of cpp/cc_lab05_a.cc by evaluation over Semaphore.Counting: one that stops before the number
-- 30, and one that does not.
use posix_intro.Common.{
  ℕ, zero, suc, ◌≤◌, ◌≡◌, refl, Option, none, some, List, [], ◌∷◌, ◌++◌, dec_lt, length, ◌⊎◌, Bool,
  true, false,
}
use posix_intro.Semaphore.{rk_sema_post}
use posix_intro.Semaphore.Counting.{counting}
use posix_intro.Semaphore.Laws.{Waits-of_pos}
use posix_intro.OddEven.{Event}
use posix_intro.OddEven.Output.{written, lines_up_to}
use posix_intro.Ports.OddEven.{
  Pc, waiting, printing, posting, testing, finished, after_test, System, constructed, Step, Runs,
  start, later,
}
use posix_intro.Ports.OddEven.Ending.{HasStep, Ended, Runs-Ended}

abbrev Next : System counting → Type 0
Next s = Option ((e : Event) × (t : System counting) × Step counting s e t)

odd_move : (s : System counting) (p : Pc) → s.odd ≡ p → Next s
unfolding dec_lt
odd_move s waiting at = elim (dec_lt 0 s.sem_odd) [
  | yes h ↦ some (_, _, Step.odd_waits at (Waits-of_pos counting s.sem_odd h))
  | no _ ↦ none
]
odd_move s printing at = some (_, _, Step.odd_prints at)
odd_move s posting at = some (_, _, Step.odd_posts at)
odd_move s testing at = some (_, _, Step.odd_tests at)
odd_move s finished at = none

even_move : (s : System counting) (p : Pc) → s.even ≡ p → Next s
unfolding dec_lt
even_move s waiting at = elim (dec_lt 0 s.sem_even) [
  | yes h ↦ some (_, _, Step.even_waits at (Waits-of_pos counting s.sem_even h))
  | no _ ↦ none
]
even_move s printing at = some (_, _, Step.even_prints at)
even_move s posting at = some (_, _, Step.even_posts at)
even_move s testing at = some (_, _, Step.even_tests at)
even_move s finished at = none

-- One thread moves if it can, and otherwise the other: the odd one is first for `true`.
next : Bool → (s : System counting) → Next s
unfolding odd_move even_move
next true s = elim (odd_move s s.odd refl) [ some st ↦ some st | none ↦ even_move s s.even refl ]
next false s = elim (even_move s s.even refl) [ some st ↦ some st | none ↦ odd_move s s.odd refl ]

record Run : Type 0 where
  events : List Event
  last : System counting
  runs : Runs counting events last

run : Bool → ℕ → Run
unfolding next constructed after_test rk_sema_post
run first zero = record { events = []; last = _; runs = start 0 0 }
run first (suc n) =
    let r = run first n in
    elim (next first r.last) [
      | some (e, t, st) ↦ record { events = r.events ++ e ∷ []; last = t; runs = later r.runs st }
      | none ↦ r
    ]

-- With the odd thread always first, the even one tests the counter when it has come to 30.
stops_early : written (run true 130).events ≡ lines_up_to 29
unfolding run lines_up_to
stops_early = refl

-- With the even thread always first, 30 is printed.
prints_all : written (run false 130).events ≡ lines_up_to 30
unfolding run lines_up_to
prints_all = refl

abbrev half : Run
half = run true 60

Runs-Ended_example :
    (length half.events ≤ 122) × (HasStep counting half.last ⊎ Ended counting half.events half.last)
Runs-Ended_example = Runs-Ended counting half.runs
