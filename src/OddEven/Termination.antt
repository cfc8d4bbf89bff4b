-- ===== src/OddEven/Termination.antt =====
-- The two threads of c/c_lab05_a.c end, after all thirty numbers.
use posix_intro.Common.{
  ℕ, ◌+◌, ◌-◌, ◌*◌, ◌≤◌, ◌<◌, ◌≡◌, refl, ◌⊎◌, inl, inr, List, [], ◌∷◌, arith, length, length-append,
  dec_lt, ap, ◌∙◌,
}
use posix_intro.Semaphore.{SemaphoreApi}
use posix_intro.Semaphore.Laws.{Waits-of_pos}
use posix_intro.OddEven.{
  max_n, Pc, waiting, printing, testing, posting, finished, Event, System, init_semaphores, Step,
  odd_waits, odd_prints, odd_tests, odd_posts, even_waits, even_prints, even_tests, even_posts,
  Runs, start, later,
}
use posix_intro.OddEven.Invariant.{Inv, Runs-Inv, inside}
use posix_intro.OddEven.Output.{written, lines_up_to, Runs-written}

-- How many statements a thread has before its next line.
abbrev rank : Pc → ℕ
rank waiting = 1
rank printing = 0
rank testing = 3
rank (posting _) = 2
rank finished = 0

abbrev pub max_steps : ℕ
max_steps = 4 * max_n + 2

module _ (api : SemaphoreApi) where
  open api use {value}

  abbrev steps_left : System api → ℕ
  steps_left s = 4 * (max_n + 1 - s.counter) + rank s.odd + rank s.even

  Step-steps_left :
      {e : Event} {s t : System api} → Step api s e t → Inv api s → steps_left t < steps_left s
  Step-steps_left (odd_waits at w) inv = ground arith
  Step-steps_left (even_waits at w) inv = ground arith
  Step-steps_left (odd_posts at) inv = ground arith
  Step-steps_left (even_posts at) inv = ground arith
  Step-steps_left (odd_prints at) inv = ground arith
  Step-steps_left (even_prints at) inv = ground arith
  Step-steps_left (odd_tests at) inv = ground arith
  Step-steps_left (even_tests at) inv = ground arith

  length-le :
      {es : List Event} {s : System api} → Runs api es s → length es + steps_left s ≤ max_steps
  unfolding init_semaphores
  length-le (start e) = ground (arith, api.sem_init_succeeds 0, api.sem_init_succeeds 1)
  length-le (later {es = es} {e = e} r st) =
      omega (arith, length-append es (e ∷ []), length-le r, Step-steps_left st (Runs-Inv api r))

  -- The program takes at most 122 steps, in whatever order the threads run.
  pub terminates : {es : List Event} {s : System api} → Runs api es s → length es ≤ max_steps
  terminates r = omega (arith, length-le r)

  HasStep : System api → Type 0
  HasStep s = (e : Event) × (t : System api) × Step api s e t

  -- A thread that is inside has a next step.
  odd_inside-HasStep : (s : System api) (p : Pc) → s.odd ≡ p → 0 < inside p → HasStep s
  unfolding HasStep
  odd_inside-HasStep s waiting at h = elim h [ ]
  odd_inside-HasStep s printing at h = (_, _, odd_prints at)
  odd_inside-HasStep s testing at h = (_, _, odd_tests at)
  odd_inside-HasStep s (posting end) at h = (_, _, odd_posts at)
  odd_inside-HasStep s finished at h = elim h [ ]

  even_inside-HasStep : (s : System api) (p : Pc) → s.even ≡ p → 0 < inside p → HasStep s
  unfolding HasStep
  even_inside-HasStep s waiting at h = elim h [ ]
  even_inside-HasStep s printing at h = (_, _, even_prints at)
  even_inside-HasStep s testing at h = (_, _, even_tests at)
  even_inside-HasStep s (posting end) at h = (_, _, even_posts at)
  even_inside-HasStep s finished at h = elim h [ ]

  -- With both threads outside, the semaphore of the one whose turn it is lets that one in, unless
  -- both have finished.
  turn :
      (s : System api)
      → Inv api s
      → inside s.odd ≡ 0
      → inside s.even ≡ 0
      → ((s.odd ≡ finished) × (s.even ≡ finished))
        ⊎ ((s.odd ≡ waiting) × (0 < value s.sem_odd))
        ⊎ ((s.even ≡ waiting) × (0 < value s.sem_even))
  turn s inv odd_out even_out = ground arith

  -- The next step of a state in which some thread has not finished.
  step_of : (s : System api) → Inv api s → HasStep s ⊎ ((s.odd ≡ finished) × (s.even ≡ finished))
  unfolding HasStep
  step_of s inv = elim (dec_lt 0 (inside s.odd)) [
    | yes h ↦ inl (odd_inside-HasStep s s.odd refl h)
    | no odd_out ↦ elim (dec_lt 0 (inside s.even)) [
      | yes h ↦ inl (even_inside-HasStep s s.even refl h)
      | no even_out ↦ elim (turn s inv (omega arith) (omega arith)) [
        | inl done ↦ inr done
        | inr (inl (at, free)) ↦ inl (_, _, odd_waits at (Waits-of_pos api s.sem_odd free))
        | inr (inr (at, free)) ↦ inl (_, _, even_waits at (Waits-of_pos api s.sem_even free))
      ]
    ]
  ]

  all_counted : {s : System api} → Inv api s → s.even ≡ finished → s.counter - 1 ≡ max_n
  all_counted inv at = ground arith

  -- Two threads that have finished take no step.
  pub finished-stuck :
      {e : Event} {s t : System api} → s.odd ≡ finished → s.even ≡ finished → ¬ Step api s e t
  finished-stuck odd_done even_done (odd_waits at w) = cc
  finished-stuck odd_done even_done (odd_prints at) = cc
  finished-stuck odd_done even_done (odd_tests at) = cc
  finished-stuck odd_done even_done (odd_posts at) = cc
  finished-stuck odd_done even_done (even_waits at w) = cc
  finished-stuck odd_done even_done (even_prints at) = cc
  finished-stuck odd_done even_done (even_tests at) = cc
  finished-stuck odd_done even_done (even_posts at) = cc

  -- The program never stops before its end: a state with no next step is one where both threads
  -- have finished, and then the lines of 1 to 30 are written.
  pub stops_finished :
      {es : List Event} {s : System api}
      → Runs api es s
      → ((e : Event) (t : System api) → ¬ Step api s e t)
      → (s.odd ≡ finished) × (s.even ≡ finished) × (written es ≡ lines_up_to max_n)
  unfolding HasStep
  stops_finished r stuck = elim (step_of _ (Runs-Inv api r)) [
    | inl (e, t, st) ↦ absurd (stuck e t st)
    | inr (odd_done, even_done) ↦ (
      odd_done,
      even_done,
      Runs-written api r ∙ ap lines_up_to (all_counted (Runs-Inv api r) even_done),
    )
  ]
