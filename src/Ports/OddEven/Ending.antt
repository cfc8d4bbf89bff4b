-- ===== src/Ports/OddEven/Ending.antt =====
-- What the two threads write, and how they end.
use posix_intro.Common.{
  ℕ, ◌+◌, ◌-◌, ◌*◌, ◌≤◌, ◌<◌, ◌≡◌, refl, ◌⊎◌, inl, inr, List, [], ◌∷◌, ◌++◌, arith, length,
  length-append, dec_lt, ap, ◌∙◌, append-nil,
}
use posix_intro.Semaphore.{SemaphoreApi}
use posix_intro.Semaphore.Laws.{Waits-of_pos}
use posix_intro.OddEven.{Event, odd_line, even_line}
use posix_intro.OddEven.Output.{written, written-append, line, lines_up_to, lines_up_to-next}
use posix_intro.Ports.OddEven.{
  len, Pc, waiting, printing, posting, testing, finished, after_test, System, constructed, Step,
  odd_waits, odd_prints, odd_posts, odd_tests, even_waits, even_prints, even_posts, even_tests,
  Runs, start, later,
}
use posix_intro.Ports.OddEven.Invariant.{Inv, Runs-Inv}

-- How many statements a thread has before its next line.
abbrev rank : Pc → ℕ
rank waiting = 1
rank printing = 0
rank posting = 3
rank testing = 2
rank finished = 0

module _ (api : SemaphoreApi) where
  open api use {value}

  odd_line_of :
      (s : System api) → Inv api s → s.odd ≡ printing → line s.counter ≡ odd_line s.counter
  odd_line_of s inv at = ground arith

  even_line_of :
      (s : System api) → Inv api s → s.even ≡ printing → line s.counter ≡ even_line s.counter
  even_line_of s inv at = ground arith

  Step-written :
      {e : Event} {s t : System api}
      → Step api s e t
      → Inv api s
      → lines_up_to (s.counter - 1) ++ written (e ∷ []) ≡ lines_up_to (t.counter - 1)
  Step-written {s = s} (odd_prints at) inv =
      rw (← odd_line_of s inv at) (lines_up_to-next s.counter inv.started)
  Step-written {s = s} (even_prints at) inv =
      rw (← even_line_of s inv at) (lines_up_to-next s.counter inv.started)
  Step-written (odd_waits at w) inv = append-nil _
  Step-written (odd_tests at) inv = append-nil _
  Step-written (odd_posts at) inv = append-nil _
  Step-written (even_waits at w) inv = append-nil _
  Step-written (even_tests at) inv = append-nil _
  Step-written (even_posts at) inv = append-nil _

  Runs-written :
      {es : List Event} {s : System api} → Runs api es s → written es ≡ lines_up_to (s.counter - 1)
  unfolding lines_up_to constructed
  Runs-written (start odd even) = refl
  Runs-written (later {es = es} {e = e} r st) =
      rw (written-append es (e ∷ []), Runs-written r) (Step-written st (Runs-Inv api r))

  abbrev steps_left : System api → ℕ
  steps_left s = 4 * (len + 1 - s.counter) + rank s.odd + rank s.even

  Step-steps_left :
      {e : Event} {s t : System api} → Step api s e t → Inv api s → steps_left t < steps_left s
  unfolding after_test
  Step-steps_left (odd_waits at w) inv = ground arith
  Step-steps_left (even_waits at w) inv = ground arith
  Step-steps_left (odd_posts at) inv = ground arith
  Step-steps_left (even_posts at) inv = ground arith
  Step-steps_left (odd_prints at) inv = ground arith
  Step-steps_left (even_prints at) inv = ground arith
  Step-steps_left (odd_tests at) inv = ground arith
  Step-steps_left (even_tests at) inv = ground arith

  length-le :
      {es : List Event} {s : System api} → Runs api es s → length es + steps_left s ≤ 4 * len + 2
  unfolding constructed
  length-le (start odd even) = omega arith
  length-le (later {es = es} {e = e} r st) =
      omega (arith, length-append es (e ∷ []), length-le r, Step-steps_left st (Runs-Inv api r))

  abbrev pub HasStep : System api → Type 0
  HasStep s = (e : Event) × (t : System api) × Step api s e t

  odd_step :
      (s : System api) (p : Pc)
      → s.odd ≡ p
      → HasStep s ⊎ ((p ≡ waiting) × (value s.sem_odd ≡ 0)) ⊎ (p ≡ finished)
  odd_step s waiting at = elim (dec_lt 0 (value s.sem_odd)) [
    | yes h ↦ inl (_, _, odd_waits at (Waits-of_pos api s.sem_odd h))
    | no h ↦ inr (inl (refl, omega arith))
  ]
  odd_step s printing at = inl (_, _, odd_prints at)
  odd_step s posting at = inl (_, _, odd_posts at)
  odd_step s testing at = inl (_, _, odd_tests at)
  odd_step s finished at = inr (inr refl)

  even_step :
      (s : System api) (p : Pc)
      → s.even ≡ p
      → HasStep s ⊎ ((p ≡ waiting) × (value s.sem_even ≡ 0)) ⊎ (p ≡ finished)
  even_step s waiting at = elim (dec_lt 0 (value s.sem_even)) [
    | yes h ↦ inl (_, _, even_waits at (Waits-of_pos api s.sem_even h))
    | no h ↦ inr (inl (refl, omega arith))
  ]
  even_step s printing at = inl (_, _, even_prints at)
  even_step s posting at = inl (_, _, even_posts at)
  even_step s testing at = inl (_, _, even_tests at)
  even_step s finished at = inr (inr refl)

  both_finished :
      (s : System api)
      → Inv api s
      → ((s.odd ≡ waiting) × (value s.sem_odd ≡ 0)) ⊎ (s.odd ≡ finished)
      → ((s.even ≡ waiting) × (value s.sem_even ≡ 0)) ⊎ (s.even ≡ finished)
      → (s.odd ≡ finished) × (s.even ≡ finished) × ((s.counter - 1 ≡ 29) ⊎ (s.counter - 1 ≡ 30))
  both_finished s inv (inl (at, none)) (inl (at', none')) = absurd (ground arith)
  both_finished s inv (inl (at, none)) (inr at') = absurd (ground arith)
  both_finished s inv (inr at) (inl (at', none')) = absurd (ground arith)
  both_finished s inv (inr at) (inr at') = (at, at', ground arith)

  -- Both threads are at their end, and have written the lines of 1 to 29, or those of 1 to 30.
  abbrev pub Ended : List Event → System api → Type 0
  Ended es s =
      (s.odd ≡ finished)
      × (s.even ≡ finished)
      × ((written es ≡ lines_up_to 29) ⊎ (written es ≡ lines_up_to 30))

  -- The threads take at most 122 steps and never block each other for good; at their end they have
  -- written the lines of 1 to 29 or of 1 to 30, in order.
  pub Runs-Ended :
      {es : List Event} {s : System api}
      → Runs api es s
      → (length es ≤ 122) × (HasStep s ⊎ Ended es s)
  Runs-Ended {es} {s} r =
      let inv = Runs-Inv api r in
      let end : ((s.odd ≡ waiting) × (value s.sem_odd ≡ 0)) ⊎ (s.odd ≡ finished)
          → ((s.even ≡ waiting) × (value s.sem_even ≡ 0)) ⊎ (s.even ≡ finished)
          → Ended es s =
        λ o e.
          (let (at, at', cases) = both_finished s inv o e in
            (
              at,
              at',
              elim cases [
                | inl c ↦ inl (Runs-written r ∙ ap lines_up_to c)
                | inr c ↦ inr (Runs-written r ∙ ap lines_up_to c)
              ],
            )) in
      (
        omega (arith, length-le r),
        elim (odd_step s s.odd refl) [
          | inl step ↦ inl step
          | inr o ↦ elim (even_step s s.even refl) [ inl step ↦ inl step | inr e ↦ inr (end o e) ]
        ],
      )
