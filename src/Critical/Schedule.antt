-- ===== src/Critical/Schedule.antt =====
-- Runs of the programs with one lock by evaluation, over a mutex that is its flag: the threads are
-- picked in a given order, and one that would block is passed over.
use mathlib.Core.List.{foldl}
use posix_intro.Common.{
  ℕ, Bool, true, false, ◌≡◌, ◌<◌, refl, Option, none, some, List, [], ◌∷◌, ◌++◌, dec_lt,
}
use posix_intro.Locks.{mutex_lock, flag_mutex}
use posix_intro.Critical.{
  Statement, writes, counts, locks, unlocks, Event, System, Step, Runs, start, later,
}

module _ (Line : Type 0) (n : ℕ) where
  abbrev Next : System (mutex_lock flag_mutex) Line → Type 0
  Next s = Option (
      (e : Event Line) × (t : System (mutex_lock flag_mutex) Line) × Step (mutex_lock flag_mutex)
        Line n s e t)

  step_of :
      (s : System (mutex_lock flag_mutex) Line) (i : ℕ) (p : List (Statement Line))
      → i < n
      → s.rest i ≡ p
      → Next s
  step_of s i [] lt at = none
  step_of s i (writes l ∷ p) lt at = some (_, _, Step.says i lt at)
  step_of s i (counts f ∷ p) lt at = some (_, _, Step.numbers i lt at)
  step_of s i (unlocks ∷ p) lt at = some (_, _, Step.leaves i lt at)
  step_of s i (locks ∷ p) lt at = entering s.state refl
    where
      entering : (b : Bool) → s.state ≡ b → Next s
      entering true taken = none
      entering false free = some (_, _, Step.enters i lt at (free, refl))

  pub record Run (s : System (mutex_lock flag_mutex) Line) : Type 0 where
    pub events : List (Event Line)
    pub last : System (mutex_lock flag_mutex) Line
    pub runs : Runs (mutex_lock flag_mutex) Line n s events last

  turn : {s : System (mutex_lock flag_mutex) Line} → Run s → ℕ → Run s
  unfolding step_of dec_lt
  turn r i = elim (dec_lt i n) [
    | yes lt ↦ elim (step_of r.last i (r.last.rest i) lt refl) [
      | some (e, t, st) ↦ record { events = r.events ++ e ∷ []; last = t; runs = later r.runs st }
      | none ↦ r
    ]
    | no _ ↦ r
  ]

  unfoldable pub run : (s : System (mutex_lock flag_mutex) Line) → List ℕ → Run s
  unfolding turn
  run s order = foldl turn (record { events = []; last = s; runs = start }) order
