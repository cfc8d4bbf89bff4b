-- ===== src/Critical/Ending.antt =====
-- Threads that meet at one lock all come to their end, in a number of steps that is known from the
-- start; and what the counter makes them write.
use mathlib.Core.List.{map-append}
use posix_intro.Common.{
  ℕ, zero, suc, ◌+◌, ◌≤◌, ◌<◌, ◌≡◌, refl, ap, true, ◌⊎◌, inl, inr, List, [], ◌∷◌, ◌++◌, map, arith,
  length, length-append, append-nil,
}
use posix_intro.Common.Threads.{move_all, tally, tally-move, tally-cases, tally_of_light}
use posix_intro.Locks.{Lock}
use posix_intro.Critical.{
  Statement, writes, counts, locks, unlocks, Event, entered, left, wrote, inside, System, Step,
  enters, leaves, says, numbers, Runs, start, later,
}
use posix_intro.Critical.Exclusion.{holder, Inv, CanStart, Runs-Inv}

module _ {Line : Type 0} where
  -- How often a thread still uses the counter.
  abbrev pub uses : List (Statement Line) → ℕ
  uses [] = 0
  uses (counts _ ∷ p) = suc (uses p)
  uses (_ ∷ p) = uses p

  -- The lines of a run, in order.
  abbrev pub lines : List (Event Line) → List Line
  lines [] = []
  lines (wrote held i l ∷ es) = l ∷ lines es
  lines (entered i ∷ es) = lines es
  lines (left i ∷ es) = lines es

  pub lines-append : (es fs : List (Event Line)) → lines (es ++ fs) ≡ lines es ++ lines fs
  lines-append [] fs = refl
  lines-append (wrote held i l ∷ es) fs = rw (lines-append es fs)
  lines-append (entered i ∷ es) fs = lines-append es fs
  lines-append (left i ∷ es) fs = lines-append es fs

  -- Every line comes with a number, and that is the counter's.
  abbrev pub IsNumbered : (Line → ℕ) → List (Statement Line) → Type 0
  IsNumbered number [] = Unit
  IsNumbered number (writes _ ∷ p) = ⊥
  IsNumbered number (counts f ∷ p) = ((c : ℕ) → number (f c) ≡ c) × IsNumbered number p
  IsNumbered number (locks ∷ p) = IsNumbered number p
  IsNumbered number (unlocks ∷ p) = IsNumbered number p

-- c, c + 1, …: `k` numbers.
pub up_from : ℕ → ℕ → List ℕ
up_from c zero = []
up_from c (suc k) = up_from c k ++ (c + k) ∷ []

module _ (lock : Lock) {Line : Type 0} where
  Step-length :
      {n : ℕ} {s : System lock Line} {e : Event Line} {t : System lock Line}
      → Step lock Line n s e t
      → (tally length n t.rest + 1 ≡ tally length n s.rest)
        × (t.counter + tally uses n t.rest ≡ s.counter + tally uses n s.rest)
  Step-length {n} {s = s} (enters i {p} lt at w) =
      ground (arith, tally-move length n s.rest i p lt, tally-move uses n s.rest i p lt)
  Step-length {n} {s = s} (leaves i {p} lt at) =
      ground (arith, tally-move length n s.rest i p lt, tally-move uses n s.rest i p lt)
  Step-length {n} {s = s} (says i {p} lt at) =
      ground (arith, tally-move length n s.rest i p lt, tally-move uses n s.rest i p lt)
  Step-length {n} {s = s} (numbers i {p} lt at) =
      ground (arith, tally-move length n s.rest i p lt, tally-move uses n s.rest i p lt)

  -- A run takes one step for each statement, and the counter goes up by one for each use.
  pub Runs-length :
      {n : ℕ} {s : System lock Line} {es : List (Event Line)} {t : System lock Line}
      → Runs lock Line n s es t
      → (length es + tally length n t.rest ≡ tally length n s.rest)
        × (t.counter + tally uses n t.rest ≡ s.counter + tally uses n s.rest)
  Runs-length start = omega arith
  Runs-length (later {es} {e} r st) =
      omega (arith, Runs-length r, Step-length st, length-append es (e ∷ []))

  abbrev pub HasStep : ℕ → System lock Line → Type 0
  HasStep n s = (e : Event Line) × (t : System lock Line) × Step lock Line n s e t

  -- A thread with the lock, or any thread when the lock is free, can go on.
  statement_step :
      {n : ℕ} (s : System lock Line) (i : ℕ) (p : List (Statement Line))
      → i < n
      → s.rest i ≡ p
      → 0 < length p
      → (inside p ≡ true) ⊎ (0 < lock.units s.state)
      → HasStep n s
  statement_step s i [] lt at some_left can = elim some_left [ ]
  statement_step s i (writes l ∷ p) lt at some_left can = (_, _, says i lt at)
  statement_step s i (counts f ∷ p) lt at some_left can = (_, _, numbers i lt at)
  statement_step s i (unlocks ∷ p) lt at some_left can = (_, _, leaves i lt at)
  statement_step s i (locks ∷ p) lt at some_left (inl has) = absurd (cc)
  statement_step s i (locks ∷ p) lt at some_left (inr free) =
      let (t, w) = lock.Takes-of_pos s.state free in (_, _, enters i lt at w)

  inside-length : (p : List (Statement Line)) → inside p ≡ true → 0 < length p
  inside-length [] h = absurd (cc)
  inside-length (_ ∷ p) h = omega arith

  -- In every reachable state, some thread can go on, or all are at their end.
  pub progress :
      {n : ℕ} {s : System lock Line}
      → Inv lock n s
      → HasStep n s ⊎ ((i : ℕ) → i < n → length (s.rest i) ≡ 0)
  progress {n} {s} inv = elim (tally-cases holder n s.rest) [
    | inl (i, lt, has) ↦
        let in_i : inside (s.rest i) ≡ true = ground arith in
        inl (statement_step s i (s.rest i) lt refl (inside-length (s.rest i) in_i) (inl in_i))
    | inr outside ↦
        let free : 0 < lock.units s.state =
          omega (arith, inv.token, tally_of_light holder n s.rest outside) in
        elim (tally-cases length n s.rest) [
          | inl (i, lt, more) ↦ inl (statement_step s i (s.rest i) lt refl more (inr free))
          | inr done ↦ inr done
        ]
  ]

  -- A run has at most one step for each statement, and one that is not at its end can go on.
  pub Runs-progress :
      {n : ℕ} {s : System lock Line} {es : List (Event Line)} {t : System lock Line}
      → CanStart lock s
      → Runs lock Line n s es t
      → (length es ≤ tally length n s.rest)
        × (HasStep n t
            ⊎ ((length es ≡ tally length n s.rest) × (t.counter ≡ s.counter + tally uses n s.rest)))
  Runs-progress {n} {t = t} c r = (
    omega (arith, Runs-length r),
    elim (progress (Runs-Inv lock c r)) [
      | inl more ↦ inl more
      | inr done ↦ inr (
          omega (
            arith,
            Runs-length r,
            tally_of_light length n t.rest done,
            tally_of_light uses n t.rest (λ i lt. uses_of_end (t.rest i) (done i lt)),
          ))
    ],
  )
    where
      uses_of_end : (p : List (Statement Line)) → length p ≡ 0 → uses p ≡ 0
      uses_of_end [] h = refl
      uses_of_end (_ ∷ p) h = absurd (omega arith)

  -- A step writes nothing and leaves the counter, or writes its number and counts on.
  Step-numbers :
      {n : ℕ} {s : System lock Line} {e : Event Line} {t : System lock Line} (number : Line → ℕ)
      → Step lock Line n s e t
      → ((i : ℕ) → IsNumbered number (s.rest i))
      → (((t.counter ≡ s.counter) × (map number (lines (e ∷ [])) ≡ []))
          ⊎ ((t.counter ≡ s.counter + 1) × (map number (lines (e ∷ [])) ≡ s.counter ∷ [])))
        × ((i : ℕ) → IsNumbered number (t.rest i))
  Step-numbers {s = s} number (enters i {p} lt at w) h =
      let here : IsNumbered number p = rw at at (h i) in
      (inl (refl, refl), move_all (IsNumbered number) s.rest i p h here)
  Step-numbers {s = s} number (leaves i {p} lt at) h =
      let here : IsNumbered number p = rw at at (h i) in
      (inl (refl, refl), move_all (IsNumbered number) s.rest i p h here)
  Step-numbers {s = s} number (says i {p} lt at) h = let none : ⊥ = rw at at (h i) in absurd none
  Step-numbers {s = s} number (numbers i {p} {f} lt at) h =
      let both : IsNumbered number (counts f ∷ p) = rw at at (h i) in
      let (own, here) = both in
      (inr (refl, ap (λ c. c ∷ []) (own s.counter)), move_all (IsNumbered number) s.rest i p h here)

  -- Where all lines are numbered by the counter, a run writes the numbers from its first value on,
  -- in order and each once.
  pub Runs-numbers :
      {n : ℕ} {s : System lock Line} {es : List (Event Line)} {t : System lock Line}
      (number : Line → ℕ)
      → ((i : ℕ) → IsNumbered number (s.rest i))
      → Runs lock Line n s es t
      → (k : ℕ) × (t.counter ≡ s.counter + k)
        × (map number (lines es) ≡ up_from s.counter k)
        × ((i : ℕ) → IsNumbered number (t.rest i))
  unfolding up_from
  Runs-numbers number h start = (0, omega arith, refl, h)
  Runs-numbers {s = s} number h (later {es} {e} r st) =
      let (k, count, same, all) = Runs-numbers number h r in
      let (cases, all') = Step-numbers number st all in
      elim cases [
        | inl (still, nothing) ↦ (
          k,
          omega arith,
          rw (lines-append es (e ∷ []), map-append, same, nothing) (append-nil _),
          all',
        )
        | inr (next, written) ↦ (
          suc k,
          omega arith,
          rw (lines-append es (e ∷ []), map-append, same, written)
              (ap (λ c. up_from s.counter k ++ c ∷ []) count),
          all',
        )
      ]
