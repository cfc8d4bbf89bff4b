-- ===== src/Critical/Exclusion.antt =====
-- With guarded statements and a lock that lets one thread in, no two threads are ever inside.
use posix_intro.Common.{
  ℕ, ◌+◌, ◌<◌, ◌≡◌, refl, Bool, true, false, ◌==◌, if◌then◌else◌, List, [], ◌∷◌, arith, Bool-cases,
  inl, inr, ℕ_discrete,
}
use posix_intro.Common.Threads.{
  move, tally, tally-move, weight-le-tally, two_weights-le-tally, tally_of_light,
}
use posix_intro.Locks.{Lock}
use posix_intro.Critical.{
  Statement, writes, counts, locks, unlocks, Event, inside, IsGuarded, System, Step, enters, leaves,
  says, numbers, Runs, start, later,
}

module _ {Line : Type 0} where
  -- 1 for a thread that has the lock.
  abbrev pub holder : List (Statement Line) → ℕ
  holder p = if inside p then 1 else 0

  pub inside_of_IsGuarded :
      (held : Bool) (p : List (Statement Line)) → IsGuarded held p → inside p ≡ held
  inside_of_IsGuarded false [] g = refl
  inside_of_IsGuarded true [] g = elim g [ ]
  inside_of_IsGuarded held (writes l ∷ p) g = inside_of_IsGuarded held p g
  inside_of_IsGuarded true (counts f ∷ p) g = inside_of_IsGuarded true p g
  inside_of_IsGuarded false (counts f ∷ p) g = elim g [ ]
  inside_of_IsGuarded false (locks ∷ p) g = refl
  inside_of_IsGuarded true (locks ∷ p) g = elim g [ ]
  inside_of_IsGuarded true (unlocks ∷ p) g = refl
  inside_of_IsGuarded false (unlocks ∷ p) g = elim g [ ]

  IsGuarded-counts :
      (held : Bool) (p : List (Statement Line)) (f : ℕ → Line)
      → IsGuarded held (counts f ∷ p)
      → IsGuarded held p
  IsGuarded-counts true p f g = g
  IsGuarded-counts false p f g = elim g [ ]

module _ (lock : Lock) {Line : Type 0} where
  pub record Inv (n : ℕ) (s : System lock Line) : Type 0 where
    pub token : lock.units s.state + tally holder n s.rest ≡ 1
    pub guarded : (i : ℕ) → IsGuarded (inside (s.rest i)) (s.rest i)

  -- One thread's part of a step: what its statement does to the lock and to its guard.
  guard-move :
      (rest : ℕ → List (Statement Line)) (i : ℕ) (p : List (Statement Line))
      → ((j : ℕ) → IsGuarded (inside (rest j)) (rest j))
      → IsGuarded (inside p) p
      → (j : ℕ) → IsGuarded (inside (move rest i p j)) (move rest i p j)
  guard-move rest i p g h j = elim (Bool-cases (j == i)) [ inl e ↦ rw e h | inr e ↦ rw e (g j) ]

  same_guard : (held : Bool) (p : List (Statement Line)) → IsGuarded held p → IsGuarded (inside p) p
  same_guard held p g = rw (inside_of_IsGuarded held p g) g

  pub Step-Inv :
      {n : ℕ} {s : System lock Line} {e : Event Line} {t : System lock Line}
      → Step lock Line n s e t
      → Inv n s
      → Inv n t
  Step-Inv {n} {s = s} (enters i {p} lt at w) inv =
      let here = rw at at (inv.guarded i) in
      record {
        token = ground (
          arith,
          inv.token,
          lock.Takes-units w,
          tally-move holder n s.rest i p lt,
          inside_of_IsGuarded true p here,
        );
        guarded = guard-move s.rest i p inv.guarded (same_guard true p here);
      }
  Step-Inv {n} {s = s} (leaves i {p} lt at) inv =
      let here = rw at at (inv.guarded i) in
      record {
        token = ground (
          arith,
          inv.token,
          lock.units-gives s.state,
          weight-le-tally holder n s.rest i lt,
          tally-move holder n s.rest i p lt,
          inside_of_IsGuarded false p here,
        );
        guarded = guard-move s.rest i p inv.guarded (same_guard false p here);
      }
  Step-Inv {n} {s = s} (says i {p} lt at) inv =
      let here = rw at at (inv.guarded i) in
      record {
        token = ground (arith, inv.token, tally-move holder n s.rest i p lt);
        guarded = guard-move s.rest i p inv.guarded (here);
      }
  Step-Inv {n} {s = s} (numbers i {p} {f} lt at) inv =
      let here = rw at at (inv.guarded i) in
      record {
        token = ground (arith, inv.token, tally-move holder n s.rest i p lt);
        guarded = guard-move s.rest i p inv.guarded (IsGuarded-counts (inside p) p f here);
      }

  -- Two threads never have the lock at once.
  pub alone :
      {n : ℕ} {s : System lock Line}
      → Inv n s
      → (i j : ℕ) → i < n
      → j < n
      → inside (s.rest i) ≡ true
      → inside (s.rest j) ≡ true
      → i ≡ j
  alone {n} {s} inv i j hi hj in_i in_j = elim (ℕ_discrete i j) [
    | yes same ↦ same
    | no apart ↦
        absurd (ground (arith, inv.token, two_weights-le-tally holder n s.rest i j hi hj apart))
  ]

  -- What a state must be for the threads to start: the lock lets one thread in, and every thread is
  -- guarded and outside.
  pub record CanStart (s : System lock Line) : Type 0 where
    pub free : lock.units s.state ≡ 1
    pub guarded : (i : ℕ) → IsGuarded false (s.rest i)

  pub start-tally : (n : ℕ) (s : System lock Line) → CanStart s → tally holder n s.rest ≡ 0
  start-tally n s c =
      tally_of_light holder n s.rest
        (λ i lt. ground (arith, inside_of_IsGuarded false (s.rest i) (c.guarded i)))

  start-Inv : (n : ℕ) (s : System lock Line) → CanStart s → Inv n s
  start-Inv n s c = record {
    token = omega (arith, c.free, start-tally n s c);
    guarded = λ i. same_guard false (s.rest i) (c.guarded i);
  }

  pub Runs-Inv :
      {n : ℕ} {s : System lock Line} {es : List (Event Line)} {t : System lock Line}
      → CanStart s
      → Runs lock Line n s es t
      → Inv n t
  Runs-Inv {n} {s = s} c start = start-Inv n s c
  Runs-Inv c (later r st) = Step-Inv st (Runs-Inv c r)
