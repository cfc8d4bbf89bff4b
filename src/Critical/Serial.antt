-- ===== src/Critical/Serial.antt =====
-- With guarded statements and a lock that lets one thread in, the locked parts of the threads run
-- one after another.
use posix_intro.Common.{
  ℕ, ◌<◌, ◌≡◌, refl, Bool, true, false, Option, none, some, ◌==◌, if◌then◌else◌, List, [], ◌∷◌,
  ◌++◌, arith, Option-cases, inl, inr,
}
use posix_intro.Common.Threads.{move, tally, tally-move, weight-le-tally}
use posix_intro.Locks.{Lock}
use posix_intro.Critical.{
  Statement, Event, entered, left, wrote, inside, IsGuarded, System, Step, enters, leaves, says,
  numbers, Runs, start, later,
}
use posix_intro.Critical.Exclusion.{
  holder, inside_of_IsGuarded, Inv, alone, CanStart, start-tally, Runs-Inv,
}

module _ {Line : Type 0} where
  -- Who has the lock after an event, given who had it before; `none` if the event is out of turn: a
  -- thread enters where another is inside, leaves where it is not, or writes a locked line.
  unfoldable pub owner_after : Event Line → Option ℕ → Option (Option ℕ)
  owner_after (entered i) none = some (some i)
  owner_after (entered i) (some j) = none
  owner_after (left i) none = none
  owner_after (left i) (some j) = if i == j then some none else none
  owner_after (wrote false i l) owner = some owner
  owner_after (wrote true i l) none = none
  owner_after (wrote true i l) (some j) = if i == j then some (some j) else none

  -- The events of a run in turn: the locked parts stand one after another.
  unfoldable pub serial : List (Event Line) → Option ℕ → Option (Option ℕ)
  serial [] owner = some owner
  serial (e ∷ es) owner = elim (owner_after e owner) [ none ↦ none | some next ↦ serial es next ]

  serial-snoc :
      (es : List (Event Line)) (e : Event Line) (o p q : Option ℕ)
      → serial es o ≡ some p
      → owner_after e p ≡ some q
      → serial (es ++ e ∷ []) o ≡ some q
  unfolding serial
  serial-snoc [] e o p q h k = ground arith
  serial-snoc (f ∷ es) e o p q h k = elim (Option-cases (owner_after f o)) [
    | inl stuck ↦ absurd (cc (rw (stuck, serial) at h))
    | inr (o', more) ↦ rw (more, serial) (serial-snoc es e o' p q (rw (more, serial) at h) k)
  ]

  -- Who has the lock in a state.
  pub data Owns (n : ℕ) (rest : ℕ → List (Statement Line)) : Option ℕ → Type 0 where
    nobody : tally holder n rest ≡ 0 → Owns n rest none
    somebody : (i : ℕ) → i < n → holder (rest i) ≡ 1 → Owns n rest (some i)

module _ (lock : Lock) {Line : Type 0} where
  same_owner :
      {n : ℕ} (rest : ℕ → List (Statement Line)) (i : ℕ) (p : List (Statement Line)) (o : Option ℕ)
      → i < n
      → inside (rest i) ≡ inside p
      → Owns n rest o
      → Owns n (move rest i p) o
  same_owner {n} rest i p o lt e (nobody z) =
      nobody (ground (arith, tally-move holder n rest i p lt))
  same_owner rest i p o lt e (somebody j below has) = somebody j below (ground arith)

  line_owner :
      {n : ℕ} {s : System lock Line} (held : Bool) (i : ℕ) (l : Line) (o : Option ℕ)
      → Inv lock n s
      → i < n
      → inside (s.rest i) ≡ held
      → Owns n s.rest o
      → owner_after (wrote held i l) o ≡ some o
  unfolding owner_after
  line_owner false i l o inv lt at owns = refl
  line_owner {n} {s = s} true i l o inv lt at (nobody z) =
      absurd (ground (arith, weight-le-tally holder n s.rest i lt))
  line_owner true i l o inv lt at (somebody j below has) = ground (arith, alone lock inv i j)

  Step-Owns :
      {n : ℕ} {s : System lock Line} {e : Event Line} {t : System lock Line} (o : Option ℕ)
      → Step lock Line n s e t
      → Inv lock n s
      → Owns n s.rest o
      → (o' : Option ℕ) × (owner_after e o ≡ some o') × Owns n t.rest o'
  unfolding owner_after
  Step-Owns {n} {s = s} o (enters i {p} lt at w) inv (nobody z) =
      let here : IsGuarded true p = rw at at (inv.guarded i) in
      (some i, refl, somebody i lt (ground (arith, inside_of_IsGuarded true p here)))
  Step-Owns {n} {s = s} o (enters i {p} lt at w) inv (somebody j below has) =
      absurd
        (ground (arith, inv.token, lock.Takes-units w, weight-le-tally holder n s.rest j below))
  Step-Owns {n} {s = s} o (leaves i {p} lt at) inv (nobody z) =
      absurd (ground (arith, weight-le-tally holder n s.rest i lt))
  Step-Owns {n} {s = s} o (leaves i {p} lt at) inv (somebody j below has) =
      let here : IsGuarded false p = rw at at (inv.guarded i) in
      (
        none,
        ground (arith, alone lock inv i j),
        nobody (
            ground (
              arith,
              inv.token,
              weight-le-tally holder n s.rest i lt,
              tally-move holder n s.rest i p lt,
              inside_of_IsGuarded false p here,
            )),
      )
  Step-Owns {s = s} o (says i {p} {l} lt at) inv owns = (
    o,
    line_owner (inside p) i l o inv lt (rw at refl) owns,
    same_owner s.rest i p o lt (rw at refl) owns,
  )
  Step-Owns {s = s} o (numbers i {p} {f} lt at) inv owns = (
    o,
    line_owner (inside p) i (f s.counter) o inv lt (rw at refl) owns,
    same_owner s.rest i p o lt (rw at refl) owns,
  )

  -- Every run is in turn, and ends with the owner that the state shows.
  pub Runs-serial :
      {n : ℕ} {s : System lock Line} {es : List (Event Line)} {t : System lock Line}
      → CanStart lock s
      → Runs lock Line n s es t
      → (o : Option ℕ) × (serial es none ≡ some o) × Owns n t.rest o
  unfolding serial
  Runs-serial {n} {s = s} c start = (none, refl, nobody (start-tally lock n s c))
  Runs-serial c (later {es} {e} r st) =
      let (o, ran, owns) = Runs-serial c r in
      let (o', next, owns') = Step-Owns o st (Runs-Inv lock c r) owns in
      (o', serial-snoc es e none o o' ran next, owns')
