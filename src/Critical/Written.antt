-- ===== src/Critical/Written.antt =====
-- What holds of every line that the threads have in their statements, with whether they have the
-- lock there, holds of every line that is written.
use posix_intro.Common.{ℕ, ◌≡◌, Bool, true, List, [], ◌∷◌, ◌++◌}
use posix_intro.Common.Threads.{move_all}
use posix_intro.Locks.{Lock}
use posix_intro.Critical.{
  Statement, writes, counts, locks, unlocks, Event, entered, left, wrote, inside, System, Step,
  enters, leaves, says, numbers, Runs, start, later,
}

module _ {Line : Type 0} (P : Bool → Line → Type 0) where
  abbrev pub WillWrite : List (Statement Line) → Type 0
  WillWrite [] = Unit
  WillWrite (writes l ∷ p) = P (inside p) l × WillWrite p
  WillWrite (counts f ∷ p) = ((c : ℕ) → P (inside p) (f c)) × WillWrite p
  WillWrite (locks ∷ p) = WillWrite p
  WillWrite (unlocks ∷ p) = WillWrite p

  abbrev pub Wrote : List (Event Line) → Type 0
  Wrote [] = Unit
  Wrote (wrote held i l ∷ es) = P held l × Wrote es
  Wrote (entered i ∷ es) = Wrote es
  Wrote (left i ∷ es) = Wrote es

  Wrote-append : (es fs : List (Event Line)) → Wrote es → Wrote fs → Wrote (es ++ fs)
  Wrote-append [] fs h k = k
  Wrote-append (wrote held i l ∷ es) fs h k = (h.0, Wrote-append es fs h.1 k)
  Wrote-append (entered i ∷ es) fs h k = Wrote-append es fs h k
  Wrote-append (left i ∷ es) fs h k = Wrote-append es fs h k

  module _ (lock : Lock) where
    Step-Wrote :
        {n : ℕ} {s : System lock Line} {e : Event Line} {t : System lock Line}
        → Step lock Line n s e t
        → ((i : ℕ) → WillWrite (s.rest i))
        → Wrote (e ∷ []) × ((i : ℕ) → WillWrite (t.rest i))
    Step-Wrote {s = s} (enters i {p} lt at w) h =
        let here : WillWrite p = rw at at (h i) in (tt, move_all WillWrite s.rest i p h here)
    Step-Wrote {s = s} (leaves i {p} lt at) h =
        let here : WillWrite p = rw at at (h i) in (tt, move_all WillWrite s.rest i p h here)
    Step-Wrote {s = s} (says i {p} {l} lt at) h =
        let both : WillWrite (writes l ∷ p) = rw at at (h i) in
        ((both.0, tt), move_all WillWrite s.rest i p h both.1)
    Step-Wrote {s = s} (numbers i {p} {f} lt at) h =
        let both : WillWrite (counts f ∷ p) = rw at at (h i) in
        ((both.0 s.counter, tt), move_all WillWrite s.rest i p h both.1)

    Runs-both :
        {n : ℕ} {s : System lock Line} {es : List (Event Line)} {t : System lock Line}
        → ((i : ℕ) → WillWrite (s.rest i))
        → Runs lock Line n s es t
        → Wrote es × ((i : ℕ) → WillWrite (t.rest i))
    Runs-both h start = (tt, h)
    Runs-both h (later {es} {e} r st) =
        let (before, all) = Runs-both h r in
        let (now, all') = Step-Wrote st all in (Wrote-append es (e ∷ []) before now, all')

    pub Runs-Wrote :
        {n : ℕ} {s : System lock Line} {es : List (Event Line)} {t : System lock Line}
        → ((i : ℕ) → WillWrite (s.rest i))
        → Runs lock Line n s es t
        → Wrote es
    Runs-Wrote h r = (Runs-both h r).0

-- A line is only written by a thread that has the lock.
abbrev pub Held : {Line : Type 0} → Bool → Line → Type 0
Held held l = held ≡ true
