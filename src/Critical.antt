-- ===== src/Critical.antt =====
-- Threads that meet at one lock: what c/c_lab03_a.c, c/c_lab03_b.c, c/c_lab04.c and c/c_lab06.c have
-- in common. A thread function is the list of its statements, in order, its loops run through; the
-- threads interleave in any order, a statement at a time.
pub mod Exclusion
pub mod Ending
pub mod Equivalence
pub mod Serial
pub mod Schedule
pub mod Blocks
pub mod Relabel
pub mod Written
pub mod Thinning
pub mod Refinement
use posix_intro.Common.{ℕ, ◌+◌, ◌<◌, ◌≡◌, Bool, true, false, List, [], ◌∷◌, ◌++◌}
use posix_intro.Common.Threads.{move}
use posix_intro.Locks.{Lock}

-- A statement of a thread: it writes a line, writes a line with the value of `counter++`, takes the
-- lock or gives it back. The use of the counter and the line are one step, which is right where the
-- thread has the lock and no other one does either without it: Counter.Numbers states this, too.
pub data Statement (Line : Type 0) : Type 0 where
  writes : Line → Statement Line
  counts : (ℕ → Line) → Statement Line
  locks unlocks : Statement Line

-- What one step does, by thread; `held` says whether the line's thread has the lock.
pub data Event (Line : Type 0) : Type 0 where
  entered left : (thread : ℕ) → Event Line
  wrote : (held : Bool) → (thread : ℕ) → Line → Event Line

module _ {Line : Type 0} where
  -- Whether a thread with these statements left has the lock.
  abbrev pub inside : List (Statement Line) → Bool
  inside [] = false
  inside (writes _ ∷ p) = inside p
  inside (counts _ ∷ p) = inside p
  inside (locks ∷ _) = false
  inside (unlocks ∷ _) = true

  -- Locks and unlocks alternate, and the counter is only used with the lock. The first argument
  -- says whether the thread has it.
  abbrev pub IsGuarded : Bool → List (Statement Line) → Type 0
  IsGuarded false [] = Unit
  IsGuarded true [] = ⊥
  IsGuarded held (writes _ ∷ p) = IsGuarded held p
  IsGuarded true (counts _ ∷ p) = IsGuarded true p
  IsGuarded false (counts _ ∷ p) = ⊥
  IsGuarded false (locks ∷ p) = IsGuarded true p
  IsGuarded true (locks ∷ p) = ⊥
  IsGuarded true (unlocks ∷ p) = IsGuarded false p
  IsGuarded false (unlocks ∷ p) = ⊥

module _ (lock : Lock) (Line : Type 0) where
  pub record System : Type 0 where
    pub state : lock.State
    pub counter : ℕ
    pub rest : ℕ → List (Statement Line)

  pub data Step (n : ℕ) (s : System) : Event Line → System → Type 0 where
    enters :
        (i : ℕ) {p : List (Statement Line)} {t : lock.State}
        → i < n
        → s.rest i ≡ locks ∷ p
        → lock.Takes s.state t
        → Step n s (entered i) (record s { state = t; rest = move s.rest i p })
    leaves :
        (i : ℕ) {p : List (Statement Line)}
        → i < n
        → s.rest i ≡ unlocks ∷ p
        → Step n s (left i) (record s { state = lock.gives s.state; rest = move s.rest i p })
    says :
        (i : ℕ) {p : List (Statement Line)} {l : Line}
        → i < n
        → s.rest i ≡ writes l ∷ p
        → Step n s (wrote (inside p) i l) (record s { rest = move s.rest i p })
    numbers :
        (i : ℕ) {p : List (Statement Line)} {f : ℕ → Line}
        → i < n
        → s.rest i ≡ counts f ∷ p
        → Step n s
            (wrote (inside p) i (f s.counter))
            (record s { counter = s.counter + 1; rest = move s.rest i p })

  pub data Runs (n : ℕ) (s : System) : List (Event Line) → System → Type 0 where
    start : Runs n s [] s
    later :
        {es : List (Event Line)} {e : Event Line} {t u : System}
        → Runs n s es t
        → Step n t e u
        → Runs n s (es ++ e ∷ []) u
