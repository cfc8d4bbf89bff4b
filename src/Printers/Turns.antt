-- ===== src/Printers/Turns.antt =====
-- What c/c_lab03_b.c guarantees: whole blocks, and no deadlock.
use posix_intro.Common.{
  ℕ, zero, suc, ◌*◌, ◌≤◌, ◌≡◌, refl, ◌⊎◌, inl, inr, true, false, List, [], ◌∷◌, ◌++◌, map, arith,
  length,
}
use posix_intro.Common.Threads.{tally, tally_of_const}
use posix_intro.Locks.{MutexApi, mutex_lock}
use posix_intro.Critical.{Statement, writes, unlocks, Event, System, IsGuarded, inside}
use posix_intro.Critical.Written.{Held, WillWrite, Wrote, Runs-Wrote}
use posix_intro.Critical.Blocks.{locked, HasBlock, Covered, Runs-Covered}
use posix_intro.Critical.Exclusion.{CanStart}
use posix_intro.Critical.Ending.{HasStep, Runs-progress}
use posix_intro.Printers.{
  no_th, Line, print_lines, print_thread, func_rounds, func, start_system, PrinterRuns,
}

block-IsGuarded :
    (ls : List Line) (p : List (Statement Line))
    → IsGuarded false p
    → IsGuarded true (map writes ls ++ unlocks ∷ p)
block-IsGuarded [] p g = g
block-IsGuarded (l ∷ ls) p g = block-IsGuarded ls p g

rounds-IsGuarded : (n rounds : ℕ) → IsGuarded false (func_rounds n rounds)
unfolding func_rounds
rounds-IsGuarded n zero = tt
rounds-IsGuarded n (suc rounds) =
    block-IsGuarded (print_thread n) (func_rounds n rounds) (rounds-IsGuarded n rounds)

locked-block :
    (ls : List Line) (p : List (Statement Line)) → locked (map writes ls ++ unlocks ∷ p) ≡ ls
locked-block [] p = refl
locked-block (l ∷ ls) p = rw (locked-block ls p)

block-HasBlock :
    (ls b : List Line) (p : List (Statement Line))
    → HasBlock b p
    → HasBlock b (map writes ls ++ unlocks ∷ p)
block-HasBlock [] b p h = h
block-HasBlock (l ∷ ls) b p h = block-HasBlock ls b p h

rounds-HasBlock : (n rounds : ℕ) → HasBlock (print_thread n) (func_rounds n rounds)
unfolding func_rounds
rounds-HasBlock n zero = tt
rounds-HasBlock n (suc rounds) = (
  locked-block (print_thread n) (func_rounds n rounds),
  block-HasBlock (print_thread n) (print_thread n) (func_rounds n rounds)
      (rounds-HasBlock n rounds),
)

func-HasBlock : (i : ℕ) → HasBlock (print_thread i) (func i)
unfolding func
func-HasBlock i = rounds-HasBlock i 10

block-inside :
    (ls : List Line) (p : List (Statement Line)) → inside (map writes ls ++ unlocks ∷ p) ≡ true
block-inside [] p = refl
block-inside (l ∷ ls) p = block-inside ls p

block-WillWrite :
    (ls : List Line) (p : List (Statement Line))
    → WillWrite Held p
    → WillWrite Held (map writes ls ++ unlocks ∷ p)
block-WillWrite [] p h = h
block-WillWrite (l ∷ ls) p h = (block-inside ls p, block-WillWrite ls p h)

rounds-WillWrite : (n rounds : ℕ) → WillWrite Held (func_rounds n rounds)
unfolding func_rounds
rounds-WillWrite n zero = tt
rounds-WillWrite n (suc rounds) =
    block-WillWrite (print_thread n) (func_rounds n rounds) (rounds-WillWrite n rounds)

func-WillWrite : (i : ℕ) → WillWrite Held (func i)
unfolding func
func-WillWrite i = rounds-WillWrite i 10

start-CanStart : (api : MutexApi) → CanStart (mutex_lock api) (start_system api)
unfolding func
start-CanStart api = record {
  free = rw api.is_locked-initializer refl;
  guarded = λ i. rounds-IsGuarded i 10;
}

length-rounds : (n rounds : ℕ) → length (func_rounds n rounds) ≡ rounds * 12
unfolding func_rounds print_thread print_lines
length-rounds n zero = refl
length-rounds n (suc rounds) = omega (arith, length-rounds n rounds)

all_statements : tally length no_th func ≡ 240
unfolding func
all_statements = tally_of_const length no_th 120 func (λ i lt. length-rounds i 10)

module _ (api : MutexApi) {es : List (Event Line)} {t : System (mutex_lock api) Line} where
  -- In every run of c_lab03_b.c every line is written by a thread that has the lock, and the lines
  -- are the ten lines of print_thread for one thread after another, in the order in which they took
  -- the lock, where the last one may still have lines to write.
  pub Runs-whole_blocks :
      PrinterRuns api es t → Wrote Held es × Covered (mutex_lock api) print_thread no_th t es
  Runs-whole_blocks r = (
    Runs-Wrote Held (mutex_lock api) func-WillWrite r,
    (Runs-Covered (mutex_lock api) print_thread (start-CanStart api) func-HasBlock r).0,
  )

  -- The program has at most 240 steps, and after fewer some thread can go on.
  pub Runs-finish :
      PrinterRuns api es t
      → (length es ≤ 240) × (HasStep (mutex_lock api) no_th t ⊎ (length es ≡ 240))
  Runs-finish r =
      let (most, cases) = Runs-progress (mutex_lock api) (start-CanStart api) r in
      (
        omega (arith, most, all_statements),
        elim cases [
          | inl more ↦ inl more
          | inr (steps, counter) ↦ inr (omega (arith, steps, all_statements))
        ],
      )
