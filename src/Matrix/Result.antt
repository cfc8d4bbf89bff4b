-- ===== src/Matrix/Result.antt =====
-- The result of c/c_lab02_b.c does not depend on the order in which the threads run.
use posix_intro.Common.{ℕ, ◌+◌, ◌*◌, ◌%◌, ◌^◌, ◌≤◌, ◌<◌, ◌≡◌, refl, arith, dec_lt}
use posix_intro.Common.Threads.{tally, tally-move, tally_of_light, tally_of_const}
use posix_intro.Matrix.{n_rows, System, calculate_cell, Step, calculates, Runs, start, later}

-- What is left of `s` in a state `t` that its threads have reached.
pub record Inv (s t : System) : Type 0 where
  pub same_a : (i j : ℕ) → t.a i j ≡ s.a i j
  pub same_b : (i j : ℕ) → t.b i j ≡ s.b i j
  pub columns_in : (i : ℕ) → t.column i ≤ n_rows
  pub done : (i j : ℕ) → j < t.column i → t.res i j ≡ (s.a i j + s.b i j) % 2 ^ 32
  pub untouched : (i j : ℕ) → t.column i ≤ j → t.res i j ≡ s.res i j

abbrev pub AtStart : System → Type 0
AtStart s = (i : ℕ) → s.column i ≡ 0

start-Inv : (s : System) → AtStart s → Inv s s
start-Inv s fresh = record {
  same_a = λ i j. refl;
  same_b = λ i j. refl;
  columns_in = λ i. omega (arith, fresh i);
  done = λ i j lt. absurd (omega (arith, fresh i));
  untouched = λ i j ge. refl;
}

Step-Inv : {s t u : System} → Step t u → Inv s t → Inv s u
unfolding calculate_cell
Step-Inv (calculates row lt room) inv = record {
  same_a = inv.same_a;
  same_b = inv.same_b;
  columns_in = λ i. ground (arith, inv.columns_in i);
  done = λ i j below. ground (arith, inv.done i j, inv.same_a i j, inv.same_b i j);
  untouched = λ i j ge. ground (arith, inv.untouched i j);
}

pub Runs-Inv : {s t : System} {k : ℕ} → AtStart s → Runs s k t → Inv s t
Runs-Inv {s} fresh start = start-Inv s fresh
Runs-Inv fresh (later r st) = Step-Inv st (Runs-Inv fresh r)

-- When every thread has come to the end of its row, in whatever order they ran, each entry of the
-- result is the sum of the two entries, and nothing outside the rows was written.
pub Runs-result :
    {s t : System} {k : ℕ}
    → AtStart s
    → Runs s k t
    → ((i : ℕ) → i < n_rows → t.column i ≡ n_rows)
    → (i j : ℕ) → i < n_rows
    → (j < n_rows → t.res i j ≡ (s.a i j + s.b i j) % 2 ^ 32) × (n_rows ≤ j → t.res i j ≡ s.res i j)
Runs-result fresh r all i j lt =
    let inv = Runs-Inv fresh r in
    (
      λ in_row. inv.done i j (omega (arith, all i lt)),
      λ outside. inv.untouched i j (omega (arith, all i lt)),
    )

-- A run takes one step for each entry that is calculated.
count_steps : {s t : System} {k : ℕ} → AtStart s → Runs s k t → tally (λ c. c) n_rows t.column ≡ k
unfolding calculate_cell
count_steps {s} fresh start = tally_of_light (λ c. c) n_rows s.column (λ i lt. fresh i)
count_steps fresh (later {t = t} r (calculates row lt room)) =
    omega
      (arith, count_steps fresh r, tally-move (λ c. c) n_rows t.column row (t.column row + 1) lt)

-- The threads stop only at the ends of their rows: a state with no next step is reached by exactly
-- one step for each of the 225 entries, and every thread is at the end of its row.
pub Runs-ends :
    {s t : System} {k : ℕ}
    → AtStart s
    → Runs s k t
    → ((u : System) → ¬ Step t u)
    → (k ≡ n_rows * n_rows) × ((i : ℕ) → i < n_rows → t.column i ≡ n_rows)
Runs-ends {t = t} fresh r stuck =
    let inv = Runs-Inv fresh r in
    let all : (i : ℕ) → i < n_rows → t.column i ≡ n_rows = λ i lt.
      elim (dec_lt (t.column i) n_rows) [
        | yes more ↦ absurd (stuck _ (calculates i lt more))
        | no full ↦ omega (arith, inv.columns_in i)
      ] in
    (omega (arith, count_steps fresh r, tally_of_const (λ c. c) n_rows n_rows t.column all), all)
