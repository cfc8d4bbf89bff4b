-- ===== src/Matrix.antt =====
-- c/c_lab02_b.c: two matrices added row by row, each row in a thread of its own. A matrix is a
-- function of row and column; the program uses the indices below N. A Step is one round of the
-- loop of `calculate_row` in one thread, and the threads interleave in any order.
pub mod Result
pub mod Main
mod Tests
use posix_intro.Common.{
  ℕ, zero, suc, ◌+◌, ◌%◌, ◌^◌, ◌<◌, ◌==◌, ◌&&◌, if◌then◌else◌, List, [], ◌∷◌, ◌++◌, map,
}
use posix_intro.Common.Threads.{move}

-- N
abbrev pub n_rows : ℕ
n_rows = 15

-- The values are bit patterns of 32 bits.
abbrev pub Matrix : Type 0
Matrix = ℕ → ℕ → ℕ

-- `m[i][j] = v`
abbrev pub store : Matrix → ℕ → ℕ → ℕ → Matrix
store m i j v i' j' = if i' == i && j' == j then v else m i' j'

-- The file's matrices, and the column at which each row's thread stands.
pub record System : Type 0 where
  pub a : Matrix
  pub b : Matrix
  pub res : Matrix
  pub column : ℕ → ℕ

-- The body of the inner loop of `init`, and its two loops; the first argument of each loop counts
-- the rounds left.
abbrev pub init_cell : ℕ → ℕ → System → System
init_cell i j s = record s { a = store s.a i j 2000; b = store s.b i j (j + 1) }

pub init_columns : ℕ → ℕ → ℕ → System → System
init_columns zero i j s = s
init_columns (suc n) i j s = init_columns n i (j + 1) (init_cell i j s)

pub init_rows : ℕ → ℕ → System → System
init_rows zero i s = s
init_rows (suc n) i s = init_rows n (i + 1) (init_columns n_rows i 0 s)

-- Static storage, and every thread before its first column.
abbrev pub zeroed : System
zeroed = record { a = λ i j. 0; b = λ i j. 0; res = λ i j. 0; column = λ i. 0 }

-- `init`
pub init : System → System
init s = init_rows n_rows 0 s

-- One round of the loop of `calculate_row` in the thread of row `row`.
pub calculate_cell : ℕ → System → System
calculate_cell row s = record s {
  res = store s.res row (s.column row) ((s.a row (s.column row) + s.b row (s.column row)) % 2 ^ 32);
  column = move s.column row (s.column row + 1);
}

pub data Step (s : System) : System → Type 0 where
  calculates : (row : ℕ) → row < n_rows → s.column row < n_rows → Step s (calculate_cell row s)

-- The runs from the state in which `main` has called `init` and made the threads.
pub data Runs (s : System) : ℕ → System → Type 0 where
  start : Runs s 0 s
  later : {k : ℕ} {t u : System} → Runs s k t → Step t u → Runs s (suc k) u

-- The numbers that `print_matrix` writes, in order, row by row; the first argument of each loop
-- counts the rounds left.
unfoldable pub print_row : ℕ → ℕ → ℕ → Matrix → List ℕ
print_row zero i j m = []
print_row (suc n) i j m = m i j ∷ print_row n i (j + 1) m

unfoldable pub print_rows : ℕ → ℕ → Matrix → List (List ℕ)
print_rows zero i m = []
print_rows (suc n) i m = print_row n_rows i 0 m ∷ print_rows n (i + 1) m

unfoldable pub print_matrix : Matrix → List (List ℕ)
print_matrix m = print_rows n_rows 0 m
