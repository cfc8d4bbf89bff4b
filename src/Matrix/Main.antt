-- ===== src/Matrix/Main.antt =====
-- What `main` of c/c_lab02_b.c prints: `init`, the threads and `print_matrix` together.
use posix_intro.Common.{
  ℕ, zero, suc, ◌+◌, ◌≤◌, ◌<◌, ◌≡◌, refl, ◌∙◌, List, [], ◌∷◌, replicate, arith,
}
use posix_intro.Matrix.{
  n_rows, Matrix, System, init_cell, init_columns, init_rows, zeroed, init, Step, Runs, print_row,
  print_rows, print_matrix,
}
use posix_intro.Matrix.Result.{AtStart, Runs-result, Runs-ends}

-- A cell as `init` leaves it.
abbrev FilledCell : System → ℕ → ℕ → Type 0
FilledCell s i j = (s.a i j ≡ 2000) × (s.b i j ≡ j + 1)

init_columns_lem :
    (n i j : ℕ) (s : System) (i' j' : ℕ)
    → let t = init_columns n i j s in
      (i' ≡ i → j ≤ j' → j' < j + n → FilledCell t i' j')
      × (FilledCell s i' j' → FilledCell t i' j')
      × (t.column i' ≡ s.column i')
unfolding init_columns
init_columns_lem zero i j s i' j' = (λ e ge lt. absurd (omega arith), λ h. h, refl)
init_columns_lem (suc n) i j s i' j' =
    ground (arith, init_columns_lem n i (j + 1) (init_cell i j s) i' j')

init_rows_lem :
    (n i : ℕ) (s : System) (i' j' : ℕ)
    → let t = init_rows n i s in
      (i ≤ i' → i' < i + n → j' < n_rows → FilledCell t i' j')
      × (FilledCell s i' j' → FilledCell t i' j')
      × (t.column i' ≡ s.column i')
unfolding init_rows
init_rows_lem zero i s i' j' = (λ ge lt in_row. absurd (omega arith), λ h. h, refl)
init_rows_lem (suc n) i s i' j' = ground (
  arith,
  init_rows_lem n (i + 1) (init_columns n_rows i 0 s) i' j',
  init_columns_lem n_rows i 0 s i' j',
)

-- `init` fills both matrices.
pub init-fills :
    (i j : ℕ)
    → i < n_rows
    → j < n_rows
    → ((init zeroed).a i j ≡ 2000) × ((init zeroed).b i j ≡ j + 1)
unfolding init
init-fills i j hi hj = (init_rows_lem n_rows 0 zeroed i j).0 (omega arith) (omega arith) hj

pub init-AtStart : AtStart (init zeroed)
unfolding init
init-AtStart i = (init_rows_lem n_rows 0 zeroed i 0).2

print_row_congr :
    (n i j : ℕ) (m m' : Matrix)
    → ((k : ℕ) → k < j + n → m i k ≡ m' i k)
    → print_row n i j m ≡ print_row n i j m'
unfolding print_row
print_row_congr zero i j m m' h = refl
print_row_congr (suc n) i j m m' h =
    rw (h j (omega arith), print_row_congr n i (j + 1) m m' (λ k lt. h k (omega arith)))

print_rows_congr :
    (n i : ℕ) (m m' : Matrix)
    → ((i' k : ℕ) → i' < i + n → k < n_rows → m i' k ≡ m' i' k)
    → print_rows n i m ≡ print_rows n i m'
unfolding print_rows
print_rows_congr zero i m m' h = refl
print_rows_congr (suc n) i m m' h = rw (
  print_row_congr n_rows i 0 m m' (λ k lt. h i k (omega arith) (omega arith)),
  print_rows_congr n (i + 1) m m' (λ i' k lt in_row. h i' k (omega arith) in_row),
)

-- The numbers from `from` on, `n` of them.
pub numbers_from : (from n : ℕ) → List ℕ
numbers_from from zero = []
numbers_from from (suc n) = from ∷ numbers_from (from + 1) n

print_matrix_sums : print_matrix (λ i j. 2001 + j) ≡ replicate 15 (numbers_from 2001 15)
unfolding print_matrix print_rows print_row numbers_from
print_matrix_sums = refl

-- In whatever order the row threads run: once none of them can go on, `main` prints 15 rows, each of
-- them the numbers 2001 to 2015, in order.
pub main-prints :
    {t : System} {k : ℕ}
    → Runs (init zeroed) k t
    → ((u : System) → ¬ Step t u)
    → print_matrix t.res ≡ replicate 15 (numbers_from 2001 15)
unfolding print_matrix
main-prints {t} r stuck =
    let (count, ends) = Runs-ends init-AtStart r stuck in
    print_rows_congr n_rows 0 t.res (λ i j. 2001 + j)
      (λ i j in_rows in_row. omega (
        arith,
        (Runs-result init-AtStart r ends i j in_rows).0 in_row,
        init-fills i j in_rows in_row,
      ))
    ∙ print_matrix_sums
