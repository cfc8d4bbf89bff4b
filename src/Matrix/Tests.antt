-- ===== src/Matrix/Tests.antt =====
-- A run of c/c_lab02_b.c by evaluation, and the theorems on it.
use mathlib.Core.List.{foldl}
use posix_intro.Common.{
  ℕ, zero, suc, ◌+◌, ◌*◌, ◌%◌, ◌^◌, ◌≤◌, ◌<◌, ◌≡◌, refl, List, [], ◌++◌, arith, replicate, dec_lt,
  ltb, Bool, true, ◌&&◌,
}
use posix_intro.Matrix.{
  n_rows, System, zeroed, init, calculate_cell, Step, calculates, Runs, start, later, print_matrix,
  init_rows, init_columns,
}
use posix_intro.Matrix.Result.{Runs-result, Runs-ends}
use posix_intro.Matrix.Main.{init-AtStart, numbers_from, main-prints}

record Run : Type 0 where
  count : ℕ
  last : System
  runs : Runs (init zeroed) count last

-- One round of a row's thread, if it has one left.
turn : Run → ℕ → Run
unfolding calculate_cell dec_lt
turn r row = elim (dec_lt row n_rows) [
  | yes lt ↦ elim (dec_lt (r.last.column row) n_rows) [
    | yes room ↦ record {
      count = suc r.count;
      last = _;
      runs = later r.runs (calculates row lt room);
    }
    | no _ ↦ r
  ]
  | no _ ↦ r
]

-- Every row's thread in turn, again and again; then row by row.
order : ℕ → List ℕ
order zero = []
order (suc n) = replicate 15 n ++ order n

abbrev whole : Run
whole = foldl turn (record { count = 0; last = _; runs = start }) (order n_rows)

columns_full : ℕ → Bool
columns_full zero = true
columns_full (suc n) = ltb 14 (whole.last.column n) && columns_full n

whole-full : columns_full 15 ≡ true
unfolding columns_full turn order init init_rows init_columns
whole-full = refl

columns_full_sound : (n i : ℕ) → columns_full n ≡ true → i < n → 14 < whole.last.column i
unfolding columns_full
columns_full_sound zero i h lt = elim lt [ ]
columns_full_sound (suc n) i h lt = ground (arith, columns_full_sound n i)

whole-stuck : {u : System} → ¬ Step whole.last u
whole-stuck (calculates row lt room) = omega (arith, columns_full_sound 15 row whole-full lt)

rows_end : (whole.count ≡ n_rows * n_rows) × ((i : ℕ) → i < n_rows → whole.last.column i ≡ n_rows)
rows_end = Runs-ends init-AtStart whole.runs (λ u. whole-stuck)

Runs-result_test :
    (7 < n_rows → whole.last.res 3 7 ≡ ((init zeroed).a 3 7 + (init zeroed).b 3 7) % 2 ^ 32)
    × (n_rows ≤ 7 → whole.last.res 3 7 ≡ (init zeroed).res 3 7)
Runs-result_test = Runs-result init-AtStart whole.runs rows_end.1 3 7 (omega arith)

main-prints_example : print_matrix whole.last.res ≡ replicate 15 (numbers_from 2001 15)
main-prints_example = main-prints whole.runs (λ u. whole-stuck)
