-- ===== src/Ports/Matrix/Tests.antt =====
-- A run of cpp/cc_lab02_b.cc by evaluation, and the theorems on the class and on the run.
use mathlib.Core.List.{foldl}
use posix_intro.Common.{
  ℕ, zero, suc, ◌+◌, ◌<◌, ◌≡◌, ◌≢◌, ◌⊎◌, refl, List, [], ◌++◌, arith, replicate, get_or, dec_lt,
  ltb, Bool, true, ◌&&◌,
}
use posix_intro.Matrix.{print_matrix}
use posix_intro.Ports.Matrix.{
  value, out_of_range, at, assign, row, col, constant, print, size, System, add_entry, Step, adds,
  Runs, start, later,
}
use posix_intro.Ports.Matrix.Access.{assign-at}
use posix_intro.Ports.Matrix.Result.{counted_rows, counted_lem, main-same_print}

-- `m(1, 2) = 7` on a matrix of two rows and three columns.
assign-at_example :
    (arr' : List ℕ) × (assign 2 3 1 2 7 (constant 2 3 0) ≡ value arr')
    × (at 2 3 1 2 arr' ≡ value 7)
    × ((vs : List ℕ) × (row 2 3 1 arr' ≡ value vs) × (get_or vs 2 0 ≡ 7))
    × ((vs : List ℕ) × (col 2 3 2 arr' ≡ value vs) × (get_or vs 1 0 ≡ 7))
    × ((x' y' : ℕ) → (x' ≢ 1) ⊎ (y' ≢ 2) → at 2 3 x' y' arr' ≡ at 2 3 x' y' (constant 2 3 0))
assign-at_example = assign-at 2 3 1 2 7 (constant 2 3 0) refl (omega arith) (omega arith)

outside : at 2 3 1 3 (constant 2 3 0) ≡ out_of_range "const () out of range"
unfolding at
outside = refl

abbrev a : List ℕ
a = counted_rows size

abbrev b : List ℕ
b = constant size size 2000

record Run : Type 0 where
  count : ℕ
  last : System
  runs : Runs a b count last

-- One entry of a column's task, if it has one left.
turn : Run → ℕ → Run
unfolding add_entry dec_lt counted_rows
turn r c = elim (dec_lt c size) [
  | yes lt ↦ elim (dec_lt (r.last.added c) (size + size)) [
    | yes room ↦ record { count = suc r.count; last = _; runs = later r.runs (adds c lt room) }
    | no _ ↦ r
  ]
  | no _ ↦ r
]

-- Column by column, from the last one on.
order : ℕ → List ℕ
order zero = []
order (suc n) = replicate 30 n ++ order n

abbrev whole : Run
whole = foldl turn (record { count = 0; last = _; runs = start }) (order size)

all_added : ℕ → Bool
all_added zero = true
all_added (suc n) = ltb 29 (whole.last.added n) && all_added n

whole-full : all_added 15 ≡ true
unfolding all_added turn order
whole-full = refl

all_added_sound : (n c : ℕ) → all_added n ≡ true → c < n → 29 < whole.last.added c
unfolding all_added
all_added_sound zero c h lt = elim lt [ ]
all_added_sound (suc n) c h lt = ground (arith, all_added_sound n c)

whole-stuck : {t : System} → ¬ Step a b whole.last t
whole-stuck (adds c lt room) = omega (arith, all_added_sound 15 c whole-full lt)

main-same_print_example : print size size whole.last.res ≡ print_matrix (λ i j. 2001 + j)
main-same_print_example = main-same_print counted_lem whole.runs (λ t. whole-stuck)
