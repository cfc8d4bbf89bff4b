-- ===== src/Ports/Matrix.antt =====
-- cpp/cc_lab02_b.cc: the matrix sum of task 2b in C++. `Custom::Matrix<N, M>` keeps its N * M values
-- in one array, row behind row; `row` and `col` are slices of it. The values are bit patterns of 32
-- bits. Each column is added in a task of its own, and the tasks interleave entry by entry.
pub mod Access
pub mod Result
mod Tests
use Prim.Native.String.{String}
use posix_intro.Common.{
  ℕ, zero, suc, ◌+◌, ◌*◌, ◌%◌, ◌^◌, ◌<◌, ◌≡◌, Bool, true, false, ◌||◌, leb, ltb, List, [], ◌∷◌,
  get_or, set, replicate, if◌then◌else◌,
}
use posix_intro.Common.Threads.{move}

-- What an access gives, or the `std::out_of_range` that it throws.
pub data Accessed {ℓ} (A : Type ℓ) : Type ℓ where
  value : A → Accessed A
  out_of_range : (what : String) → Accessed A

infixl 5 ◌>>=◌
abbrev pub ◌>>=◌ {ℓ κ} : {A : Type ℓ} {B : Type κ} → Accessed A → (A → Accessed B) → Accessed B
value a >>= f = f a
out_of_range what >>= f = out_of_range what

-- The values of `arr[std::slice(start, size, stride)]`, and the array after these are replaced by
-- `vs`.
abbrev pub slice : (start size stride : ℕ) → List ℕ → List ℕ
slice start zero stride arr = []
slice start (suc n) stride arr = get_or arr start 0 ∷ slice (start + stride) n stride arr

abbrev pub set_slice : (start size stride : ℕ) → List ℕ → List ℕ → List ℕ
set_slice start zero stride vs arr = arr
set_slice start (suc n) stride [] arr = arr
set_slice start (suc n) stride (v ∷ vs) arr =
    set_slice (start + stride) n stride vs (set arr start v)

-- `std::iota` over `n` values.
abbrev pub iota : (n from : ℕ) → List ℕ
iota zero from = []
iota (suc n) from = from ∷ iota n (from + 1)

module _ (n m : ℕ) where
  -- Both `operator()`: the value read, and the array after an assignment through it.
  unfoldable pub at : (x y : ℕ) → List ℕ → Accessed ℕ
  at x y arr =
      if leb n x || leb m y
      then out_of_range "const () out of range"
      else value (get_or arr (x * m + y) 0)

  unfoldable pub assign : (x y v : ℕ) → List ℕ → Accessed (List ℕ)
  assign x y v arr =
      if leb n x || leb m y then out_of_range "() out of range" else value (set arr (x * m + y) v)

  -- `row` and `col`: the values read, and the array after an assignment to `row`.
  unfoldable pub row : ℕ → List ℕ → Accessed (List ℕ)
  row x arr =
      if leb n x then out_of_range "const row out of range" else value (slice (x * m) m 1 arr)

  unfoldable pub col : ℕ → List ℕ → Accessed (List ℕ)
  col y arr = if leb m y then out_of_range "const col out of range" else value (slice y n m arr)

  unfoldable pub set_row : ℕ → List ℕ → List ℕ → Accessed (List ℕ)
  set_row x vs arr =
      if leb n x then out_of_range "row out of range" else value (set_slice (x * m) m 1 vs arr)

  -- The constructor without arguments, and its loop; the first argument counts the rounds left.
  unfoldable pub fill_rows : (rounds i : ℕ) → List ℕ → Accessed (List ℕ)
  fill_rows zero i arr = value arr
  fill_rows (suc k) i arr = set_row i (iota m 1) arr >>= fill_rows k (i + 1)

  unfoldable pub counted : Accessed (List ℕ)
  unfolding fill_rows set_row
  counted = fill_rows n 0 (replicate (n * m) 0)

  -- The constructor with a value.
  abbrev pub constant : ℕ → List ℕ
  constant val = replicate (n * m) val

  -- The numbers that `operator<<` writes, row by row, from row `i` on.
  unfoldable pub print_rows : (rounds i : ℕ) → List ℕ → List (List ℕ)
  print_rows zero i arr = []
  print_rows (suc k) i arr = slice (i * m) m 1 arr ∷ print_rows k (i + 1) arr

  unfoldable pub print : List ℕ → List (List ℕ)
  unfolding print_rows
  print arr = print_rows n 0 arr

-- `rows` and `cols` of `main`
abbrev pub size : ℕ
size = 15

-- The result, and how many entries each column's task has added: those of `a`, then those of `b`.
pub record System : Type 0 where
  pub res : List ℕ
  pub added : ℕ → ℕ

-- The next entry that the task of column `c` adds: `res.col(c) += a.col(c); res.col(c) += b.col(c);`
unfoldable pub add_entry : (a b : List ℕ) → (c : ℕ) → System → System
add_entry a b c s =
    let k = s.added c in
    let p = k % size * size + c in
    record s {
      res = set s.res p ((get_or s.res p 0 + get_or (if ltb k size then a else b) p 0) % 2 ^ 32);
      added = move s.added c (k + 1);
    }

pub data Step (a b : List ℕ) (s : System) : System → Type 0 where
  adds : (c : ℕ) → c < size → s.added c < size + size → Step a b s (add_entry a b c s)

-- `res{0}`, before the first task.
abbrev pub start_system : System
start_system = record { res = constant size size 0; added = λ c. 0 }

-- The runs of the tasks on the matrices `a` and `b`, and how many entries they have added.
pub data Runs (a b : List ℕ) : ℕ → System → Type 0 where
  start : Runs a b 0 start_system
  later : {k : ℕ} {s t : System} → Runs a b k s → Step a b s t → Runs a b (suc k) t
