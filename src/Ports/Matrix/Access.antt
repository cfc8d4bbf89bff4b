-- ===== src/Ports/Matrix/Access.antt =====
-- The accesses to a matrix of cpp/cc_lab02_b.cc agree with each other.
use posix_intro.Common.{
  ℕ, zero, suc, ◌+◌, ◌*◌, ◌<◌, ◌≡◌, ◌≢◌, refl, sym, ap, ◌∙◌, dec_lt, Bool-cases, ◌⊎◌, inl, inr, leb,
  ◌||◌, List, get_or, set, length, arith, get_or-set_self, get_or-set_ne,
}
use posix_intro.Ports.Matrix.{value, slice, at, assign, row, col}

-- An entry of a slice.
slice-entry :
    (start n stride i : ℕ) (arr : List ℕ)
    → i < n
    → get_or (slice start n stride arr) i 0 ≡ get_or arr (start + i * stride) 0
slice-entry start zero stride i arr h = elim h [ ]
slice-entry start (suc n) stride zero arr h = ap (λ p. get_or arr p 0) (omega arith)
slice-entry start (suc n) stride (suc i) arr h =
    slice-entry (start + stride) n stride i arr (omega arith)
    ∙ ap (λ p. get_or arr p 0) (omega arith)

lower_row : (m x y x' y' : ℕ) → y < m → x < x' → x * m + y < x' * m + y'
lower_row m x y x' y' h lt = grind arith

-- Two places have different indices.
index_unique : (m x y x' y' : ℕ) → y < m → y' < m → x * m + y ≡ x' * m + y' → (x ≡ x') × (y ≡ y')
index_unique m x y x' y' h h' e =
    let same : x ≡ x' = elim (dec_lt x x') [
      | yes lt ↦ absurd (omega (arith, lower_row m x y x' y' h lt))
      | no ge ↦ elim (dec_lt x' x) [
        | yes lt ↦ absurd (omega (arith, lower_row m x' y' x y h' lt))
        | no le ↦ omega arith
      ]
    ] in
    let rest : x * m ≡ x' * m = ap (λ t. t * m) same in (same, omega arith)

index-lt : (n m x y : ℕ) → x < n → y < m → x * m + y < n * m
index-lt n m x y h k = grind arith

module _ (n m x y v : ℕ) (arr : List ℕ) (size : length arr ≡ n * m) (hx : x < n) (hy : y < m) where
  abbrev written : List ℕ
  written = set arr (x * m + y) v

  assign_lem : assign n m x y v arr ≡ value written
  unfolding assign
  assign_lem = ground arith

  read_back : get_or written (x * m + y) 0 ≡ v
  read_back = get_or-set_self arr (x * m + y) v 0 (omega (arith, index-lt n m x y hx hy))

  row_lem : (zs : List ℕ) → row n m x zs ≡ value (slice (x * m) m 1 zs)
  unfolding row
  row_lem zs = ground arith

  col_lem : (zs : List ℕ) → col n m y zs ≡ value (slice y n m zs)
  unfolding col
  col_lem zs = ground arith

  at_lem : (zs : List ℕ) → at n m x y zs ≡ value (get_or zs (x * m + y) 0)
  unfolding at
  at_lem zs = ground arith

  other_index : (x' y' : ℕ) → y' < m → (x' ≢ x) ⊎ (y' ≢ y) → x * m + y ≢ x' * m + y'
  other_index x' y' lt (inl ne) e = ne (sym (index_unique m x y x' y' hy lt e).0)
  other_index x' y' lt (inr ne) e = ne (sym (index_unique m x y x' y' hy lt e).1)

  other_read : (x' y' : ℕ) → (x' ≢ x) ⊎ (y' ≢ y) → at n m x' y' written ≡ at n m x' y' arr
  unfolding at
  other_read x' y' ne = elim (Bool-cases (leb n x' || leb m y')) [
    | inl out ↦ rw out refl
    | inr within ↦ rw within (
        ap value
          (get_or-set_ne arr (x * m + y) (x' * m + y') v 0 (other_index x' y' (ground arith) ne)))
  ]

  -- An assignment through `operator()` inside the matrix succeeds; then `operator()` reads the value
  -- at this place, and so do the row and the column through it; and at every other place, inside the
  -- matrix or outside of it, `operator()` gives what it gave before.
  pub assign-at :
      (arr' : List ℕ) × (assign n m x y v arr ≡ value arr')
      × (at n m x y arr' ≡ value v)
      × ((vs : List ℕ) × (row n m x arr' ≡ value vs) × (get_or vs y 0 ≡ v))
      × ((vs : List ℕ) × (col n m y arr' ≡ value vs) × (get_or vs x 0 ≡ v))
      × ((x' y' : ℕ) → (x' ≢ x) ⊎ (y' ≢ y) → at n m x' y' arr' ≡ at n m x' y' arr)
  assign-at = (
    written,
    assign_lem,
    at_lem written ∙ ap value read_back,
    (
      _,
      row_lem written,
      slice-entry (x * m) m 1 y written hy ∙ ap (λ p. get_or written p 0) (omega arith) ∙ read_back,
    ),
    (
      _,
      col_lem written,
      slice-entry y n m x written hx ∙ ap (λ p. get_or written p 0) (omega arith) ∙ read_back,
    ),
    other_read,
  )
