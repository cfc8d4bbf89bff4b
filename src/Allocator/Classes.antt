-- ===== src/Allocator/Classes.antt =====
-- Which size class `find_heap` of c/c_lab07_b.c chooses, and what it changes.
use posix_intro.Common.{
  ℕ, zero, suc, ◌+◌, ◌≤◌, ◌<◌, ◌≡◌, refl, Bool, true, false, Option, none, some, List, [], ◌∷◌,
  arith, leb, get_or, Bool-cases, inl, inr, ◌⊎◌, length, ap, ◌∙◌, dec_lt, ℕ_discrete, leb→le, ltb,
  ◌&&◌,
}
use posix_intro.Allocator.{Ptr, is_null, MyHeap, class_sizes, find_from, find_heap}

abbrev pub sizes : List MyHeap → List ℕ
sizes [] = []
sizes (h ∷ hs) = h.max_size ∷ sizes hs

abbrev pub counters : List MyHeap → List ℕ
counters [] = []
counters (h ∷ hs) = h.counter ∷ counters hs

-- `find_heap` changes no size and no counter.
pub find_from-keeps :
    (reply : Ptr) (size k : ℕ) (hs : List MyHeap)
    → let hs' = (find_from reply size k hs).1 in
      (sizes hs' ≡ sizes hs) × (counters hs' ≡ counters hs)
unfolding find_from
find_from-keeps reply size k [] = (refl, refl)
find_from-keeps reply size k (h ∷ hs) = ground (arith, find_from-keeps reply size (suc k) hs)

-- Class `i` is the first that is large enough.
pub record IsFirst (size : ℕ) (xs : List ℕ) (i : ℕ) : Type 0 where
  pub inside : i < length xs
  pub fits : size ≤ get_or xs i 0
  pub others : (j : ℕ) → j < i → get_or xs j 0 < size

below_cons :
    (size x n : ℕ) (xs : List ℕ)
    → x < size
    → ((j : ℕ) → j < n → get_or xs j 0 < size)
    → (j : ℕ) → j < suc n
    → get_or (x ∷ xs) j 0 < size
below_cons size x n xs small h zero lt = small
below_cons size x n xs small h (suc j) lt = h j (omega arith)

-- What `find_from` can find.
abbrev Found : ℕ → ℕ → List ℕ → Option ℕ → Type 0
Found size k xs found =
    ((found ≡ none) × ((j : ℕ) → j < length xs → get_or xs j 0 < size))
    ⊎ ((i : ℕ) × (found ≡ some (k + i)) × IsFirst size xs i)

find_from-Found :
    (reply : Ptr) (size k : ℕ) (hs : List MyHeap)
    → is_null reply ≡ false
    → Found size k (sizes hs) (find_from reply size k hs).0
unfolding find_from
find_from-Found reply size k [] ok = inl (refl, λ j lt. elim lt [ ])
find_from-Found reply size k (h ∷ hs) ok = elim (Bool-cases (leb size h.max_size)) [
  | inl fits ↦ inr (
    0,
    ground arith,
    record { inside = omega arith; fits = leb→le _ _ fits; others = λ j lt. elim lt [ ] },
  )
  | inr small ↦ elim (find_from-Found reply size (suc k) hs ok) [
    | inl (missing, all) ↦
        inl (rw (small, missing) refl, below_cons size h.max_size _ _ (ground arith) all)
    | inr (i, found, first) ↦ inr (
      suc i,
      ground arith,
      record {
        inside = omega (arith, first.inside);
        fits = first.fits;
        others = below_cons size h.max_size _ _ (ground arith) first.others;
      },
    )
  ]
]

-- Where `mmap` does not return NULL, `find_heap` finds the first class that is large enough, and
-- none exactly where every class is too small; it changes no size and no counter.
pub find_heap-IsFirst :
    (reply : Ptr) (size : ℕ) (hs : List MyHeap)
    → is_null reply ≡ false
    → let (found, hs') = find_heap reply size hs in
      (((found ≡ none) × ((j : ℕ) → j < length (sizes hs) → get_or (sizes hs) j 0 < size))
        ⊎ ((i : ℕ) × (found ≡ some i) × IsFirst size (sizes hs) i))
      × (sizes hs' ≡ sizes hs)
      × (counters hs' ≡ counters hs)
unfolding find_heap
find_heap-IsFirst reply size hs ok =
    let keeps = find_from-keeps reply size 0 hs in
    (
      elim (find_from-Found reply size 0 hs ok) [
        | inl none_fits ↦ inl none_fits
        | inr (i, found, first) ↦ inr (i, found ∙ ap some (omega arith), first)
      ],
      keeps.0,
      keeps.1,
    )

-- The sizes of `arr_heap` grow, each by eight at least, so that the first class that fits is the
-- smallest.
increasing : List ℕ → Bool
increasing [] = true
increasing (x ∷ []) = true
increasing (x ∷ y ∷ xs) = ltb (x + 7) y && increasing (y ∷ xs)

class_sizes-increasing : increasing class_sizes ≡ true
unfolding increasing
class_sizes-increasing = refl

get_or-increasing :
    (x : ℕ) (xs : List ℕ) (j : ℕ)
    → increasing (x ∷ xs) ≡ true
    → j < length xs
    → x + 7 < get_or xs j 0
unfolding increasing
get_or-increasing x [] j h lt = elim lt [ ]
get_or-increasing x (y ∷ xs) zero h lt = ground arith
get_or-increasing x (y ∷ xs) (suc j) h lt = ground (arith, get_or-increasing y xs j)

increasing-tail : (x : ℕ) (xs : List ℕ) → increasing (x ∷ xs) ≡ true → increasing xs ≡ true
unfolding increasing
increasing-tail x [] h = refl
increasing-tail x (y ∷ xs) h = ground arith

increasing_lem :
    (xs : List ℕ) (i j : ℕ)
    → increasing xs ≡ true
    → i < j
    → j < length xs
    → get_or xs i 0 + 7 < get_or xs j 0
increasing_lem [] i j h lt in_j = elim in_j [ ]
increasing_lem (x ∷ xs) i zero h lt in_j = elim lt [ ]
increasing_lem (x ∷ xs) zero (suc j) h lt in_j = get_or-increasing x xs j h (omega arith)
increasing_lem (x ∷ xs) (suc i) (suc j) h lt in_j =
    increasing_lem xs i j (increasing-tail x xs h) (omega arith) (omega arith)

-- Two classes are eight bytes apart at least.
pub class_sizes_gap :
    (i j : ℕ) → i < j → j < length class_sizes → get_or class_sizes i 0 + 7 < get_or class_sizes j 0
class_sizes_gap i j lt in_j = increasing_lem class_sizes i j class_sizes-increasing lt in_j

pub class_sizes_mono :
    (i j : ℕ) → i ≤ j → j < length class_sizes → get_or class_sizes i 0 ≤ get_or class_sizes j 0
class_sizes_mono i j le in_j = elim (ℕ_discrete i j) [
  | yes same ↦ rw same (omega arith)
  | no apart ↦ omega (arith, class_sizes_gap i j (omega arith) in_j)
]

abbrev First : ℕ → List ℕ → Option ℕ → Type 0
First size xs found =
    ((found ≡ none) × ((j : ℕ) → j < length xs → get_or xs j 0 < size))
    ⊎ ((i : ℕ) × (found ≡ some i) × IsFirst size xs i)

abbrev Smallest : ℕ → Option ℕ → Type 0
Smallest size found =
    (0x7f000000 < size → found ≡ none)
    × (size ≤ 0x7f000000
        → (i : ℕ) × (found ≡ some i)
          × (size ≤ get_or class_sizes i 0)
          × ((j : ℕ)
              → j < length class_sizes
              → size ≤ get_or class_sizes j 0
              → get_or class_sizes i 0 ≤ get_or class_sizes j 0))

Smallest-of_First :
    (size : ℕ) (found : Option ℕ) → First size class_sizes found → Smallest size found
Smallest-of_First size found (inl (missing, all)) =
    (λ big. missing, λ small. absurd (omega (arith, all 28 (omega arith))))
Smallest-of_First size found (inr (i, here, first)) = (
  λ big. absurd (
      omega (arith, first.fits, class_sizes_mono i 28 (omega (arith, first.inside)) (omega arith))),
  λ small. (
    i,
    here,
    first.fits,
    λ j in_j fits. elim (dec_lt j i) [
      | yes before ↦ absurd (omega (arith, first.others j before))
      | no after ↦ class_sizes_mono i j (omega arith) in_j
    ],
  ),
)

-- With the sizes of `arr_heap`, whatever its pointers and counters: a request of up to 0x7f000000
-- bytes gets the smallest class that is large enough, and a larger one gets none.
pub find_heap-smallest :
    (reply : Ptr) (size : ℕ) (hs : List MyHeap)
    → is_null reply ≡ false
    → sizes hs ≡ class_sizes
    → let found = (find_heap reply size hs).0 in
      (0x7f000000 < size → found ≡ none)
      × (size ≤ 0x7f000000
          → (i : ℕ) × (found ≡ some i)
            × (size ≤ get_or class_sizes i 0)
            × ((j : ℕ)
                → j < length class_sizes
                → size ≤ get_or class_sizes j 0
                → get_or class_sizes i 0 ≤ get_or class_sizes j 0))
find_heap-smallest reply size hs ok e =
    Smallest-of_First size (find_heap reply size hs).0 (rw e at first)
  where
    first : First size (sizes hs) (find_heap reply size hs).0
    first = (find_heap-IsFirst reply size hs ok).0
