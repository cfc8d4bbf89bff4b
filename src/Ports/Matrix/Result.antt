-- ===== src/Ports/Matrix/Result.antt =====
-- The result of cpp/cc_lab02_b.cc does not depend on the order in which the tasks run, and is the
-- one of the C program.
use mathlib.Core.Path.{ap₂}
use native.Mathlib.Nat.{add-zero}
use posix_intro.Common.{
  ℕ, zero, suc, ◌+◌, ◌*◌, ◌%◌, ◌/◌, ◌^◌, ◌≤◌, ◌<◌, ◌≡◌, ◌≢◌, refl, sym, ap, ◌∙◌, dec_lt, ℕ_discrete,
  ◌==◌, true, false, ltb, List, [], ◌∷◌, ◌++◌, get_or, set, length, length-set, length-replicate,
  replicate, get_or-set_self, get_or-set_ne, if◌then◌else◌, arith,
}
use posix_intro.Common.Threads.{move}
use posix_intro.Matrix.{print_row, print_rows, print_matrix}
use posix_intro.Ports.Matrix.{
  iota, size, System, add_entry, Step, adds, start_system, Runs, start, later, value, counted,
  constant, print,
}

get_or-replicate : (n a i : ℕ) → get_or (replicate n a) i a ≡ a
get_or-replicate zero a i = refl
get_or-replicate (suc n) a zero = refl
get_or-replicate (suc n) a (suc i) = get_or-replicate n a i

list_ext :
    (xs ys : List ℕ)
    → length xs ≡ length ys
    → ((p : ℕ) → p < length xs → get_or xs p 0 ≡ get_or ys p 0)
    → xs ≡ ys
list_ext [] [] h e = refl
list_ext [] (y ∷ ys) h e = absurd (omega arith)
list_ext (x ∷ xs) [] h e = absurd (omega arith)
list_ext (x ∷ xs) (y ∷ ys) h e =
    ap₂ (λ z zs. z ∷ zs) (e 0 (omega arith))
      (list_ext xs ys (omega arith) (λ p lt. e (suc p) (omega arith)))

==_refl : (c : ℕ) → (c == c) ≡ true
==_refl c = ground arith

==_ne : (d c : ℕ) → d ≢ c → (d == c) ≡ false
==_ne d c ne = ground arith

module _ (a b : List ℕ) where
  -- What stands at index `p`, in row `i`, once its column's task has added `k` entries.
  abbrev partial_sum : (k i p : ℕ) → ℕ
  partial_sum k i p =
      if ltb i k
      then (if ltb (size + i) k
          then ((0 + get_or a p 0) % 2 ^ 32 + get_or b p 0) % 2 ^ 32
          else (0 + get_or a p 0) % 2 ^ 32)
      else 0

  none_added : (i p : ℕ) → partial_sum 0 i p ≡ 0
  none_added i p = ground arith

  other_row :
      (k i p : ℕ)
      → i < size
      → k < size + size
      → i ≢ k % size
      → partial_sum (k + 1) i p ≡ partial_sum k i p
  other_row k i p hi hk ne = ground arith

  next_row :
      (k i p : ℕ)
      → k < size + size
      → i ≡ k % size
      → (partial_sum k i p + get_or (if ltb k size then a else b) p 0) % 2 ^ 32
        ≡ partial_sum (k + 1) i p
  next_row k i p hk e = ground arith

  record Inv (s : System) : Type 0 where
    same_size : length s.res ≡ size * size
    in_range : (c : ℕ) → s.added c ≤ size + size
    entries :
        (i c : ℕ)
        → i < size
        → c < size
        → get_or s.res (i * size + c) 0 ≡ partial_sum (s.added c) i (i * size + c)

  start-Inv : Inv start_system
  start-Inv = record {
    same_size = length-replicate {A = ℕ} (size * size) 0;
    in_range = λ c. omega arith;
    entries = λ i c hi hc.
        get_or-replicate (size * size) 0 (i * size + c) ∙ sym (none_added i (i * size + c));
  }

  module _ {s : System} (inv : Inv s) (c : ℕ) (hc : c < size) (room : s.added c < size + size) where
    -- The index of the entry that the task of column `c` adds next.
    abbrev place : ℕ
    place = s.added c % size * size + c

    abbrev sum : ℕ
    sum = (get_or s.res place 0 + get_or (if ltb (s.added c) size then a else b) place 0) % 2 ^ 32

    own_column :
        (i : ℕ)
        → i < size
        → get_or (set s.res place sum) (i * size + c) 0
          ≡ partial_sum (s.added c + 1) i (i * size + c)
    own_column i hi = elim (ℕ_discrete i (s.added c % size)) [
      | yes e ↦
          let here : i * size + c ≡ place = omega arith in
          rw here (
            get_or-set_self s.res place sum 0 (omega (arith, inv.same_size))
            ∙ ap (λ t. (t + get_or (if ltb (s.added c) size then a else b) place 0) % 2 ^ 32)
                (ap (λ t. get_or s.res t 0) (sym here)
                  ∙ inv.entries i c hi hc
                  ∙ ap (partial_sum (s.added c) i) here)
            ∙ next_row (s.added c) i place room e)
      | no ne ↦
          get_or-set_ne s.res place (i * size + c) sum 0 (omega arith)
          ∙ inv.entries i c hi hc
          ∙ sym (other_row (s.added c) i (i * size + c) hi room ne)
    ]

    entry_added :
        (i d : ℕ)
        → i < size
        → d < size
        → get_or (set s.res place sum) (i * size + d) 0
          ≡ partial_sum (move s.added c (s.added c + 1) d) i (i * size + d)
    entry_added i d hi hd = elim (ℕ_discrete d c) [
      | yes e ↦ rw (e, ==_refl c) (own_column i hi)
      | no ne ↦
          let other = ==_ne d c ne in
          rw other
            (get_or-set_ne s.res place (i * size + d) sum 0 (omega arith) ∙ inv.entries i d hi hd)
    ]

  Step-Inv : {s t : System} → Step a b s t → Inv s → Inv t
  unfolding add_entry
  Step-Inv {s} (adds c hc room) inv = record {
    same_size = length-set s.res _ _ ∙ inv.same_size;
    in_range = λ d. ground (arith, inv.in_range d);
    entries = entry_added inv c hc room;
  }

  Runs-Inv : {k : ℕ} {s : System} → Runs a b k s → Inv s
  Runs-Inv start = start-Inv
  Runs-Inv (later r mv) = Step-Inv mv (Runs-Inv r)

  -- The entries of the result, from index `p` on.
  sums : (n p : ℕ) → List ℕ
  sums zero p = []
  sums (suc n) p = (((0 + get_or a p 0) % 2 ^ 32 + get_or b p 0) % 2 ^ 32) ∷ sums n (suc p)

  length-sums : (n p : ℕ) → length (sums n p) ≡ n
  unfolding sums
  length-sums zero p = refl
  length-sums (suc n) p = ap suc (length-sums n (suc p))

  sums-entry :
      (n p i : ℕ)
      → i < n
      → get_or (sums n p) i 0 ≡ ((0 + get_or a (i + p) 0) % 2 ^ 32 + get_or b (i + p) 0) % 2 ^ 32
  unfolding sums
  sums-entry zero p i h = elim h [ ]
  sums-entry (suc n) p zero h =
      ap (λ t. ((0 + get_or a t 0) % 2 ^ 32 + get_or b t 0) % 2 ^ 32) (omega arith)
  sums-entry (suc n) p (suc i) h =
      sums-entry n (suc p) i (omega arith)
      ∙ ap (λ t. ((0 + get_or a t 0) % 2 ^ 32 + get_or b t 0) % 2 ^ 32) (omega arith)

  all_added :
      (i p k : ℕ)
      → i < size
      → k ≡ size + size
      → partial_sum k i p ≡ ((0 + get_or a p 0) % 2 ^ 32 + get_or b p 0) % 2 ^ 32
  all_added i p k hi e = ground arith

  -- In whatever order the tasks run: once none of them can go on, each entry is the sum.
  Runs-sums :
      {k : ℕ} {s : System}
      → Runs a b k s
      → ((t : System) → ¬ Step a b s t)
      → s.res ≡ sums (size * size) 0
  Runs-sums {s = s} r stuck =
      let inv = Runs-Inv r in
      let full : (c : ℕ) → c < size → s.added c ≡ size + size = λ c hc.
        elim (dec_lt (s.added c) (size + size)) [
          | yes more ↦ absurd (stuck _ (adds c hc more))
          | no all ↦ omega (arith, inv.in_range c)
        ] in
      let entry : (p : ℕ) → p < size * size → get_or s.res p 0 ≡ get_or (sums (size * size) 0) p 0 =
        λ p lt.
          let i : ℕ = p / size in
          let c : ℕ = p % size in
          let here : i * size + c ≡ p = omega arith in
          ap (λ t. get_or s.res t 0) (sym here)
          ∙ inv.entries i c (omega arith) (omega arith)
          ∙ all_added i (i * size + c) (s.added c) (omega arith) (full c (omega arith))
          ∙ ap (λ t. ((0 + get_or a t 0) % 2 ^ 32 + get_or b t 0) % 2 ^ 32)
              (here ∙ sym (add-zero p))
          ∙ sym (sums-entry (size * size) 0 p lt) in
      list_ext s.res (sums (size * size) 0) (inv.same_size ∙ sym (length-sums (size * size) 0))
        (λ p lt. entry p (omega (arith, inv.same_size)))

unfoldable pub counted_rows : (rounds : ℕ) → List ℕ
counted_rows zero = []
counted_rows (suc n) = iota size 1 ++ counted_rows n

pub counted_lem : counted size size ≡ value (counted_rows size)
unfolding counted counted_rows
counted_lem = refl

value-injective : {x y : List ℕ} → value x ≡ value y → x ≡ y
value-injective e = cc

print-sums :
    print size size (sums (counted_rows size) (constant size size 2000) (size * size) 0)
    ≡ print_matrix (λ i j. 2001 + j)
unfolding print sums counted_rows print_matrix print_rows print_row
print-sums = refl

-- In whatever order the tasks of the columns run: once none of them can go on, the C++ program prints
-- the rows that the C program prints, 2001 to 2015 each.
pub main-same_print :
    {a : List ℕ} {k : ℕ} {s : System}
    → counted size size ≡ value a
    → Runs a (constant size size 2000) k s
    → ((t : System) → ¬ Step a (constant size size 2000) s t)
    → print size size s.res ≡ print_matrix (λ i j. 2001 + j)
main-same_print {a} made r stuck =
    ap (print size size) (Runs-sums a (constant size size 2000) r stuck)
    ∙ ap (λ x. print size size (sums x (constant size size 2000) (size * size) 0))
        (value-injective (sym made ∙ counted_lem))
    ∙ print-sums
