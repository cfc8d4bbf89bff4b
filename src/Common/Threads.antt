-- ===== src/Common/Threads.antt =====
-- Threads as a family indexed by their number: one thread's change of state, and the sum of a
-- weight over the first threads, by which the invariants count the threads at a place.
use Prim.Native.Nat.{ℕ, zero, suc, ◌+◌, ◌*◌, ◌≤◌, ◌<◌}
use mathlib.Core.Path.{◌≡◌, refl}
use mathlib.Core.Logic.{◌⊎◌, inl, inr, ◌≢◌}
use native.Mathlib.Decide.{dec_lt, ℕ_discrete}
use native.Mathlib.Omega.{arith}
use posix_intro.Common.Tests.{Bool-cases, ◌==◌, if◌then◌else◌}

-- The family after thread `i` has moved to `p`.
abbrev pub move {ℓ} : {A : Type ℓ} → (ℕ → A) → ℕ → A → ℕ → A
move pcs i p j = if j == i then p else pcs j

-- What holds of every thread holds after one thread has moved to a place where it holds.
pub move_all {ℓ κ} :
    {A : Type ℓ} (P : A → Type κ) (pcs : ℕ → A) (i : ℕ) (p : A)
    → ((j : ℕ) → P (pcs j))
    → P p
    → (j : ℕ) → P (move pcs i p j)
move_all P pcs i p all here j = elim (Bool-cases (j == i)) [
  | inl e ↦ rw e here
  | inr e ↦ rw e (all j)
]

-- Two families that are related thread by thread stay so when one thread moves in both.
pub move_related {ℓ κ μ} :
    {A : Type ℓ} {B : Type κ} (R : A → B → Type μ) (f : ℕ → A) (g : ℕ → B) (i : ℕ) {a : A} {b : B}
    → ((j : ℕ) → R (f j) (g j))
    → R a b
    → (j : ℕ) → R (move f i a j) (move g i b j)
move_related R f g i all here j = elim (Bool-cases (j == i)) [
  | inl e ↦ rw e here
  | inr e ↦ rw e (all j)
]

module _ {ℓ} {A : Type ℓ} (weight : A → ℕ) where
  pub tally : ℕ → (ℕ → A) → ℕ
  tally zero pcs = 0
  tally (suc n) pcs = weight (pcs n) + tally n pcs

  tally-move_above :
      (n : ℕ) (pcs : ℕ → A) (i : ℕ) (p : A) → n ≤ i → tally n (move pcs i p) ≡ tally n pcs
  unfolding tally
  tally-move_above zero pcs i p h = refl
  tally-move_above (suc n) pcs i p h = ground (arith, tally-move_above n pcs i p)

  -- What one move does to the sum.
  pub tally-move :
      (n : ℕ) (pcs : ℕ → A) (i : ℕ) (p : A)
      → i < n
      → tally n (move pcs i p) + weight (pcs i) ≡ tally n pcs + weight p
  unfolding tally
  tally-move zero pcs i p h = elim h [ ]
  tally-move (suc n) pcs i p h = elim (ℕ_discrete i n) [
    | yes last ↦ ground (arith, tally-move_above n pcs i p)
    | no below ↦ ground (arith, tally-move n pcs i p)
  ]

  -- A thread's weight is part of the sum, and two threads' weights are.
  pub weight-le-tally : (n : ℕ) (pcs : ℕ → A) (i : ℕ) → i < n → weight (pcs i) ≤ tally n pcs
  unfolding tally
  weight-le-tally zero pcs i h = elim h [ ]
  weight-le-tally (suc n) pcs i h = elim (ℕ_discrete i n) [
    | yes last ↦ ground arith
    | no below ↦ ground (arith, weight-le-tally n pcs i)
  ]

  pub two_weights-le-tally :
      (n : ℕ) (pcs : ℕ → A) (i j : ℕ)
      → i < n
      → j < n
      → i ≢ j
      → weight (pcs i) + weight (pcs j) ≤ tally n pcs
  unfolding tally
  two_weights-le-tally zero pcs i j hi hj ne = elim hi [ ]
  two_weights-le-tally (suc n) pcs i j hi hj ne = elim (ℕ_discrete i n) [
    | yes last ↦ ground (arith, weight-le-tally n pcs j)
    | no below ↦ elim (ℕ_discrete j n) [
      | yes last ↦ ground (arith, weight-le-tally n pcs i)
      | no both ↦ ground (arith, two_weights-le-tally n pcs i j)
    ]
  ]

  -- A family in which every thread has weight 0.
  pub tally-eq-zero : (n : ℕ) (pcs : ℕ → A) → ((i : ℕ) → weight (pcs i) ≡ 0) → tally n pcs ≡ 0
  unfolding tally
  tally-eq-zero zero pcs h = refl
  tally-eq-zero (suc n) pcs h = omega (arith, h n, tally-eq-zero n pcs h)

  -- Either some thread has a weight, or none has.
  pub tally-cases :
      (n : ℕ) (pcs : ℕ → A)
      → ((i : ℕ) × (i < n) × (0 < weight (pcs i))) ⊎ ((i : ℕ) → i < n → weight (pcs i) ≡ 0)
  tally-cases zero pcs = inr (λ i h. absurd (omega arith))
  tally-cases (suc n) pcs = elim (dec_lt 0 (weight (pcs n))) [
    | yes here ↦ inl (n, omega arith, here)
    | no light ↦ elim (tally-cases n pcs) [
      | inl (i, below, heavy) ↦ inl (i, omega arith, heavy)
      | inr none ↦
          inr (λ i h. elim (ℕ_discrete i n) [ yes e ↦ ground arith | no ne ↦ none i (omega arith) ])
    ]
  ]

  pub tally_of_light :
      (n : ℕ) (pcs : ℕ → A) → ((i : ℕ) → i < n → weight (pcs i) ≡ 0) → tally n pcs ≡ 0
  unfolding tally
  tally_of_light zero pcs h = refl
  tally_of_light (suc n) pcs h =
      omega (arith, h n (omega arith), tally_of_light n pcs (λ i lt. h i (omega arith)))

  pub tally_of_const :
      (n c : ℕ) (pcs : ℕ → A) → ((i : ℕ) → i < n → weight (pcs i) ≡ c) → tally n pcs ≡ n * c
  unfolding tally
  tally_of_const zero c pcs h = omega arith
  tally_of_const (suc n) c pcs h =
      omega (arith, h n (omega arith), tally_of_const n c pcs (λ i lt. h i (omega arith)))
