-- ===== src/Multiply/Closed.antt =====
-- The sum of c/c_lab02_a.c in closed form.
use native.Mathlib.Nat.{add-mul-mod_self_right, div-add-mod'}
use mathlib.Core.Option.{map}
use posix_intro.Common.{
  ◌≤◌, ◌<◌, none, some, Option-cases, inl, inr, ℕ_discrete, ℕ, zero, suc, ◌+◌, ◌*◌, ◌/◌, ◌%◌, ◌≡◌,
  refl, ap, sym, arith, ℤ, pos, eq_ℤ_ne, ◌≢◌,
}
use posix_intro.Common.Outcome.{ok, exits}
use posix_intro.Multiply.{
  int32_mod, int32_max, next, Sum, loop_k, loop_j, loop_i, calculate, main_data, create_thread,
  wait_thread, main,
}

-- from + (from + 1) + … over `n` terms.
pub range_sum : ℕ → ℕ → ℕ
range_sum from zero = 0
range_sum from (suc n) = from + range_sum (from + 1) n

range_sum_lem : (n from : ℕ) → 2 * range_sum from n + n ≡ 2 * (n * from) + n * n
unfolding range_sum
range_sum_lem zero from = omega arith
range_sum_lem (suc n) from = omega (arith, range_sum_lem n (from + 1))

-- The sum of 1 to `n`.
pub triangle : ℕ → ℕ
triangle n = n * (n + 1) / 2

range_sum-eq-triangle : (n : ℕ) → range_sum 1 n ≡ triangle n
unfolding triangle
range_sum-eq-triangle n = omega (arith, range_sum_lem n 1)

-- A product of a wrapped factor, wrapped.
mul-mod_left : (x k : ℕ) → x % int32_mod * k % int32_mod ≡ x * k % int32_mod
mul-mod_left x k =
    let whole : x / int32_mod * int32_mod + x % int32_mod ≡ x = div-add-mod' x int32_mod in
    let parts : x * k ≡ x % int32_mod * k + x / int32_mod * k * int32_mod =
      omega (arith, ap (λ (t : ℕ). t * k) whole) in
    rw parts (sym (add-mul-mod_self_right (x % int32_mod * k) (x / int32_mod * k) int32_mod))

-- The totals without the counters.
rounds_k : ℕ → ℕ → ℕ → ℕ → ℕ → ℕ
rounds_k zero k i j total = total
rounds_k (suc n) k i j total =
    rounds_k n (k + 1) i j ((total + i * j % int32_mod * k % int32_mod) % int32_mod)

rounds_j : ℕ → ℕ → ℕ → ℕ → ℕ → ℕ
rounds_j zero j i c total = total
rounds_j (suc n) j i c total = rounds_j n (j + 1) i c (rounds_k c 1 i j total)

rounds_i : ℕ → ℕ → ℕ → ℕ → ℕ → ℕ
rounds_i zero i b c total = total
rounds_i (suc n) i b c total = rounds_i n (i + 1) b c (rounds_j b 1 i c total)

next_lem : (i : ℕ) → i < int32_max → next i ≡ some (i + 1)
unfolding next
next_lem i h = ground arith

next_max : (i : ℕ) → i ≡ int32_max → next i ≡ none
unfolding next
next_max i h = ground arith

-- A loop whose counter stays below INT32_MAX gives the total.
loop_k_lem :
    (n k i j total : ℕ) → k + n ≤ int32_max → loop_k n k i j total ≡ some (rounds_k n k i j total)
unfolding loop_k rounds_k
loop_k_lem zero k i j total h = refl
loop_k_lem (suc n) k i j total h =
    rw (loop_k, next_lem k (omega arith))
      (loop_k_lem n (k + 1) i j ((total + i * j % int32_mod * k % int32_mod) % int32_mod)
        (omega arith))

loop_j_lem :
    (n j i c total : ℕ)
    → j + n ≤ int32_max
    → c < int32_max
    → loop_j n j i c total ≡ some (rounds_j n j i c total)
unfolding loop_j rounds_j
loop_j_lem zero j i c total h hc = refl
loop_j_lem (suc n) j i c total h hc =
    rw (loop_j, loop_k_lem c 1 i j total (omega arith), next_lem j (omega arith))
      (loop_j_lem n (j + 1) i c (rounds_k c 1 i j total) (omega arith) hc)

loop_i_lem :
    (n i b c total : ℕ)
    → i + n ≤ int32_max
    → b < int32_max
    → c < int32_max
    → loop_i n i b c total ≡ some (rounds_i n i b c total)
unfolding loop_i rounds_i
loop_i_lem zero i b c total h hb hc = refl
loop_i_lem (suc n) i b c total h hb hc =
    rw (loop_i, loop_j_lem b 1 i c total (omega arith) hc, next_lem i (omega arith))
      (loop_i_lem n (i + 1) b c (rounds_j b 1 i c total) (omega arith) hb hc)

-- Where the bound of the outer loop is INT32_MAX, its counter overflows.
loop_i_overflows : (n i b c total : ℕ) → 0 < n → i + n ≡ int32_max + 1 → loop_i n i b c total ≡ none
unfolding loop_i
loop_i_overflows zero i b c total more h = elim more [ ]
loop_i_overflows (suc n) i b c total more h = elim (Option-cases (loop_j b 1 i c total)) [
  | inl stuck ↦ rw (loop_i, stuck) refl
  | inr (t, got) ↦ elim (ℕ_discrete n 0) [
    | yes last ↦ rw (loop_i, got, next_max i (omega arith)) refl
    | no further ↦
        rw (loop_i, got, next_lem i (omega arith))
          (loop_i_overflows n (i + 1) b c t (omega arith) (omega arith))
  ]
]

rounds_k_lem :
    (n k i j total : ℕ)
    → rounds_k n k i j total % int32_mod ≡ (total + i * j * range_sum k n) % int32_mod
unfolding rounds_k range_sum
rounds_k_lem zero k i j total = ap (λ t. t % int32_mod) (omega arith)
rounds_k_lem (suc n) k i j total =
    let rest =
      rounds_k_lem n (k + 1) i j ((total + i * j % int32_mod * k % int32_mod) % int32_mod) in
    omega (arith, rest, mul-mod_left (i * j) k)

rounds_j_lem :
    (n j i c total : ℕ)
    → rounds_j n j i c total % int32_mod ≡ (total + i * range_sum j n * range_sum 1 c) % int32_mod
unfolding rounds_j range_sum
rounds_j_lem zero j i c total = ap (λ t. t % int32_mod) (omega arith)
rounds_j_lem (suc n) j i c total =
    omega (arith, rounds_j_lem n (j + 1) i c (rounds_k c 1 i j total), rounds_k_lem c 1 i j total)

rounds_i_lem :
    (n i b c total : ℕ)
    → rounds_i n i b c total % int32_mod
      ≡ (total + range_sum i n * range_sum 1 b * range_sum 1 c) % int32_mod
unfolding rounds_i range_sum
rounds_i_lem zero i b c total = ap (λ t. t % int32_mod) (omega arith)
rounds_i_lem (suc n) i b c total =
    omega (arith, rounds_i_lem n (i + 1) b c (rounds_j b 1 i c total), rounds_j_lem b 1 i c total)

-- For any bounds below INT32_MAX, calculate returns, leaves the bounds alone, and adds to the total
-- the product of the sums 1 + … + a, 1 + … + b and 1 + … + c, modulo 2 ^ 32; where the bound a is
-- INT32_MAX, a counter overflows, whatever the other bounds are.
pub calculate-closed :
    (d : Sum)
    → (d.a < int32_max
        → d.b < int32_max
        → d.c < int32_max
        → (t : ℕ) × (calculate d ≡ some (record d { total = t }))
          × (t % int32_mod ≡ (d.total + triangle d.a * triangle d.b * triangle d.c) % int32_mod))
      × (d.a ≡ int32_max → calculate d ≡ none)
unfolding calculate
calculate-closed d = (
  λ ha hb hc. (
    rounds_i d.a 1 d.b d.c d.total,
    rw (loop_i_lem d.a 1 d.b d.c d.total (omega arith) hb hc) refl,
    rw (← range_sum-eq-triangle d.a, ← range_sum-eq-triangle d.b, ← range_sum-eq-triangle d.c)
        (rounds_i_lem d.a 1 d.b d.c d.total),
  ),
  λ e. rw (loop_i_overflows d.a 1 d.b d.c d.total (omega arith) (omega arith)) refl,
)

main_total : map (λ s. s.total) (calculate main_data) ≡ some 166375
unfolding calculate loop_i loop_j loop_k next
main_total = refl

-- `main` prints 166375, which is 55 * 55 * 55, where both calls on the thread return 0, and
-- otherwise exits with the message of the first that does not.
pub main-cases :
    (created joined : ℤ)
    → (created ≡ pos 0 → joined ≡ pos 0 → main created joined ≡ ok (some 166375))
      × (created ≢ pos 0 → main created joined ≡ exits "Can't create thread t")
      × (created ≡ pos 0 → joined ≢ pos 0 → main created joined ≡ exits "Can't join thread t")
unfolding main create_thread wait_thread
main-cases created joined = (
  λ c j. rw (c, j, main_total) refl,
  λ c. rw (eq_ℤ_ne created (pos 0) c) refl,
  λ c j. rw (c, eq_ℤ_ne joined (pos 0) j) refl,
)
