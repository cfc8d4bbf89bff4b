-- ===== src/Multiply.antt =====
-- c/c_lab02_a.c: a thread that adds up the products of three ranges. `data_s` holds int32_t values;
-- a, b and c are taken as not negative (a negative bound means no round, as 0 does). A loop whose
-- counter passes INT32_MAX has no result. The sum and
-- the products are bit patterns of 32 bits, which is how the machine wraps a sum that does not fit
-- (in C such an overflow is undefined; below 2 ^ 31 the pattern is the number).
pub mod Closed
mod Tests
use mathlib.Core.Option.{map}
use posix_intro.Common.{
  ◌==◌, Option, none, some, ℕ, zero, suc, ◌+◌, ◌*◌, ◌%◌, ◌^◌, ℤ, pos, if◌then◌else◌, eq_ℤ,
}
use posix_intro.Common.Outcome.{Outcome, ok, exits, ◌>>=◌}

abbrev pub int32_mod : ℕ
int32_mod = 2 ^ 32

-- `data_s`
pub record Sum : Type 0 where
  pub a : ℕ
  pub b : ℕ
  pub c : ℕ
  pub total : ℕ

-- INT32_MAX
abbrev pub int32_max : ℕ
int32_max = 2147483647

-- `i++` on an int32_t: `none` where it overflows, which C does not define.
pub next : ℕ → Option ℕ
next i = if i == int32_max then none else some (i + 1)

-- The loops of `calculate` over k, over j and over i, to the total behind them; the first argument
-- counts the rounds left.
pub loop_k : ℕ → ℕ → ℕ → ℕ → ℕ → Option ℕ
loop_k zero k i j total = some total
loop_k (suc n) k i j total = elim (next k) [
  | none ↦ none
  | some k' ↦ loop_k n k' i j ((total + i * j % int32_mod * k % int32_mod) % int32_mod)
]

pub loop_j : ℕ → ℕ → ℕ → ℕ → ℕ → Option ℕ
loop_j zero j i c total = some total
loop_j (suc n) j i c total = elim (loop_k c 1 i j total) [
  | none ↦ none
  | some total' ↦ elim (next j) [ none ↦ none | some j' ↦ loop_j n j' i c total' ]
]

pub loop_i : ℕ → ℕ → ℕ → ℕ → ℕ → Option ℕ
loop_i zero i b c total = some total
loop_i (suc n) i b c total = elim (loop_j b 1 i c total) [
  | none ↦ none
  | some total' ↦ elim (next i) [ none ↦ none | some i' ↦ loop_i n i' b c total' ]
]

-- `calculate`
pub calculate : Sum → Option Sum
calculate d = map (λ t. record d { total = t }) (loop_i d.a 1 d.b d.c d.total)

-- What `main` stores before it creates the thread.
abbrev pub main_data : Sum
main_data = record { a = 10; b = 10; c = 10; total = 0 }

-- `create_thread` and `wait_thread`, given what `pthread_create` and `pthread_join` return.
pub create_thread : ℤ → Outcome (Unit {0})
create_thread code = if eq_ℤ code (pos 0) then ok tt else exits "Can't create thread t"

pub wait_thread : ℤ → Outcome (Unit {0})
wait_thread code = if eq_ℤ code (pos 0) then ok tt else exits "Can't join thread t"

-- `main` up to its output: the number that it prints, or `none` where `calculate` overflows. The thread
-- runs between the two calls.
pub main : ℤ → ℤ → Outcome (Option ℕ)
main created joined = do
  started ← create_thread created
  let d = calculate main_data
  done ← wait_thread joined
  ok (map (λ s. s.total) d)
