-- ===== src/Ports/Data.antt =====
-- cpp/cc_lab02_a.cc: the sums of products of task 2a in C++, kept once they are calculated. The
-- values are bit patterns of 64 bits. The thread and `main` call `get_total` one after the other:
-- `main` joins the thread before its own calls.
pub mod Cached
mod Tests
use posix_intro.Common.{
  ℕ, zero, suc, ◌+◌, ◌*◌, ◌%◌, ◌^◌, Bool, true, false, List, [], ◌∷◌, if◌then◌else◌,
}

abbrev pub uint64_mod : ℕ
uint64_mod = 2 ^ 64

-- `Data`
pub record Data : Type 0 where
  pub a : ℕ
  pub b : ℕ
  pub c : ℕ
  pub total : ℕ
  pub is_cached : Bool

-- `Data::Data`
abbrev pub make : Data
make = record { a = 10; b = 10; c = 10; total = 0; is_cached = false }

-- The loops of `calculate` over k, over j and over i; the first argument counts the rounds left.
unfoldable pub loop_k : ℕ → ℕ → ℕ → ℕ → ℕ → ℕ
loop_k zero k i j total = total
loop_k (suc n) k i j total =
    loop_k n (k + 1) i j ((total + i * j % uint64_mod * k % uint64_mod) % uint64_mod)

unfoldable pub loop_j : ℕ → ℕ → ℕ → ℕ → ℕ → ℕ
loop_j zero j i c total = total
loop_j (suc n) j i c total = loop_j n (j + 1) i c (loop_k c 1 i j total)

unfoldable pub loop_i : ℕ → ℕ → ℕ → ℕ → ℕ → ℕ
loop_i zero i b c total = total
loop_i (suc n) i b c total = loop_i n (i + 1) b c (loop_j b 1 i c total)

-- `calculate`
unfoldable pub calculate : Data → Data
unfolding loop_i loop_j loop_k
calculate d = record d { total = loop_i d.a 1 d.b d.c d.total }

-- `get_total`: the object behind the call, and what it returns.
unfoldable pub get_total : Data → Data × ℕ
unfolding calculate
get_total d =
    let d' = if d.is_cached then d else record (calculate d) { is_cached = true } in (d', d'.total)

-- What a number of calls of `get_total` return, in order.
unfoldable pub calls : ℕ → Data → List ℕ
unfolding get_total
calls zero d = []
calls (suc n) d = (get_total d).1 ∷ calls n (get_total d).0
