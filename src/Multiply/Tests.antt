-- ===== src/Multiply/Tests.antt =====
-- The theorems on c/c_lab02_a.c at the values of `main`.
use posix_intro.Common.{◌≡◌, ◌≢◌, ℤ, pos, ◌+◌, ◌*◌, ◌%◌, ◌<◌, ℕ, none, some}
use posix_intro.Common.Outcome.{ok, exits}
use posix_intro.Multiply.{int32_mod, int32_max, calculate, main_data, main}
use posix_intro.Multiply.Closed.{triangle, calculate-closed, main-cases}

calculate-closed_example :
    (10 < int32_max
      → 10 < int32_max
      → 10 < int32_max
      → (t : ℕ) × (calculate main_data ≡ some (record main_data { total = t }))
        × (t % int32_mod ≡ (0 + triangle 10 * triangle 10 * triangle 10) % int32_mod))
    × (◌≡◌ {A = ℕ} 10 int32_max → calculate main_data ≡ none)
calculate-closed_example = calculate-closed main_data

main-cases_test :
    (◌≡◌ {A = ℤ} (pos 0) (pos 0)
      → ◌≡◌ {A = ℤ} (pos 11) (pos 0)
      → main (pos 0) (pos 11) ≡ ok (some 166375))
    × (◌≢◌ {A = ℤ} (pos 0) (pos 0) → main (pos 0) (pos 11) ≡ exits "Can't create thread t")
    × (◌≡◌ {A = ℤ} (pos 0) (pos 0)
        → ◌≢◌ {A = ℤ} (pos 11) (pos 0)
        → main (pos 0) (pos 11) ≡ exits "Can't join thread t")
main-cases_test = main-cases (pos 0) (pos 11)
