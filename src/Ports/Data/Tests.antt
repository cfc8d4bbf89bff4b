-- ===== src/Ports/Data/Tests.antt =====
-- The three calls of `get_total` in cpp/cc_lab02_a.cc.
use posix_intro.Common.{ℕ, ◌≡◌, refl, [], ◌∷◌, replicate, pos, some}
use posix_intro.Common.Outcome.{ok}
use posix_intro.Multiply
use posix_intro.Ports.Data.{make, calls}
use posix_intro.Ports.Data.Cached.{calls-same_total}

calls-same_total_test :
    (total : ℕ) × (Multiply.main (pos 0) (pos 0) ≡ ok (some total))
    × (calls 3 make ≡ replicate 3 total)
calls-same_total_test = calls-same_total 3

three_calls : calls 3 make ≡ 166375 ∷ 166375 ∷ 166375 ∷ []
unfolding calls
three_calls = refl
