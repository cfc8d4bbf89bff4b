-- ===== src/Ports/Data/Cached.antt =====
-- The value that cpp/cc_lab02_a.cc keeps.
use posix_intro.Common.{
  arith, ℕ, zero, suc, ◌≡◌, refl, ap, ◌∙◌, true, [], ◌∷◌, replicate, pos, some,
}
use posix_intro.Common.Outcome.{ok}
use posix_intro.Multiply
use posix_intro.Multiply.Closed.{main-cases}
use posix_intro.Ports.Data.{Data, make, get_total, calls}

get_total_cached : (d : Data) → d.is_cached ≡ true → get_total d ≡ (d, d.total)
unfolding get_total
get_total_cached d h = ground arith

-- Behind a call the object is cached, with the value that was returned.
get_total_caches :
    (d : Data) → ((get_total d).0.is_cached ≡ true) × ((get_total d).0.total ≡ (get_total d).1)
unfolding get_total
get_total_caches d = ground arith

calls-suc : (n : ℕ) (d : Data) → calls (suc n) d ≡ (get_total d).1 ∷ calls n (get_total d).0
unfolding calls
calls-suc n d = refl

calls-zero : (d : Data) → calls zero d ≡ []
unfolding calls
calls-zero d = refl

calls_cached : (n : ℕ) (d : Data) → d.is_cached ≡ true → calls n d ≡ replicate n d.total
calls_cached zero d h = calls-zero d
calls_cached (suc n) d h =
    calls-suc n d ∙ rw (get_total_cached d h) (ap (λ xs. d.total ∷ xs) (calls_cached n d h))

-- Whatever an object holds: every call returns what the first one returns, though only the first one
-- may calculate.
calls_same : (n : ℕ) (d : Data) → calls n d ≡ replicate n (get_total d).1
calls_same zero d = calls-zero d
calls_same (suc n) d =
    let (cached, same) = get_total_caches d in
    calls-suc n d
    ∙ ap (λ xs. (get_total d).1 ∷ xs) (calls_cached n (get_total d).0 cached ∙ rw same refl)

first_total : (get_total make).1 ≡ 166375
unfolding get_total
first_total = refl

-- However often `get_total` is called, each call returns the number that `main` of the C program
-- prints where its thread calls succeed.
pub calls-same_total :
    (n : ℕ)
    → (total : ℕ) × (Multiply.main (pos 0) (pos 0) ≡ ok (some total))
      × (calls n make ≡ replicate n total)
calls-same_total n = (
  166375,
  (main-cases (pos 0) (pos 0)).0 refl refl,
  calls_same n make ∙ ap (replicate n) first_total,
)
