-- ===== src/Semaphore/Counting.antt =====
-- A model of <semaphore.h> for the tests: a semaphore is its value. It shows that the laws of
-- SemaphoreApi can hold together.
use posix_intro.Common.{ℕ, ◌+◌, ◌-◌, ◌<◌, ◌≡◌, refl, true, some, arith}
use posix_intro.Semaphore.{SemaphoreApi}

pub counting-sem_take : (s : ℕ) → 0 < s → s - 1 + 1 ≡ s
counting-sem_take s h = omega arith

abbrev pub counting : SemaphoreApi
counting = record {
  Sem = ℕ;
  zeroed = 0;
  value = λ s. s;
  sem_init = λ shared n. some n;
  sem_take = λ s. s - 1;
  sem_post = λ s. s + 1;
  sem_destroy = λ s. true;
  eintr = 4;
  sem_init_succeeds = λ n h. (n, refl, refl);
  value-sem_take = counting-sem_take;
  value-sem_post = λ s h. refl;
}
