-- ===== src/Semaphore.antt =====
-- c/include/posix_semaphore.h, as built on Linux (`__APPLE__` not defined): the wrapper `rk_sema`
-- over the semaphores of <semaphore.h>. Those are not the repository's code: they are the record
-- SemaphoreApi, whose laws are the documented ones, and every definition takes it as a parameter.
pub mod Laws
pub mod Counting
mod Tests
use posix_intro.Common.{
  ℕ, ◌+◌, ◌≤◌, ◌<◌, ◌≡◌, Bool, true, false, Option, none, some, List, [], ◌∷◌, ◌==◌, if◌then◌else◌,
  All,
}

-- _POSIX_SEM_VALUE_MAX, the least SEM_VALUE_MAX that POSIX allows.
abbrev pub sem_value_max : ℕ
sem_value_max = 32767

-- A semaphore of <semaphore.h>, the value that it counts, and the calls on it.
pub record SemaphoreApi : Type 1 where
  pub Sem : Type 0
  -- The content of a `sem_t` with static storage that is not yet initialised.
  pub zeroed : Sem
  pub value : Sem → ℕ
  -- `sem_init(s, shared, value)`: `none` for -1, and otherwise the semaphore.
  pub sem_init : ℕ → ℕ → Option Sem
  -- What `sem_wait` leaves when it returns 0.
  pub sem_take : Sem → Sem
  pub sem_post : Sem → Sem
  -- Whether `sem_destroy` returns 0.
  pub sem_destroy : Sem → Bool
  -- The value of EINTR in <errno.h>.
  pub eintr : ℕ
  pub sem_init_succeeds :
      (n : ℕ) → n ≤ sem_value_max → (s : Sem) × (sem_init 0 n ≡ some s) × (value s ≡ n)
  pub value-sem_take : (s : Sem) → 0 < value s → value (sem_take s) + 1 ≡ value s
  pub value-sem_post : (s : Sem) → value s < sem_value_max → value (sem_post s) ≡ value s + 1

-- How one call of `sem_wait` returns: with 0, or with -1 and this `errno`.
pub data Reply : Type 0 where
  acquired : Reply
  failed : (errno : ℕ) → Reply

module _ (api : SemaphoreApi) where
  open api use {Sem, value, sem_init, sem_take, sem_post, sem_destroy, eintr}

  -- `rk_sema_init`: `none` where it returns -1.
  unfoldable pub rk_sema_init : ℕ → ℕ → Option Sem
  rk_sema_init shared value = sem_init shared value

  -- The condition of the loop in `rk_sema_wait`.
  pub is_retried : Reply → Bool
  is_retried acquired = false
  is_retried (failed errno) = errno == eintr

  -- What a call of `sem_wait` with this reply does to the semaphore.
  pub after : Reply → Sem → Sem
  after acquired s = sem_take s
  after (failed errno) s = s

  -- `rk_sema_wait`, given how its calls of `sem_wait` return, in order. `none` means that the last
  -- call has not returned yet: the thread is blocked.
  pub rk_sema_wait : List Reply → Sem → Option Sem
  unfolding is_retried after
  rk_sema_wait [] s = none
  rk_sema_wait (r ∷ rs) s =
      let again = rk_sema_wait rs s in if is_retried r then again else some (after r s)

  -- `rk_sema_post`
  unfoldable pub rk_sema_post : Sem → Sem
  rk_sema_post s = sem_post s

  -- Whether `rk_sema_destroy` returns 0.
  unfoldable pub rk_sema_destroy : Sem → Bool
  rk_sema_destroy s = sem_destroy s

  -- The replies that POSIX allows on an initialised semaphore: 0 only when there is a unit to
  -- take, and no error but the interruption by a signal.
  abbrev pub IsPermitted : Sem → Reply → Type 0
  IsPermitted s acquired = 0 < value s
  IsPermitted s (failed errno) = errno ≡ eintr

  -- `rk_sema_wait` can return on `s` and leave `t`.
  pub record Waits (s t : Sem) : Type 0 where
    pub replies : List Reply
    pub permitted : All (IsPermitted s) replies
    pub returned : rk_sema_wait replies s ≡ some t
