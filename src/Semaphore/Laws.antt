-- ===== src/Semaphore/Laws.antt =====
-- What the calls of posix_semaphore.h do to a semaphore's value.
use posix_intro.Common.{
  ℕ, zero, suc, ◌+◌, ◌<◌, ◌≡◌, refl, true, false, some, List, [], ◌∷◌, ◌++◌, arith, All, ==_iff,
  replicate,
}
use posix_intro.Semaphore.{
  SemaphoreApi, sem_value_max, Reply, acquired, failed, is_retried, after, rk_sema_wait,
  rk_sema_post, IsPermitted, Waits,
}

module _ (api : SemaphoreApi) where
  open api use {Sem, value, eintr}

  is_retried_of_failed : (e : ℕ) → e ≡ eintr → is_retried api (failed e) ≡ true
  unfolding is_retried
  is_retried_of_failed e h = ground (arith, ==_iff e eintr)

  -- With the replies that POSIX allows, `rk_sema_wait` returns only from a positive value, and
  -- has then taken exactly one unit, however often it was interrupted.
  pub rk_sema_wait-takes_one :
      (s t : Sem) (replies : List Reply)
      → All (IsPermitted api s) replies
      → rk_sema_wait api replies s ≡ some t
      → (0 < value s) × (value t + 1 ≡ value s)
  unfolding rk_sema_wait
  rk_sema_wait-takes_one s t [] ok e = absurd (cc)
  rk_sema_wait-takes_one s t (acquired ∷ rs) ok e = ground (arith, api.value-sem_take s ok.0)
  rk_sema_wait-takes_one s t (failed errno ∷ rs) ok e =
      rk_sema_wait-takes_one s t rs ok.1 (rw (is_retried_of_failed errno ok.0) at e)

  -- Any number of interruptions delays `rk_sema_wait` and changes nothing: it returns at the first
  -- other reply, with what that reply leaves, and reads no further one.
  pub rk_sema_wait-interrupted :
      (n : ℕ) (r : Reply) (rs : List Reply) (s : Sem)
      → is_retried api r ≡ false
      → rk_sema_wait api (replicate n (failed eintr) ++ r ∷ rs) s ≡ some (after api r s)
  unfolding rk_sema_wait
  rk_sema_wait-interrupted zero r rs s h = rw h
  rk_sema_wait-interrupted (suc n) r rs s h =
      rw (is_retried_of_failed eintr refl) (rk_sema_wait-interrupted n r rs s h)

  -- A wait that can return takes one unit.
  pub Waits-value : {s t : Sem} → Waits api s t → (0 < value s) × (value t + 1 ≡ value s)
  Waits-value {s} {t} w = rk_sema_wait-takes_one s t w.replies w.permitted w.returned

  -- A positive semaphore does not block: a wait on it can return.
  pub Waits-of_pos : (s : Sem) → 0 < value s → Waits api s (api.sem_take s)
  unfolding rk_sema_wait
  Waits-of_pos s h = record { replies = acquired ∷ []; permitted = (h, tt); returned = refl }

  pub value-rk_sema_post :
      (s : Sem) → value s < sem_value_max → value (rk_sema_post api s) ≡ value s + 1
  unfolding rk_sema_post
  value-rk_sema_post s h = api.value-sem_post s h
