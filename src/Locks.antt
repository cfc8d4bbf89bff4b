-- ===== src/Locks.antt =====
-- What the programs with one lock need of it, as an interface, and its two implementations: a mutex
-- of <pthread.h> (c/c_lab03_a.c, c/c_lab03_b.c, c/c_lab04.c) and a binary semaphore through
-- c/include/posix_semaphore.h (c/c_lab06.c).
use posix_intro.Common.{ℕ, ◌+◌, ◌<◌, ◌≡◌, refl, Bool, true, false, if◌then◌else◌, arith}
use posix_intro.Semaphore.{SemaphoreApi, rk_sema_post, Waits}
use posix_intro.Semaphore.Laws.{Waits-value, Waits-of_pos, value-rk_sema_post}

pub record Lock : Type 1 where
  pub State : Type 0
  -- How many threads could enter now.
  pub units : State → ℕ
  -- A wait can return on the first state and leave the second.
  pub Takes : State → State → Type 0
  pub gives : State → State
  pub Takes-units : {s t : State} → Takes s t → (0 < units s) × (units t + 1 ≡ units s)
  pub Takes-of_pos : (s : State) → 0 < units s → (t : State) × Takes s t
  pub units-gives : (s : State) → units s ≡ 0 → units (gives s) ≡ 1

-- A mutex of <pthread.h>: PTHREAD_MUTEX_INITIALIZER, and what `pthread_mutex_lock` leaves when it
-- returns, which it does on an unlocked mutex, and `pthread_mutex_unlock`.
pub record MutexApi : Type 1 where
  pub Mutex : Type 0
  pub initializer : Mutex
  pub is_locked : Mutex → Bool
  pub locked : Mutex → Mutex
  pub unlocked : Mutex → Mutex
  pub is_locked-initializer : is_locked initializer ≡ false
  pub is_locked-locked : (m : Mutex) → is_locked m ≡ false → is_locked (locked m) ≡ true
  pub is_locked-unlocked : (m : Mutex) → is_locked m ≡ true → is_locked (unlocked m) ≡ false

module _ (api : MutexApi) where
  open api use {Mutex, is_locked, locked, unlocked}

  abbrev pub mutex_units : Mutex → ℕ
  mutex_units m = if is_locked m then 0 else 1

  abbrev pub MutexTakes : Mutex → Mutex → Type 0
  MutexTakes s t = (is_locked s ≡ false) × (t ≡ locked s)

  pub MutexTakes-units :
      {s t : Mutex} → MutexTakes s t → (0 < mutex_units s) × (mutex_units t + 1 ≡ mutex_units s)
  MutexTakes-units {s} {t} w = ground (arith, api.is_locked-locked s)

  pub MutexTakes-of_pos : (s : Mutex) → 0 < mutex_units s → (t : Mutex) × MutexTakes s t
  MutexTakes-of_pos s h = (locked s, (ground arith, refl))

  pub mutex_units-unlocked : (s : Mutex) → mutex_units s ≡ 0 → mutex_units (unlocked s) ≡ 1
  mutex_units-unlocked s h = ground (arith, api.is_locked-unlocked s)

  abbrev pub mutex_lock : Lock
  mutex_lock = record {
    State = Mutex;
    units = mutex_units;
    Takes = MutexTakes;
    gives = unlocked;
    Takes-units = MutexTakes-units;
    Takes-of_pos = MutexTakes-of_pos;
    units-gives = mutex_units-unlocked;
  }

module _ (api : SemaphoreApi) where
  pub semaphore-gives : (s : api.Sem) → api.value s ≡ 0 → api.value (rk_sema_post api s) ≡ 1
  semaphore-gives s h = omega (arith, value-rk_sema_post api s)

  pub semaphore-takes : (s : api.Sem) → 0 < api.value s → (t : api.Sem) × Waits api s t
  semaphore-takes s h = (api.sem_take s, Waits-of_pos api s h)

  abbrev pub semaphore_lock : Lock
  semaphore_lock = record {
    State = api.Sem;
    units = api.value;
    Takes = Waits api;
    gives = rk_sema_post api;
    Takes-units = Waits-value api;
    Takes-of_pos = semaphore-takes;
    units-gives = semaphore-gives;
  }

-- A mutex that is just its flag, for the tests.
abbrev pub flag_mutex : MutexApi
flag_mutex = record {
  Mutex = Bool;
  initializer = false;
  is_locked = λ m. m;
  locked = λ m. true;
  unlocked = λ m. false;
  is_locked-initializer = refl;
  is_locked-locked = λ m h. refl;
  is_locked-unlocked = λ m h. refl;
}
