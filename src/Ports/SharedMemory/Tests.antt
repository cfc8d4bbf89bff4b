-- ===== src/Ports/SharedMemory/Tests.antt =====
-- A run of the C++ writer and reader over Semaphore.Counting, and the theorem on it.
use posix_intro.Common.{ℕ, ◌≡◌, refl, none, some, [], ◌∷◌, arith}
use posix_intro.Semaphore.Counting.{counting}
use posix_intro.SharedMemory.{quiet, typed, sent, SemOpen}
use posix_intro.SharedMemory as C
use posix_intro.Ports.SharedMemory.{
  construct, init_sem, make_write, semaphore_exception, System, Step, Runs,
}

some_inj : (n : ℕ) {s : ℕ} → some n ≡ some s → s ≡ n
some_inj n e = ground arith

abbrev by_name : SemOpen counting
by_name = record {
  existing = λ name. none;
  create = λ name n. some n;
  create-existing = λ name n e h. absurd cc;
  value-create = λ name n e h. some_inj n h;
}

-- The reader opens, and the writer hands over an 'h' that the reader takes.
one_sent :
    (t : System counting by_name) × Runs counting by_name
      (quiet ∷ quiet ∷ typed b'h' ∷ sent b'h' ∷ quiet ∷ [])
      t
unfolding make_write construct init_sem
one_sent =
    let r0 = Runs.start {fd = 3} {room = 4096} (some 3) (λ i. 0) (omega arith) refl in
    let r1 = Runs.later r0 (Step.opens refl) in
    let r2 = Runs.later r1 (Step.takes refl (omega arith)) in
    let r3 = Runs.later r2 (Step.types b'h' refl (omega arith)) in
    let r4 = Runs.later r3 (Step.hands_over refl) in
    (_, Runs.later r4 (Step.receives refl (omega arith)))

no_semaphore : construct {Sem = ℕ} (some 0) none (some 3) ≡ semaphore_exception
unfolding construct
no_semaphore = refl
