-- ===== src/SharedMemory/Invariant.antt =====
-- What holds in every reachable state of the writer and the reader.
use posix_intro.Common.{ℕ, ◌+◌, ◌≤◌, ◌≡◌, Bool, true, false, List, arith, ◌==◌, if◌then◌else◌}
use posix_intro.Common.Outcome.{ok}
use posix_intro.Semaphore.{SemaphoreApi}
use posix_intro.SharedMemory.{
  sem_one_name, sem_two_name, end_char, Writer, greeted, greets, waits, reads, checks, posts, tests,
  ended, faulted, Reader, opening, waiting, printing, posting, testing, finished, Event, SemOpen,
  init_semaphores, NamesFree, System, Step, meets, passes_on, takes, types, faults, checks_running,
  hands_over, tests_end, opens, receives, prints, allows, compares, handles, breaks_meeting,
  breaks_wait, start_system, Runs, start, later,
}

-- 1 for a process that holds a unit.
abbrev pub holds : Writer → ℕ
holds greets = 1
holds (reads _) = 1
holds (checks _) = 1
holds (posts _) = 1
holds (faulted _) = 1
holds _ = 0

abbrev pub has : Reader → ℕ
has opening = 1
has (printing _) = 1
has (posting _) = 1
has _ = 0

-- How many characters are handed over, taken and printed.
abbrev pub sent_count : Writer → ℕ
sent_count (waits i) = i
sent_count (reads i) = i
sent_count (checks i) = i
sent_count (posts i) = i
sent_count (tests i) = i + 1
sent_count (ended i) = i + 1
sent_count (faulted i) = i
sent_count _ = 0

abbrev pub taken_count : Reader → ℕ
taken_count opening = 0
taken_count (waiting i) = i
taken_count (printing i) = i + 1
taken_count (posting i) = i + 1
taken_count (testing i) = i + 1
taken_count (finished i) = i + 1

abbrev pub printed_count : Reader → ℕ
printed_count opening = 0
printed_count (waiting i) = i
printed_count (printing i) = i
printed_count (posting i) = i + 1
printed_count (testing i) = i + 1
printed_count (finished i) = i + 1

-- The units that there may be: one, and after a SIGINT one more for each wait that it broke off,
-- which is only before the last round.
abbrev allowed : Bool → (ℕ → ℕ) → Writer → ℕ
allowed true memory w = 1
allowed false memory greeted = 1
allowed false memory greets = 2
allowed false memory (waits i) = 2
allowed false memory (reads i) = 3
allowed false memory (checks i) = 3
allowed false memory (posts i) = if memory i == end_char then 3 else 1
allowed false memory (tests i) = if memory i == end_char then 3 else 1
allowed false memory (ended i) = 3
allowed false memory (faulted i) = 3

allowed_le : (running : Bool) (memory : ℕ → ℕ) (w : Writer) → allowed running memory w ≤ 3
allowed_le true memory w = omega arith
allowed_le false memory (posts i) = ground arith
allowed_le false memory (tests i) = ground arith
allowed_le false memory w = omega arith

module _ (api : SemaphoreApi) (named : SemOpen api) where
  open api use {value}

  pub record Inv (s : System api named) : Type 0 where
    pub some_unit : 1 ≤ value s.one + value s.two + holds s.writer + has s.reader
    pub few_units :
        value s.one + value s.two + holds s.writer + has s.reader
        ≤ allowed s.running s.memory s.writer
    pub counted : value s.two + taken_count s.reader ≡ sent_count s.writer

  pub few :
      (s : System api named) → Inv s → value s.one + value s.two + holds s.writer + has s.reader ≤ 3
  few s inv = omega (arith, allowed_le s.running s.memory s.writer, inv.few_units)

  start-Inv :
      {one two : api.Sem} (room : ℕ) (memory : ℕ → ℕ)
      → NamesFree api named
      → init_semaphores api named ≡ ok (one, two)
      → Inv (start_system api named one two room memory)
  unfolding init_semaphores
  start-Inv {one} {two} room memory free e = ground (
    arith,
    named.value-create sem_one_name 0 {s = one} free.0,
    named.value-create sem_two_name 0 {s = two} free.1,
  )

  Step-Inv : {e : Event} {s t : System api named} → Step api named s e t → Inv s → Inv t
  Step-Inv {s = s} (meets at h) inv = ground (arith, api.value-sem_take s.one)
  Step-Inv {s = s} (passes_on at) inv = ground (arith, api.value-sem_post s.one, few s inv)
  Step-Inv {s = s} (takes at h) inv = ground (arith, api.value-sem_take s.one)
  Step-Inv {s = s} (types c at lt) inv = ground arith
  Step-Inv {s = s} (faults at ge) inv = ground arith
  Step-Inv {s = s} (checks_running at) inv = ground arith
  Step-Inv {s = s} (hands_over at) inv = ground (arith, api.value-sem_post s.two)
  Step-Inv {s = s} (tests_end at) inv = ground arith
  Step-Inv {s = s} (opens at) inv = ground (arith, api.value-sem_post s.one, few s inv)
  Step-Inv {s = s} (receives at h) inv = ground (arith, api.value-sem_take s.two)
  Step-Inv {s = s} (prints at) inv = ground arith
  Step-Inv {s = s} (allows at) inv = ground (arith, api.value-sem_post s.one, few s inv)
  Step-Inv {s = s} (compares at) inv = ground arith
  Step-Inv {s = s} handles inv = ground arith
  Step-Inv {s = s} (breaks_meeting at) inv = ground arith
  Step-Inv {s = s} (breaks_wait at) inv = ground arith

  pub Runs-Inv :
      {es : List Event} {s : System api named} → NamesFree api named → Runs api named es s → Inv s
  Runs-Inv free (start {room} memory le e) = start-Inv room memory free e
  Runs-Inv free (later r st) = Step-Inv st (Runs-Inv free r)
