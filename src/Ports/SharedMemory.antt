-- ===== src/Ports/SharedMemory.antt =====
-- cpp/ipc/memory_based/shared_memory/shm.hh: the shared memory transfer of task 7 in C++, where the
-- writer does not wait for the reader before it starts, and no signal is handled.
pub mod Refinement
mod Tests
use Prim.Native.String.{String}
use posix_intro.Common.{
  whole_pages, ℕ, ◌+◌, ◌<◌, ◌≤◌, ◌≡◌, Bool, true, false, Option, none, some, List, [], ◌∷◌, ◌++◌,
  ◌==◌, if◌then◌else◌,
}
use posix_intro.Semaphore.{SemaphoreApi}
use posix_intro.SharedMemory.{Event, quiet, typed, sent, printed, SemOpen, put, end_char}

-- buff
abbrev pub buff : ℕ
buff = 255

-- Before which statement of `Write::run` the writer stands, with the index that `c` has come to;
-- `faulted` is what SIGSEGV or SIGBUS makes of it.
pub data Writer : Type 0 where
  waits reads posts tests ended faulted : (index : ℕ) → Writer

-- Before which statement of `Read::run` the reader stands.
pub data Reader : Type 0 where
  opening : Reader
  waiting printing posting testing finished : (index : ℕ) → Reader

-- What a constructor gives: the object with its semaphores and its file, or an exception.
pub data Built (Sem : Type 0) : Type 0 where
  built : (one two : Sem) → (fd : ℕ) → Built Sem
  semaphore_exception file_descriptor_exception : Built Sem

-- The tests of both constructors, given what `sem_open` and `open` return.
pub construct : {Sem : Type 0} → Option Sem → Option Sem → Option ℕ → Built Sem
construct (some one) (some two) (some fd) = built one two fd
construct (some one) (some two) none = file_descriptor_exception
construct (some one) none fd = semaphore_exception
construct none two fd = semaphore_exception

module _ (api : SemaphoreApi) (named : SemOpen api) where
  open api use {Sem, value, sem_take, sem_post}

  -- `init_sem`
  pub init_sem : String → Option Sem
  init_sem name = named.create name 0

  -- `Write::Write`, where `open` returns `fd`.
  pub make_write : Option ℕ → Built Sem
  unfolding construct init_sem
  make_write fd = construct (init_sem "one") (init_sem "two") fd

  -- No semaphore has either name before the writer starts.
  abbrev pub NamesFree : Type 0
  NamesFree = (named.existing "one" ≡ none) × (named.existing "two" ≡ none)

  -- What both processes share, with how many bytes of the mapping can be accessed, and where they
  -- stand.
  pub record System : Type 0 where
    pub one : Sem
    pub two : Sem
    pub room : ℕ
    pub memory : ℕ → ℕ
    pub writer : Writer
    pub reader : Reader

  -- One statement of `Write::run`, or of `Read::run`.
  pub data Step (s : System) : Event → System → Type 0 where
    takes :
        {i : ℕ}
        → s.writer ≡ waits i
        → 0 < value s.one
        → Step s quiet (record s { one = sem_take s.one; writer = reads i })
    types :
        {i : ℕ} (c : ℕ)
        → s.writer ≡ reads i
        → i < s.room
        → Step s (typed c) (record s { memory = put s.memory i c; writer = posts i })
    -- The character is lost.
    faults :
        {i : ℕ} → s.writer ≡ reads i → s.room ≤ i → Step s quiet (record s { writer = faulted i })
    hands_over :
        {i : ℕ}
        → s.writer ≡ posts i
        → Step s (sent (s.memory i)) (record s { two = sem_post s.two; writer = tests i })
    tests_end :
        {i : ℕ}
        → s.writer ≡ tests i
        → Step s quiet
            (record s { writer = if s.memory i == end_char then ended i else waits (i + 1) })
    opens :
        s.reader ≡ opening → Step s quiet (record s { one = sem_post s.one; reader = waiting 0 })
    receives :
        {i : ℕ}
        → s.reader ≡ waiting i
        → 0 < value s.two
        → Step s quiet (record s { two = sem_take s.two; reader = printing i })
    prints :
        {i : ℕ}
        → s.reader ≡ printing i
        → Step s (printed (s.memory i)) (record s { reader = posting i })
    allows :
        {i : ℕ}
        → s.reader ≡ posting i
        → Step s quiet (record s { one = sem_post s.one; reader = testing i })
    compares :
        {i : ℕ}
        → s.reader ≡ testing i
        → Step s quiet
            (record s { reader = if s.memory i == end_char then finished i else waiting (i + 1) })

  -- The runs of the two programs, once `Write` has been constructed.
  pub data Runs : List Event → System → Type 0 where
    start :
        {one two : Sem} {fd room : ℕ} (file : Option ℕ) (memory : ℕ → ℕ)
        → room ≤ whole_pages buff
        → make_write file ≡ built one two fd
        → Runs [] (record {
          one = one;
          two = two;
          room = room;
          memory = memory;
          writer = waits 0;
          reader = opening;
        })
    later :
        {es : List Event} {e : Event} {s t : System}
        → Runs es s
        → Step s e t
        → Runs (es ++ e ∷ []) t
