-- ===== src/SharedMemory.antt =====
-- c/ipc/include/shm_type.h, c/ipc/memory_based/shared_memory/write.c and read.c: a writer process
-- that puts what is typed into shared memory, character by character, and a reader process that
-- prints it, in step by two named semaphores. Both interleave in any order, and SIGINT may reach the
-- writer at any time.
pub mod Invariant
pub mod Room
pub mod Transfer
pub mod Progress
mod Tests
use Prim.Native.String.{String}
use posix_intro.Common.{
  whole_pages, ℕ, ◌+◌, ◌<◌, ◌≤◌, ◌≡◌, Bool, true, false, Option, none, some, List, [], ◌∷◌, ◌++◌,
  ◌==◌, if◌then◌else◌,
}
use posix_intro.Common.Outcome.{Outcome, ok, exits, ◌>>=◌, checked}
use posix_intro.Semaphore.{SemaphoreApi}

-- END_CHAR
abbrev pub end_char : ℕ
end_char = b'0'

-- FILE_LEN
abbrev pub file_len : ℕ
file_len = 1024

-- SEM_ONE_NAME and SEM_TWO_NAME
abbrev pub sem_one_name : String
sem_one_name = "/one"

abbrev pub sem_two_name : String
sem_two_name = "/two"

-- Before which statement the writer stands: in `main` before it waits for a reader, and before it
-- gives that unit back; then in `write_shared`, with the index that `c` has come to. `faulted` is what
-- SIGSEGV or SIGBUS makes of it when it stores a character where the mapping has no byte.
pub data Writer : Type 0 where
  greeted greets : Writer
  waits reads checks posts tests ended faulted : (index : ℕ) → Writer

-- Before which statement the reader stands: before `sem_post(sem_one)` in `main`, and then in
-- `print_shared`.
pub data Reader : Type 0 where
  opening : Reader
  waiting printing posting testing finished : (index : ℕ) → Reader

-- What one step does: the writer's `fgetc` returns a character, the writer hands a character over by
-- its post, the reader prints one, a SIGINT is handled, or none of these.
pub data Event : Type 0 where
  quiet signal : Event
  typed sent printed : (c : ℕ) → Event

-- The named semaphores of <semaphore.h>: the semaphore that has a name at first, and what
-- `sem_open(name, O_CREAT, …, n)` gives, `none` for SEM_FAILED. It opens a semaphore that has the name
-- as it is, and makes one with the value `n` where there is none.
pub record SemOpen (api : SemaphoreApi) : Type 0 where
  pub existing : String → Option api.Sem
  pub create : String → ℕ → Option api.Sem
  pub create-existing :
      (name : String) (n : ℕ) {s t : api.Sem}
      → existing name ≡ some s
      → create name n ≡ some t
      → t ≡ s
  pub value-create :
      (name : String) (n : ℕ) {s : api.Sem}
      → existing name ≡ none
      → create name n ≡ some s
      → api.value s ≡ n

-- `*c = v` at the index `i`
abbrev pub put : (ℕ → ℕ) → ℕ → ℕ → ℕ → ℕ
put memory i v j = if j == i then v else memory j

module _ (api : SemaphoreApi) (named : SemOpen api) where
  open api use {Sem, value, sem_take, sem_post}

  -- `init_semaphores`
  unfoldable pub init_semaphores : Outcome (Sem × Sem)
  init_semaphores = do
    one ← checked (named.create sem_one_name 0) "Error init semaphore one"
    two ← checked (named.create sem_two_name 0) "Error init semaphore two"
    ok (one, two)

  -- `open_semaphores`, given what `sem_open(name, O_RDWR)` returns for each name.
  pub open_semaphores : Option Sem → Option Sem → Outcome (Sem × Sem)
  open_semaphores found_one found_two = do
    one ← checked found_one "Run ./c_lab07_w first, missing[sem_one]"
    two ← checked found_two "Run ./c_lab07_w first, missing[sem_two]"
    ok (one, two)

  -- `close_semaphores`: which names it unlinks, given whether the calls of `sem_close` return 0.
  pub close_semaphores : Bool → Bool → Bool → Outcome (List String)
  close_semaphores one_closed two_closed unlink =
      if one_closed
      then (if two_closed
          then ok (if unlink then sem_one_name ∷ sem_two_name ∷ [] else [])
          else exits "Error closing Semaphore two")
      else exits "Error closing Semaphore one"

  -- No semaphore has either name before the writer starts.
  abbrev pub NamesFree : Type 0
  NamesFree = (named.existing sem_one_name ≡ none) × (named.existing sem_two_name ≡ none)

  -- What both processes share, the writer's `running`, and where both stand. `room` is how many bytes
  -- of the mapping can be accessed: at most the pages of FILE_LEN bytes, none where the file is empty,
  -- and none where `mmap` has failed.
  pub record System : Type 0 where
    pub one : Sem
    pub two : Sem
    pub running : Bool
    pub room : ℕ
    pub memory : ℕ → ℕ
    pub writer : Writer
    pub reader : Reader

  -- `close_write`, the writer's handler of SIGINT.
  abbrev pub close_write : System → System
  close_write s = record s { running = false }

  -- One statement of either process, or a SIGINT that the writer's `close_write` handles. `sem_wait`
  -- is not repeated when the signal interrupts it, and has then taken nothing.
  pub data Step (s : System) : Event → System → Type 0 where
    meets :
        s.writer ≡ greeted
        → 0 < value s.one
        → Step s quiet (record s { one = sem_take s.one; writer = greets })
    passes_on :
        s.writer ≡ greets → Step s quiet (record s { one = sem_post s.one; writer = waits 0 })
    takes :
        {i : ℕ}
        → s.writer ≡ waits i
        → 0 < value s.one
        → Step s quiet (record s { one = sem_take s.one; writer = reads i })
    types :
        {i : ℕ} (c : ℕ)
        → s.writer ≡ reads i
        → i < s.room
        → Step s (typed c) (record s { memory = put s.memory i c; writer = checks i })
    -- The character is lost.
    faults :
        {i : ℕ} → s.writer ≡ reads i → s.room ≤ i → Step s quiet (record s { writer = faulted i })
    checks_running :
        {i : ℕ}
        → s.writer ≡ checks i
        → Step s quiet (record s {
          memory = if s.running then s.memory else put s.memory i end_char;
          writer = posts i;
        })
    hands_over :
        {i : ℕ}
        → s.writer ≡ posts i
        → Step s (sent (s.memory i)) (record s { two = sem_post s.two; writer = tests i })
    tests_end :
        {i : ℕ}
        → s.writer ≡ tests i
        → Step s quiet
            (record s { writer = if s.memory i == end_char then ended i else waits (i + 1) })
    opens :
        s.reader ≡ opening → Step s quiet (record s { one = sem_post s.one; reader = waiting 0 })
    receives :
        {i : ℕ}
        → s.reader ≡ waiting i
        → 0 < value s.two
        → Step s quiet (record s { two = sem_take s.two; reader = printing i })
    prints :
        {i : ℕ}
        → s.reader ≡ printing i
        → Step s (printed (s.memory i)) (record s { reader = posting i })
    allows :
        {i : ℕ}
        → s.reader ≡ posting i
        → Step s quiet (record s { one = sem_post s.one; reader = testing i })
    compares :
        {i : ℕ}
        → s.reader ≡ testing i
        → Step s quiet
            (record s { reader = if s.memory i == end_char then finished i else waiting (i + 1) })
    handles : Step s signal (close_write s)
    breaks_meeting : s.writer ≡ greeted → Step s signal (record (close_write s) { writer = greets })
    breaks_wait :
        {i : ℕ} → s.writer ≡ waits i → Step s signal (record (close_write s) { writer = reads i })

  -- Both processes at their start, over these semaphores and a mapping with this content.
  abbrev pub start_system : Sem → Sem → ℕ → (ℕ → ℕ) → System
  start_system one two room memory = record {
    one = one;
    two = two;
    running = true;
    room = room;
    memory = memory;
    writer = greeted;
    reader = opening;
  }

  -- The runs of the two programs: the writer has made both semaphores, and the mapping may hold
  -- anything.
  pub data Runs : List Event → System → Type 0 where
    start :
        {one two : Sem} {room : ℕ} (memory : ℕ → ℕ)
        → room ≤ whole_pages file_len
        → init_semaphores ≡ ok (one, two)
        → Runs [] (start_system one two room memory)
    later :
        {es : List Event} {e : Event} {s t : System}
        → Runs es s
        → Step s e t
        → Runs (es ++ e ∷ []) t
