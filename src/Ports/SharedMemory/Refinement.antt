-- ===== src/Ports/SharedMemory/Refinement.antt =====
-- The C++ processes do nothing that the C processes cannot do.
use posix_intro.Common.{whole_pages, ℕ, ◌≤◌, ◌≡◌, ◌≢◌, true, List}
use posix_intro.Semaphore.{SemaphoreApi}
use posix_intro.SharedMemory.{Event, SemOpen, put}
use posix_intro.SharedMemory as C
use posix_intro.SharedMemory.Transfer.{typed_text, sent_text, printed_text}
use posix_intro.Ports.SharedMemory.{
  Writer, waits, reads, posts, tests, ended, faulted, Reader, opening, waiting, printing, posting,
  testing, finished, System, NamesFree, Runs,
}

-- The same place in the C program, once the reader has opened the semaphores.
abbrev same_writer : Writer → C.Writer
same_writer (waits i) = C.Writer.waits i
same_writer (reads i) = C.Writer.reads i
same_writer (posts i) = C.Writer.posts i
same_writer (tests i) = C.Writer.tests i
same_writer (ended i) = C.Writer.ended i
same_writer (faulted i) = C.Writer.reads i

abbrev same_reader : Reader → C.Reader
same_reader opening = C.Reader.opening
same_reader (waiting i) = C.Reader.waiting i
same_reader (printing i) = C.Reader.printing i
same_reader (posting i) = C.Reader.posting i
same_reader (testing i) = C.Reader.testing i
same_reader (finished i) = C.Reader.finished i

-- Where the writers are: before the reader has opened the semaphores the C writer waits for that in
-- `main`, and the C++ writer in its loop.
data Place (r : Reader) (w : Writer) (units : ℕ) (c : C.Writer) : Type 0 where
  early : r ≡ opening → w ≡ waits 0 → units ≡ 0 → c ≡ C.Writer.greeted → Place r w units c
  underway : r ≢ opening → c ≡ same_writer w → Place r w units c

-- Two runs type, hand over and print the same.
pub record SameText (es fs : List Event) : Type 0 where
  pub same_typed : typed_text es ≡ typed_text fs
  pub same_sent : sent_text es ≡ sent_text fs
  pub same_printed : printed_text es ≡ printed_text fs

-- `c_room` bytes of the mapping can be accessed by the C writer.
module _ (api : SemaphoreApi) (named : SemOpen api) (free : C.NamesFree api named) (c_room : ℕ)
    (c_most : c_room ≤ whole_pages C.file_len) where
  open api use {value}

  record Sim (s : System api named) (c : C.System api named) : Type 0 where
    sim_one : value s.one ≡ value c.one
    sim_two : value s.two ≡ value c.two
    sim_memory : s.memory ≡ c.memory
    sim_room : s.room ≤ c.room
    same_room : c.room ≡ c_room
    sim_running : c.running ≡ true
    sim_reader : c.reader ≡ same_reader s.reader
    sim_writer : Place s.reader s.writer (value s.one) c.writer

  -- A run of the C program that does the same.
  abbrev Matched : List Event → System api named → Type 0
  Matched es s =
      (fs : List Event) × (c : C.System api named) × C.Runs api named fs c
      × SameText es fs
      × Sim s c
