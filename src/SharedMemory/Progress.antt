-- ===== src/SharedMemory/Progress.antt =====
-- The two processes never block each other for good, and both end at the first END_CHAR.
use posix_intro.Common.{ℕ, ◌<◌, ◌≡◌, ◌≢◌, List, [], ◌∷◌, ◌++◌, length, All}
use posix_intro.Semaphore.{SemaphoreApi}
use posix_intro.SharedMemory.{
  end_char, Writer, greeted, greets, waits, reads, checks, posts, tests, ended, faulted, Reader,
  opening, waiting, printing, posting, testing, finished, Event, signal, SemOpen, System, Step,
}
use posix_intro.SharedMemory.Transfer.{printed_text, sent_text}

-- The index of a process, and whether it has found the END_CHAR there.
abbrev writer_index : Writer → ℕ
writer_index greeted = 0
writer_index greets = 0
writer_index (waits i) = i
writer_index (reads i) = i
writer_index (checks i) = i
writer_index (posts i) = i
writer_index (tests i) = i
writer_index (ended i) = i
writer_index (faulted i) = i

abbrev reader_index : Reader → ℕ
reader_index opening = 0
reader_index (waiting i) = i
reader_index (printing i) = i
reader_index (posting i) = i
reader_index (testing i) = i
reader_index (finished i) = i

abbrev WriterAt : (ℕ → ℕ) → Writer → Type 0
WriterAt memory (ended i) = memory i ≡ end_char
WriterAt memory _ = Unit

abbrev ReaderAt : (ℕ → ℕ) → Reader → Type 0
ReaderAt memory (finished i) = memory i ≡ end_char
ReaderAt memory _ = Unit

-- No END_CHAR in the first `n` cells.
abbrev Goes : (ℕ → ℕ) → ℕ → Type 0
Goes memory n = (j : ℕ) → j < n → memory j ≢ end_char

record Ends (memory : ℕ → ℕ) (w : Writer) (r : Reader) : Type 0 where
  writer_goes : Goes memory (writer_index w)
  reader_goes : Goes memory (reader_index r)
  writer_at : WriterAt memory w
  reader_at : ReaderAt memory r

module _ (api : SemaphoreApi) (named : SemOpen api) where
  open api use {value}

  -- Some process can go on, whatever SIGINT does.
  abbrev pub HasStep : System api named → Type 0
  HasStep s = (e : Event) × (t : System api named) × (e ≢ signal) × Step api named s e t

  -- Both processes are at their end, and the reader has printed all that the writer handed over: a
  -- text without END_CHAR, and then that.
  pub record AllPrinted (es : List Event) (s : System api named) : Type 0 where
    pub last : ℕ
    pub writer_ended : s.writer ≡ ended last
    pub reader_finished : s.reader ≡ finished last
    pub text : List ℕ
    pub is_text : All (λ c. c ≢ end_char) text
    pub is_printed : printed_text es ≡ text ++ end_char ∷ []
    pub is_sent : sent_text es ≡ text ++ end_char ∷ []

  -- The writer was ended where the bytes that can be accessed end, and the reader waits for good,
  -- having printed all that was handed over, one character for each of these bytes.
  pub record Stranded (es : List Event) (s : System api named) : Type 0 where
    pub writer_faulted : s.writer ≡ faulted s.room
    pub reader_waits : s.reader ≡ waiting s.room
    pub nothing_waits : value s.two ≡ 0
    pub is_text : All (λ c. c ≢ end_char) (printed_text es)
    pub is_sent : sent_text es ≡ printed_text es
    pub is_full : length (printed_text es) ≡ s.room
