-- ===== src/SharedMemory/Tests.antt =====
-- Runs of the writer and the reader by evaluation over Semaphore.Counting, and the theorems on them.
use mathlib.Core.List.{foldl}
use posix_intro.Common.{
  whole_pages, ℕ, ◌≤◌, ◌≡◌, refl, true, false, Option, none, some, List, [], ◌∷◌, ◌++◌, dec_lt,
  length, arith,
}
use posix_intro.Common.Outcome.{exits}
use posix_intro.Semaphore.Counting.{counting}
use posix_intro.SharedMemory.{
  file_len, end_char, Writer, greeted, greets, waits, reads, checks, posts, tests, ended, faulted,
  Reader, opening, waiting, printing, posting, testing, finished, Event, quiet, typed, sent,
  SemOpen, init_semaphores, open_semaphores, close_semaphores, System, Step, Runs, start, later,
}
use posix_intro.SharedMemory.Transfer.{typed_text, printed_text, Runs-faithful}

some_inj : (n : ℕ) {s : ℕ} → some n ≡ some s → s ≡ n
some_inj n e = ground arith

abbrev by_name : SemOpen counting
by_name = record {
  existing = λ name. none;
  create = λ name n. some n;
  create-existing = λ name n e h. absurd cc;
  value-create = λ name n e h. some_inj n h;
}

-- Who moves next: the writer, which reads this character if it reads, the reader, or a signal.
data Choice : Type 0 where
  write : (c : ℕ) → Choice
  read interrupt : Choice

abbrev Next : System counting by_name → Type 0
Next s = Option ((e : Event) × (t : System counting by_name) × Step counting by_name s e t)

write_step : (s : System counting by_name) (c : ℕ) (w : Writer) → s.writer ≡ w → Next s
unfolding dec_lt
write_step s c greeted at = elim (dec_lt 0 s.one) [
  | yes h ↦ some (_, _, Step.meets at h)
  | no _ ↦ none
]
write_step s c greets at = some (_, _, Step.passes_on at)
write_step s c (waits i) at = elim (dec_lt 0 s.one) [
  | yes h ↦ some (_, _, Step.takes at h)
  | no _ ↦ none
]
write_step s c (reads i) at = elim (dec_lt i s.room) [
  | yes h ↦ some (_, _, Step.types c at h)
  | no h ↦ some (_, _, Step.faults at (omega arith))
]
write_step s c (checks i) at = some (_, _, Step.checks_running at)
write_step s c (posts i) at = some (_, _, Step.hands_over at)
write_step s c (tests i) at = some (_, _, Step.tests_end at)
write_step s c (ended i) at = none
write_step s c (faulted i) at = none

read_step : (s : System counting by_name) (r : Reader) → s.reader ≡ r → Next s
unfolding dec_lt
read_step s opening at = some (_, _, Step.opens at)
read_step s (waiting i) at = elim (dec_lt 0 s.two) [
  | yes h ↦ some (_, _, Step.receives at h)
  | no _ ↦ none
]
read_step s (printing i) at = some (_, _, Step.prints at)
read_step s (posting i) at = some (_, _, Step.allows at)
read_step s (testing i) at = some (_, _, Step.compares at)
read_step s (finished i) at = none

signal_step : (s : System counting by_name) (w : Writer) → s.writer ≡ w → Next s
signal_step s (waits i) at = some (_, _, Step.breaks_wait at)
signal_step s _ at = some (_, _, Step.handles)

next : (s : System counting by_name) → Choice → Next s
unfolding write_step read_step signal_step
next s (write c) = write_step s c s.writer refl
next s read = read_step s s.reader refl
next s interrupt = signal_step s s.writer refl

record Run : Type 0 where
  events : List Event
  last : System counting by_name
  runs : Runs counting by_name events last

turn : Run → Choice → Run
unfolding next
turn r c = elim (next r.last c) [
  | some (e, t, st) ↦ record { events = r.events ++ e ∷ []; last = t; runs = later r.runs st }
  | none ↦ r
]

run : List Choice → Run
unfolding turn init_semaphores
run = foldl turn (record {
  events = [];
  last = _;
  runs = start {room = whole_pages file_len} (λ i. 0) (omega arith) refl;
})

-- The reader opens, the writer hands over an 'h' and the reader has not printed it yet.
abbrev one_sent : Run
one_sent =
    run (read ∷ write 0 ∷ write 0 ∷ write 0 ∷ write b'h' ∷ write 0 ∷ write 0 ∷ write 0 ∷ read ∷ [])

one_sent_events :
    one_sent.events
    ≡ quiet ∷ quiet ∷ quiet ∷ quiet ∷ typed b'h' ∷ quiet ∷ sent b'h' ∷ quiet ∷ quiet ∷ []
unfolding run
one_sent_events = refl

-- A signal breaks off the wait for the second character, and both processes come to their end.
abbrev interrupted : Run
interrupted = run (
    read
    ∷ write 0
    ∷ write 0
    ∷ write 0
    ∷ write b'h'
    ∷ write 0
    ∷ write 0
    ∷ write 0
    ∷ interrupt
    ∷ write b'i'
    ∷ write 0
    ∷ write 0
    ∷ write 0
    ∷ read
    ∷ read
    ∷ read
    ∷ read
    ∷ read
    ∷ read
    ∷ read
    ∷ read
    ∷ [])

interrupted_text :
    (typed_text interrupted.events ≡ b'h' ∷ b'i' ∷ [])
    × (printed_text interrupted.events ≡ b'h' ∷ end_char ∷ [])
    × (interrupted.last.reader ≡ finished 1)
unfolding run
interrupted_text = (refl, refl, refl)

-- A file with one byte that can be accessed: the writer is ended at the second character.
short_file : List Choice → Run
unfolding turn init_semaphores
short_file =
    foldl turn
      (record { events = []; last = _; runs = start {room = 1} (λ i. 0) (omega arith) refl })

one_byte :
    let r = short_file (
      read
      ∷ write 0
      ∷ write 0
      ∷ write 0
      ∷ write b'h'
      ∷ write 0
      ∷ write 0
      ∷ write 0
      ∷ read
      ∷ read
      ∷ read
      ∷ read
      ∷ write 0
      ∷ write b'i'
      ∷ []) in
    (printed_text r.events ≡ b'h' ∷ []) × (r.last.writer ≡ faulted 1) × (r.last.reader ≡ waiting 1)
unfolding short_file
one_byte = (refl, refl, refl)

Runs-faithful_test :
    (rest : List ℕ) × (typed_text one_sent.events ≡ printed_text one_sent.events ++ rest)
    × (length rest ≤ 1)
unfolding run
Runs-faithful_test = Runs-faithful counting by_name (refl, refl) one_sent.runs refl

no_writer_yet :
    open_semaphores counting by_name none (some 0) ≡ exits "Run ./c_lab07_w first, missing[sem_one]"
unfolding open_semaphores
no_writer_yet = refl

reader_unlinks_nothing :
    close_semaphores counting by_name true false false ≡ exits "Error closing Semaphore two"
unfolding close_semaphores
reader_unlinks_nothing = refl
