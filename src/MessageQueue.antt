-- ===== src/MessageQueue.antt =====
-- c/ipc/include/type.h, c/ipc/message_passing/message_queue/write.c and read.c: a writer process that
-- sends the lines typed through a message queue, and a reader process that shows them, up to one
-- that begins with 0. The two interleave in any order.
pub mod Delivery
pub mod Progress
pub mod Eof
mod Tests
use posix_intro.Common.{ℕ, ◌-◌, ◌≡◌, Bool, true, false, List, [], ◌∷◌, ◌++◌, if◌then◌else◌}
use posix_intro.Common.Channel.{Channel}
use posix_intro.Common.Stdio.{next_line, is_zero}

-- BUFFER_SIZE
abbrev pub buffer_size : ℕ
buffer_size = 20

-- Before which statement of its loop the writer stands, and the reader.
pub data Writer : Type 0 where
  inserting sending testing stopped : Writer

pub data Reader : Type 0 where
  receiving displaying removing stopped : Reader

-- What one step does: the writer sends a text, the reader shows one, or neither.
pub data Event : Type 0 where
  quiet : Event
  sent shown : (text : List ℕ) → Event

module _ (ch : Channel) where
  -- The queue and whether it still exists, what is left to be typed, each process's `msg.text`, and
  -- where both stand.
  pub record System : Type 0 where
    pub queue : ch.Queue
    pub exists : Bool
    pub stdin : List ℕ
    pub writer_text : List ℕ
    pub reader_text : List ℕ
    pub writer : Writer
    pub reader : Reader

  -- Both processes before their loops, with the static `msg` empty and a fresh queue.
  abbrev pub start_system : List ℕ → System
  start_system stdin = record {
    queue = ch.empty;
    exists = true;
    stdin = stdin;
    writer_text = [];
    reader_text = [];
    writer = inserting;
    reader = receiving;
  }

-- How a program fills `msg.text` from what is typed: the text then, and what is left to be typed.
abbrev pub Fill : Type 0
Fill = (text stdin : List ℕ) → List ℕ × List ℕ

-- `fgets` and `strtok` in write.c.
abbrev pub c_fill : Fill
c_fill = next_line (buffer_size - 1)

module _ (fill : Fill) (ch : Channel) where
  -- One statement of either process; the test of the text goes with the line before it.
  pub data Step (s : System ch) : Event → System ch → Type 0 where
    inserts :
        s.writer ≡ inserting
        → Step s quiet (record s {
          writer_text = (fill s.writer_text s.stdin).0;
          stdin = (fill s.writer_text s.stdin).1;
          writer = sending;
        })
    sends :
        s.writer ≡ sending
        → ch.CanSend s.queue
        → Step s
            (sent s.writer_text)
            (record s { queue = ch.send s.queue s.writer_text; writer = testing })
    tests :
        s.writer ≡ testing
        → Step s quiet
            (record s { writer = if is_zero s.writer_text then Writer.stopped else inserting })
    receives :
        {m : List ℕ} {ms : List (List ℕ)}
        → s.reader ≡ receiving
        → ch.contents s.queue ≡ m ∷ ms
        → Step s quiet
            (record s { queue = ch.receive s.queue; reader_text = m; reader = displaying })
    displays :
        s.reader ≡ displaying
        → Step s
            (shown s.reader_text)
            (record s { reader = if is_zero s.reader_text then removing else receiving })
    removes :
        s.reader ≡ removing → Step s quiet (record s { exists = false; reader = Reader.stopped })

  -- The runs on this input.
  pub data Runs (stdin : List ℕ) : List Event → System ch → Type 0 where
    start : Runs stdin [] (start_system ch stdin)
    later :
        {es : List Event} {e : Event} {s t : System ch}
        → Runs stdin es s
        → Step s e t
        → Runs stdin (es ++ e ∷ []) t
