-- ===== src/Ports/MessageQueue.antt =====
-- cpp/ipc/message_passing/message_queue/mqueue.hh with write.cc and read.cc: the message queue of task
-- 7 in C++. `Write::run` and `Read::run` are the loops of the C programs, statement for statement,
-- with `getline` for `fgets` and `strtok`; the destructor of `Read` removes the queue.
pub mod Eof
mod Tests
use posix_intro.Common.{ℕ, zero, suc, ◌-◌, ◌==◌, List, [], ◌∷◌, ◌++◌, if◌then◌else◌}
use posix_intro.Common.Channel.{Channel}
use posix_intro.Common.Stdio.{newline}
use posix_intro.MessageQueue.{Fill, Event, System, Runs}

-- buffer
abbrev pub buffer : ℕ
buffer = 20

-- `std::cin.getline(text, room + 1)`: the text, and what is left to be typed. A line that is too long
-- makes the stream fail, and a stream that has failed stores empty texts, as one at its end does: then
-- nothing is left.
unfoldable pub getline : (room : ℕ) → List ℕ → List ℕ × List ℕ
getline room [] = ([], [])
getline zero (c ∷ cs) = ([], if c == newline then cs else [])
getline (suc room) (c ∷ cs) =
    let (text, rest) = getline room cs in if c == newline then ([], cs) else (c ∷ text, rest)

-- The prompt of `Write::run`.
unfoldable pub cpp_fill : Fill
unfolding getline
cpp_fill text stdin = getline (buffer - 1) stdin

-- The runs of both processes.
abbrev pub QueueRuns : (ch : Channel) → List ℕ → List Event → System ch → Type 0
QueueRuns ch stdin es s = Runs cpp_fill ch stdin es s
