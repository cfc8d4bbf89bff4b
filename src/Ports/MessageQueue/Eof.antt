-- ===== src/Ports/MessageQueue/Eof.antt =====
-- The C++ writer does not end at the end of its input either.
use posix_intro.Common.{ℕ, zero, suc, ◌-◌, ◌==◌, ◌≢◌, inl, inr, Bool-cases, List, [], ◌∷◌}
use posix_intro.Common.Channel.{Channel}
use posix_intro.Common.Stdio.{newline, NoZero}
use posix_intro.MessageQueue.{Writer, Event, System}
use posix_intro.MessageQueue.Progress.{HasStep}
use posix_intro.MessageQueue.Eof.{KeepsNoZero, Runs-endless}
use posix_intro.Ports.MessageQueue.{buffer, getline, cpp_fill, QueueRuns}

getline-NoZero :
    (room : ℕ) (stdin : List ℕ)
    → NoZero stdin
    → NoZero (getline room stdin).0 × NoZero (getline room stdin).1
unfolding getline
getline-NoZero zero [] h = (tt, tt)
getline-NoZero (suc room) [] h = (tt, tt)
getline-NoZero zero (c ∷ cs) h = elim (Bool-cases (c == newline)) [
  | inl e ↦ rw e (tt, h.1)
  | inr e ↦ rw e (tt, tt)
]
getline-NoZero (suc room) (c ∷ cs) h = elim (Bool-cases (c == newline)) [
  | inl e ↦ rw e (tt, h.1)
  | inr e ↦ let (text, rest) = getline-NoZero room cs h.1 in rw e ((h.0, text), rest)
]

cpp_fill-NoZero : KeepsNoZero cpp_fill
unfolding cpp_fill
cpp_fill-NoZero text stdin h k = getline-NoZero (buffer - 1) stdin k

-- On an input in which no 0 stands, however short it is, the C++ programs never end: the writer is
-- never past its loop, and some process can always go on.
pub QueueRuns-endless :
    (ch : Channel) {stdin : List ℕ} {es : List Event} {s : System ch}
    → NoZero stdin
    → QueueRuns ch stdin es s
    → (s.writer ≢ Writer.stopped) × HasStep cpp_fill ch s
QueueRuns-endless ch h r = Runs-endless cpp_fill ch cpp_fill-NoZero h r
