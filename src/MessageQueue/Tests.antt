-- ===== src/MessageQueue/Tests.antt =====
-- Runs of the writer and the reader by evaluation over a list as the queue, and the theorems on them.
use mathlib.Core.List.{foldl}
use posix_intro.Common.{
  ℕ, ◌-◌, ◌≡◌, ◌≢◌, refl, Bool, true, false, Option, none, some, List, [], ◌∷◌, ◌++◌, ◌⊎◌,
}
use posix_intro.Common.Channel.{Channel, list_channel}
use posix_intro.Common.Stdio.{next_line, next_line-NoZero, is_zero}
use posix_intro.MessageQueue.{
  Writer, inserting, sending, testing, Reader, receiving, displaying, removing, Event, buffer_size,
  c_fill, System, Step, Runs, start, later,
}
use posix_intro.MessageQueue.Delivery.{sent_texts, shown_texts, taken}
use posix_intro.MessageQueue.Progress.{
  HasStep, Finished, Runs-delivered, Runs-Finished, removing-IsEmpty,
}
use posix_intro.MessageQueue.Eof.{Runs-endless}

abbrev ch : Channel
ch = list_channel

abbrev Next : System ch → Type 0
Next s = Option ((e : Event) × (t : System ch) × Step c_fill ch s e t)

write_step : (s : System ch) (w : Writer) → s.writer ≡ w → Next s
write_step s inserting at = some (_, _, Step.inserts at)
write_step s sending at = some (_, _, Step.sends at tt)
write_step s testing at = some (_, _, Step.tests at)
write_step s Writer.stopped at = none

receive_step : (s : System ch) (q : List (List ℕ)) → s.reader ≡ receiving → s.queue ≡ q → Next s
receive_step s [] at e = none
receive_step s (m ∷ ms) at e = some (_, _, Step.receives at e)

read_step : (s : System ch) (r : Reader) → s.reader ≡ r → Next s
unfolding receive_step
read_step s receiving at = receive_step s s.queue at refl
read_step s displaying at = some (_, _, Step.displays at)
read_step s removing at = some (_, _, Step.removes at)
read_step s Reader.stopped at = none

record Run (stdin : List ℕ) : Type 0 where
  events : List Event
  last : System ch
  runs : Runs c_fill ch stdin events last

-- One move: of the writer for `true`, and of the reader for `false`.
turn : {stdin : List ℕ} → Run stdin → Bool → Run stdin
unfolding write_step read_step next_line
turn r who =
    elim (if_else who (write_step r.last r.last.writer refl)
      (read_step r.last r.last.reader refl)) [
        | some (e, t, st) ↦ record { events = r.events ++ e ∷ []; last = t; runs = later r.runs st }
        | none ↦ r
      ]
  where
    if_else : {A : Type 0} → Bool → A → A → A
    if_else true x y = x
    if_else false x y = y

run : (stdin : List ℕ) → List Bool → Run stdin
unfolding turn
run stdin = foldl turn (record { events = []; last = _; runs = start })

-- The lines "hi" and "0"; the reader has shown the first and is about to remove the queue.
abbrev input : List ℕ
input = b'h' ∷ b'i' ∷ 10 ∷ b'0' ∷ 10 ∷ []

abbrev two_lines : Run input
two_lines = run input (true ∷ true ∷ false ∷ true ∷ true ∷ true ∷ false ∷ true ∷ false ∷ false ∷ [])

two_lines_events :
    (shown_texts two_lines.events ≡ (b'h' ∷ b'i' ∷ []) ∷ (b'0' ∷ []) ∷ [])
    × (two_lines.last.reader ≡ removing)
unfolding run
two_lines_events = (refl, refl)

two_lines_delivered :
    sent_texts two_lines.events
    ≡ shown_texts two_lines.events
      ++ (taken two_lines.last.reader two_lines.last.reader_text
          ++ ch.contents two_lines.last.queue)
two_lines_delivered = Runs-delivered c_fill ch two_lines.runs

Runs-Finished_example :
    HasStep c_fill ch two_lines.last ⊎ Finished ch two_lines.events two_lines.last
Runs-Finished_example = Runs-Finished c_fill ch two_lines.runs

removing-IsEmpty_test :
    (ch.contents two_lines.last.queue ≡ [])
    × (is_zero two_lines.last.writer_text ≡ true)
    × ((two_lines.last.writer ≡ testing) ⊎ (two_lines.last.writer ≡ Writer.stopped))
unfolding run
removing-IsEmpty_test = removing-IsEmpty c_fill ch two_lines.runs refl

-- After "a" and the end of the input, the writer sends "a" again.
abbrev repeated : Run (b'a' ∷ 10 ∷ [])
repeated = run (b'a' ∷ 10 ∷ []) (true ∷ true ∷ true ∷ true ∷ true ∷ [])

repeated_texts : sent_texts repeated.events ≡ (b'a' ∷ []) ∷ (b'a' ∷ []) ∷ []
unfolding run
repeated_texts = refl

Runs-endless_example : (repeated.last.writer ≢ Writer.stopped) × HasStep c_fill ch repeated.last
Runs-endless_example =
    Runs-endless c_fill ch (next_line-NoZero (buffer_size - 1)) {stdin = b'a' ∷ 10 ∷ []}
      ((λ e. cc), ((λ e. cc), tt)) repeated.runs
