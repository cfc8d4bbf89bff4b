-- ===== src/MessageQueue/Eof.antt =====
-- The writer takes the end of its input for one more line.
use posix_intro.Common.{ℕ, ◌≡◌, ◌≢◌, false, inl, inr, List, [], ◌∷◌, arith}
use posix_intro.Common.Channel.{Channel}
use posix_intro.Common.Stdio.{is_zero, NoZero}
use posix_intro.MessageQueue.{
  Fill, Writer, Event, System, Step, inserts, sends, tests, receives, displays, removes, Runs,
  start, later,
}
use posix_intro.MessageQueue.Progress.{HasStep, Runs-Finished}

is_zero_of_NoZero : (m : List ℕ) → NoZero m → is_zero m ≡ false
is_zero_of_NoZero [] h = ground arith
is_zero_of_NoZero (c ∷ cs) h = ground arith

-- A text that is filled holds no 0 if neither the old one nor what is typed does.
abbrev pub KeepsNoZero : Fill → Type 0
KeepsNoZero fill =
    (text stdin : List ℕ)
    → NoZero text
    → NoZero stdin
    → NoZero (fill text stdin).0 × NoZero (fill text stdin).1

module _ (fill : Fill) (ch : Channel) (keeps : KeepsNoZero fill) where
  record Goes (s : System ch) : Type 0 where
    text : NoZero s.writer_text
    input : NoZero s.stdin
    place : s.writer ≢ Writer.stopped

  Step-Goes : {e : Event} {s t : System ch} → Step fill ch s e t → Goes s → Goes t
  Step-Goes {s = s} (inserts at) g =
      let (line, rest) = keeps s.writer_text s.stdin g.text g.input in
      record { text = line; input = rest; place = λ e. cc }
  Step-Goes (sends at can) g = record { text = g.text; input = g.input; place = λ e. cc }
  Step-Goes {s = s} (tests at) g =
      rw (is_zero_of_NoZero s.writer_text g.text)
        (record { text = g.text; input = g.input; place = λ e. cc })
  Step-Goes (receives at more) g = record { text = g.text; input = g.input; place = g.place }
  Step-Goes (displays at) g = record { text = g.text; input = g.input; place = g.place }
  Step-Goes (removes at) g = record { text = g.text; input = g.input; place = g.place }

  Runs-Goes :
      {stdin : List ℕ} {es : List Event} {s : System ch}
      → NoZero stdin
      → Runs fill ch stdin es s
      → Goes s
  Runs-Goes h start = record { text = tt; input = h; place = λ e. cc }
  Runs-Goes h (later r st) = Step-Goes st (Runs-Goes h r)

  -- Where a line holds no 0 if neither the text before it nor the input does: on an input in which no
  -- 0 stands, however short it is, the programs never end: the writer is never past its loop, and
  -- some process can always go on.
  pub Runs-endless :
      {stdin : List ℕ} {es : List Event} {s : System ch}
      → NoZero stdin
      → Runs fill ch stdin es s
      → (s.writer ≢ Writer.stopped) × HasStep fill ch s
  Runs-endless {stdin} {es} {s} h r =
      let g = Runs-Goes h r in
      let step : HasStep fill ch s = elim (Runs-Finished fill ch r) [
        | inl step ↦ step
        | inr done ↦ absurd (g.place done.writer_stopped)
      ] in
      (g.place, step)
