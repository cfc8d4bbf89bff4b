-- ===== src/Pipe/Tests.antt =====
-- Runs of twowaypipe.c over lists as the pipes, and the theorems on them.
use posix_intro.Common.{
  ℕ, ◌+◌, ◌≤◌, ◌≡◌, refl, sym, ◌⊎◌, All, length, replicate, List, [], ◌∷◌, ◌++◌, pos, negsuc,
}
use posix_intro.Common.Channel.{Channel, list_channel}
use posix_intro.Common.Outcome.{ok, exits}
use posix_intro.Common.Stdio.{newline, fgets_array, strtok_array}
use posix_intro.Pipe.{
  parent, child, str_buf, broken, finished, killed, Event, c_program, fills, writes, reads, System,
  parent_moves, child_moves, Runs, start, later, prepare,
}
use posix_intro.Pipe.Turns.{NoSignal, HasWriter}
use posix_intro.Pipe.Delivery.{sent_texts, received_texts, Runs-both_ways}
use posix_intro.Pipe.Ending.{HasStep, Finished, Runs-settled, Runs-in_turn}
use posix_intro.Pipe.Broken.{parent-is_killed}

abbrev ch : Channel
ch = list_channel

-- The array of either process, all zero.
abbrev zeros : List ℕ
zeros = replicate str_buf 0

-- What stands in the parent's array once "hi" has been typed.
abbrev hi : List ℕ
hi = b'h' ∷ b'i' ∷ 0 ∷ 0 ∷ replicate 252 0

hi_lem : strtok_array (fgets_array 255 zeros (b'h' ∷ b'i' ∷ newline ∷ [])) ≡ hi
unfolding strtok_array fgets_array
hi_lem = refl

-- The parent says "hi", and the child reads it.
record Run : Type 0 where
  events : List Event
  last : System c_program ch
  runs : Runs c_program ch zeros zeros events last

abbrev greeting : Run
greeting = record {
  events = _;
  last = _;
  runs =
      later
        (later
          (later start
            (parent_moves (fills {m = hi} refl refl (b'h' ∷ b'i' ∷ newline ∷ [], sym hi_lem))))
          (parent_moves (writes refl refl tt)))
        (child_moves (reads refl refl));
}

greeting_read : received_texts child greeting.events ≡ hi ∷ []
greeting_read = refl

Runs-both_ways_test :
    (sent_texts parent greeting.events
      ≡ received_texts child greeting.events ++ ch.contents greeting.last.pipe_1)
    × (sent_texts child greeting.events
        ≡ received_texts parent greeting.events ++ ch.contents greeting.last.pipe_2)
Runs-both_ways_test = Runs-both_ways c_program ch greeting.runs

Runs-in_turn_example :
    (length (ch.contents greeting.last.pipe_1) + length (ch.contents greeting.last.pipe_2) ≤ 1)
    × All HasWriter greeting.events
Runs-in_turn_example = Runs-in_turn c_program ch greeting.runs (refl, (refl, (refl, tt)))

Runs-settled_example : HasStep c_program ch greeting.last ⊎ Finished c_program ch greeting.last
Runs-settled_example = Runs-settled c_program ch greeting.runs (refl, (refl, (refl, tt)))

-- The line "0" at the parent's first prompt.
abbrev zero_text : List ℕ
zero_text = b'0' ∷ 0 ∷ replicate 254 0

zero_lem : zero_text ≡ strtok_array (fgets_array 255 zeros (b'0' ∷ newline ∷ []))
unfolding strtok_array fgets_array
zero_lem = refl

parent-is_killed_example :
    (es : List Event) × (s : System c_program ch) × Runs c_program ch zeros zeros
      (es ++ broken parent ∷ [])
      s
    × NoSignal (es ++ broken parent ∷ [])
    × (sent_texts parent es ≡ zero_text ∷ [])
    × (sent_texts child es ≡ zero_text ∷ [])
    × (s.child_process.pc ≡ finished)
    × (s.parent_process.pc ≡ killed)
    × (s.parent_process.msg ≡ zero_text)
    × (ch.contents s.pipe_1 ≡ [])
    × (ch.contents s.pipe_2 ≡ [])
parent-is_killed_example =
    parent-is_killed c_program ch {m = zero_text} (b'0' ∷ newline ∷ [], zero_lem) refl

prepared : prepare (pos 0) (pos 0) (pos 0) (pos 0) ≡ ok parent
unfolding prepare
prepared = refl

no_second_pipe : prepare (pos 0) (pos 0) (negsuc 0) (pos 7) ≡ exits "unable to create pipe 2"
unfolding prepare
no_second_pipe = refl
