-- ===== src/Socket/Tests.antt =====
-- Runs of client.c and server.c over lists of bytes as the connection, and the theorems on them.
use posix_intro.Common.{
  arith, ℕ, ◌≡◌, ◌≢◌, refl, ◌⊎◌, negsuc, pos, some, All, collect, replicate, List, [], ◌∷◌, ◌++◌,
}
use posix_intro.Common.Stream.{list_stream}
use posix_intro.Common.Outcome.{exits}
use posix_intro.Common.Stdio.{newline, fgets_array, strtok_array, overlay_whole}
use posix_intro.Socket.{
  buffer_size, is_done, Server, lost, Event, c_prompt, c_program, prompts, sends, serves, echoes,
  reads, tests, loses, serves_nothing, server_tests, System, Runs, start, later,
}
use posix_intro.Socket.Echo.{IsWhole, sent_text, shown_text, awaited, Runs-echoed}
use posix_intro.Socket.Ending.{HasStep, Finished, Runs-closed}
use posix_intro.Socket.Lost.{IsDeserted, Steps, none_yet, and_then, CanStep, IsDeserted-goes_on}
use posix_intro.Socket.Setup.{
  is_negative, start_client, start_server, first_failure, is_none, has_other_type,
  starts-first_failure,
}

abbrev zeros : List ℕ
zeros = replicate buffer_size 0

-- The client's array once "Done" has been typed.
abbrev done_text : List ℕ
done_text = b'D' ∷ b'o' ∷ b'n' ∷ b'e' ∷ replicate 16 0

done_lem : done_text ≡ c_prompt (b'D' ∷ b'o' ∷ b'n' ∷ b'e' ∷ newline ∷ [])
unfolding strtok_array fgets_array
done_lem = refl

record Run : Type 0 where
  events : List Event
  last : System c_program list_stream
  runs : Runs c_program list_stream zeros events last

-- The text comes back, and both processes have closed.
abbrev farewell : Run
farewell = record {
  events = _;
  last = _;
  runs =
      later
        (later
          (later
            (later
              (later
                (later
                  (later start (
                    prompts {m = done_text} refl
                      (b'D' ∷ b'o' ∷ b'n' ∷ b'e' ∷ newline ∷ [], done_lem)))
                  (sends refl tt))
                (serves done_text [] refl refl (omega arith) (omega arith)))
              (echoes refl tt))
            (reads done_text [] refl (overlay_whole done_text zeros refl) (omega arith)
              (omega arith)))
          (tests refl))
        (server_tests refl);
}

farewell-IsWhole : All IsWhole farewell.events
farewell-IsWhole = (tt, (tt, (refl, (tt, (refl, (tt, (tt, tt)))))))

Runs-echoed_example :
    collect sent_text farewell.events
    ≡ collect shown_text farewell.events ++ awaited farewell.last.client farewell.last.buffer
Runs-echoed_example =
    Runs-echoed c_program list_stream {w = zeros} refl farewell.runs farewell-IsWhole

Runs-closed_example :
    HasStep c_program list_stream farewell.last
    ⊎ Finished c_program list_stream farewell.events farewell.last
Runs-closed_example =
    Runs-closed c_program list_stream {w = zeros} refl farewell.runs farewell-IsWhole

-- The client is lost before it has sent anything.
abbrev deserted : System c_program list_stream
deserted = record {
  up = [];
  down = [];
  buffer = zeros;
  received = zeros;
  server_buffer = zeros;
  client = lost;
  server = Server.reading;
}

abbrev lost_at_once : Runs c_program list_stream zeros (Event.lost_client ∷ []) deserted
lost_at_once = later start (loses refl)

deserted-IsDeserted : IsDeserted c_program list_stream deserted
unfolding is_done
deserted-IsDeserted = record {
  client_lost = refl;
  none_left = refl;
  not_done = refl;
  not_closed = λ e. cc;
}

-- The server reads nothing and tests its array.
abbrev tested : System c_program list_stream
tested = record deserted { server = Server.reading }

two_steps : Steps c_program list_stream deserted tested
unfolding is_done
two_steps = and_then (and_then none_yet (serves_nothing refl refl)) (server_tests refl)

IsDeserted-goes_on_example :
    (tested.server ≢ Server.closed)
    × ((tested.server ≡ Server.broken) ⊎ CanStep c_program list_stream tested)
IsDeserted-goes_on_example = IsDeserted-goes_on c_program list_stream deserted-IsDeserted two_steps

-- connect and bind fail.
starts-first_failure_test :
    (start_client (pos 2) (pos 3) (some (pos 2)) (negsuc 0)
      ≡ first_failure
          ((is_negative (pos 3), "socket")
            ∷ (is_none (some (pos 2)), "gethostbyname")
            ∷ (has_other_type (pos 2) (some (pos 2)), "bad address family")
            ∷ (is_negative (negsuc 0), "connect")
            ∷ [])
          (pos 3))
    × (start_server (pos 3) (negsuc 0) (pos 0) (pos 4)
        ≡ first_failure
            ((is_negative (pos 3), "socket")
              ∷ (is_negative (negsuc 0), "bind")
              ∷ (is_negative (pos 0), "listen")
              ∷ (is_negative (pos 4), "accept")
              ∷ [])
            (pos 4))
starts-first_failure_test =
    starts-first_failure (pos 2) (pos 3) (some (pos 2)) (negsuc 0) (negsuc 0) (pos 0) (pos 4)

unbound : start_server (pos 3) (negsuc 0) (pos 0) (pos 4) ≡ exits "bind"
unfolding start_server
unbound = refl
