-- ===== src/Ports/Pipe/Tests.antt =====
-- A run of the C++ two-way pipe, and the theorem on it.
use posix_intro.Common.{ℕ, ◌≡◌, refl, ◌⊎◌, true, replicate, pos, negsuc, List, [], ◌∷◌}
use posix_intro.Common.Channel.{list_channel}
use posix_intro.Common.Stdio.{newline, getline_array}
use posix_intro.Pipe.{parent, Event, fills, writes, System, parent_moves, start, later}
use posix_intro.Pipe.Ending.{HasStep, Finished}
use posix_intro.Ports.Pipe.{buff_size, cpp_program, throws_bad_exception, run_as, PipeRuns}
use posix_intro.Ports.Pipe.Ending.{PipeRuns-settled}

-- What stands in the array once "ok" has been typed.
abbrev ok_text : List ℕ
ok_text = b'o' ∷ b'k' ∷ replicate 18 0

ok_lem : ok_text ≡ getline_array 19 (replicate buff_size 0) true (b'o' ∷ b'k' ∷ newline ∷ [])
unfolding getline_array
ok_lem = refl

record Run : Type 0 where
  events : List Event
  last : System cpp_program list_channel
  runs : PipeRuns list_channel events last

abbrev asked : Run
asked = record {
  events = _;
  last = _;
  runs =
      later
        (later start
          (parent_moves (fills {m = ok_text} refl refl (true, b'o' ∷ b'k' ∷ newline ∷ [], ok_lem))))
        (parent_moves (writes refl refl tt));
}

PipeRuns-settled_test :
    HasStep cpp_program list_channel asked.last ⊎ Finished cpp_program list_channel asked.last
PipeRuns-settled_test = PipeRuns-settled list_channel asked.runs

one_pipe_fails : throws_bad_exception (pos 0) (negsuc 0) ≡ true
unfolding throws_bad_exception
one_pipe_fails = refl

forked : run_as (pos 0) ≡ parent
unfolding run_as
forked = refl
