-- ===== src/Ports/Socket.antt =====
-- cpp/ipc/message_passing/socket/sockets.hh with client.cc and server.cc: the echo of task 7 in C++.
-- `Client::run` and `Server::run` are the loops of the C programs, with `getline` at the prompt, with
-- the test on what was sent in place of what was received, and with a `continue` that leads to that
-- test. The calls before the loops throw exceptions where the C code exits.
pub mod Startup
mod Tests
use Prim.Native.String.{String}
use posix_intro.Common.{
  ℕ, ◌-◌, ◌≡◌, refl, ◌∙◌, ℤ, eq_ℤ, Bool, true, Option, none, some, List, [], length, if◌then◌else◌,
}
use posix_intro.Common.Stream.{Stream}
use posix_intro.Common.Stdio.{getline_array, length-getline_array}
use posix_intro.Socket.{buffer_size, Client, Event, Program, System, Runs}
use posix_intro.Socket.Setup.{is_negative}

-- `getline(msg, buffer)`, on a stream that may have failed before.
abbrev pub cpp_prompt : List ℕ → (good : Bool) → List ℕ → List ℕ
cpp_prompt old good stdin = getline_array (buffer_size - 1) old good stdin

pub cpp_prompt-length :
    (old new : List ℕ)
    → ((good : Bool) × (stdin : List ℕ) × (new ≡ cpp_prompt old good stdin))
    → length old ≡ buffer_size
    → length new ≡ buffer_size
cpp_prompt-length old new (good, stdin, e) h =
    rw e (length-getline_array (buffer_size - 1) old good stdin ∙ h)

-- `Client::run`
abbrev pub cpp_program : Program
cpp_program = record {
  Fills = λ old new. (good : Bool) × (stdin : List ℕ) × (new ≡ cpp_prompt old good stdin);
  Fills_total = λ old. (_, (true, [], refl));
  Fills-length = cpp_prompt-length;
  tested = λ buffer received. buffer;
  tested_same = λ m. refl;
  after_failure = Client.testing;
}
