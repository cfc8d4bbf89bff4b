-- ===== src/Socket.antt =====
-- c/ipc/include/socket.h, c/ipc/message_passing/socket/client.c and server.c: a client that sends
-- the lines typed over a connection, and a server that sends each back, up to one that begins with
-- "done". Both processes interleave in any order.
--
-- Of each array the BUFFER_SIZE bytes are modelled that are sent, read and shown. A read may bring
-- fewer bytes than were written. The connection is two Streams.
pub mod Phases
pub mod Echo
pub mod Ending
pub mod Lost
pub mod Setup
mod Tests
use posix_intro.Common.{
  ℕ, zero, suc, ◌+◌, ◌-◌, ◌≤◌, ◌<◌, ◌≡◌, refl, ap, ◌∙◌, Bool, true, false, ◌&&◌, ◌||◌, leb, ◌==◌,
  List, [], ◌∷◌, ◌++◌, length, replicate, if◌then◌else◌,
}
use posix_intro.Common.Stream.{Stream}
use posix_intro.Common.Stdio.{
  fgets_array, strtok_array, overlay, length-fgets_array, length-strtok_array,
}

-- BUFFER_SIZE
abbrev pub buffer_size : ℕ
buffer_size = 20

-- Whether a byte is this lower case letter, or its upper case one.
abbrev pub is_letter : ℕ → ℕ → Bool
is_letter l c = c == l || c + 32 == l

-- `strncasecmp(text, "done", 4) == 0`
unfoldable pub is_done : List ℕ → Bool
is_done (a ∷ b ∷ c ∷ d ∷ rest) =
    is_letter b'd' a && is_letter b'o' b && is_letter b'n' c && is_letter b'e' d
is_done _ = false

-- Before which statement of its loop the client stands, and the server. A client may be lost at any
-- time, by a signal; `broken` is what SIGPIPE makes of a process.
pub data Client : Type 0 where
  prompting writing reading testing closed lost broken : Client

pub data Server : Type 0 where
  reading echoing testing closed broken : Server

-- Whether a process still has its end of the connection.
abbrev pub client_there : Client → Bool
client_there closed = false
client_there lost = false
client_there broken = false
client_there _ = true

abbrev pub server_there : Server → Bool
server_there closed = false
server_there broken = false
server_there _ = true

-- What one step does: the client sends its array, or shows the one received; a read brings a number
-- of bytes; the client is lost.
pub data Event : Type 0 where
  quiet : Event
  sent : (text : List ℕ) → Event
  shown : (read : ℕ) → (text : List ℕ) → Event
  served : (read : ℕ) → Event
  lost_client : Event

-- What the client programs differ in: how the prompt fills the array, which array is tested at the
-- end of the loop, and where a read that fails leads.
pub record Program : Type 1 where
  pub Fills : List ℕ → List ℕ → Type 0
  pub Fills_total : (old : List ℕ) → (new : List ℕ) × Fills old new
  pub Fills-length :
      (old new : List ℕ) → Fills old new → length old ≡ buffer_size → length new ≡ buffer_size
  pub tested : (buffer received : List ℕ) → List ℕ
  pub tested_same : (m : List ℕ) → tested m m ≡ m
  pub after_failure : Client

-- The prompt of client.c: `memset`, `fgets` and `strtok`, where `stdin` holds any bytes.
abbrev pub c_prompt : (stdin : List ℕ) → List ℕ
c_prompt stdin = strtok_array (fgets_array (buffer_size - 1) (replicate buffer_size 0) stdin)

pub c_prompt-length :
    (old new : List ℕ)
    → ((stdin : List ℕ) × (new ≡ c_prompt stdin))
    → length old ≡ buffer_size
    → length new ≡ buffer_size
c_prompt-length old new (stdin, e) h =
    ap length e
    ∙ length-strtok_array _
    ∙ length-fgets_array (buffer_size - 1) (replicate buffer_size 0) stdin

-- client.c, which tests what it has received.
abbrev pub c_program : Program
c_program = record {
  Fills = λ old new. (stdin : List ℕ) × (new ≡ c_prompt stdin);
  Fills_total = λ old. (_, ([], refl));
  Fills-length = c_prompt-length;
  tested = λ buffer received. received;
  tested_same = λ m. refl;
  after_failure = prompting;
}

module _ (prog : Program) (st : Stream) where
  -- The connection's directions to the server and to the client, the arrays `buffer` and `received`
  -- of the client and `buffer` of the server, and where both processes stand.
  pub record System : Type 0 where
    pub up : st.Flow
    pub down : st.Flow
    pub buffer : List ℕ
    pub received : List ℕ
    pub server_buffer : List ℕ
    pub client : Client
    pub server : Server

  pub data Step (s : System) : Event → System → Type 0 where
    prompts :
        {m : List ℕ}
        → s.client ≡ prompting
        → prog.Fills s.buffer m
        → Step s quiet (record s { buffer = m; client = writing })
    sends :
        s.client ≡ writing
        → st.CanPut s.up
        → Step s (sent s.buffer) (record s { up = st.put s.up s.buffer; client = Client.reading })
    send_breaks :
        s.client ≡ writing
        → server_there s.server ≡ false
        → Step s quiet (record s { client = Client.broken })
    reads :
        (xs ys : List ℕ)
        → s.client ≡ Client.reading
        → st.bytes s.down ≡ xs ++ ys
        → 0 < length xs
        → length xs ≤ buffer_size
        → Step s (shown (length xs) (overlay xs s.received)) (record s {
          down = st.take s.down (length xs);
          received = overlay xs s.received;
          client = Client.testing;
        })
    -- The server has closed: a read returns 0, or -1 if the connection was reset.
    reads_end :
        s.client ≡ Client.reading
        → st.bytes s.down ≡ []
        → server_there s.server ≡ false
        → Step s quiet (record s { client = prog.after_failure })
    read_fails :
        s.client ≡ Client.reading
        → server_there s.server ≡ false
        → Step s (shown 0 s.received) (record s { client = Client.testing })
    tests :
        s.client ≡ Client.testing
        → Step s quiet (record s {
          client = if is_done (prog.tested s.buffer s.received) then Client.closed else prompting;
        })
    loses : client_there s.client ≡ true → Step s lost_client (record s { client = lost })
    serves :
        (xs ys : List ℕ)
        → s.server ≡ Server.reading
        → st.bytes s.up ≡ xs ++ ys
        → 0 < length xs
        → length xs ≤ buffer_size
        → Step s (served (length xs)) (record s {
          up = st.take s.up (length xs);
          server_buffer = overlay xs s.server_buffer;
          server = echoing;
        })
    -- The client has gone: a read returns 0, or -1; a write may raise SIGPIPE.
    serves_nothing :
        s.server ≡ Server.reading
        → client_there s.client ≡ false
        → Step s quiet (record s { server = Server.testing })
    echoes :
        s.server ≡ echoing
        → st.CanPut s.down
        → Step s quiet (record s { down = st.put s.down s.server_buffer; server = Server.testing })
    echo_breaks :
        s.server ≡ echoing
        → client_there s.client ≡ false
        → Step s quiet (record s { server = Server.broken })
    server_tests :
        s.server ≡ Server.testing
        → Step s quiet (record s {
          server = if is_done s.server_buffer then Server.closed else Server.reading;
        })

  -- Both processes once the connection stands; the server's array is not set, in C.
  abbrev pub start_system : (server_buffer : List ℕ) → System
  start_system server_buffer = record {
    up = st.empty;
    down = st.empty;
    buffer = replicate buffer_size 0;
    received = replicate buffer_size 0;
    server_buffer = server_buffer;
    client = prompting;
    server = Server.reading;
  }

  pub data Runs (server_buffer : List ℕ) : List Event → System → Type 0 where
    start : Runs server_buffer [] (start_system server_buffer)
    later :
        {es : List Event} {e : Event} {s t : System}
        → Runs server_buffer es s
        → Step s e t
        → Runs server_buffer (es ++ e ∷ []) t
