-- ===== src/Socket/Setup.antt =====
-- How the client and the server come to their connection: the functions of c/ipc/include/socket.h and
-- the starts of client.c and server.c, over what the system calls return. `report(msg, true)` is
-- `exits`.
use Prim.Native.String.{String}
use posix_intro.Common.{
  ◌≡◌, ℤ, pos, negsuc, eq_ℤ, Bool, true, false, not, Option, none, some, List, [], ◌∷◌,
  if◌then◌else◌, arith,
}
use posix_intro.Common.Outcome.{Outcome, ok, exits, ◌>>=◌}

-- `r < 0`
abbrev pub is_negative : ℤ → Bool
is_negative (pos n) = false
is_negative (negsuc n) = true

pub create_socket : (socket_fd : ℤ) → Outcome ℤ
create_socket socket_fd = if is_negative socket_fd then exits "socket" else ok socket_fd

-- `get_address`, where `gethostbyname` returns NULL or a host with this type of address.
pub get_address : (af_inet : ℤ) → Option ℤ → Outcome (Unit {0})
get_address af_inet none = exits "gethostbyname"
get_address af_inet (some h_addrtype) =
    if eq_ℤ h_addrtype af_inet then ok tt else exits "bad address family"

pub connect_to_server : (connect : ℤ) → Outcome (Unit {0})
connect_to_server connect = if is_negative connect then exits "connect" else ok tt

pub bind_to_server : (bind listen : ℤ) → Outcome (Unit {0})
bind_to_server bind listen =
    if is_negative bind then exits "bind" else if is_negative listen then exits "listen" else ok tt

-- `main` of client.c up to its loop: the descriptor that it uses.
unfoldable pub start_client : (af_inet socket_fd : ℤ) → Option ℤ → (connect : ℤ) → Outcome ℤ
unfolding create_socket get_address connect_to_server
start_client af_inet socket_fd host connect = do
  client_fd ← create_socket socket_fd
  address ← get_address af_inet host
  connected ← connect_to_server connect
  ok client_fd

-- The test of `accept` in `main` of server.c.
pub accepted : (accept : ℤ) → Outcome ℤ
accepted accept = if is_negative accept then exits "accept" else ok accept

-- `main` of server.c up to its loop.
unfoldable pub start_server : (socket_fd bind listen accept : ℤ) → Outcome ℤ
unfolding create_socket bind_to_server accepted
start_server socket_fd bind listen accept = do
  server_fd ← create_socket socket_fd
  bound ← bind_to_server bind listen
  client_fd ← accepted accept
  ok client_fd

-- The first of these calls that fails gives its message; where none fails the value is returned.
pub first_failure : List (Bool × String) → ℤ → Outcome ℤ
first_failure [] fd = ok fd
first_failure ((failed, message) ∷ calls) fd =
    if failed then exits message else first_failure calls fd

abbrev pub is_none : Option ℤ → Bool
is_none none = true
is_none (some a) = false

abbrev pub has_other_type : ℤ → Option ℤ → Bool
has_other_type af_inet none = false
has_other_type af_inet (some t) = not (eq_ℤ t af_inet)

-- The client exits with the message of the first call that fails, in the order socket, gethostbyname,
-- the test of the address, connect; where none fails it uses the descriptor of its socket. The server
-- does so in the order socket, bind, listen, accept, and uses the descriptor that accept returns.
pub starts-first_failure :
    (af_inet socket_fd : ℤ) (host : Option ℤ) (connect bind listen accept : ℤ)
    → (start_client af_inet socket_fd host connect
        ≡ first_failure
            ((is_negative socket_fd, "socket")
              ∷ (is_none host, "gethostbyname")
              ∷ (has_other_type af_inet host, "bad address family")
              ∷ (is_negative connect, "connect")
              ∷ [])
            socket_fd)
      × (start_server socket_fd bind listen accept
          ≡ first_failure
              ((is_negative socket_fd, "socket")
                ∷ (is_negative bind, "bind")
                ∷ (is_negative listen, "listen")
                ∷ (is_negative accept, "accept")
                ∷ [])
              accept)
unfolding start_client start_server first_failure
starts-first_failure af_inet socket_fd none connect bind listen accept =
    (ground arith, ground arith)
starts-first_failure af_inet socket_fd (some t) connect bind listen accept =
    (ground arith, ground arith)
