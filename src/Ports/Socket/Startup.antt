-- ===== src/Ports/Socket/Startup.antt =====
-- The exceptions of cpp/ipc/message_passing/socket/sockets.hh, and the calls that throw them, against
-- the exits of the C programs.
use Prim.Native.String.{String}
use posix_intro.Common.{◌≡◌, ℤ, eq_ℤ, Option, none, some, if◌then◌else◌, arith}
use posix_intro.Common.Outcome.{Outcome, ok, exits}
use posix_intro.Socket.Setup.{is_negative, start_client, start_server}

-- The classes of `Socket::Exception`.
pub data Exc : Type 0 where
  cannot_socket cannot_connect cannot_bind cannot_listen no_host bad_address cannot_accept : Exc

-- `what`
unfoldable pub what : Exc → String
what cannot_socket = "Cannot connect to socket"
what cannot_connect = "Cannot connect"
what cannot_bind = "Cannot bind"
what cannot_listen = "Cannot Listen"
what no_host = "Cannot get host by name"
what bad_address = "Cannot get host by name"
what cannot_accept = "Cannot accept"

-- What a piece of code returns, or the exception that it throws.
pub data Thrown (A : Type 0) : Type 0 where
  returned : A → Thrown A
  thrown : Exc → Thrown A

infixl 5 ◌>>=◌
abbrev pub ◌>>=◌ : {A B : Type 0} → Thrown A → (A → Thrown B) → Thrown B
returned a >>= f = f a
thrown e >>= f = thrown e

-- `Common::create_socket`
pub create_socket : (socket_fd : ℤ) → Thrown ℤ
create_socket socket_fd = if is_negative socket_fd then thrown cannot_socket else returned socket_fd

-- `Client::get_address`, where `gethostbyname` returns NULL or a host with this type of address.
pub get_address : (af_inet : ℤ) → Option ℤ → Thrown (Unit {0})
get_address af_inet none = thrown no_host
get_address af_inet (some h_addrtype) =
    if eq_ℤ h_addrtype af_inet then returned tt else thrown bad_address

-- `Client::connect_to_server`
pub connect_to_server : (connect : ℤ) → Thrown (Unit {0})
connect_to_server connect = if is_negative connect then thrown cannot_connect else returned tt

-- `Client::Client`, and `Client::run` up to its loop.
unfoldable pub make_client : (af_inet socket_fd : ℤ) → Option ℤ → (connect : ℤ) → Thrown ℤ
unfolding create_socket get_address connect_to_server
make_client af_inet socket_fd host connect = do
  client_fd ← create_socket socket_fd
  h_ptr ← get_address af_inet host
  connected ← connect_to_server connect
  returned client_fd

-- `Server::bind_to_server`
pub bind_to_server : (bind listen : ℤ) → Thrown (Unit {0})
bind_to_server bind listen =
    if is_negative bind
    then thrown cannot_bind
    else if is_negative listen
    then thrown cannot_listen
    else returned tt

-- `Server::Server`
unfoldable pub make_server : (socket_fd bind listen accept : ℤ) → Thrown ℤ
unfolding create_socket bind_to_server
make_server socket_fd bind listen accept = do
  server_fd ← create_socket socket_fd
  bound ← bind_to_server bind listen
  if is_negative accept then thrown cannot_accept else returned accept

-- The message that the C program gives `perror` in the place of each exception.
unfoldable pub c_message : Exc → String
c_message cannot_socket = "socket"
c_message cannot_connect = "connect"
c_message cannot_bind = "bind"
c_message cannot_listen = "listen"
c_message no_host = "gethostbyname"
c_message bad_address = "bad address family"
c_message cannot_accept = "accept"

abbrev pub outcome : Thrown ℤ → Outcome ℤ
outcome (returned fd) = ok fd
outcome (thrown e) = exits (c_message e)

-- For all results of the system calls, the C++ client throws exactly where the C client exits, the
-- exception that stands for its message, and uses the same descriptor where it does not; and so does
-- the server.
pub starts-same_failures :
    (af_inet socket_fd : ℤ) (host : Option ℤ) (connect bind listen accept : ℤ)
    → (outcome (make_client af_inet socket_fd host connect)
        ≡ start_client af_inet socket_fd host connect)
      × (outcome (make_server socket_fd bind listen accept)
          ≡ start_server socket_fd bind listen accept)
unfolding make_client make_server start_client start_server c_message
starts-same_failures af_inet socket_fd none connect bind listen accept =
    (ground arith, ground arith)
starts-same_failures af_inet socket_fd (some t) connect bind listen accept =
    (ground arith, ground arith)
