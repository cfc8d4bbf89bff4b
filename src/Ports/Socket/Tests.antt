-- ===== src/Ports/Socket/Tests.antt =====
-- The start of the C++ client and server where the host is unknown, and where the port is taken.
use posix_intro.Common.{◌≡◌, refl, pos, negsuc, none}
use posix_intro.Common.Outcome.{exits}
use posix_intro.Socket.Setup.{start_client, start_server}
use posix_intro.Ports.Socket.Startup.{
  c_message, no_host, bad_address, what, make_client, make_server, outcome, starts-same_failures,
}

starts-same_failures_test :
    (outcome (make_client (pos 2) (pos 3) none (pos 0)) ≡ start_client (pos 2) (pos 3) none (pos 0))
    × (outcome (make_server (pos 3) (negsuc 0) (pos 0) (pos 4))
        ≡ start_server (pos 3) (negsuc 0) (pos 0) (pos 4))
starts-same_failures_test =
    starts-same_failures (pos 2) (pos 3) none (pos 0) (negsuc 0) (pos 0) (pos 4)

port_taken : outcome (make_server (pos 3) (negsuc 0) (pos 0) (pos 4)) ≡ exits "bind"
unfolding make_server c_message
port_taken = refl

-- Two classes have the same text.
same_text : what bad_address ≡ what no_host
unfolding what
same_text = refl
