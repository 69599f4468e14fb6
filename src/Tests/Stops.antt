-- ===== src/Tests/Stops.antt =====
-- Runs of the event loop in which a client stops the server or waits for a body that is not there.
use http_server_from_scratch.Tests.Setup.{idle, serving, env, table, shared}
use http_server_from_scratch.Connection.Machine.{connection_step_process}
use http_server_from_scratch.Connection.{
  ConnPhase, conn_reading_request, conn_reading_body_cl, System,
}
use http_server_from_scratch.HttpServer.{Poll, server_round}
use http_server_from_scratch.Network.{received, recv_again}
use http_server_from_scratch.Networking.{no_revents}
use http_server_from_scratch.Prelude.{Option, ◌≡◌, refl, true, false, [], ◌∷◌, codes, some, none}
use http_server_from_scratch.Tests.Program.{program}

-- A request that expects 100 Continue, on a socket that takes none of it: the server stops.
abbrev expecting : Poll
expecting = record {
  failed = false;
  env = env;
  listener_pollin = false;
  accepted = none;
  nonblocking = true;
  wakes =
      record {
        revents = record no_revents { has_pollin = true };
        recvs =
            received b'P' (
              codes
                "OST / HTTP/1.1\r\nHost: a\r\nContent-Length: 5\r\nExpect: 100-continue\r\n\r\n")
            ∷ recv_again
            ∷ [];
        sends = [];
      }
      ∷ [];
}

server_round_stops : server_round 606 table shared expecting ≡ none
unfolding program
server_round_stops = refl

abbrev phase_of : Option System → Option ConnPhase
phase_of none = none
phase_of (some s) = some s.conn.phase

-- A slot whose last connection ended in the middle of a body of 50 bytes.
abbrev reused : System
reused = record serving { conn = record idle { body_len = 50 } }

-- The first request of the next client, which has no body, is taken to have one of 50 bytes.
body_len_stale : phase_of (connection_step_process 606 env reused) ≡ some conn_reading_body_cl
unfolding program
body_len_stale = refl

-- The same request is answered on a fresh slot.
body_len_fresh : phase_of (connection_step_process 606 env serving) ≡ some conn_reading_request
unfolding program
body_len_fresh = refl
