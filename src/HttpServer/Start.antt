-- ===== src/HttpServer/Start.antt =====
-- The start of `server_run` in src/HttpServer.c. What strtol(3) reads and the socket that
-- `listener_socket_get` returns are given; so is the test that compares a route's method with the
-- literal of GET.
use http_server_from_scratch.Body.Chunk.{decoder_zero}
use http_server_from_scratch.Body.TransferEncoding.{te_none}
use http_server_from_scratch.Config.{http_max_connections}
use http_server_from_scratch.Connection.{Connection, conn_reading_request, stream_header}
use http_server_from_scratch.Network.{HttpBuffer}
use http_server_from_scratch.Networking.{no_events, no_revents, Slot, ClientSet}
use http_server_from_scratch.Prelude.{
  ℕ, zero, suc, Bool, true, false, not, ◌||◌, ltb, leb, ◌==◌, if◌then◌else◌, List, [], ◌∷◌, length,
  CString, Option, none, some,
}
use http_server_from_scratch.Request.{request_zero}
use http_server_from_scratch.Router.Content.{ContentRegistry}
use http_server_from_scratch.Router.{Route, router_has_duplicate_routes}

-- `long`: a number from 0 on, or `negsuc n` for -n - 1.
pub data ℤ : Type 0 where
  pos negsuc : ℕ → ℤ

-- What `strtol(str, &end_ptr, 10)` leaves: the number, errno, and how many bytes `end_ptr` is behind
-- `str`.
pub record Strtol : Type 0 where
  pub num : ℤ
  pub errno : ℕ
  pub end_ptr : ℕ

-- `num <= 0 || num > 65535`
abbrev pub out_of_range : ℤ → Bool
out_of_range (negsuc n) = true
out_of_range (pos n) = leb n 0 || ltb 65535 n

unfoldable pub server_port_valid : (CString → Strtol) → CString → ℕ
server_port_valid strtol str =
    let r = strtol str in
    if not (r.errno == 0) || not (r.end_ptr == length str) || r.end_ptr == 0
    then 1
    else if out_of_range r.num
    then 1
    else 0

-- A connection of the static table: all bytes are 0.
abbrev pub connection_zero : Connection
connection_zero =
    let buffer : HttpBuffer = record { cap = 0; size = 0; buffer = 0 } in
    record {
      phase = conn_reading_request;
      keep_alive = false;
      arena = record { base = 0; cap = 0; used = 0 };
      req_mark = 0;
      req_buf = buffer;
      resp_buf = buffer;
      body_dechunked = buffer;
      req_parsed = request_zero;
      body_start = 0;
      body_len = 0;
      body_coding = te_none;
      producer = none;
      next_req_offset = 0;
      requests = 0;
      st_cl_received = 0;
      st_chunked = record { consumed = 0; dec = decoder_zero };
      st_send_sent = 0;
      st_stream_phase = stream_header;
      st_stream_sent = 0;
    }

-- The loop that marks the clients as free.
unfoldable pub free_slots : ℕ → List Slot
free_slots zero = []
free_slots (suc n) =
    record {
      poll_fd = record { fd = none; events = no_events; revents = no_revents };
      conn = connection_zero;
    }
    ∷ free_slots n

-- How the start ends: `exit(EXIT_FAILURE)`, or the loop begins with a table of free slots.
pub data Started : Type 0 where
  exit_failure : Started
  running : ClientSet → Started

unfoldable pub server_start :
    (CString → Strtol)
    → (Route → Bool)
    → ContentRegistry
    → List Route
    → ℕ
    → CString
    → Option ℕ
    → Started
server_start strtol same_literal registry routes arena_backing port listener =
    if not (server_port_valid strtol port == 0)
    then exit_failure
    else if router_has_duplicate_routes same_literal registry routes
    then exit_failure
    else elim listener [
      | none ↦ exit_failure
      | some fd ↦ running (record {
        slots = free_slots http_max_connections;
        arena_backing = arena_backing;
        refused = [];
      })
    ]
