-- ===== src/Connection/Safety.antt =====
-- What holds of a connection of src/Connection.c in each of its phases, and how a step goes on.
pub mod Sending
pub mod Reading
pub mod Bodies
pub mod Answering
pub mod Building
pub mod Pulling
pub mod Run
use http_server_from_scratch.Arena.Blocks.{IsArena}
use http_server_from_scratch.Arena.{Arena}
use http_server_from_scratch.Body.ContentLength.{IsClReader}
use http_server_from_scratch.Body.Total.{IsReader}
use http_server_from_scratch.Config.{http_max_requests, http_response_buffer_size}
use http_server_from_scratch.Connection.Step.{continue_100}
use http_server_from_scratch.Connection.{
  ConnPhase, conn_reading_request, conn_reading_body_cl, conn_reading_body_chunked,
  conn_sending_100, conn_building, conn_sending_response, conn_sending_response_stream, conn_closed,
  StreamPhase, stream_header, stream_pull, stream_drain, stream_trailer, stream_done, Connection,
  System, Env, StepResult,
}
use http_server_from_scratch.Headers.{Header}
use http_server_from_scratch.Memory.{size_mod}
use http_server_from_scratch.Network.{HttpBuffer}
use http_server_from_scratch.Prelude.{
  arith, ℕ, true, All, ◌+◌, ◌≤◌, ◌<◌, ◌≡◌, ◌⊎◌, length, List, CString, Option, none, some,
}
use http_server_from_scratch.Request.Block.{AreHeaders}
use http_server_from_scratch.Response.{Stream}
use http_server_from_scratch.Router.Content.{ContentRegistry}
use http_server_from_scratch.Router.Scratch.{IsRoute}
use http_server_from_scratch.Router.Safety.{IsRegistry}
use Prim.{⊥}

-- What holds in every phase: the request buffer has a place and is within its capacity, which fits
-- `size_t`; the response buffer has its full capacity; the headers stored are well formed and fit
-- their array; the arena begins at a multiple of 4 and can be rewound to the mark; the content
-- registry, which the connections share, is well formed; the descriptor is not 0, and the other two
-- buffers are not NULL.
pub record IsSound (req_buf : HttpBuffer) (resp_cap : ℕ) (stored : List Header) (scratch : Arena)
    (start : ℕ) (content : ContentRegistry) (descriptor resp_place dechunked_place : ℕ)
    : Type 0 where
  pub place : 0 < req_buf.buffer
  pub input : req_buf.size ≤ req_buf.cap
  pub word : req_buf.cap < size_mod
  pub output : resp_cap ≡ http_response_buffer_size
  pub headers : AreHeaders stored
  pub mark : start ≤ scratch.used
  pub arena : IsArena 2 scratch
  pub registry : IsRegistry content
  pub socket : 0 < descriptor
  pub response : 0 < resp_place
  pub decoded : 0 < dechunked_place

-- A buffer that stays in its place and within its capacity changes nothing else.
pub moved-IsSound :
    {b c : HttpBuffer} {resp_cap mark : ℕ} {headers : List Header} {arena : Arena}
    {registry : ContentRegistry} {fd resp dechunked : ℕ}
    → IsSound b resp_cap headers arena mark registry fd resp dechunked
    → (c.buffer ≡ b.buffer) × (c.cap ≡ b.cap)
    → c.size ≤ c.cap
    → IsSound c resp_cap headers arena mark registry fd resp dechunked
moved-IsSound w same le = record {
  place = omega (arith, same, w.place);
  input = le;
  word = omega (arith, same, w.word);
  output = w.output;
  headers = w.headers;
  mark = w.mark;
  arena = w.arena;
  registry = w.registry;
  socket = w.socket;
  response = w.response;
  decoded = w.decoded;
}

abbrev pub IsConnection : System → Type 0
IsConnection s =
    IsSound s.conn.req_buf s.conn.resp_buf.cap s.conn.req_parsed.headers s.conn.arena
      s.conn.req_mark s.registry s.fd s.conn.resp_buf.buffer s.conn.body_dechunked.buffer

-- The producer is there, and its `pull` is not NULL.
abbrev pub IsProducer : Option Stream → Type 0
IsProducer none = ⊥
IsProducer (some p) = p.pull ≡ true

-- Some of the response is not yet sent, where the phase sends; the producer is there, where a phase to
-- come pulls from it.
abbrev pub InStream : StreamPhase → Connection → Type 0
InStream stream_header c = (c.st_stream_sent < c.resp_buf.size) × IsProducer c.producer
InStream stream_pull c = IsProducer c.producer
InStream stream_drain c = (c.st_stream_sent < c.resp_buf.size) × IsProducer c.producer
InStream stream_trailer c = c.st_stream_sent < c.resp_buf.size
InStream stream_done c = Unit {0}

-- What the steps of a phase rely on.
abbrev pub InPhase : ConnPhase → System → Type 0
InPhase conn_reading_request s = Unit {0}
InPhase conn_reading_body_cl s =
    IsClReader s.conn.body_start
      (record { memory = s.memory; req = s.conn.req_buf; received = s.conn.st_cl_received })
InPhase conn_reading_body_chunked s = IsReader s.conn.body_start (record {
  memory = s.memory;
  req_buf = s.conn.req_buf;
  dechunked = s.conn.body_dechunked;
  st = s.conn.st_chunked;
})
InPhase conn_sending_100 s =
    (s.conn.st_send_sent < length continue_100) × (s.conn.body_start ≤ s.conn.req_buf.size)
InPhase conn_building s = s.conn.next_req_offset ≤ s.conn.req_buf.size
InPhase conn_sending_response s = s.conn.st_send_sent < s.conn.resp_buf.size
InPhase conn_sending_response_stream s = InStream s.conn.st_stream_phase s.conn
InPhase conn_closed s = Unit {0}

pub record IsSafe (phase : ConnPhase) (s : System) : Type 0 where
  pub sound : IsConnection s
  pub in_phase : InPhase phase s

-- How far the phase is in the answer to one request.
abbrev pub rank : ConnPhase → ℕ
rank conn_reading_request = 0
rank conn_sending_100 = 1
rank conn_reading_body_cl = 2
rank conn_reading_body_chunked = 2
rank conn_building = 3
rank conn_sending_response = 4
rank conn_sending_response_stream = 4
rank conn_closed = 5

-- A phase whose step may leave the connection in it: all but the one that builds the response.
abbrev pub Waits : ConnPhase → Type 0
Waits conn_building = ⊥
Waits _ = Unit {0}

-- A step stays in a phase that may wait, closes the connection, comes further with the request, or
-- goes on to the next one, of which there are fewer than `http_max_requests`.
abbrev pub Advances : ConnPhase → ℕ → ConnPhase → ℕ → Type 0
Advances p n q k =
    ((q ≡ p) × Waits p)
    ⊎ (q ≡ conn_closed)
    ⊎ ((k ≡ n) × (rank p < rank q))
    ⊎ ((q ≡ conn_reading_request) × (k ≡ n + 1) × (k < http_max_requests))

-- The result of a step from a phase, with so many requests served before: no assertion failed and no
-- loop ran out of its rounds, what holds in the next phase holds, and the step goes on as above.
abbrev pub Steps : ConnPhase → ℕ → StepResult → Type 0
Steps p n none = ⊥
Steps p n (some (q, t)) = IsSafe q t × Advances p n q t.conn.requests

-- The time of day can be written, in at most 64 bytes.
abbrev pub IsDated : Env → Type 0
IsDated env = (d : CString) × (env.date ≡ some d) × (length d ≤ 64)

-- What a step is given: a time of day as above, and routes whose handlers are as `IsRoute` says.
abbrev pub IsEnv : Env → Type 0
IsEnv env = IsDated env × All IsRoute env.routes
