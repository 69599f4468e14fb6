-- ===== src/Connection.antt =====
-- src/Connection.h and the helpers of src/Connection.c: the state of one connection and what its
-- steps share. `Connection.Header` and `Connection.Step` hold the steps.
pub mod Header
pub mod Step
pub mod Receive
pub mod Safety
pub mod Build
pub mod Streaming
pub mod Machine
pub mod Reset
pub mod Rounds
pub mod Framing
use http_server_from_scratch.Arena.{Arena, arena_reset_to}
use http_server_from_scratch.Body.Chunk.{decoder_zero}
use http_server_from_scratch.Body.Read.{ChunkedBodySt}
use http_server_from_scratch.Body.TransferEncoding.{
  TransferCoding, te_none, te_chunked, te_unsupported,
}
use http_server_from_scratch.Memory.{Memory, null, size_mod, memcpy}
use http_server_from_scratch.Network.{HttpBuffer, Recv, Send, store}
use http_server_from_scratch.ParseResult.{ParseStatus}
use http_server_from_scratch.Prelude.{
  ◌>>=◌, ℕ, ◌+◌, ◌-◌, ◌%◌, Bool, true, false, List, [], ◌∷◌, ltb, leb, ◌==◌, if◌then◌else◌, length,
  CString, Option, none, some,
}
use http_server_from_scratch.Request.{HttpRequest, request_zero}
use http_server_from_scratch.Response.{Stream, response_error_serialize}
use http_server_from_scratch.Router.Content.{Files, ContentRegistry}
use http_server_from_scratch.Router.{Route}

pub data ConnPhase : Type 0 where
  conn_reading_request conn_reading_body_cl conn_reading_body_chunked conn_sending_100 : ConnPhase
  conn_building conn_sending_response conn_sending_response_stream conn_closed : ConnPhase

pub data StreamPhase : Type 0 where
  stream_header stream_pull stream_drain stream_trailer stream_done : StreamPhase

-- The arms of the union `st` are fields here: each is written on the way into the phase that reads
-- it. `producer` is `none` when its functions are NULL.
pub record Connection : Type 0 where
  pub phase : ConnPhase
  pub keep_alive : Bool
  pub arena : Arena
  pub req_mark : ℕ
  pub req_buf : HttpBuffer
  pub resp_buf : HttpBuffer
  pub body_dechunked : HttpBuffer
  pub req_parsed : HttpRequest
  pub body_start : ℕ
  pub body_len : ℕ
  pub body_coding : TransferCoding
  pub producer : Option Stream
  pub next_req_offset : ℕ
  pub requests : ℕ
  pub st_cl_received : ℕ
  pub st_chunked : ChunkedBodySt
  pub st_send_sent : ℕ
  pub st_stream_phase : StreamPhase
  pub st_stream_sent : ℕ

-- What a step works on: the connection and its field `fd`, which no step changes, memory, the calls of recv and send to come, the bytes sent
-- so far, the content registry, and how often a producer's `cleanup` was called.
pub record System : Type 0 where
  pub fd : ℕ
  pub conn : Connection
  pub memory : Memory
  pub recvs : List Recv
  pub sends : List Send
  pub wire : List ℕ
  pub registry : ContentRegistry
  pub cleanups : ℕ

-- What a step is given: the route table, the file system, and the text of the current time.
pub record Env : Type 0 where
  pub routes : List Route
  pub files : Files
  pub date : Option CString

-- A step returns the next phase; `none` is a failed assert, or a loop whose rounds are used up.
abbrev pub StepResult : Type 0
StepResult = Option (ConnPhase × System)

abbrev pub set_conn : System → Connection → System
set_conn s c = record s { conn = c }

-- Bytes written to `resp_buf` from its start on, with its new size.
abbrev pub resp_written : System → List ℕ → System
resp_written s bytes = record s {
  memory = store s.memory s.conn.resp_buf.buffer bytes;
  conn = record s.conn { resp_buf = record s.conn.resp_buf { size = length bytes } };
}

unfoldable pub phase_send_begin : System → StepResult
phase_send_begin s = some (conn_sending_response, set_conn s (record s.conn { st_send_sent = 0 }))

unfoldable pub phase_send_100_begin : System → StepResult
phase_send_100_begin s = some (conn_sending_100, set_conn s (record s.conn { st_send_sent = 0 }))

-- The result of `response_error_serialize` in the buffer, and the phase that sends it. The result -1
-- becomes the largest size.
unfoldable pub error_begin : System → Option (List ℕ) → StepResult
unfolding phase_send_begin
error_begin s (some bytes) = phase_send_begin (resp_written s bytes)
error_begin s none =
    let resp = record s.conn.resp_buf { size = size_mod - 1 } in
    phase_send_begin (set_conn s (record s.conn { resp_buf = resp }))

-- `response_error_serialize(&conn->mem.resp_buf, status); return phase_send_begin(conn);`.
unfoldable pub send_error_response : Env → System → ParseStatus → StepResult
send_error_response env s status =
    error_begin s (response_error_serialize status s.conn.resp_buf.cap env.date)

abbrev pub is_chunked : TransferCoding → Bool
is_chunked te_chunked = true
is_chunked _ = false

abbrev pub is_unsupported : TransferCoding → Bool
is_unsupported te_unsupported = true
is_unsupported _ = false

-- `a - b` on `size_t`
abbrev pub sub_size : ℕ → ℕ → ℕ
sub_size a b = (a + size_mod - b) % size_mod

unfoldable pub phase_body_dispatch : System → StepResult
phase_body_dispatch s =
    let c = s.conn in
    if is_chunked c.body_coding
    then some (
      conn_reading_body_chunked,
      set_conn s (record c {
        st_chunked = record { consumed = 0; dec = decoder_zero };
        body_dechunked = record c.body_dechunked { size = 0 };
      }),
    )
    else if c.body_len == 0
    then some (
      conn_building,
      set_conn s (record c {
        req_parsed = record c.req_parsed { body_len = 0; body = null };
        next_req_offset = c.body_start;
      }),
    )
    else if leb c.body_start c.req_buf.size
    then some (
      conn_reading_body_cl,
      set_conn s (record c { st_cl_received = sub_size c.req_buf.size c.body_start }),
    )
    else none

unfoldable pub request_consume : System → System
unfolding memcpy
request_consume s =
    let c = s.conn in
    let pipelined = sub_size c.req_buf.size c.next_req_offset in
    if ltb 0 c.next_req_offset
    then record s {
      memory = memcpy s.memory c.req_buf.buffer (c.req_buf.buffer + c.next_req_offset) pipelined;
      conn = record c { req_buf = record c.req_buf { size = pipelined }; next_req_offset = 0 };
    }
    else set_conn s (record c { req_buf = record c.req_buf { size = 0 }; next_req_offset = 0 })

-- `none` when the arena cannot be rewound.
unfoldable pub connection_reset : System → Option System
connection_reset s = do
  let c = s.conn
  arena ← arena_reset_to c.arena c.req_mark
  some (
      set_conn s (record c {
        st_send_sent = 0;
        resp_buf = record c.resp_buf { size = 0 };
        req_parsed = request_zero;
        keep_alive = false;
        body_start = 0;
        body_len = 0;
        body_coding = te_none;
        arena = arena;
      }))

unfoldable pub stream_release : System → System
stream_release s = elim s.conn.producer [
  | none ↦ s
  | some p ↦ record s {
    conn = record s.conn { producer = none };
    cleanups = if p.cleanup then s.cleanups + 1 else s.cleanups;
  }
]
