-- ===== src/Connection/Step.antt =====
-- src/Connection.c: the steps that read a body and that send a response held in a buffer.
use http_server_from_scratch.Body.Read.{
  ReadBodyStatus, read_body_ok, read_body_too_large, read_body_has_more, ReadBodyResult,
  conn_recv_body_cl, conn_recv_body_chunked,
}
use http_server_from_scratch.Config.{http_max_requests}
use http_server_from_scratch.Connection.{
  conn_reading_request, conn_reading_body_cl, conn_reading_body_chunked, conn_sending_100,
  conn_building, conn_closed, System, Env, StepResult, set_conn, phase_send_begin,
  send_error_response, phase_body_dispatch, connection_reset,
}
use http_server_from_scratch.Memory.{Memory, string_memory}
use http_server_from_scratch.Network.{HttpBuffer}
use http_server_from_scratch.ParseResult.{parse_bad_request, parse_payload_too_large}
use http_server_from_scratch.Prelude.{
  ◌>>=◌, ◌+◌, not, ◌||◌, ◌++◌, leb, if◌then◌else◌, length, CString, codes, Option, some,
}
use http_server_from_scratch.Response.{
  SendResponseStatus, send_ok, send_peer_closed, send_has_more, send_error, response_send,
}

-- `response_send(conn->fd, buffer, &conn->st.send)`: the status, and the system after it.
unfoldable pub send_step : Memory → HttpBuffer → System → Option (SendResponseStatus × System)
send_step m buffer s = do
  r ← response_send m buffer s.conn.st_send_sent s.sends
  some (
    r.status,
    record s {
      conn = record s.conn { st_send_sent = r.sent };
      sends = r.left;
      wire = s.wire ++ r.wire;
    },
  )

abbrev pub continue_100 : CString
continue_100 = codes "HTTP/1.1 100 Continue\r\n\r\n"

-- The literal and its buffer, which lie outside the memory of the connection.
abbrev pub continue_100_buf : HttpBuffer
continue_100_buf = record { cap = length continue_100; size = length continue_100; buffer = 1 }

unfoldable pub step_send_100 : System → StepResult
step_send_100 s = do
  (status, s') ← send_step (string_memory 1 continue_100) continue_100_buf s
  elim status [
    | send_has_more ↦ some (conn_sending_100, s')
    | send_ok ↦ phase_body_dispatch s'
    | send_peer_closed ↦ some (conn_closed, s')
    | send_error ↦ some (conn_closed, s')
  ]

-- What the step does with the result of `conn_recv_body_cl`.
unfoldable pub cl_status : Env → System → ReadBodyResult → ReadBodyStatus → StepResult
cl_status env s r read_body_ok =
    let c = s.conn in
    some (
      conn_building,
      set_conn s (record c {
        req_parsed = record c.req_parsed {
          body_len = c.st_cl_received;
          body = c.req_buf.buffer + c.body_start;
        };
        next_req_offset = r.next_req_offset;
      }),
    )
cl_status env s r read_body_has_more = some (conn_reading_body_cl, s)
cl_status env s r _ = send_error_response env s parse_bad_request

unfoldable pub step_body_cl_read : Env → System → StepResult
step_body_cl_read env s =
    let c = s.conn in
    let r =
      conn_recv_body_cl c.body_start c.body_len
        (record { memory = s.memory; req = c.req_buf; received = c.st_cl_received }) s.recvs in
    let s' = record s {
      memory = r.state.memory;
      recvs = r.left;
      conn = record c { req_buf = r.state.req; st_cl_received = r.state.received };
    } in
    cl_status env s' r.result r.result.status

-- What the step does with the result of `conn_recv_body_chunked`.
unfoldable pub chunked_status : Env → System → ReadBodyResult → ReadBodyStatus → StepResult
chunked_status env s r read_body_ok =
    let c = s.conn in
    some (
      conn_building,
      set_conn s (record c {
        req_parsed = record c.req_parsed {
          body_len = c.body_dechunked.size;
          body = c.body_dechunked.buffer;
        };
        next_req_offset = r.next_req_offset;
      }),
    )
chunked_status env s r read_body_has_more = some (conn_reading_body_chunked, s)
chunked_status env s r read_body_too_large = send_error_response env s parse_payload_too_large
chunked_status env s r _ = send_error_response env s parse_bad_request

unfoldable pub step_body_chunked_read : Env → System → StepResult
step_body_chunked_read env s = do
  r ←
      conn_recv_body_chunked s.fd s.conn.body_start
        (record {
          memory = s.memory;
          req_buf = s.conn.req_buf;
          dechunked = s.conn.body_dechunked;
          st = s.conn.st_chunked;
        })
        s.recvs
  chunked_status env
      (record s {
        memory = r.state.memory;
        recvs = r.left;
        conn = record s.conn {
          req_buf = r.state.req_buf;
          body_dechunked = r.state.dechunked;
          st_chunked = r.state.st;
        };
      })
      r.result r.result.status

-- The end of a response: the next request, or the end of the connection.
unfoldable pub response_end : System → StepResult
response_end s =
    let c = record s.conn { requests = s.conn.requests + 1 } in
    if not c.keep_alive || leb http_max_requests c.requests
    then some (conn_closed, set_conn s c)
    else (connection_reset (set_conn s c) >>= (λ s'. some (conn_reading_request, s')))

unfoldable pub step_response_send : System → StepResult
step_response_send s = do
  (status, s') ← send_step s.memory s.conn.resp_buf s
  elim status [
    | send_has_more ↦ phase_send_begin s'
    | send_error ↦ some (conn_closed, s')
    | send_peer_closed ↦ some (conn_closed, s')
    | send_ok ↦ response_end s'
  ]
