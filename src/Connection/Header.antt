-- ===== src/Connection/Header.antt =====
-- src/Connection.c, `conn_recv_header` and `step_header_read`: reading a request head and deciding
-- how its body is framed.
use http_server_from_scratch.Arena.{assert_then}
use http_server_from_scratch.Config.{http_max_body_len}
use http_server_from_scratch.Body.TransferEncoding.{
  TransferCoding, te_none, transfer_encoding_parse,
}
use http_server_from_scratch.Connection.{
  conn_reading_request, conn_closed, Connection, System, Env, StepResult, set_conn,
  phase_send_100_begin, send_error_response, is_chunked, is_unsupported, phase_body_dispatch,
}
use http_server_from_scratch.Headers.{Header, header_find}
use http_server_from_scratch.Memory.{Memory, null, advance, mem_eq, string_memory}
use http_server_from_scratch.Network.{
  HttpBuffer, Recv, received, recv_closed, recv_again, recv_interrupted, recv_failed, store, take,
}
use http_server_from_scratch.ParseResult.{
  ParseStatus, parse_ok, parse_bad_request, parse_header_too_long, parse_not_implemented, is_ok,
  value, failed, uint_parse,
}
use http_server_from_scratch.Parser.{ascii_ieq}
use http_server_from_scratch.Prelude.{
  ◌>>=◌, ℕ, ◌+◌, ◌-◌, Bool, true, false, not, ◌&&◌, ◌||◌, List, [], ◌∷◌, ltb, leb, ◌==◌,
  if◌then◌else◌, length, CString, codes, Option, none, some,
}
use http_server_from_scratch.Request.{request_parse}
use http_server_from_scratch.Router.Serving.{is_head}

-- `memmem(p, n, "\r\n\r\n", 4)`
unfoldable pub find_terminator : Memory → ℕ → ℕ → ℕ
find_terminator m p n =
    let found = advance (λ q. not (mem_eq m q (codes "\r\n\r\n"))) (n - 3) p in
    if ltb found (p + (n - 3)) then found else null

pub data ReadHeaderStatus : Type 0 where
  read_header_ok read_header_peer_closed read_header_too_large : ReadHeaderStatus
  read_header_io_error read_header_has_more : ReadHeaderStatus

-- The result, `body_start`, and what the calls of recv have changed.
pub record HeaderRecv : Type 0 where
  pub status : ReadHeaderStatus
  pub body_start : ℕ
  pub memory : Memory
  pub req : HttpBuffer
  pub left : List Recv

-- What the loop does before it calls recv: the status and `body_start`, if it leaves.
unfoldable pub header_check : Memory → HttpBuffer → Option (ReadHeaderStatus × ℕ)
header_check m req =
    let terminator = find_terminator m req.buffer req.size in
    if not (terminator == null)
    then some (read_header_ok, terminator - req.buffer + 4)
    else if leb req.cap req.size
    then some (read_header_too_large, 0)
    else none

abbrev pub header_leave : Memory → HttpBuffer → List Recv → ReadHeaderStatus × ℕ → HeaderRecv
header_leave m req left r = record {
  status = r.0;
  body_start = r.1;
  memory = m;
  req = req;
  left = left;
}

-- The result of the tests, or else what follows them.
unfoldable pub header_or :
    Option (ReadHeaderStatus × ℕ) → Memory → HttpBuffer → List Recv → HeaderRecv → HeaderRecv
header_or (some r) m req left next = header_leave m req left r
header_or none m req left next = next

unfoldable pub conn_recv_header : Memory → HttpBuffer → List Recv → HeaderRecv
conn_recv_header m req [] =
    header_or (header_check m req) m req [] (header_leave m req [] (read_header_has_more, 0))
conn_recv_header m req (recv_closed ∷ left) =
    header_or (header_check m req) m req (recv_closed ∷ left)
      (header_leave m req left (read_header_peer_closed, 0))
conn_recv_header m req (recv_again ∷ left) =
    header_or (header_check m req) m req (recv_again ∷ left)
      (header_leave m req left (read_header_has_more, 0))
conn_recv_header m req (recv_interrupted ∷ left) =
    header_or (header_check m req) m req (recv_interrupted ∷ left) (conn_recv_header m req left)
conn_recv_header m req (recv_failed ∷ left) =
    header_or (header_check m req) m req (recv_failed ∷ left)
      (header_leave m req left (read_header_io_error, 0))
conn_recv_header m req (received b bs ∷ left) =
    let bytes = take (req.cap - req.size) (b ∷ bs) in
    header_or (header_check m req) m req (received b bs ∷ left) (
      conn_recv_header (store m (req.buffer + req.size) bytes)
        (record req { size = req.size + length bytes }) left)

-- The loop over the Transfer-Encoding headers.
unfoldable pub te_loop : List Header → ParseStatus × TransferCoding → ParseStatus × TransferCoding
te_loop [] te = te
te_loop (h ∷ headers) te =
    let next =
      if not (ascii_ieq h.key (codes "transfer-encoding"))
      then te
      else transfer_encoding_parse h.value in
    let rest = te_loop headers next in if is_unsupported te.1 || not (is_ok te.0) then te else rest

abbrev pub is_some {ℓ} : {A : Type ℓ} → Option A → Bool
is_some none = false
is_some (some a) = true

-- `header && ascii_ieq(text, header->value)`
abbrev pub value_is : Option Header → CString → Bool
value_is none text = false
value_is (some h) text = ascii_ieq text h.value

abbrev pub is_http_1_0 : Connection → Bool
is_http_1_0 c = ascii_ieq c.req_parsed.request_line.version (codes "http/1.0")

-- The Content-Length header, if there is one: the connection, and the error.
unfoldable pub length_decide : Connection → Option Header → Connection × Option ParseStatus
length_decide c none = (c, none)
length_decide c (some h) =
    elim (uint_parse (string_memory 1 h.value) 1 (length h.value) 10 http_max_body_len) [
      | failed status ↦ (c, some status)
      | value n ↦ (record c { body_len = n }, none)
    ]

-- From the parsed head to the test of Content-Length: the connection with what was set on the way,
-- and the error that ends the request.
unfoldable pub head_decide : Connection → Connection × Option ParseStatus
head_decide c =
    let headers = c.req_parsed.headers in
    let ka_header = header_find headers (codes "connection") in
    let keeps =
      not (is_http_1_0 c) && (not (is_some ka_header) || value_is ka_header (codes "keep-alive")) in
    let te = te_loop headers (parse_ok, te_none) in
    let c' = record c { keep_alive = if keeps then true else c.keep_alive; body_coding = te.1 } in
    let ct_len_h = header_find headers (codes "content-length") in
    if not (is_http_1_0 c) && not (is_some (header_find headers (codes "host")))
    then (c, some parse_bad_request)
    else if is_unsupported te.1
    then (c', some parse_not_implemented)
    else if not (is_ok te.0)
    then (c', some te.0)
    else if is_http_1_0 c && is_chunked te.1
    then (c', some parse_bad_request)
    else if is_some ct_len_h && is_chunked te.1
    then (c', some parse_bad_request)
    else length_decide c' ct_len_h

-- From there to the end of the step.
unfoldable pub body_decide : Env → System → StepResult
body_decide env s =
    let c = s.conn in
    let headers = c.req_parsed.headers in
    let has_body =
      is_chunked c.body_coding
      || (is_some (header_find headers (codes "content-length")) && ltb 0 c.body_len) in
    let body_buffered = ltb c.body_start c.req_buf.size in
    let expect = header_find headers (codes "expect") in
    if is_head c.req_parsed.request_line.method && has_body
    then send_error_response env s parse_bad_request
    else if is_http_1_0 c
    then phase_body_dispatch s
    else if not has_body || body_buffered || not (value_is expect (codes "100-continue"))
    then phase_body_dispatch s
    else phase_send_100_begin s

-- What follows the parse of the head; `total_received` is the size of the buffer.
unfoldable pub head_parsed : Env → System → ℕ → ParseStatus → StepResult
head_parsed env s body_start status =
    let d = head_decide (record s.conn { body_start = body_start }) in
    if not (is_ok status)
    then send_error_response env s status
    else assert_then (leb body_start s.conn.req_buf.size) (elim d.1 [
      | some error ↦ send_error_response env (set_conn s d.0) error
      | none ↦ body_decide env (set_conn s d.0)
    ])

-- The head is in the buffer.
unfoldable pub head_step : Env → System → ℕ → StepResult
head_step env s body_start = do
  (res, req) ← request_parse s.memory s.conn.req_buf.buffer s.conn.req_buf.size s.conn.req_parsed
  head_parsed env (set_conn s (record s.conn { req_parsed = req })) body_start res.status

-- What the step does with the status of `conn_recv_header`.
unfoldable pub header_status : Env → System → ReadHeaderStatus → ℕ → StepResult
header_status env s read_header_has_more body_start = some (conn_reading_request, s)
header_status env s read_header_peer_closed body_start = some (conn_closed, s)
header_status env s read_header_io_error body_start = some (conn_closed, s)
header_status env s read_header_too_large body_start =
    send_error_response env s parse_header_too_long
header_status env s read_header_ok body_start = head_step env s body_start

unfoldable pub step_header_read : Env → System → StepResult
step_header_read env s =
    let r = conn_recv_header s.memory s.conn.req_buf s.recvs in
    header_status env
      (record s { memory = r.memory; recvs = r.left; conn = record s.conn { req_buf = r.req } })
      r.status r.body_start
