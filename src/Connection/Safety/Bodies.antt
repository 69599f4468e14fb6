-- ===== src/Connection/Safety/Bodies.antt =====
-- The steps of src/Connection.c that read a body.
use http_server_from_scratch.Body.ContentLength.{ClEnd, conn_recv_body_cl-ClOutcome}
use http_server_from_scratch.Body.Place.{Placed, ReadPlaced, conn_recv_body_chunked-ReadPlaced}
use http_server_from_scratch.Body.Read.{
  ReadBodyStatus, read_body_ok, read_body_too_large, read_body_has_more, ReadBodyResult, ClRead,
  ChunkedRead, conn_recv_body_cl,
}
use http_server_from_scratch.Body.Total.{EndsWith, conn_recv_body_chunked_total}
use http_server_from_scratch.Connection.Safety.Sending.{send_error_response-Steps}
use http_server_from_scratch.Connection.Safety.{moved-IsSound, IsConnection, IsSafe, Steps, IsDated}
use http_server_from_scratch.Connection.Step.{
  cl_status, step_body_cl_read, chunked_status, step_body_chunked_read,
}
use http_server_from_scratch.Connection.{
  conn_reading_body_cl, conn_reading_body_chunked, System, Env,
}
use http_server_from_scratch.ParseResult.{parse_bad_request, parse_payload_too_large}
use http_server_from_scratch.Prelude.{◌≡◌, inl, inr, refl, ap, subst, arith}
use Prim.{tt}

cl_status-Steps :
    (env : Env) (s : System) (r : ReadBodyResult) (status : ReadBodyStatus) (t : ClRead)
    → IsDated env
    → IsSafe conn_reading_body_cl s
    → t.req ≡ s.conn.req_buf
    → ClEnd s.conn.body_start s.conn.body_len status r.next_req_offset t
    → Steps conn_reading_body_cl s.conn.requests (cl_status env s r status)
unfolding cl_status
cl_status-Steps env s r read_body_ok t d v q e =
    let size : t.req.size ≡ s.conn.req_buf.size = ap (λ x. x.size) q in
    (
      record { sound = v.sound; in_phase = ground (arith, e, size) },
      inr (inr (inl (refl, omega arith))),
    )
cl_status-Steps env s r read_body_has_more t d v q e = (v, inl (refl, tt))
cl_status-Steps env s r _ t d v q e =
    send_error_response-Steps env conn_reading_body_cl s parse_bad_request d (omega arith) v.sound

pub step_body_cl_read-Steps :
    (env : Env) (s : System)
    → IsDated env
    → IsSafe conn_reading_body_cl s
    → Steps conn_reading_body_cl s.conn.requests (step_body_cl_read env s)
unfolding step_body_cl_read
step_body_cl_read-Steps env s d v =
    let w = v.sound in
    let c = s.conn in
    let t : ClRead = record { memory = s.memory; req = c.req_buf; received = c.st_cl_received } in
    let r = conn_recv_body_cl c.body_start c.body_len t s.recvs in
    let o = conn_recv_body_cl-ClOutcome c.body_start c.body_len t s.recvs v.in_phase in
    let s' = record s {
      memory = r.state.memory;
      recvs = r.left;
      conn = record c { req_buf = r.state.req; st_cl_received = r.state.received };
    } in
    let w' : IsConnection s' = moved-IsSound w o.same (o.reader.input) in
    cl_status-Steps env s' r.result r.result.status r.state d
      (record { sound = w'; in_phase = o.reader }) refl o.end

chunked_status-Steps :
    (env : Env) (s : System) (r : ReadBodyResult) (status : ReadBodyStatus) (t : ChunkedRead)
    → IsDated env
    → IsSafe conn_reading_body_chunked s
    → t.st ≡ s.conn.st_chunked
    → EndsWith s.conn.body_start status r.next_req_offset t
    → Steps conn_reading_body_chunked s.conn.requests (chunked_status env s r status)
unfolding chunked_status
chunked_status-Steps env s r read_body_ok t d v q e =
    let consumed : t.st.consumed ≡ s.conn.st_chunked.consumed = ap (λ x. x.consumed) q in
    (
      record { sound = v.sound; in_phase = omega (arith, e.1, consumed, v.in_phase.cursor) },
      inr (inr (inl (refl, omega arith))),
    )
chunked_status-Steps env s r read_body_has_more t d v q e = (v, inl (refl, tt))
chunked_status-Steps env s r read_body_too_large t d v q e =
    send_error_response-Steps env conn_reading_body_chunked s parse_payload_too_large d
      (omega arith) v.sound
chunked_status-Steps env s r _ t d v q e =
    send_error_response-Steps env conn_reading_body_chunked s parse_bad_request d (omega arith)
      v.sound

pub step_body_chunked_read-Steps :
    (env : Env) (s : System)
    → IsDated env
    → IsSafe conn_reading_body_chunked s
    → Steps conn_reading_body_chunked s.conn.requests (step_body_chunked_read env s)
unfolding step_body_chunked_read
step_body_chunked_read-Steps env s d v =
    let w = v.sound in
    let c = s.conn in
    let t : ChunkedRead = record {
      memory = s.memory;
      req_buf = c.req_buf;
      dechunked = c.body_dechunked;
      st = c.st_chunked;
    } in
    let (r, e, reader, end) =
      conn_recv_body_chunked_total s.fd c.body_start t s.recvs w.socket v.in_phase in
    let same : Placed c.req_buf r.state.req_buf =
      subst (ReadPlaced c.req_buf) e
        (conn_recv_body_chunked-ReadPlaced c.req_buf s.fd c.body_start t s.recvs (refl, refl)) in
    let s' = record s {
      memory = r.state.memory;
      recvs = r.left;
      conn = record c {
        req_buf = r.state.req_buf;
        body_dechunked = r.state.dechunked;
        st_chunked = r.state.st;
      };
    } in
    let moved = moved-IsSound w same reader.input in
    let w' : IsConnection s' = record {
      place = moved.place;
      input = moved.input;
      word = moved.word;
      output = moved.output;
      headers = moved.headers;
      mark = moved.mark;
      arena = moved.arena;
      registry = moved.registry;
      socket = moved.socket;
      response = moved.response;
      decoded = reader.places.1;
    } in
    rw e (
      chunked_status-Steps env s' r.result r.result.status r.state d
        (record { sound = w'; in_phase = reader }) refl end)
