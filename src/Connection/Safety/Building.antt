-- ===== src/Connection/Safety/Building.antt =====
-- `step_response_build` of src/Connection.c.
use http_server_from_scratch.Connection.Safety.Answering.{answer-IsAnswer}
use http_server_from_scratch.Connection.Build.{
  serialize, build_buffered, stream_begin, build_stream, build_body, step_response_build,
}
use http_server_from_scratch.Connection.Safety.{
  moved-IsSound, IsConnection, IsSafe, InStream, IsProducer, Steps, IsDated, IsEnv,
}
use http_server_from_scratch.Connection.{
  conn_building, conn_sending_response_stream, stream_header, Connection, System, Env, set_conn,
  resp_written, phase_send_begin, request_consume, stream_release, sub_size,
}
use http_server_from_scratch.ParseResult.{parse_server_error}
use http_server_from_scratch.Prelude.{
  ℕ, ◌-◌, ◌≤◌, ◌<◌, ◌≡◌, inl, inr, refl, sym, ap, subst, ◌∙◌, arith, true, false, if_cases,
  if◌then◌else◌, ltb, length, List, Option, none, some,
}
use http_server_from_scratch.Response.Errors.{error_page, error_page-fits}
use http_server_from_scratch.Response.Serialize.{response_serialize-Layout}
use http_server_from_scratch.Response.{
  HttpResponse, Stream, Body, body_none, body_buffer, body_stream, response_serialize,
  response_error_from_status, response_buffer, status_line,
}
use http_server_from_scratch.Router.Scratch.{BodyPulls}
use http_server_from_scratch.Router.Serving.{is_head}

-- The request buffer after `request_consume`, and the rest of the connection as it was.
request_consume-IsConnection :
    (s : System)
    → IsConnection s
    → s.conn.next_req_offset ≤ s.conn.req_buf.size
    → IsConnection (request_consume s)
unfolding request_consume
request_consume-IsConnection s w h =
    let c = s.conn in
    let pipelined = sub_size c.req_buf.size c.next_req_offset in
    let e : pipelined ≡ c.req_buf.size - c.next_req_offset = omega (arith, h, w.input, w.word) in
    if_cases IsConnection (ltb 0 c.next_req_offset)
      (λ f. moved-IsSound w (refl, refl) (omega (arith, e, w.input)))
      (λ f. moved-IsSound w (refl, refl) (omega arith))

-- What `request_consume` leaves alone.
record IsKept (c d : Connection) : Type 0 where
  requests : d.requests ≡ c.requests
  resp_buf : d.resp_buf ≡ c.resp_buf
  producer : d.producer ≡ c.producer
  stream_phase : d.st_stream_phase ≡ c.st_stream_phase
  stream_sent : d.st_stream_sent ≡ c.st_stream_sent

request_consume-IsKept : (s : System) → IsKept s.conn (request_consume s).conn
unfolding request_consume
request_consume-IsKept s =
    if_cases (λ (t : System). IsKept s.conn t.conn) (ltb 0 s.conn.next_req_offset)
      (λ f. record {
        requests = refl;
        resp_buf = refl;
        producer = refl;
        stream_phase = refl;
        stream_sent = refl;
      })
      (λ f. record {
        requests = refl;
        resp_buf = refl;
        producer = refl;
        stream_phase = refl;
        stream_sent = refl;
      })

begin-Steps :
    (s : System) (bytes : List ℕ)
    → IsConnection s
    → s.conn.next_req_offset ≤ s.conn.req_buf.size
    → 0 < length bytes
    → Steps conn_building s.conn.requests
        (phase_send_begin (request_consume (resp_written s bytes)))
unfolding phase_send_begin
begin-Steps s bytes w h l =
    let t = resp_written s bytes in
    let w' = request_consume-IsConnection t w h in
    let k = request_consume-IsKept t in
    let size : (request_consume t).conn.resp_buf.size ≡ length bytes =
      ap (λ b. b.size) k.resp_buf in
    (
      record { sound = moved-IsSound w' (refl, refl) w'.input; in_phase = omega (arith, size, l) },
      inr (inr (inl (k.requests, omega arith))),
    )

-- A response that is written is not empty: it begins with its status line.
serialize-pos :
    (env : Env) (s : System) (res : HttpResponse) (bytes : List ℕ)
    → IsDated env
    → serialize env s res ≡ some bytes
    → 0 < length bytes
unfolding status_line
serialize-pos env s res bytes d h =
    let (date, e, l) = d in
    let h' : response_serialize res s.conn.resp_buf.cap s.conn.keep_alive (some date) ≡ some bytes =
      rw e at h in
    let (f, hi) =
      response_serialize-Layout res s.conn.resp_buf.cap s.conn.keep_alive date bytes h' in
    rw f (omega arith)

error-serialized :
    (env : Env) (s : System)
    → IsDated env
    → IsConnection s
    → (bytes : List ℕ) × (serialize env s (response_error_from_status parse_server_error)
        ≡ some bytes)
      × (0 < length bytes)
unfolding response_error_from_status response_buffer
error-serialized env s d w =
    let (date, e, l) = d in
    let (f, pos, hi) = error_page-fits parse_server_error false s.conn.keep_alive date l in
    (error_page parse_server_error false s.conn.keep_alive date, rw (e, w.output) f, pos)

buffered-Steps :
    (env : Env) (s : System) (o p : Option (List ℕ)) (bytes : List ℕ)
    → IsConnection s
    → s.conn.next_req_offset ≤ s.conn.req_buf.size
    → ((b : List ℕ) → o ≡ some b → 0 < length b)
    → p ≡ some bytes
    → 0 < length bytes
    → Steps conn_building s.conn.requests (elim o [
      | some bytes ↦ phase_send_begin (request_consume (resp_written s bytes))
      | none ↦ elim p [
        | some bytes ↦ phase_send_begin (request_consume (resp_written s bytes))
        | none ↦ none
      ]
    ])
buffered-Steps env s (some b) p bytes w h k e l = begin-Steps s b w h (k b refl)
buffered-Steps env s none p bytes w h k e l = rw e (begin-Steps s bytes w h l)

build_buffered-Steps :
    (env : Env) (s : System) (res : HttpResponse)
    → IsDated env
    → IsConnection s
    → s.conn.next_req_offset ≤ s.conn.req_buf.size
    → Steps conn_building s.conn.requests (build_buffered env s res)
unfolding build_buffered
build_buffered-Steps env s res d w h =
    let (bytes, e, l) = error-serialized env s d w in
    let res' =
      if is_head s.conn.req_parsed.request_line.method
      then record res { head_only = true }
      else res in
    buffered-Steps env s (serialize env s res') _ bytes w h (λ b f. serialize-pos env s res' b d f)
      e l

streamed-Steps :
    (env : Env) (s : System) (stream : Stream) (o : Option (List ℕ))
    → s.conn.producer ≡ some stream
    → stream.pull ≡ true
    → IsDated env
    → IsConnection s
    → s.conn.next_req_offset ≤ s.conn.req_buf.size
    → ((b : List ℕ) → o ≡ some b → 0 < length b)
    → Steps conn_building s.conn.requests (elim o [
      | some bytes ↦
          some (conn_sending_response_stream, request_consume (stream_begin (resp_written s bytes)))
      | none ↦ build_buffered env (stream_release s) (response_error_from_status parse_server_error)
    ])
unfolding stream_release
streamed-Steps env s stream (some b) q pull d w h k =
    let t = stream_begin (resp_written s b) in
    let w' = request_consume-IsConnection t w h in
    let kept = request_consume-IsKept t in
    let size : (request_consume t).conn.resp_buf.size ≡ length b = ap (λ x. x.size) kept.resp_buf in
    let l = k b refl in
    let start : (request_consume t).conn.st_stream_sent ≡ 0 = kept.stream_sent in
    let there : IsProducer (request_consume t).conn.producer =
      subst IsProducer (sym (kept.producer ∙ q)) pull in
    let in_stream : InStream stream_header (request_consume t).conn =
      (omega (arith, size, l, start), there) in
    (
      record {
        sound = w';
        in_phase =
            subst (λ x. InStream x (request_consume t).conn) (sym kept.stream_phase) in_stream;
      },
      inr (inr (inl (kept.requests, omega arith))),
    )
streamed-Steps env s stream none q pull d w h k =
    rw q (build_buffered-Steps env _ (response_error_from_status parse_server_error) d w h)

build_body-Steps :
    (env : Env) (s : System) (res : HttpResponse) (body : Body)
    → BodyPulls body
    → IsDated env
    → IsConnection s
    → s.conn.next_req_offset ≤ s.conn.req_buf.size
    → Steps conn_building s.conn.requests (build_body env s res body)
unfolding build_body build_stream
build_body-Steps env s res body_none pull d w h = build_buffered-Steps env s res d w h
build_body-Steps env s res (body_buffer bytes) pull d w h = build_buffered-Steps env s res d w h
build_body-Steps env s res (body_stream stream) pull d w h =
    let s' = set_conn s (record s.conn { producer = some stream }) in
    streamed-Steps env s' stream (serialize env s' res) refl pull d w h
      (λ b f. serialize-pos env s' res b d f)

pub step_response_build-Steps :
    (env : Env) (s : System)
    → IsEnv env
    → IsSafe conn_building s
    → Steps conn_building s.conn.requests (step_response_build env s)
unfolding step_response_build
step_response_build-Steps env s d v =
    let a = answer-IsAnswer env s d.1 v.sound v.in_phase in
    rw (a.returned) (
      subst (λ n. Steps conn_building n (build_body env a.result.1 a.result.0 a.result.0.body))
        a.requests
        (build_body-Steps env a.result.1 a.result.0 a.result.0.body a.served d.0 a.sound a.offset))
