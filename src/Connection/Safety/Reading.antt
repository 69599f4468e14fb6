-- ===== src/Connection/Safety/Reading.antt =====
-- The step of src/Connection.c that reads a head.
use http_server_from_scratch.Body.TransferEncoding.{te_none}
use http_server_from_scratch.Config.{http_max_body_len}
use http_server_from_scratch.Connection.Header.{
  ReadHeaderStatus, read_header_ok, read_header_peer_closed, read_header_too_large,
  read_header_io_error, read_header_has_more, conn_recv_header, te_loop, is_some, value_is,
  is_http_1_0, length_decide, head_decide, body_decide, head_parsed, head_step, header_status,
  step_header_read,
}
use http_server_from_scratch.Connection.Receive.{HeaderEnd, conn_recv_header-HeaderOutcome}
use http_server_from_scratch.Connection.Safety.Sending.{
  closed-Steps, send_error_response-Steps, phase_body_dispatch-Steps,
}
use http_server_from_scratch.Connection.Safety.{moved-IsSound, IsConnection, IsSafe, Steps, IsDated}
use http_server_from_scratch.Connection.{
  conn_reading_request, Connection, System, Env, StepResult, set_conn, phase_send_100_begin,
  send_error_response, is_chunked, is_unsupported,
}
use http_server_from_scratch.Headers.{Header, header_find}
use http_server_from_scratch.Memory.{string_memory}
use http_server_from_scratch.ParseResult.{
  ParseStatus, parse_ok, parse_bad_request, parse_not_implemented, parse_header_too_long,
  UintResult, value, failed, is_ok, uint_parse,
}
use http_server_from_scratch.Prelude.{
  ℕ, ◌≤◌, ◌≡◌, inl, inr, refl, sym, ap, subst, arith, Bool, true, false, not, ◌&&◌, ◌||◌, if_cases,
  if◌then◌else◌, ltb, leb, codes, length, Option, none, some,
}
use http_server_from_scratch.Request.Parse.{request_parse-RequestRead}
use http_server_from_scratch.Router.Serving.{is_head}
use Prim.{tt}

-- Only the fields that say how the body is framed, and whether the connection is kept, are changed.
abbrev Same : Connection → Connection → Type 0
Same c d =
    d ≡ record c { keep_alive = d.keep_alive; body_coding = d.body_coding; body_len = d.body_len }

record Framed (c : Connection) (r : Connection × Option ParseStatus) : Type 0 where
  same : Same c r.0

length-Framed :
    (c d : Connection) (r : UintResult)
    → Same c d
    → Framed c
        (elim r [ failed status ↦ (d, some status) | value n ↦ (record d { body_len = n }, none) ])
length-Framed c d (failed status) e = record { same = e }
length-Framed c d (value n) e = record {
  same = ap {A = Connection} (λ x. record x { body_len = n }) e;
}

length_decide-Framed :
    (c d : Connection) (o : Option Header) → Same c d → Framed c (length_decide d o)
unfolding length_decide
length_decide-Framed c d none e = record { same = e }
length_decide-Framed c d (some h) e =
    length-Framed c d (uint_parse (string_memory 1 h.value) 1 (length h.value) 10 http_max_body_len)
      e

refuse-Framed :
    (c d : Connection) (b : Bool) (status : ParseStatus) (r : Connection × Option ParseStatus)
    → Same c d
    → Framed c r
    → Framed c (if b then (d, some status) else r)
refuse-Framed c d true status r e k = record { same = e }
refuse-Framed c d false status r e k = k

head_decide-Framed : (c : Connection) → Framed c (head_decide c)
unfolding head_decide
head_decide-Framed c =
    let headers = c.req_parsed.headers in
    let ka_header = header_find headers (codes "connection") in
    let keeps =
      not (is_http_1_0 c) && (not (is_some ka_header) || value_is ka_header (codes "keep-alive")) in
    let te = te_loop headers (parse_ok, te_none) in
    let c' = record c { keep_alive = if keeps then true else c.keep_alive; body_coding = te.1 } in
    let h : Same c c' = refl in
    let host = not (is_http_1_0 c) && not (is_some (header_find headers (codes "host"))) in
    let ct_len_h = header_find headers (codes "content-length") in
    let r₅ = length_decide c' ct_len_h in
    let r₄ = if is_some ct_len_h && is_chunked te.1 then (c', some parse_bad_request) else r₅ in
    let r₃ = if is_http_1_0 c && is_chunked te.1 then (c', some parse_bad_request) else r₄ in
    let r₂ = if not (is_ok te.0) then (c', some te.0) else r₃ in
    let r₁ = if is_unsupported te.1 then (c', some parse_not_implemented) else r₂ in
    refuse-Framed c c host parse_bad_request r₁ refl (
      refuse-Framed c c' (is_unsupported te.1) parse_not_implemented r₂ h (
        refuse-Framed c c' (not (is_ok te.0)) te.0 r₃ h (
          refuse-Framed c c' (is_http_1_0 c && is_chunked te.1) parse_bad_request r₄ h (
            refuse-Framed c c' (is_some ct_len_h && is_chunked te.1) parse_bad_request r₅ h
              (length_decide-Framed c c' ct_len_h h)))))

body_decide-Steps :
    (env : Env) (s : System)
    → IsDated env
    → IsConnection s
    → s.conn.body_start ≤ s.conn.req_buf.size
    → Steps conn_reading_request s.conn.requests (body_decide env s)
unfolding body_decide phase_send_100_begin
body_decide-Steps env s d w b =
    let c = s.conn in
    let P : StepResult → Type 0 = Steps conn_reading_request c.requests in
    let headers = c.req_parsed.headers in
    let has_body =
      is_chunked c.body_coding
      || (is_some (header_find headers (codes "content-length")) && ltb 0 c.body_len) in
    let expect = header_find headers (codes "expect") in
    let go = phase_body_dispatch-Steps conn_reading_request s (omega arith) w b in
    if_cases P (is_head c.req_parsed.request_line.method && has_body)
      (λ e.
        send_error_response-Steps env conn_reading_request s parse_bad_request d (omega arith) w)
      (λ e.
        if_cases P (is_http_1_0 c) (λ e. go)
          (λ e.
            if_cases P
              (not has_body
                || ltb c.body_start c.req_buf.size
                || not (value_is expect (codes "100-continue")))
              (λ e. go)
              (λ e. (
                record { sound = w; in_phase = (omega arith, b) },
                inr (inr (inl (refl, omega arith))),
              ))))

decided-Steps :
    (env : Env) (s : System) (r : Connection × Option ParseStatus)
    → IsDated env
    → IsConnection s
    → Framed s.conn r
    → s.conn.body_start ≤ s.conn.req_buf.size
    → Steps conn_reading_request s.conn.requests (elim r.1 [
      | some error ↦ send_error_response env (set_conn s r.0) error
      | none ↦ body_decide env (set_conn s r.0)
    ])
decided-Steps env s (c, some error) d w f b =
    subst (λ n. Steps conn_reading_request n (send_error_response env (set_conn s c) error))
      (ap {A = Connection} (λ x. x.requests) f.same)
      (send_error_response-Steps env conn_reading_request (set_conn s c) error d (omega arith)
        (subst (λ x. IsConnection (set_conn s x)) (sym f.same) w))
decided-Steps env s (c, none) d w f b =
    let w' : IsConnection (set_conn s c) =
      subst (λ x. IsConnection (set_conn s x)) (sym f.same) w in
    let b' : c.body_start ≤ c.req_buf.size =
      subst (λ (x : Connection). x.body_start ≤ x.req_buf.size) (sym f.same) b in
    subst (λ n. Steps conn_reading_request n (body_decide env (set_conn s c)))
      (ap {A = Connection} (λ x. x.requests) f.same) (body_decide-Steps env (set_conn s c) d w' b')

head_parsed-Steps :
    (env : Env) (s : System) (body_start : ℕ) (status : ParseStatus)
    → IsDated env
    → IsConnection s
    → body_start ≤ s.conn.req_buf.size
    → Steps conn_reading_request s.conn.requests (head_parsed env s body_start status)
unfolding head_parsed
head_parsed-Steps env s body_start status d w b =
    let c = record s.conn { body_start = body_start } in
    if_cases (Steps conn_reading_request s.conn.requests) (not (is_ok status))
      (λ e. send_error_response-Steps env conn_reading_request s status d (omega arith) w)
      (λ e.
        let holds : leb body_start s.conn.req_buf.size ≡ true = ground (arith, b) in
        rw holds (decided-Steps env (set_conn s c) (head_decide c) d w (head_decide-Framed c) b))

head_step-Steps :
    (env : Env) (s : System) (body_start : ℕ)
    → IsDated env
    → IsConnection s
    → body_start ≤ s.conn.req_buf.size
    → Steps conn_reading_request s.conn.requests (head_step env s body_start)
unfolding head_step
head_step-Steps env s body_start d w b =
    let v =
      request_parse-RequestRead s.memory s.conn.req_buf.buffer s.conn.req_buf.size s.conn.req_parsed
        w.place w.headers in
    let s' = set_conn s (record s.conn { req_parsed = v.result.1 }) in
    let w' : IsConnection s' = record {
      place = w.place;
      input = w.input;
      word = w.word;
      output = w.output;
      headers = v.headers;
      mark = w.mark;
      arena = w.arena;
      registry = w.registry;
      socket = w.socket;
      response = w.response;
      decoded = w.decoded;
    } in
    rw (v.returned) (head_parsed-Steps env s' body_start v.result.0.status d w' b)

header_status-Steps :
    (env : Env) (s : System) (status : ReadHeaderStatus) (body_start : ℕ)
    → IsDated env
    → IsConnection s
    → HeaderEnd s.memory s.conn.req_buf status body_start
    → Steps conn_reading_request s.conn.requests (header_status env s status body_start)
unfolding header_status
header_status-Steps env s read_header_has_more body_start d w e =
    (record { sound = w; in_phase = tt }, inl (refl, tt))
header_status-Steps env s read_header_peer_closed body_start d w e =
    closed-Steps conn_reading_request _ s w
header_status-Steps env s read_header_io_error body_start d w e =
    closed-Steps conn_reading_request _ s w
header_status-Steps env s read_header_too_large body_start d w e =
    send_error_response-Steps env conn_reading_request s parse_header_too_long d (omega arith) w
header_status-Steps env s read_header_ok body_start d w e = head_step-Steps env s body_start d w e.1

pub step_header_read-Steps :
    (env : Env) (s : System)
    → IsDated env
    → IsSafe conn_reading_request s
    → Steps conn_reading_request s.conn.requests (step_header_read env s)
unfolding step_header_read
step_header_read-Steps env s d v =
    let w = v.sound in
    let r = conn_recv_header s.memory s.conn.req_buf s.recvs in
    let o = conn_recv_header-HeaderOutcome s.memory s.conn.req_buf s.recvs w.place w.input in
    let s' = record s {
      memory = r.memory;
      recvs = r.left;
      conn = record s.conn { req_buf = r.req };
    } in
    let w' : IsConnection s' = moved-IsSound w o.same o.size.1 in
    header_status-Steps env s' r.status r.body_start d w' o.end
