-- ===== src/Connection/Safety/Sending.antt =====
-- The steps of src/Connection.c that send from a buffer, and the errors that other steps send.
use http_server_from_scratch.Arena.{arena_reset_to}
use http_server_from_scratch.Body.Chunk.{decoder_zero}
use http_server_from_scratch.Body.Progress.{IsDecoder}
use http_server_from_scratch.Config.{http_max_requests, http_response_buffer_size}
use http_server_from_scratch.Connection.Safety.{IsConnection, IsSafe, Steps, rank, IsDated}
use http_server_from_scratch.Connection.Step.{
  send_step, continue_100, continue_100_buf, step_send_100, response_end, step_response_send,
}
use http_server_from_scratch.Connection.{
  ConnPhase, conn_sending_100, conn_sending_response, conn_closed, System, Env, StepResult,
  phase_send_begin, send_error_response, error_begin, phase_body_dispatch, connection_reset,
  is_chunked, sub_size,
}
use http_server_from_scratch.Memory.{size_mod, string_memory, Memory}
use http_server_from_scratch.Network.{HttpBuffer}
use http_server_from_scratch.ParseResult.{ParseStatus, parse_ok}
use http_server_from_scratch.Prelude.{
  ℕ, ◌+◌, ◌-◌, ◌≤◌, ◌<◌, ◌≡◌, inl, inr, refl, sym, ap, ◌∙◌, subst, arith, true, false, if_cases,
  not, ◌||◌, leb, ◌==◌, length, List, ◌++◌, Option, some,
}
use http_server_from_scratch.Request.Block.{AreHeaders}
use http_server_from_scratch.Request.{request_zero}
use http_server_from_scratch.Response.Errors.{error_page, error_page-fits}
use http_server_from_scratch.Response.{
  SendResponseStatus, send_ok, send_peer_closed, send_has_more, send_error, Sent,
  response_error_serialize, response_serialize, response_error_from_status, response_buffer,
}
use http_server_from_scratch.Response.Sending.{response_send-IsSent}
use Prim.{tt}

-- A step that closes the connection.
pub closed-Steps :
    (p : ConnPhase) (n : ℕ) (s : System) → IsConnection s → Steps p n (some (conn_closed, s))
closed-Steps p n s w = (record { sound = w; in_phase = tt }, inr (inl refl))

error_head : (status : ParseStatus) → (response_error_from_status status).head_only ≡ false
unfolding response_error_from_status response_buffer
error_head parse_ok = refl
error_head _ = refl

error_page-written :
    (env : Env) (s : System) (status : ParseStatus)
    → IsDated env
    → IsConnection s
    → (bytes : List ℕ) × (response_error_serialize status s.conn.resp_buf.cap env.date ≡ some bytes)
      × (0 < length bytes)
unfolding response_error_serialize
error_page-written env s status d w =
    let (date, e, l) = d in
    let (f, pos, hi) = error_page-fits status false false date l in
    let resp = response_error_from_status status in
    let q : resp ≡ record resp { head_only = false } =
      ap (λ b. record resp { head_only = b }) (error_head status) in
    (
      error_page status false false date,
      rw (e, w.output)
          (ap (λ r. response_serialize r http_response_buffer_size false (some date)) q ∙ f),
      pos,
    )

-- An error answers a request that is not yet answered.
pub send_error_response-Steps :
    (env : Env) (p : ConnPhase) (s : System) (status : ParseStatus)
    → IsDated env
    → rank p < 4
    → IsConnection s
    → Steps p s.conn.requests (send_error_response env s status)
unfolding send_error_response error_begin phase_send_begin
send_error_response-Steps env p s status d h w =
    let (bytes, e, pos) = error_page-written env s status d w in
    subst (λ o. Steps p s.conn.requests (error_begin s o)) (sym e)
      (record { sound = w; in_phase = pos }, inr (inr (inl (refl, h))))

sub_size-le : (a b : ℕ) → b ≤ a → a < size_mod → sub_size a b ≡ a - b
sub_size-le a b h w = omega (arith, h, w)

decoder_zero-IsDecoder : IsDecoder decoder_zero
decoder_zero-IsDecoder = ground arith

-- The phase that reads the body, or none when there is no body.
pub phase_body_dispatch-Steps :
    (p : ConnPhase) (s : System)
    → rank p < 2
    → IsConnection s
    → s.conn.body_start ≤ s.conn.req_buf.size
    → Steps p s.conn.requests (phase_body_dispatch s)
unfolding phase_body_dispatch
phase_body_dispatch-Steps p s h w b =
    let c = s.conn in
    let P : StepResult → Type 0 = Steps p c.requests in
    if_cases P (is_chunked c.body_coding)
      (λ e. (
        record {
          sound = w;
          in_phase = record {
            decoder = decoder_zero-IsDecoder;
            cursor = omega (arith, b);
            input = w.input;
            output = omega arith;
            places = (w.place, w.decoded);
          };
        },
        inr (inr (inl (refl, h))),
      ))
      (λ e.
        if_cases P (c.body_len == 0)
          (λ f. (record { sound = w; in_phase = b }, inr (inr (inl (refl, omega (arith, h))))))
          (λ f.
            let q : leb c.body_start c.req_buf.size ≡ true = ground (arith, b) in
            rw q (
              record {
                sound = w;
                in_phase = record {
                  body = omega (
                    arith,
                    b,
                    sub_size-le c.req_buf.size c.body_start b (omega (arith, w.input, w.word)),
                  );
                  input = w.input;
                };
              },
              inr (inr (inl (refl, h))),
            )))

-- What a call of `response_send` on the union's cursor leaves.
abbrev IsSendStep : HttpBuffer → System → Option (SendResponseStatus × System) → Type 0
IsSendStep b s o =
    (r : Sent) × (o
      ≡ some (
        r.status,
        record s {
          conn = record s.conn { st_send_sent = r.sent };
          sends = r.left;
          wire = s.wire ++ r.wire;
        },
      ))
    × (r.sent ≤ b.size)
    × (r.status ≡ send_has_more → r.sent < b.size)

send_step_total :
    (m : Memory) (b : HttpBuffer) (s : System)
    → 0 < b.buffer
    → s.conn.st_send_sent < b.size
    → IsSendStep b s (send_step m b s)
unfolding send_step
send_step_total m b s there h =
    let (r, e, v) = response_send-IsSent m b s.conn.st_send_sent s.sends there h in
    (r, rw e refl, v.hi, v.more)

sent_100-Steps :
    (s t : System) (status : SendResponseStatus)
    → IsConnection t
    → t.conn.requests ≡ s.conn.requests
    → t.conn.body_start ≤ t.conn.req_buf.size
    → (status ≡ send_has_more → t.conn.st_send_sent < length continue_100)
    → Steps conn_sending_100 s.conn.requests (elim status [
      | send_has_more ↦ some (conn_sending_100, t)
      | send_ok ↦ phase_body_dispatch t
      | send_peer_closed ↦ some (conn_closed, t)
      | send_error ↦ some (conn_closed, t)
    ])
sent_100-Steps s t send_has_more w e b h =
    (record { sound = w; in_phase = (h refl, b) }, inl (refl, tt))
sent_100-Steps s t send_ok w e b h =
    subst (λ n. Steps conn_sending_100 n (phase_body_dispatch t)) e
      (phase_body_dispatch-Steps conn_sending_100 t (omega arith) w b)
sent_100-Steps s t send_peer_closed w e b h = closed-Steps conn_sending_100 _ t w
sent_100-Steps s t send_error w e b h = closed-Steps conn_sending_100 _ t w

pub step_send_100-Steps :
    (s : System)
    → IsSafe conn_sending_100 s
    → Steps conn_sending_100 s.conn.requests (step_send_100 s)
unfolding step_send_100
step_send_100-Steps s v =
    let (r, e, hi, more) =
      send_step_total (string_memory 1 continue_100) continue_100_buf s (omega arith)
        v.in_phase.0 in
    rw e (sent_100-Steps s _ r.status v.sound refl v.in_phase.1 more)

request_zero-AreHeaders : AreHeaders request_zero.headers
request_zero-AreHeaders = record { each = tt; count = omega arith }

-- The end of a response: closed, or reset for the next request.
pub response_end-Steps :
    (p : ConnPhase) (s : System) → IsConnection s → Steps p s.conn.requests (response_end s)
unfolding response_end connection_reset arena_reset_to
response_end-Steps p s w =
    let a = s.conn.arena in
    let m : leb s.conn.req_mark a.used ≡ true = ground (arith, w.mark) in
    let k : leb s.conn.req_mark a.cap ≡ true = ground (arith, w.mark, w.arena.used) in
    if_cases (Steps p s.conn.requests)
      (not s.conn.keep_alive || leb http_max_requests (s.conn.requests + 1))
      (λ e. closed-Steps p _ _ w)
      (λ e.
        rw (m, k)
          (
            record {
              sound = record {
                place = w.place;
                input = w.input;
                word = w.word;
                output = w.output;
                headers = request_zero-AreHeaders;
                mark = omega arith;
                arena = record {
                  word = w.arena.word;
                  origin = w.arena.origin;
                  used = omega (arith, w.mark, w.arena.used);
                  room = w.arena.room;
                };
                registry = w.registry;
                socket = w.socket;
                response = w.response;
                decoded = w.decoded;
              };
              in_phase = tt;
            },
            inr (inr (inr (refl, refl, ground (arith, e)))),
          ))

sent-Steps :
    (s t : System) (status : SendResponseStatus)
    → IsConnection t
    → t.conn.requests ≡ s.conn.requests
    → 0 < t.conn.resp_buf.size
    → Steps conn_sending_response s.conn.requests (elim status [
      | send_has_more ↦ phase_send_begin t
      | send_error ↦ some (conn_closed, t)
      | send_peer_closed ↦ some (conn_closed, t)
      | send_ok ↦ response_end t
    ])
unfolding phase_send_begin
sent-Steps s t send_has_more w e h = (record { sound = w; in_phase = h }, inl (refl, tt))
sent-Steps s t send_ok w e h =
    subst (λ n. Steps conn_sending_response n (response_end t)) e
      (response_end-Steps conn_sending_response t w)
sent-Steps s t send_peer_closed w e h = closed-Steps conn_sending_response _ t w
sent-Steps s t send_error w e h = closed-Steps conn_sending_response _ t w

pub step_response_send-Steps :
    (s : System)
    → IsSafe conn_sending_response s
    → Steps conn_sending_response s.conn.requests (step_response_send s)
unfolding step_response_send
step_response_send-Steps s v =
    let (r, e, hi, more) = send_step_total s.memory s.conn.resp_buf s v.sound.response v.in_phase in
    rw e (sent-Steps s _ r.status v.sound refl (omega (arith, v.in_phase)))
