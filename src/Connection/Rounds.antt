-- ===== src/Connection/Rounds.antt =====
-- The rounds of the loop of `step_response_send_stream` in src/Connection.c.
use mathlib.Core.Option.{some_inj}
use Prim.{tt}
use http_server_from_scratch.Arena.Bounds.{assert_some}
use http_server_from_scratch.Router.Serving.{is_head}
use http_server_from_scratch.Connection.Streaming.{
  Round, leave, again, stream_handle_response, stream_sent, pull_round, producer_pulls, stream_send,
  stream_frame, stream_pulled, stream_round, stream_loop, pulls_left,
}
use http_server_from_scratch.Connection.{
  StreamPhase, stream_header, stream_pull, stream_drain, stream_trailer, stream_done, System,
  StepResult,
}
use http_server_from_scratch.Memory.{Memory}
use http_server_from_scratch.Network.{
  HttpBuffer, Send, accepted, send_again, send_interrupted, send_pipe, send_reset, send_failed,
}
use http_server_from_scratch.Prelude.{
  ℕ, suc, ◌+◌, ◌<◌, ◌≤◌, ◌≡◌, refl, ap, subst, arith, List, [], ◌∷◌, length, Option, none, some,
  Bool, true, false, not, ◌&&◌, ◌==◌, if◌then◌else◌, if_cases, ltb,
}
use http_server_from_scratch.Response.{
  Pull, pulled, pull_failed, Stream, Sent, SendResponseStatus, send_ok, send_peer_closed,
  send_has_more, send_error, send_call, response_send,
}

-- The phases before the end of the body weigh one round more.
abbrev pub weight : StreamPhase → ℕ
weight stream_trailer = 0
weight stream_done = 0
weight _ = 1

abbrev pub rounds_left : System → ℕ
rounds_left s = length s.sends + pulls_left s + weight s.conn.st_stream_phase

pub weight-le : (phase : StreamPhase) (n : ℕ) → n + weight phase < n + 3
weight-le stream_trailer n = omega arith
weight-le stream_done n = omega arith
weight-le stream_header n = omega arith
weight-le stream_pull n = omega arith
weight-le stream_drain n = omega arith

-- A round leaves the loop or has fewer rounds to go than `n`.
abbrev pub Shrinks : ℕ → Round → Type 0
Shrinks n (leave r) = Unit {0}
Shrinks n (again s) = rounds_left s < n

send_call-left :
    (m : Memory) (resp : HttpBuffer) (sent : ℕ) (sends : List Send)
    → (send_call m resp sent sends).status ≡ send_ok
    → length (send_call m resp sent sends).left < length sends
unfolding send_call
send_call-left m resp sent [] h = ground arith
send_call-left m resp sent (send_again ∷ left) h = ground arith
send_call-left m resp sent (send_interrupted ∷ left) h = ground arith
send_call-left m resp sent (send_pipe ∷ left) h = ground arith
send_call-left m resp sent (send_reset ∷ left) h = ground arith
send_call-left m resp sent (send_failed ∷ left) h = ground arith
send_call-left m resp sent (accepted n ∷ left) h = omega arith

handle-Shrinks :
    (s : System) (n : ℕ) (status : SendResponseStatus) (phase : StreamPhase)
    → (status ≡ send_ok → length s.sends + pulls_left s + weight phase < n)
    → Shrinks n (stream_handle_response s status phase)
unfolding stream_handle_response
handle-Shrinks s n send_error phase h = tt
handle-Shrinks s n send_peer_closed phase h = tt
handle-Shrinks s n send_has_more phase h = tt
handle-Shrinks s n send_ok phase h = h refl

response_send-left :
    (m : Memory) (resp : HttpBuffer) (sent : ℕ) (sends : List Send) (r : Sent)
    → response_send m resp sent sends ≡ some r
    → r.status ≡ send_ok
    → length r.left < length sends
unfolding response_send
response_send-left m resp sent sends r e h =
    let (g, q) =
      assert_some (not (resp.buffer == 0) && ltb sent resp.size)
        (some (send_call m resp sent sends)) r e in
    subst (λ t. t.status ≡ send_ok → length t.left < length sends) (some_inj.0 q)
      (send_call-left m resp sent sends) h

sent-Shrinks :
    (s : System) (n : ℕ) (o : Option Sent) (phase : StreamPhase)
    → length s.sends + pulls_left s + weight phase ≤ n
    → ((r : Sent) → o ≡ some r → r.status ≡ send_ok → length r.left < length s.sends)
    → Shrinks n (stream_sent s o phase)
unfolding stream_sent
sent-Shrinks s n none phase h k = tt
sent-Shrinks s n (some r) phase h k =
    handle-Shrinks _ n r.status phase (λ ok. let l = k r refl ok in omega (arith, l, h))

send-Shrinks :
    (s : System) (n : ℕ) (phase : StreamPhase)
    → length s.sends + pulls_left s + weight phase ≤ n
    → Shrinks n (stream_send s phase)
unfolding stream_send
send-Shrinks s n phase h =
    sent-Shrinks s n _ phase h
      (λ r e. response_send-left s.memory s.conn.resp_buf s.conn.st_stream_sent s.sends r e)

frame-Shrinks :
    (s : System) (n : ℕ) (frame : Option (List ℕ)) (phase : StreamPhase)
    → length s.sends + pulls_left s + weight phase < n
    → Shrinks n (stream_frame s frame phase)
unfolding stream_frame
frame-Shrinks s n none phase h = tt
frame-Shrinks s n (some bytes) phase h = h

pulled-Shrinks :
    (s : System) (n : ℕ) (p : Stream) (pulls : List Pull)
    → pulls_left s ≡ length pulls
    → length s.sends + length pulls + 1 ≤ n
    → Shrinks n (stream_pulled s p pulls)
unfolding stream_pulled
pulled-Shrinks s n p [] e h = frame-Shrinks s n _ stream_trailer (omega (arith, e, h))
pulled-Shrinks s n p (pull_failed ∷ pulls) e h = tt
pulled-Shrinks s n p (pulled b bs ∷ pulls) e h =
    frame-Shrinks _ n _ stream_drain (omega (arith, e, h))

pull-Shrinks :
    (s : System) (o : Option Stream)
    → s.conn.producer ≡ o
    → Shrinks (length s.sends + producer_pulls o + 1) (pull_round s o)
unfolding pull_round
pull-Shrinks s none e = tt
pull-Shrinks s (some p) e =
    if_cases (Shrinks (length s.sends + length p.pulls + 1)) p.pull
      (λ f. pulled-Shrinks s _ p p.pulls (ap producer_pulls e) (omega arith)) (λ f. tt)

header-Shrinks :
    (s : System) (b : Bool)
    → Shrinks
        (length s.sends + pulls_left s + 1)
        (stream_send s (if b then stream_done else stream_pull))
header-Shrinks s true = send-Shrinks s _ stream_done (omega arith)
header-Shrinks s false = send-Shrinks s _ stream_pull (omega arith)

pub round-Shrinks :
    (s : System) (phase : StreamPhase)
    → Shrinks (length s.sends + pulls_left s + weight phase) (stream_round s phase)
unfolding stream_round
round-Shrinks s stream_header = header-Shrinks s (is_head s.conn.req_parsed.request_line.method)
round-Shrinks s stream_pull = pull-Shrinks s s.conn.producer refl
round-Shrinks s stream_drain = send-Shrinks s _ stream_pull (omega arith)
round-Shrinks s stream_trailer = send-Shrinks s _ stream_done (omega arith)
round-Shrinks s stream_done = tt

-- The rest of the loop behind a round.
abbrev pub behind : ℕ → Round → StepResult
behind n (leave r) = r
behind n (again s) = stream_loop n s

pub stream_loop-suc :
    (n : ℕ) (s : System) → stream_loop (suc n) s ≡ behind n (stream_round s s.conn.st_stream_phase)
unfolding stream_loop
stream_loop-suc n s = refl
