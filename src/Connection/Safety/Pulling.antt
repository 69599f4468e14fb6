-- ===== src/Connection/Safety/Pulling.antt =====
-- `step_response_send_stream` of src/Connection.c.
use http_server_from_scratch.Config.{http_stream_chunk_size}
use http_server_from_scratch.Connection.Rounds.{
  rounds_left, weight-le, Shrinks, round-Shrinks, behind, stream_loop-suc,
}
use http_server_from_scratch.Connection.Safety.Sending.{closed-Steps, response_end-Steps}
use http_server_from_scratch.Connection.Safety.{IsConnection, IsSafe, IsProducer, InStream, Steps}
use http_server_from_scratch.Connection.Streaming.{
  Round, leave, again, stream_abort, stream_handle_response, stream_sent, stream_send, stream_frame,
  stream_pulled, pull_round, stream_round, stream_loop, pulls_left, step_response_send_stream,
}
use http_server_from_scratch.Connection.{
  conn_sending_response_stream, StreamPhase, stream_header, stream_pull, stream_drain,
  stream_trailer, stream_done, System, resp_written, stream_release,
}
use http_server_from_scratch.Network.{take}
use http_server_from_scratch.Prelude.{
  ℕ, zero, suc, ◌+◌, ◌≤◌, ◌<◌, ◌≡◌, inl, refl, sym, ◌∙◌, true, false, subst, arith, if_cases, ltb,
  leb, length, length-append, List, [], ◌∷◌, ◌++◌, Option, none, some,
}
use http_server_from_scratch.Response.Sending.{response_send-IsSent}
use http_server_from_scratch.Response.{
  Pull, pulled, pull_failed, Stream, SendResponseStatus, send_ok, send_peer_closed, send_has_more,
  send_error, chunk_frame, chunk_frame_last, print_uint, crlf,
}
use http_server_from_scratch.Router.Serving.{is_head}
use Prim.{tt, absurd, ⊥}
use http_server_from_scratch.Connection.Step.{response_end}

-- A round that leaves the loop is a step; one that goes on leaves what holds in the next phase.
abbrev IsRound : ℕ → Round → Type 0
IsRound n (leave r) = Steps conn_sending_response_stream n r
IsRound n (again s) =
    IsConnection s × InStream s.conn.st_stream_phase s.conn × (s.conn.requests ≡ n)

stream_abort-Steps :
    (s : System)
    → IsConnection s
    → Steps conn_sending_response_stream s.conn.requests (stream_abort s)
unfolding stream_abort stream_release
stream_abort-Steps s w = aborted s.conn.producer refl
  where
    aborted :
        (o : Option Stream)
        → s.conn.producer ≡ o
        → Steps conn_sending_response_stream s.conn.requests (stream_abort s)
    aborted none e = rw e (closed-Steps conn_sending_response_stream _ _ w)
    aborted (some p) e = rw e (closed-Steps conn_sending_response_stream _ _ w)

-- What the phase behind a call of send relies on.
abbrev Enters : StreamPhase → System → Type 0
Enters phase s = InStream phase (record s.conn { st_stream_phase = phase; st_stream_sent = 0 })

handle-IsRound :
    (s : System) (status : SendResponseStatus) (phase : StreamPhase)
    → IsConnection s
    → Enters phase s
    → (status ≡ send_has_more → InStream s.conn.st_stream_phase s.conn)
    → IsRound s.conn.requests (stream_handle_response s status phase)
unfolding stream_handle_response
handle-IsRound s send_error phase w k h = stream_abort-Steps s w
handle-IsRound s send_peer_closed phase w k h = stream_abort-Steps s w
handle-IsRound s send_has_more phase w k h =
    (record { sound = w; in_phase = h refl }, inl (refl, tt))
handle-IsRound s send_ok phase w k h = (w, k, refl)

send-IsRound :
    (s : System) (phase : StreamPhase)
    → IsConnection s
    → Enters phase s
    → s.conn.st_stream_sent < s.conn.resp_buf.size
    → ((n : ℕ)
        → n < s.conn.resp_buf.size
        → InStream s.conn.st_stream_phase (record s.conn { st_stream_sent = n }))
    → IsRound s.conn.requests (stream_send s phase)
unfolding stream_send stream_sent
send-IsRound s phase w k h f =
    let (r, e, v) =
      response_send-IsSent s.memory s.conn.resp_buf s.conn.st_stream_sent s.sends w.response h in
    let s' = record s {
      conn = record s.conn { st_stream_sent = r.sent };
      sends = r.left;
      wire = s.wire ++ r.wire;
    } in
    subst (λ o. IsRound s.conn.requests (stream_sent s o phase)) (sym e)
      (handle-IsRound s' r.status phase w k (λ q. f r.sent (v.more q)))

-- A frame that is written is not empty.
abbrev IsFrame : Option (List ℕ) → Type 0
IsFrame none = Unit {0}
IsFrame (some bytes) = 0 < length bytes

frame-IsRound :
    (s : System) (o : Option (List ℕ)) (phase : StreamPhase)
    → IsConnection s
    → IsFrame o
    → ((bytes : List ℕ) → 0 < length bytes → Enters phase (resp_written s bytes))
    → IsRound s.conn.requests (stream_frame s o phase)
unfolding stream_frame
frame-IsRound s none phase w h k = stream_abort-Steps s w
frame-IsRound s (some bytes) phase w h k = (w, k bytes h, refl)

chunk_frame-IsFrame :
    (payload : List ℕ) (cap : ℕ) → 0 < length payload → IsFrame (chunk_frame payload cap)
unfolding chunk_frame
chunk_frame-IsFrame payload cap h =
    let size = print_uint 16 (length payload) ++ crlf in
    if_cases IsFrame (leb cap (length size)) (λ e. tt)
      (λ e.
        if_cases IsFrame (ltb cap (length size + length payload + 2)) (λ f. tt)
          (λ f. omega (arith, length-append size (payload ++ crlf), length-append payload crlf, h)))

chunk_frame_last-IsFrame : (cap : ℕ) → IsFrame (chunk_frame_last cap)
unfolding chunk_frame_last
chunk_frame_last-IsFrame cap = if_cases IsFrame (ltb cap 5) (λ e. tt) (λ e. omega arith)

pulled-IsRound :
    (s : System) (p : Stream) (pulls : List Pull)
    → IsConnection s
    → p.pull ≡ true
    → IsRound s.conn.requests (stream_pulled s p pulls)
unfolding stream_pulled
pulled-IsRound s p [] w q =
    frame-IsRound s _ stream_trailer w (chunk_frame_last-IsFrame s.conn.resp_buf.cap) (λ bytes h. h)
pulled-IsRound s p (pull_failed ∷ pulls) w q = stream_abort-Steps _ w
pulled-IsRound s p (pulled b bs ∷ pulls) w q =
    frame-IsRound _ _ stream_drain w
      (chunk_frame-IsFrame (take http_stream_chunk_size (b ∷ bs)) s.conn.resp_buf.cap (omega arith))
      (λ bytes h. (h, q))

true_ne : true ≡ false → ⊥
true_ne e = ground (arith, e)

pull-IsRound :
    (s : System) (o : Option Stream)
    → IsConnection s
    → IsProducer o
    → IsRound s.conn.requests (pull_round s o)
unfolding pull_round
pull-IsRound s none w h = absurd h
pull-IsRound s (some p) w h =
    if_cases (IsRound s.conn.requests) p.pull (λ e. pulled-IsRound s p p.pulls w h)
      (λ e. absurd (true_ne (sym h ∙ e)))

stream_release-IsConnection :
    (s : System)
    → IsConnection s
    → IsConnection (stream_release s) × ((stream_release s).conn.requests ≡ s.conn.requests)
unfolding stream_release
stream_release-IsConnection s w = released s.conn.producer refl
  where
    released :
        (o : Option Stream)
        → s.conn.producer ≡ o
        → IsConnection (stream_release s) × ((stream_release s).conn.requests ≡ s.conn.requests)
    released none e = rw e (w, refl)
    released (some p) e = rw e (w, refl)

stream_round-IsRound :
    (s : System) (phase : StreamPhase)
    → s.conn.st_stream_phase ≡ phase
    → IsConnection s
    → InStream phase s.conn
    → IsRound s.conn.requests (stream_round s phase)
unfolding stream_round
stream_round-IsRound s stream_header e w h =
    let f : (n : ℕ)
        → n < s.conn.resp_buf.size
        → InStream s.conn.st_stream_phase (record s.conn { st_stream_sent = n }) =
      λ n l. subst (λ p. InStream p (record s.conn { st_stream_sent = n })) (sym e) (l, h.1) in
    if_cases (λ p. IsRound s.conn.requests (stream_send s p))
      (is_head s.conn.req_parsed.request_line.method) (λ q. send-IsRound s stream_done w tt h.0 f)
      (λ q. send-IsRound s stream_pull w h.1 h.0 f)
stream_round-IsRound s stream_pull e w h = pull-IsRound s s.conn.producer w h
stream_round-IsRound s stream_drain e w h =
    send-IsRound s stream_pull w h.1 h.0
      (λ n l. subst (λ p. InStream p (record s.conn { st_stream_sent = n })) (sym e) (l, h.1))
stream_round-IsRound s stream_trailer e w h =
    send-IsRound s stream_done w tt h
      (λ n l. subst (λ p. InStream p (record s.conn { st_stream_sent = n })) (sym e) l)
stream_round-IsRound s stream_done e w h =
    let (w', k) = stream_release-IsConnection s w in
    subst (λ n. Steps conn_sending_response_stream n (response_end (stream_release s))) k
      (response_end-Steps conn_sending_response_stream (stream_release s) w')

behind-Steps :
    (n k q : ℕ) (r : Round)
    → Shrinks k r
    → k ≤ q
    → IsRound n r
    → ((s : System)
        → rounds_left s < q
        → IsConnection s
        → InStream s.conn.st_stream_phase s.conn
        → Steps conn_sending_response_stream s.conn.requests (stream_loop q s))
    → Steps conn_sending_response_stream n (behind q r)
behind-Steps n k q (leave r) h l v f = v
behind-Steps n k q (again s) h l v f =
    subst (λ t. Steps conn_sending_response_stream t (stream_loop q s)) v.2
      (f s (omega (arith, h, l)) v.0 v.1)

stream_loop-Steps :
    (n : ℕ) (s : System)
    → rounds_left s < n
    → IsConnection s
    → InStream s.conn.st_stream_phase s.conn
    → Steps conn_sending_response_stream s.conn.requests (stream_loop n s)
stream_loop-Steps zero s h w v = elim h [ ]
stream_loop-Steps (suc n) s h w v =
    subst (Steps conn_sending_response_stream s.conn.requests) (sym (stream_loop-suc n s)) (
      behind-Steps s.conn.requests (rounds_left s) n (stream_round s s.conn.st_stream_phase)
        (round-Shrinks s s.conn.st_stream_phase) (omega (arith, h))
        (stream_round-IsRound s s.conn.st_stream_phase refl w v)
        (λ t l w' v'. stream_loop-Steps n t l w' v'))

-- The streaming step, from a connection that is as its phase relies on, returns a result: the rounds
-- of its loop are enough, no assertion fails, and no NULL `pull` is called, whatever send and the
-- producer answer. In the connection it leaves what the next phase relies on holds, and the step waits
-- for the socket, closes the connection, or goes on to the next request, of which there are fewer than
-- `http_max_requests`.
pub step_response_send_stream-Steps :
    (s : System)
    → IsSafe conn_sending_response_stream s
    → Steps conn_sending_response_stream s.conn.requests (step_response_send_stream s)
unfolding step_response_send_stream
step_response_send_stream-Steps s v =
    stream_loop-Steps (length s.sends + pulls_left s + 3) s
      (weight-le s.conn.st_stream_phase (length s.sends + pulls_left s)) v.sound v.in_phase
