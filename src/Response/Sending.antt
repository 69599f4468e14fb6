-- ===== src/Response/Sending.antt =====
-- `response_send` of src/HttpResponse.c.
use http_server_from_scratch.Memory.{Memory, slice}
use http_server_from_scratch.Network.{
  HttpBuffer, Send, accepted, send_again, send_interrupted, send_pipe, send_reset, send_failed,
}
use http_server_from_scratch.Prelude.{
  ℕ, ◌+◌, ◌-◌, ◌≤◌, ◌<◌, ◌≡◌, refl, arith, true, List, [], ◌∷◌, if◌then◌else◌, some, false, ◌==◌,
  ltb, lt→ltb,
}
use http_server_from_scratch.Response.{
  SendResponseStatus, send_ok, send_has_more, Sent, send_took, send_none, send_call, response_send,
}

-- The bytes that went out are those between the two cursors, and the status tells whether some are
-- left.
pub record IsSent (m : Memory) (resp : HttpBuffer) (sent : ℕ) (r : Sent) : Type 0 where
  pub wire : r.wire ≡ slice m (resp.buffer + sent) (r.sent - sent)
  pub lo : sent ≤ r.sent
  pub hi : r.sent ≤ resp.size
  pub finished : r.status ≡ send_ok → r.sent ≡ resp.size
  pub more : r.status ≡ send_has_more → r.sent < resp.size

none-IsSent :
    (m : Memory) (resp : HttpBuffer) (sent : ℕ) (status : SendResponseStatus) (left : List Send)
    → sent < resp.size
    → (status ≡ send_ok → sent ≡ resp.size)
    → IsSent m resp sent (send_none status sent left)
unfolding slice
none-IsSent m resp sent status left h ok =
    let e : sent - sent ≡ 0 = omega arith in
    record { wire = rw (e) refl; lo = omega arith; hi = omega arith; finished = ok; more = λ q. h }

took-IsSent :
    (m : Memory) (resp : HttpBuffer) (sent n : ℕ) (left : List Send)
    → sent + n ≤ resp.size
    → IsSent m resp sent (send_took m resp sent n left)
took-IsSent m resp sent n left h =
    let e : sent + n - sent ≡ n = omega arith in
    record {
      wire = rw (e) refl;
      lo = omega arith;
      hi = h;
      finished = λ q. ground (arith, q);
      more = λ q. ground (arith, q, h);
    }

send_call-IsSent :
    (m : Memory) (resp : HttpBuffer) (sent : ℕ) (sends : List Send)
    → sent < resp.size
    → IsSent m resp sent (send_call m resp sent sends)
unfolding send_call
send_call-IsSent m resp sent [] h = none-IsSent m resp sent _ _ h (λ q. ground arith)
send_call-IsSent m resp sent (send_again ∷ left) h =
    none-IsSent m resp sent _ _ h (λ q. ground arith)
send_call-IsSent m resp sent (send_interrupted ∷ left) h =
    none-IsSent m resp sent _ _ h (λ q. ground arith)
send_call-IsSent m resp sent (send_pipe ∷ left) h =
    none-IsSent m resp sent _ _ h (λ q. ground arith)
send_call-IsSent m resp sent (send_reset ∷ left) h =
    none-IsSent m resp sent _ _ h (λ q. ground arith)
send_call-IsSent m resp sent (send_failed ∷ left) h =
    none-IsSent m resp sent _ _ h (λ q. ground arith)
send_call-IsSent m resp sent (accepted n ∷ left) h =
    took-IsSent m resp sent (if ltb n (resp.size - sent) then n else resp.size - sent) left
      (ground arith)

-- When the buffer is not NULL and some of the response is not yet sent, `response_send` returns, whatever send does: the bytes
-- that went out are those of the buffer between the cursor before and the cursor after; the cursor
-- does not pass the size; with SEND_OK it has reached the size, with SEND_HAS_MORE it has not.
pub response_send-IsSent :
    (m : Memory) (resp : HttpBuffer) (sent : ℕ) (sends : List Send)
    → 0 < resp.buffer
    → sent < resp.size
    → (r : Sent) × (response_send m resp sent sends ≡ some r) × IsSent m resp sent r
unfolding response_send
response_send-IsSent m resp sent sends there h =
    let f : (resp.buffer == 0) ≡ false = ground (arith, there) in
    let e : ltb sent resp.size ≡ true = lt→ltb sent resp.size h in
    (send_call m resp sent sends, rw (f, e) refl, send_call-IsSent m resp sent sends h)
