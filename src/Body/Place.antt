-- ===== src/Body/Place.antt =====
-- `conn_recv_body_chunked` of src/HttpBody.c leaves the request buffer where it is.
use http_server_from_scratch.Arena.{assert_then}
use http_server_from_scratch.Body.Read.{
  ReadBodyResult, ChunkedRead, BodyRead, Drained, drain_step, chunk_drain, drain_rounds,
  chunked_check, chunked_take, recv_bytes, chunked_recv, after_drain, chunked_loop,
  conn_recv_body_chunked, drain_call, is_too_large, is_incomplete, is_done,
}
use http_server_from_scratch.ParseResult.{is_ok}
use http_server_from_scratch.Network.{
  HttpBuffer, Recv, received, recv_closed, recv_again, recv_interrupted, recv_failed,
}
use http_server_from_scratch.Prelude.{
  ℕ, zero, suc, ◌≡◌, Bool, true, false, not, ◌&&◌, if_cases, Option, none, some, List, [], ◌∷◌,
}
use Prim.{tt}

-- The buffer stands where another one does, with its capacity.
abbrev pub Placed : HttpBuffer → HttpBuffer → Type 0
Placed home b = (b.buffer ≡ home.buffer) × (b.cap ≡ home.cap)

abbrev DrainPlaced : HttpBuffer → Option (Drained × ChunkedRead) → Type 0
DrainPlaced home none = Unit {0}
DrainPlaced home (some (d, s)) = Placed home s.req_buf

abbrev pub ReadPlaced : HttpBuffer → Option (BodyRead ChunkedRead) → Type 0
ReadPlaced home none = Unit {0}
ReadPlaced home (some r) = Placed home r.state.req_buf

chunk_drain-DrainPlaced :
    (home : HttpBuffer) (n body_start : ℕ) (s : ChunkedRead)
    → Placed home s.req_buf
    → DrainPlaced home (chunk_drain body_start n s)
unfolding chunk_drain drain_step
chunk_drain-DrainPlaced home zero body_start s h = tt
chunk_drain-DrainPlaced home (suc n) body_start s h =
    let P : Option (Drained × ChunkedRead) → Type 0 = DrainPlaced home in
    let status = (drain_call body_start s).result.parse_result.status in
    if_cases P (is_too_large status) (λ e. h)
      (λ e.
        if_cases P (not (is_ok status) && not (is_incomplete status)) (λ f. h)
          (λ f.
            if_cases P (is_done (drain_step body_start s).st.dec.phase) (λ g. h)
              (λ g.
                if_cases P (is_incomplete status) (λ k. h)
                  (λ k. chunk_drain-DrainPlaced home n body_start (drain_step body_start s) h))))

checked-ReadPlaced :
    (home : HttpBuffer) (c : Option ReadBodyResult) (s : ChunkedRead) (left : List Recv)
    (next : ChunkedRead → Option (BodyRead ChunkedRead))
    → Placed home s.req_buf
    → ((t : ChunkedRead) → Placed home t.req_buf → ReadPlaced home (next t))
    → ReadPlaced home
        (elim c [ some r ↦ some (record { result = r; state = s; left = left }) | none ↦ next s ])
checked-ReadPlaced home none s left next h k = k s h
checked-ReadPlaced home (some r) s left next h k = h

after_drain-ReadPlaced :
    (home : HttpBuffer) (o : Option (Drained × ChunkedRead)) (left : List Recv)
    (next : ChunkedRead → Option (BodyRead ChunkedRead))
    → DrainPlaced home o
    → ((t : ChunkedRead) → Placed home t.req_buf → ReadPlaced home (next t))
    → ReadPlaced home (after_drain o (λ r t. record { result = r; state = t; left = left }) next)
unfolding after_drain
after_drain-ReadPlaced home none left next h k = tt
after_drain-ReadPlaced home (some (d, s)) left next h k =
    checked-ReadPlaced home (chunked_check d s) s left next h k

chunked_recv-ReadPlaced :
    (home : HttpBuffer) (e : Recv) (left : List Recv) (s : ChunkedRead)
    (rest : ChunkedRead → Option (BodyRead ChunkedRead))
    → Placed home s.req_buf
    → ((t : ChunkedRead) → Placed home t.req_buf → ReadPlaced home (rest t))
    → ReadPlaced home (chunked_recv e left s rest)
unfolding chunked_recv
chunked_recv-ReadPlaced home recv_closed left s rest h k = h
chunked_recv-ReadPlaced home recv_again left s rest h k = h
chunked_recv-ReadPlaced home recv_interrupted left s rest h k = k s h
chunked_recv-ReadPlaced home recv_failed left s rest h k = h
chunked_recv-ReadPlaced home (received b bs) left s rest h k =
    k (chunked_take s (recv_bytes s.req_buf b bs)) h

chunked_loop-ReadPlaced :
    (home : HttpBuffer) (body_start : ℕ) (s : ChunkedRead) (recvs : List Recv)
    → Placed home s.req_buf
    → ReadPlaced home (chunked_loop body_start s recvs)
unfolding chunked_loop
chunked_loop-ReadPlaced home body_start s [] h =
    after_drain-ReadPlaced home _ [] _
      (chunk_drain-DrainPlaced home (drain_rounds body_start s) body_start s h) (λ t v. v)
chunked_loop-ReadPlaced home body_start s (e ∷ left) h =
    after_drain-ReadPlaced home _ (e ∷ left) _
      (chunk_drain-DrainPlaced home (drain_rounds body_start s) body_start s h)
      (λ t v.
        chunked_recv-ReadPlaced home e left t (λ u. chunked_loop body_start u left) v
          (λ u x. chunked_loop-ReadPlaced home body_start u left x))

assert-ReadPlaced :
    (home : HttpBuffer) (b : Bool) (o : Option (BodyRead ChunkedRead))
    → ReadPlaced home o
    → ReadPlaced home (assert_then b o)
assert-ReadPlaced home true o h = h
assert-ReadPlaced home false o h = tt

pub conn_recv_body_chunked-ReadPlaced :
    (home : HttpBuffer) (fd body_start : ℕ) (s : ChunkedRead) (recvs : List Recv)
    → Placed home s.req_buf
    → ReadPlaced home (conn_recv_body_chunked fd body_start s recvs)
unfolding conn_recv_body_chunked
conn_recv_body_chunked-ReadPlaced home fd body_start s recvs h =
    assert-ReadPlaced home _ _ (chunked_loop-ReadPlaced home body_start s recvs h)
