-- ===== src/Body/Read.antt =====
-- src/HttpBody.c, `conn_recv_body_cl` and `conn_recv_body_chunked`: the loops that read a body from
-- the socket during one wake-up.
use http_server_from_scratch.Arena.{assert_then}
use http_server_from_scratch.Body.Chunk.{
  ChunkedPhase, chunk_done, ChunkDecoder, Advanced, chunk_advance,
}
use http_server_from_scratch.Memory.{Memory, null}
use http_server_from_scratch.Network.{
  HttpBuffer, Recv, received, recv_closed, recv_again, recv_interrupted, recv_failed, store, take,
}
use http_server_from_scratch.ParseResult.{
  ParseStatus, parse_payload_too_large, parse_incomplete, is_ok,
}
use http_server_from_scratch.Prelude.{
  ℕ, zero, suc, ◌+◌, ◌-◌, Bool, true, false, not, ◌&&◌, List, [], ◌∷◌, ltb, leb, ◌==◌,
  if◌then◌else◌, length, Option, none, some,
}

pub data ReadBodyStatus : Type 0 where
  read_body_ok read_body_peer_closed read_body_too_large read_body_io_error : ReadBodyStatus
  read_body_bad_data read_body_has_more : ReadBodyStatus

pub record ReadBodyResult : Type 0 where
  pub status : ReadBodyStatus
  pub next_req_offset : ℕ

pub record ChunkedBodySt : Type 0 where
  pub consumed : ℕ
  pub dec : ChunkDecoder

-- The state that the reader works on: memory, the two buffers and the cursor.
pub record ChunkedRead : Type 0 where
  pub memory : Memory
  pub req_buf : HttpBuffer
  pub dechunked : HttpBuffer
  pub st : ChunkedBodySt

-- How the inner loop is left: by a return, or by the `break` on PARSE_INCOMPLETE.
pub data Drained : Type 0 where
  returned : ReadBodyStatus → ℕ → Drained
  need_more : Drained

-- The decoder's status, seen by the inner loop.
abbrev pub is_too_large : ParseStatus → Bool
is_too_large parse_payload_too_large = true
is_too_large _ = false

abbrev pub is_incomplete : ParseStatus → Bool
is_incomplete parse_incomplete = true
is_incomplete _ = false

abbrev pub is_done : ChunkedPhase → Bool
is_done chunk_done = true
is_done _ = false

-- One call of `chunk_advance` in the inner loop, and the state after it.
unfoldable pub drain_call : ℕ → ChunkedRead → Advanced
drain_call body_start s =
    chunk_advance s.st.dec s.memory (s.req_buf.buffer + body_start + s.st.consumed)
      (s.req_buf.size - (body_start + s.st.consumed)) (s.dechunked.buffer + s.dechunked.size)
      (s.dechunked.cap - s.dechunked.size)

unfoldable pub drain_step : ℕ → ChunkedRead → ChunkedRead
drain_step body_start s =
    let cur = s.req_buf.buffer + body_start + s.st.consumed in
    let a = drain_call body_start s in
    let next = a.result.parse_result.next in
    record s {
      memory = a.memory;
      dechunked = record s.dechunked { size = s.dechunked.size + a.result.bytes_written };
      st = record {
        consumed = if next == null then s.st.consumed else s.st.consumed + (next - cur);
        dec = a.dec;
      };
    }

-- The inner loop, in at most `n` rounds; `none` when those are used up.
unfoldable pub chunk_drain : ℕ → ℕ → ChunkedRead → Option (Drained × ChunkedRead)
chunk_drain body_start zero s = none
chunk_drain body_start (suc n) s =
    let status = (drain_call body_start s).result.parse_result.status in
    let s' = drain_step body_start s in
    let rest = chunk_drain body_start n s' in
    if is_too_large status
    then some (returned read_body_too_large 0, s')
    else if not (is_ok status) && not (is_incomplete status)
    then some (returned read_body_bad_data 0, s')
    else if is_done s'.st.dec.phase
    then some (returned read_body_ok (body_start + s'.st.consumed), s')
    else if is_incomplete status
    then some (need_more, s')
    else rest

-- What a reader returns: its result, the state, and the calls of recv that are left.
pub record BodyRead (S : Type 0) : Type 0 where
  pub result : ReadBodyResult
  pub state : S
  pub left : List Recv

-- `{ .status = status }`, with the calls that are left.
abbrev pub with_status : {S : Type 0} → ReadBodyStatus → S → List Recv → BodyRead S
with_status status s left = record {
  result = record { status = status; next_req_offset = 0 };
  state = s;
  left = left;
}

-- The bytes of a successful call of recv on a buffer, written behind its first `size` bytes.
abbrev pub recv_bytes : HttpBuffer → ℕ → List ℕ → List ℕ
recv_bytes buf b bs = take (buf.cap - buf.size) (b ∷ bs)

-- What the reader by Content-Length works on.
pub record ClRead : Type 0 where
  pub memory : Memory
  pub req : HttpBuffer
  pub received : ℕ

-- The two tests in front of recv: the result, if one of them ends the loop.
abbrev pub cl_check : ℕ → ℕ → ClRead → Option ReadBodyResult
cl_check body_start body_len s =
    if leb body_len s.received
    then some (record {
      status = read_body_ok;
      next_req_offset = if ltb body_len s.received then body_start + body_len else 0;
    })
    else if leb s.req.cap s.req.size
    then some (record { status = read_body_too_large; next_req_offset = 0 })
    else none

-- `req->size += got; st->received += got;` with the bytes in place.
abbrev pub cl_take : ClRead → List ℕ → ClRead
cl_take s bytes = record {
  memory = store s.memory (s.req.buffer + s.req.size) bytes;
  req = record s.req { size = s.req.size + length bytes };
  received = s.received + length bytes;
}

-- The result of the tests, or else what follows them.
unfoldable pub leave_or :
    {S : Type 0} → Option ReadBodyResult → S → List Recv → BodyRead S → BodyRead S
leave_or (some r) s left next = record { result = r; state = s; left = left }
leave_or none s left next = next

unfoldable pub conn_recv_body_cl : ℕ → ℕ → ClRead → List Recv → BodyRead ClRead
conn_recv_body_cl body_start body_len s [] =
    leave_or (cl_check body_start body_len s) s [] (with_status read_body_has_more s [])
conn_recv_body_cl body_start body_len s (recv_closed ∷ left) =
    leave_or (cl_check body_start body_len s) s (recv_closed ∷ left)
      (with_status read_body_peer_closed s left)
conn_recv_body_cl body_start body_len s (recv_again ∷ left) =
    leave_or (cl_check body_start body_len s) s (recv_again ∷ left)
      (with_status read_body_has_more s left)
conn_recv_body_cl body_start body_len s (recv_interrupted ∷ left) =
    leave_or (cl_check body_start body_len s) s (recv_interrupted ∷ left)
      (conn_recv_body_cl body_start body_len s left)
conn_recv_body_cl body_start body_len s (recv_failed ∷ left) =
    leave_or (cl_check body_start body_len s) s (recv_failed ∷ left)
      (with_status read_body_io_error s left)
conn_recv_body_cl body_start body_len s (received b bs ∷ left) =
    leave_or (cl_check body_start body_len s) s (received b bs ∷ left)
      (conn_recv_body_cl body_start body_len (cl_take s (recv_bytes s.req b bs)) left)

-- Rounds enough for the inner loop: each that does not leave it uses up a byte of the input.
abbrev pub drain_rounds : ℕ → ChunkedRead → ℕ
drain_rounds body_start s = suc (s.req_buf.size - (body_start + s.st.consumed))

-- What follows the inner loop: `none` when recv is to be called.
abbrev pub chunked_check : Drained → ChunkedRead → Option ReadBodyResult
chunked_check (returned status offset) s =
    some (record { status = status; next_req_offset = offset })
chunked_check need_more s =
    if leb s.req_buf.cap s.req_buf.size
    then some (record { status = read_body_too_large; next_req_offset = 0 })
    else none

-- `req_buf->size += got;` with the bytes in place.
abbrev pub chunked_take : ChunkedRead → List ℕ → ChunkedRead
chunked_take s bytes = record s {
  memory = store s.memory (s.req_buf.buffer + s.req_buf.size) bytes;
  req_buf = record s.req_buf { size = s.req_buf.size + length bytes };
}

-- One call of recv after the inner loop; `rest` goes round the outer loop.
unfoldable pub chunked_recv :
    Recv
    → List Recv
    → ChunkedRead
    → (ChunkedRead → Option (BodyRead ChunkedRead))
    → Option (BodyRead ChunkedRead)
chunked_recv recv_closed left s rest = some (with_status read_body_peer_closed s left)
chunked_recv recv_again left s rest = some (with_status read_body_has_more s left)
chunked_recv recv_interrupted left s rest = rest s
chunked_recv recv_failed left s rest = some (with_status read_body_io_error s left)
chunked_recv (received b bs) left s rest = rest (chunked_take s (recv_bytes s.req_buf b bs))

-- What follows the inner loop: `leave` with the result of a reader that is done, or `next`, the
-- call of recv. `none` only when the inner loop ran out of its rounds.
unfoldable pub after_drain :
    {R : Type 0}
    → Option (Drained × ChunkedRead)
    → (ReadBodyResult → ChunkedRead → R)
    → (ChunkedRead → Option R)
    → Option R
after_drain none leave next = none
after_drain (some (d, s)) leave next = elim (chunked_check d s) [
  | some r ↦ some (leave r s)
  | none ↦ next s
]

-- The outer loop.
unfoldable pub chunked_loop : ℕ → ChunkedRead → List Recv → Option (BodyRead ChunkedRead)
chunked_loop body_start s [] =
    after_drain (chunk_drain body_start (drain_rounds body_start s) s)
      (λ r t. record { result = r; state = t; left = [] })
      (λ t. some (with_status read_body_has_more t []))
chunked_loop body_start s (e ∷ left) =
    after_drain (chunk_drain body_start (drain_rounds body_start s) s)
      (λ r t. record { result = r; state = t; left = e ∷ left })
      (λ t. chunked_recv e left t (λ u. chunked_loop body_start u left))

-- `none` is a failed assertion, or an inner loop that ran out of its rounds. (The reader asserts
-- `fd > 0`, the other functions that are given a descriptor assert `fd >= 0`.)
unfoldable pub conn_recv_body_chunked :
    ℕ → ℕ → ChunkedRead → List Recv → Option (BodyRead ChunkedRead)
conn_recv_body_chunked fd body_start s recvs =
    assert_then
      (ltb 0 fd
        && not (s.req_buf.buffer == null)
        && not (s.dechunked.buffer == null)
        && leb (body_start + s.st.consumed) s.req_buf.size)
      (chunked_loop body_start s recvs)
