-- ===== src/Body/Total.antt =====
-- The reader of chunked bodies of src/HttpBody.c: its rounds suffice, and its buffers stay in bounds.
use http_server_from_scratch.Body.Chunk.{ChunkedPhase, chunk_done}
use http_server_from_scratch.Body.Progress.{IsDecoder, chunk_advance-Progress}
use http_server_from_scratch.Body.Read.{
  ReadBodyStatus, read_body_peer_closed, read_body_has_more, read_body_io_error, ReadBodyResult,
  chunked_check, with_status, recv_bytes, chunked_take, ChunkedRead, Drained, drain_call,
  drain_step, chunk_drain, drain_rounds, chunked_loop, conn_recv_body_chunked, chunked_recv,
  after_drain, BodyRead, is_too_large, is_incomplete, is_done, need_more, returned, read_body_ok,
  read_body_too_large, read_body_bad_data,
}
use http_server_from_scratch.Network.Store.{length-take-le}
use http_server_from_scratch.Network.{
  Recv, received, recv_closed, recv_again, recv_interrupted, recv_failed,
}
use http_server_from_scratch.ParseResult.{is_ok}
use Prim.{tt}
use http_server_from_scratch.Prelude.{
  ℕ, zero, suc, ◌+◌, ◌-◌, ◌≤◌, ◌<◌, ◌≡◌, ◌⊎◌, inl, inr, true, false, refl, arith, Bool-cases, subst,
  ltb, leb, ◌==◌, not, ◌&&◌, Option, none, some, List, [], ◌∷◌, sym,
}

-- The cursor stays within the bytes received, the buffers, which are not NULL, within their
-- capacities.
pub record IsReader (body_start : ℕ) (s : ChunkedRead) : Type 0 where
  pub decoder : IsDecoder s.st.dec
  pub cursor : body_start + s.st.consumed ≤ s.req_buf.size
  pub input : s.req_buf.size ≤ s.req_buf.cap
  pub output : s.dechunked.size ≤ s.dechunked.cap
  pub places : (0 < s.req_buf.buffer) × (0 < s.dechunked.buffer)

drain_step-IsReader :
    (body_start : ℕ) (s : ChunkedRead)
    → IsReader body_start s
    → IsReader body_start (drain_step body_start s)
unfolding drain_step drain_call
drain_step-IsReader body_start s w =
    let t =
      chunk_advance-Progress s.st.dec s.memory (s.req_buf.buffer + body_start + s.st.consumed)
        (s.req_buf.size - (body_start + s.st.consumed)) (s.dechunked.buffer + s.dechunked.size)
        (s.dechunked.cap - s.dechunked.size) w.decoder in
    record {
      decoder = t.decoder;
      cursor = ground (arith, t.cursor, w.cursor);
      input = w.input;
      output = ground (arith, t.written, w.output);
      places = w.places;
    }

is_done→ : (p : ChunkedPhase) → p ≡ chunk_done → is_done p ≡ true
is_done→ p h = ground arith

drain_step-size :
    (body_start : ℕ) (s : ChunkedRead) → (drain_step body_start s).req_buf.size ≡ s.req_buf.size
unfolding drain_step
drain_step-size body_start s = refl

-- A round with PARSE_OK that does not end the body uses up a byte.
drain_step_forward :
    (body_start : ℕ) (s : ChunkedRead)
    → IsReader body_start s
    → is_ok (drain_call body_start s).result.parse_result.status ≡ true
    → is_done (drain_step body_start s).st.dec.phase ≡ false
    → s.st.consumed < (drain_step body_start s).st.consumed
unfolding drain_step drain_call
drain_step_forward body_start s w ok live =
    let t =
      chunk_advance-Progress s.st.dec s.memory (s.req_buf.buffer + body_start + s.st.consumed)
        (s.req_buf.size - (body_start + s.st.consumed)) (s.dechunked.buffer + s.dechunked.size)
        (s.dechunked.cap - s.dechunked.size) w.decoder in
    elim (t.forward ok) [ inl d ↦ ground (arith, is_done→ _ d, live) | inr l ↦ ground (arith, l) ]

-- What holds when a reader hands out a status and the offset of the next request: the decoder is
-- done exactly with READ_BODY_OK, and then the offset is where the decoder stopped.
abbrev pub EndsWith : ℕ → ReadBodyStatus → ℕ → ChunkedRead → Type 0
EndsWith body_start read_body_ok offset s =
    (s.st.dec.phase ≡ chunk_done) × (offset ≡ body_start + s.st.consumed)
EndsWith body_start _ offset s = offset ≡ 0

abbrev Ends : ℕ → Drained → ChunkedRead → Type 0
Ends body_start (returned status offset) s = EndsWith body_start status offset s
Ends body_start need_more s = Unit {0}

done→ : (p : ChunkedPhase) → is_done p ≡ true → p ≡ chunk_done
done→ p h = ground arith

drain_step-left :
    (n body_start : ℕ) (s : ChunkedRead)
    → IsReader body_start s
    → s.req_buf.size - (body_start + s.st.consumed) < suc n
    → s.st.consumed < (drain_step body_start s).st.consumed
    → IsReader body_start (drain_step body_start s)
    → (drain_step body_start s).req_buf.size - (body_start + (drain_step body_start s).st.consumed)
      < n
drain_step-left n body_start s w h l w' =
    omega (arith, h, l, w.cursor, w'.cursor, drain_step-size body_start s)

pub chunk_drain_total :
    (n body_start : ℕ) (s : ChunkedRead)
    → IsReader body_start s
    → s.req_buf.size - (body_start + s.st.consumed) < n
    → (d : Drained) × (s' : ChunkedRead) × (chunk_drain body_start n s ≡ some (d, s'))
      × IsReader body_start s'
      × Ends body_start d s'
unfolding chunk_drain
chunk_drain_total zero body_start s w h = elim h [ ]
chunk_drain_total (suc n) body_start s w h =
    let status = (drain_call body_start s).result.parse_result.status in
    let s' = drain_step body_start s in
    let w' = drain_step-IsReader body_start s w in
    elim (Bool-cases (is_too_large status)) [
      | inl e ↦ (returned read_body_too_large 0, s', rw (e) refl, w', refl)
      | inr e ↦ elim (Bool-cases (not (is_ok status) && not (is_incomplete status))) [
        | inl e' ↦ (returned read_body_bad_data 0, s', rw (e, e') refl, w', refl)
        | inr e' ↦ elim (Bool-cases (is_done s'.st.dec.phase)) [
          | inl f ↦ (
            returned read_body_ok (body_start + s'.st.consumed),
            s',
            rw (e, e', f) refl,
            w',
            (done→ _ f, refl),
          )
          | inr f ↦ elim (Bool-cases (is_incomplete status)) [
            | inl g ↦ (need_more, s', rw (e, e', f, g) refl, w', tt)
            | inr g ↦
                let l = drain_step_forward body_start s w (ground (arith, e', g)) f in
                let (d, s'', eq, w'', ends) =
                  chunk_drain_total n body_start s' w' (drain_step-left n body_start s w h l w') in
                (d, s'', rw (e, e', f, g) eq, w'', ends)
          ]
        ]
      ]
    ]

chunked_check-none :
    (d : Drained) (s : ChunkedRead) (body_start : ℕ)
    → Ends body_start d s
    → ((r : ReadBodyResult) × (chunked_check d s ≡ some r)
        × EndsWith body_start r.status r.next_req_offset s)
      ⊎ ((chunked_check d s ≡ none) × (s.req_buf.size < s.req_buf.cap))
chunked_check-none (returned status offset) s body_start h =
    inl (record { status = status; next_req_offset = offset }, refl, h)
chunked_check-none need_more s body_start h = elim (Bool-cases (leb s.req_buf.cap s.req_buf.size)) [
  | inl e ↦ inl (record { status = read_body_too_large; next_req_offset = 0 }, rw (e) refl, refl)
  | inr e ↦ inr (rw (e) refl, ground arith)
]

-- The result is there, its state is well formed, and its status and offset fit the decoder's state.
abbrev pub Outcome : ℕ → Option (BodyRead ChunkedRead) → Type 0
Outcome body_start r =
    (b : BodyRead ChunkedRead) × (r ≡ some b)
    × IsReader body_start b.state
    × EndsWith body_start b.result.status b.result.next_req_offset b.state

chunked_take-IsReader :
    (body_start : ℕ) (s : ChunkedRead) (b : ℕ) (bs : List ℕ)
    → IsReader body_start s
    → IsReader body_start (chunked_take s (recv_bytes s.req_buf b bs))
chunked_take-IsReader body_start s b bs w =
    let l = length-take-le (s.req_buf.cap - s.req_buf.size) (b ∷ bs) in
    record {
      decoder = w.decoder;
      cursor = omega (arith, w.cursor);
      input = omega (arith, l, w.input);
      output = w.output;
      places = w.places;
    }

chunked_recv_total :
    (body_start : ℕ) (e : Recv) (left : List Recv) (s : ChunkedRead)
    (rest : ChunkedRead → Option (BodyRead ChunkedRead))
    → IsReader body_start s
    → ((t : ChunkedRead) → IsReader body_start t → Outcome body_start (rest t))
    → Outcome body_start (chunked_recv e left s rest)
unfolding chunked_recv
chunked_recv_total body_start recv_closed left s rest w k =
    (with_status read_body_peer_closed s left, refl, w, refl)
chunked_recv_total body_start recv_again left s rest w k =
    (with_status read_body_has_more s left, refl, w, refl)
chunked_recv_total body_start recv_interrupted left s rest w k = k s w
chunked_recv_total body_start recv_failed left s rest w k =
    (with_status read_body_io_error s left, refl, w, refl)
chunked_recv_total body_start (received b bs) left s rest w k =
    k (chunked_take s (recv_bytes s.req_buf b bs)) (chunked_take-IsReader body_start s b bs w)

after_drain_total :
    (body_start : ℕ) (s : ChunkedRead) (left : List Recv)
    (next : ChunkedRead → Option (BodyRead ChunkedRead))
    → IsReader body_start s
    → ((t : ChunkedRead) → IsReader body_start t → Outcome body_start (next t))
    → Outcome body_start (
        after_drain
          (chunk_drain body_start (drain_rounds body_start s) s)
          (λ r t. record { result = r; state = t; left = left })
          next)
unfolding after_drain
after_drain_total body_start s left next w k =
    let (d, s', eq, w', ends) =
      chunk_drain_total (drain_rounds body_start s) body_start s w (omega arith) in
    subst
      (λ x.
        Outcome body_start
          (after_drain x (λ r t. record { result = r; state = t; left = left }) next))
      (sym eq)
      (elim (chunked_check-none d s' body_start ends) [
        | inl (r, c, f) ↦
            (record { result = r; state = s'; left = left }, rw (after_drain, c) refl, w', f)
        | inr (c, l) ↦ rw (after_drain, c) (k s' w')
      ])

chunked_loop_total :
    (body_start : ℕ) (s : ChunkedRead) (recvs : List Recv)
    → IsReader body_start s
    → Outcome body_start (chunked_loop body_start s recvs)
unfolding chunked_loop
chunked_loop_total body_start s [] w =
    after_drain_total body_start s [] (λ t. some (with_status read_body_has_more t [])) w
      (λ t v. (with_status read_body_has_more t [], refl, v, refl))
chunked_loop_total body_start s (e ∷ left) w =
    after_drain_total body_start s (e ∷ left)
      (λ t. chunked_recv e left t (λ u. chunked_loop body_start u left)) w
      (λ t v.
        chunked_recv_total body_start e left t (λ u. chunked_loop body_start u left) v
          (λ u x. chunked_loop_total body_start u left x))

pub conn_recv_body_chunked_total :
    (fd body_start : ℕ) (s : ChunkedRead) (recvs : List Recv)
    → 0 < fd
    → IsReader body_start s
    → Outcome body_start (conn_recv_body_chunked fd body_start s recvs)
unfolding conn_recv_body_chunked
conn_recv_body_chunked_total fd body_start s recvs socket w =
    let a : ltb 0 fd ≡ true = ground (arith, socket) in
    let b : (s.req_buf.buffer == 0) ≡ false = ground (arith, w.places) in
    let c : (s.dechunked.buffer == 0) ≡ false = ground (arith, w.places) in
    let d : leb (body_start + s.st.consumed) s.req_buf.size ≡ true = ground (arith, w.cursor) in
    rw (a, b, c, d) (chunked_loop_total body_start s recvs w)
