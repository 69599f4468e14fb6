-- ===== src/Body/Frame.antt =====
-- The chunks that src/HttpResponse.c writes, as the decoder of src/HttpBody.c reads them.
use http_server_from_scratch.Body.Calls.{
  Stands-append, size_read, data_result, data_read, byte_read,
}
use http_server_from_scratch.Body.Chunk.{
  chunk_size, chunk_data, chunk_trail_cr, chunk_trail_lf, Advanced, chunk_advance, advance_in, move,
}
use http_server_from_scratch.Body.Read.{ChunkedRead, drain_call, drain_step, chunk_drain, is_done}
use http_server_from_scratch.Config.{http_max_body_len}
use http_server_from_scratch.Memory.Copy.{memcpy_outside, memcpy-Stands}
use http_server_from_scratch.Memory.{null, Stands, memcpy}
use http_server_from_scratch.ParseResult.{parse_ok}
use http_server_from_scratch.Prelude.{
  ℕ, suc, ◌+◌, ◌-◌, ◌≤◌, ◌<◌, ◌≡◌, ◌⊎◌, inl, inr, refl, sym, ap, subst, ◌∙◌, arith, false,
  Bool-cases, ltb, leb, ◌==◌, List, ◌++◌, length, length-append, some,
}
use http_server_from_scratch.Response.{print_uint, crlf, chunk_frame}
use mathlib.Core.Option.{some_inj}

-- The state of the reader after a call of the decoder with result `a`, which used up `d` bytes.
abbrev ahead : ChunkedRead → Advanced → ℕ → ChunkedRead
ahead s a d = record s {
  memory = a.memory;
  dechunked = record s.dechunked { size = s.dechunked.size + a.result.bytes_written };
  st = record { consumed = s.st.consumed + d; dec = a.dec };
}

-- A call of the decoder that succeeds and is not the last is one round of the inner loop.
round_on :
    (k body_start d : ℕ) (s : ChunkedRead) (a : Advanced)
    → drain_call body_start s ≡ a
    → a.result.parse_result.status ≡ parse_ok
    → is_done a.dec.phase ≡ false
    → 0 < s.req_buf.buffer
    → a.result.parse_result.next ≡ s.req_buf.buffer + body_start + s.st.consumed + d
    → chunk_drain body_start (suc k) s ≡ chunk_drain body_start k (ahead s a d)
unfolding chunk_drain drain_step
round_on k body_start d s a e ok live pos next =
    let there : (s.req_buf.buffer + body_start + s.st.consumed + d == null) ≡ false =
      ground (arith, pos) in
    let used : s.req_buf.buffer
          + body_start
          + s.st.consumed
          + d
          - (s.req_buf.buffer + body_start + s.st.consumed)
        ≡ d =
      omega arith in
    rw (e, ok, live, next, there, used) refl

-- The reader behind the CRLF that ends a chunk.
abbrev behind_crlf : ChunkedRead → ChunkedRead
behind_crlf s = record s {
  dechunked = record s.dechunked { size = s.dechunked.size + 0 + 0 };
  st = record { consumed = s.st.consumed + 1 + 1; dec = record s.st.dec { phase = chunk_size } };
}

crlf_read :
    (k body_start : ℕ) (s : ChunkedRead)
    → s.st.dec.phase ≡ chunk_trail_cr
    → 0 < s.req_buf.buffer
    → body_start + s.st.consumed + 2 ≤ s.req_buf.size
    → s.memory (s.req_buf.buffer + body_start + s.st.consumed) ≡ b'\r'
    → s.memory (s.req_buf.buffer + body_start + s.st.consumed + 1) ≡ b'\n'
    → chunk_drain body_start (suc (suc k)) s ≡ chunk_drain body_start k (behind_crlf s)
unfolding drain_call chunk_advance advance_in
crlf_read k body_start s phase pos whole cr lf =
    let m = s.memory in
    let cur = s.req_buf.buffer + body_start + s.st.consumed in
    let a = move (record s.st.dec { phase = chunk_trail_lf }) m (cur + 1) in
    let e : drain_call body_start s ≡ a =
      ap
        (λ p.
          advance_in p s.st.dec m cur (s.req_buf.size - (body_start + s.st.consumed))
            (s.dechunked.buffer + s.dechunked.size) (s.dechunked.cap - s.dechunked.size))
        phase
      ∙ byte_read b'\r' chunk_trail_lf s.st.dec m cur
          (s.req_buf.size - (body_start + s.st.consumed)) (omega (arith, whole)) cr in
    let s₁ = ahead s a 1 in
    let cur₁ = s.req_buf.buffer + body_start + s₁.st.consumed in
    let next : cur + 1 ≡ cur₁ = omega arith in
    let e₁ =
      byte_read b'\n' chunk_size s₁.st.dec m cur₁ (s.req_buf.size - (body_start + s₁.st.consumed))
        (omega (arith, whole)) (subst (λ t. m t ≡ b'\n') next lf) in
    let a₁ = move (record s₁.st.dec { phase = chunk_size }) m (cur₁ + 1) in
    round_on (suc k) body_start 1 s a e refl refl pos refl
    ∙ round_on k body_start 1 s₁ a₁ e₁ refl refl pos refl

-- What `chunk_frame` writes: the size, the payload, and CRLF behind each.
frame_of :
    (payload frame : List ℕ) (cap : ℕ)
    → chunk_frame payload cap ≡ some frame
    → frame ≡ (print_uint 16 (length payload) ++ crlf) ++ (payload ++ crlf)
unfolding chunk_frame
frame_of payload frame cap h =
    let size = print_uint 16 (length payload) ++ crlf in
    elim (Bool-cases (leb cap (length size))) [
      | inl e ↦ cc (rw e at h)
      | inr e ↦ elim (Bool-cases (ltb cap (length size + length payload + 2))) [
        | inl f ↦ cc (rw (e, f) at h)
        | inr f ↦ sym (some_inj.0 (rw (e, f) at h))
      ]
    ]

-- The reader behind a frame: it has used up the frame's bytes, is ready for the next chunk, and has
-- the payload behind what it had.
pub record IsFrameRead (bytes frame : List ℕ) (s t : ChunkedRead) : Type 0 where
  pub cursor : t.st.consumed ≡ s.st.consumed + length frame
  pub phase : t.st.dec.phase ≡ chunk_size
  pub payload : Stands t.memory (s.dechunked.buffer + s.dechunked.size) bytes
  pub size : t.dechunked.size ≡ s.dechunked.size + length bytes
  pub same : (t.req_buf ≡ s.req_buf) × (t.dechunked.buffer ≡ s.dechunked.buffer)

-- What a state needs to read a frame: it stands at the cursor, whole within the bytes received, and
-- there is room for the payload in a buffer apart from the request buffer.
pub record ReadsFrame (body_start : ℕ) (payload frame : List ℕ) (s : ChunkedRead) : Type 0 where
  pub phase : s.st.dec.phase ≡ chunk_size
  pub place : 0 < s.req_buf.buffer
  pub stands : Stands s.memory (s.req_buf.buffer + body_start + s.st.consumed) frame
  pub whole : body_start + s.st.consumed + length frame ≤ s.req_buf.size
  pub room : s.dechunked.size + length payload ≤ s.dechunked.cap
  pub apart :
      (s.dechunked.buffer + s.dechunked.cap ≤ s.req_buf.buffer)
      ⊎ (s.req_buf.buffer + s.req_buf.size ≤ s.dechunked.buffer)

-- A chunk that `chunk_frame` wrote is read back by the decoder: with the frame in the request buffer,
-- its payload not empty and at most `http_max_body_len` bytes, the inner loop of
-- `conn_recv_body_chunked` takes the frame in four rounds and goes on behind it, with the payload
-- appended to the body, and ready for the next chunk.
pub chunk_frame-IsFrameRead :
    (body_start k out_cap : ℕ) (s : ChunkedRead) (payload frame : List ℕ)
    → chunk_frame payload out_cap ≡ some frame
    → 0 < length payload
    → length payload ≤ http_max_body_len
    → ReadsFrame body_start payload frame s
    → (t : ChunkedRead) × (chunk_drain body_start (suc (suc (suc (suc k)))) s
        ≡ chunk_drain body_start k t)
      × IsFrameRead payload frame s t
unfolding drain_call chunk_advance advance_in
chunk_frame-IsFrameRead body_start k out_cap s payload frame h some_bytes le v =
    let n = length payload in
    let xs = print_uint 16 n in
    let m = s.memory in
    let cur = s.req_buf.buffer + body_start + s.st.consumed in
    let f = frame_of payload frame out_cap h in
    let (line, rest) =
      Stands-append m cur (xs ++ crlf) (payload ++ crlf) (subst (Stands m cur) f v.stands) in
    let l₁ = length-append xs crlf in
    let l₂ = length-append payload crlf in
    let l₃ = ap {A = List ℕ} (λ t. length t) f ∙ length-append (xs ++ crlf) (payload ++ crlf) in
    let (body, last) = Stands-append m (cur + length (xs ++ crlf)) payload crlf rest in
    let whole = v.whole in
    let in_len = s.req_buf.size - (body_start + s.st.consumed) in
    let a₀ = move (record { phase = chunk_data; remaining = n }) m (cur + length xs + 2) in
    let e₀ : drain_call body_start s ≡ a₀ =
      ap
        (λ p.
          advance_in p s.st.dec m cur in_len (s.dechunked.buffer + s.dechunked.size)
            (s.dechunked.cap - s.dechunked.size))
        v.phase
      ∙ size_read s.st.dec m cur in_len n (omega (arith, v.place)) some_bytes le line
          (omega (arith, whole, l₁, l₂, l₃)) in
    let s₁ = ahead s a₀ (length xs + 2) in
    let r₀ =
      round_on (suc (suc (suc k))) body_start (length xs + 2) s a₀ e₀ refl refl v.place
        (omega arith) in
    let cur₁ = s.req_buf.buffer + body_start + s₁.st.consumed in
    let out = s₁.dechunked.buffer + s₁.dechunked.size in
    let e₁ =
      data_read s₁.st.dec m cur₁ (s₁.req_buf.size - (body_start + s₁.st.consumed)) out
        (s₁.dechunked.cap - s₁.dechunked.size) refl (omega (arith, whole, l₁, l₂, l₃))
        (omega (arith, v.room)) in
    let m₂ = memcpy m out cur₁ n in
    let a₁ = data_result m₂ cur₁ n in
    let s₂ = ahead s₁ a₁ n in
    let r₁ = round_on (suc (suc k)) body_start n s₁ a₁ e₁ refl refl v.place refl in
    let cur₂ = s.req_buf.buffer + body_start + s₂.st.consumed in
    let at₂ : cur + length (xs ++ crlf) + n ≡ cur₂ = omega (arith, l₁) in
    let outside : (q : ℕ) → cur ≤ q → q < s.req_buf.buffer + s.req_buf.size → m₂ q ≡ m q =
      λ q lo hi. memcpy_outside m out cur₁ n q (elim v.apart [
        | inl x ↦ inr (omega (arith, x, lo, v.room))
        | inr x ↦ inl (omega (arith, x, hi))
      ]) in
    let cr : m₂ cur₂ ≡ b'\r' =
      outside cur₂ (omega arith) (omega (arith, whole, l₁, l₂, l₃))
      ∙ subst (λ t. m t ≡ 13) at₂ last.0 in
    let lf : m₂ (cur₂ + 1) ≡ b'\n' =
      outside (cur₂ + 1) (omega arith) (omega (arith, whole, l₁, l₂, l₃))
      ∙ subst (λ t. m (t + 1) ≡ 10) at₂ last.1.0 in
    let r₂ = crlf_read k body_start s₂ refl v.place (omega (arith, whole, l₁, l₂, l₃)) cr lf in
    let t = behind_crlf s₂ in
    let at₁ : cur + length (xs ++ crlf) ≡ cur₁ = omega (arith, l₁) in
    let out_at : out ≡ s.dechunked.buffer + s.dechunked.size = omega arith in
    (
      t,
      r₀ ∙ r₁ ∙ r₂,
      record {
        cursor = omega (arith, l₁, l₂, l₃);
        phase = refl;
        payload =
            subst (λ q. Stands m₂ q payload) out_at
              (memcpy-Stands m out cur₁ payload (subst (λ q. Stands m q payload) at₁ body));
        size = omega arith;
        same = (refl, refl);
      },
    )
