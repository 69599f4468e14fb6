-- ===== src/Body/Progress.antt =====
-- The chunk decoder of src/HttpBody.c: how far one call goes, and what it writes.
use http_server_from_scratch.Body.Chunk.{
  ChunkedPhase, chunk_size, chunk_data, chunk_trail_cr, chunk_trail_lf, chunk_trailer, chunk_done,
  ChunkDecoder, Advanced, size_line, advance_size, advance_data, advance_byte, advance_trailer,
  advance_in, chunk_advance,
}
use http_server_from_scratch.Config.{http_max_body_len}
use http_server_from_scratch.ParseResult.Uint.{Reads, uint_parse-Reads}
use http_server_from_scratch.Parser.Search.{crlf_find_lem}
use Prim.{absurd}
use http_server_from_scratch.Memory.{Memory, null, memchr}
use http_server_from_scratch.ParseResult.{
  ParseStatus, parse_ok, parse_incomplete, parse_bad_request, parse_payload_too_large,
  parse_result_zero, UintResult, value, failed, uint_parse, parse_error_set, is_ok,
}
use http_server_from_scratch.Parser.{crlf_find}
use http_server_from_scratch.Prelude.{
  ℕ, ◌+◌, ◌-◌, ◌≤◌, ◌<◌, ◌≡◌, ◌⊎◌, ◌≢◌, inl, inr, true, false, refl, arith, ltb, ◌==◌,
  if◌then◌else◌, not, ◌||◌, if_cases, subst,
}

-- In the data of a chunk some bytes are missing.
abbrev pub IsDecoder : ChunkDecoder → Type 0
IsDecoder dec = dec.phase ≡ chunk_data → 0 < dec.remaining

-- What a call on `in_len` bytes at `cur` with room for `out_avail` bytes leaves behind.
pub record Progress (cur in_len out_avail : ℕ) (a : Advanced) : Type 0 where
  pub decoder : IsDecoder a.dec
  pub written : a.result.bytes_written ≤ out_avail
  pub cursor :
      (a.result.parse_result.next ≡ null)
      ⊎ ((cur ≤ a.result.parse_result.next) × (a.result.parse_result.next ≤ cur + in_len))
  pub forward :
      is_ok a.result.parse_result.status ≡ true
      → (a.dec.phase ≡ chunk_done) ⊎ (cur < a.result.parse_result.next)

Reads-not_ok :
    (m : Memory) (s len base max : ℕ) (status : ParseStatus)
    → Reads m s len base max 0 (failed status)
    → is_ok status ≡ false
Reads-not_ok m s len base max parse_ok h = absurd h
Reads-not_ok m s len base max _ h = refl

size_failed :
    (m : Memory) (s len : ℕ) (status : ParseStatus)
    → uint_parse m s len 16 http_max_body_len ≡ failed status
    → is_ok status ≡ false
size_failed m s len status e =
    elim (uint_parse-Reads 16 http_max_body_len (omega arith) (omega arith) (omega arith) m s len) [
      | inl (z, b) ↦ ground arith
      | inr r ↦
          Reads-not_ok m s len 16 http_max_body_len status
            (subst (Reads m s len 16 http_max_body_len 0) e r)
    ]

crlf-lo : (m : Memory) (cur end : ℕ) → cur ≤ end → cur ≤ crlf_find m cur end
crlf-lo m cur end h = elim (crlf_find_lem m cur end) [
  | inl (e, a) ↦ ground arith
  | inr (l, f) ↦ f.lo
]

module _ (dec : ChunkDecoder) (m : Memory) (cur in_len out out_avail : ℕ) where
  -- A call that ends on an error.
  stopped :
      (status : ParseStatus)
      → is_ok status ≡ false
      → IsDecoder dec
      → Progress cur in_len out_avail (record {
        result = record {
          parse_result = parse_error_set parse_result_zero status cur;
          bytes_written = 0;
        };
        dec = dec;
        memory = m;
      })
  unfolding parse_error_set
  stopped status h w = record {
    decoder = w;
    written = ground arith;
    cursor = inl refl;
    forward = λ e. ground arith;
  }

  moved :
      (dec' : ChunkDecoder) (next : ℕ)
      → IsDecoder dec'
      → cur < next
      → next ≤ cur + in_len
      → Progress cur in_len out_avail (record {
        result = record {
          parse_result = record parse_result_zero { status = parse_ok; next = next };
          bytes_written = 0;
        };
        dec = dec';
        memory = m;
      })
  moved dec' next w lo hi = record {
    decoder = w;
    written = ground arith;
    cursor = inr (omega (arith, lo), hi);
    forward = λ e. inr lo;
  }

  byte-Progress :
      (expected : ℕ) (phase : ChunkedPhase)
      → phase ≢ chunk_data
      → IsDecoder dec
      → Progress cur in_len out_avail (advance_byte expected phase dec m cur in_len)
  unfolding advance_byte
  byte-Progress expected phase h w =
      if_cases (Progress cur in_len out_avail) (in_len == 0) (λ e. stopped parse_incomplete refl w)
        (λ e.
          if_cases (Progress cur in_len out_avail) (not (m cur == expected))
            (λ e'. stopped parse_bad_request refl w)
            (λ e'.
              moved (record dec { phase = phase }) (cur + 1) (λ p. absurd (h p)) (ground arith)
                (ground arith)))

  trailer-Progress :
      IsDecoder dec → Progress cur in_len out_avail (advance_trailer dec m cur in_len)
  unfolding advance_trailer
  trailer-Progress w =
      if_cases (Progress cur in_len out_avail) (ltb in_len 2) (λ e. stopped parse_incomplete refl w)
        (λ e.
          if_cases (Progress cur in_len out_avail)
            (not (m cur == b'\r') || not (m (cur + 1) == b'\n'))
            (λ e'. stopped parse_bad_request refl w)
            (λ e'.
              moved (record dec { phase = chunk_done }) (cur + 2) (λ p. ground arith) (ground arith)
                (ground arith)))

  size_line-Progress :
      (crlf : ℕ) (r : UintResult)
      → cur ≤ crlf
      → crlf + 2 ≤ cur + in_len
      → IsDecoder dec
      → ((status : ParseStatus) → r ≡ failed status → is_ok status ≡ false)
      → Progress cur in_len out_avail (size_line dec m crlf r)
  unfolding size_line
  size_line-Progress crlf (failed status) lo hi w bad = record {
    decoder = w;
    written = ground arith;
    cursor = inl refl;
    forward = λ e. ground (arith, bad status refl);
  }
  size_line-Progress crlf (value len) lo hi w bad =
      if_cases (Progress cur in_len out_avail) (len == 0)
        (λ e.
          moved (record dec { phase = chunk_trailer }) (crlf + 2) (λ p. ground arith) (ground arith)
            (ground arith))
        (λ e.
          moved (record { phase = chunk_data; remaining = len }) (crlf + 2) (λ p. ground arith)
            (ground arith) (ground arith))

  data-Progress :
      0 < dec.remaining
      → dec.phase ≡ chunk_data
      → Progress cur in_len out_avail (advance_data dec m cur in_len out out_avail)
  unfolding advance_data
  data-Progress w p =
      let n = if ltb dec.remaining in_len then dec.remaining else in_len in
      if_cases (Progress cur in_len out_avail) (ltb out_avail n)
        (λ e. stopped parse_payload_too_large refl (λ q. w))
        (λ e. record {
          decoder = λ q. ground (arith, q);
          written = ground (arith, e);
          cursor = inr (ground arith, ground arith);
          forward = λ q. inr (ground (arith, q));
        })

  size-Progress : IsDecoder dec → Progress cur in_len out_avail (advance_size dec m cur in_len)
  unfolding advance_size
  size-Progress w =
      let crlf = crlf_find m cur (cur + in_len) in
      let semi = memchr m cur b';' (crlf - cur) in
      let size_end = if semi == null then crlf else semi in
      if_cases (Progress cur in_len out_avail) (crlf == null || ltb (cur + in_len - crlf) 2)
        (λ e. stopped parse_incomplete refl w)
        (λ e.
          if_cases (Progress cur in_len out_avail) (size_end == cur)
            (λ e'. stopped parse_bad_request refl w)
            (λ e'.
              size_line-Progress crlf (uint_parse m cur (size_end - cur) 16 http_max_body_len)
                (crlf-lo m cur (cur + in_len) (omega arith)) (ground (arith, e)) w
                (size_failed m cur (size_end - cur))))

phase-Progress :
    (phase : ChunkedPhase) (dec : ChunkDecoder) (m : Memory) (cur in_len out out_avail : ℕ)
    → dec.phase ≡ phase
    → IsDecoder dec
    → Progress cur in_len out_avail (advance_in phase dec m cur in_len out out_avail)
unfolding advance_in
phase-Progress chunk_size dec m cur in_len out out_avail p w =
    size-Progress dec m cur in_len out out_avail w
phase-Progress chunk_data dec m cur in_len out out_avail p w =
    data-Progress dec m cur in_len out out_avail (w p) p
phase-Progress chunk_trail_cr dec m cur in_len out out_avail p w =
    byte-Progress dec m cur in_len out out_avail b'\r' chunk_trail_lf (λ q. ground arith) w
phase-Progress chunk_trail_lf dec m cur in_len out out_avail p w =
    byte-Progress dec m cur in_len out out_avail b'\n' chunk_size (λ q. ground arith) w
phase-Progress chunk_trailer dec m cur in_len out out_avail p w =
    trailer-Progress dec m cur in_len out out_avail w
phase-Progress chunk_done dec m cur in_len out out_avail p w = record {
  decoder = w;
  written = ground arith;
  cursor = inr (omega arith, omega arith);
  forward = λ e. inl p;
}

-- From a state in which a chunk's data is not yet complete, a call of `chunk_advance` on `in_len`
-- bytes with room for `out_avail` ends in such a state; it writes at most `out_avail` bytes; the
-- cursor it hands out is NULL or lies in the input; and with PARSE_OK it has used up at least one
-- byte or the decoder is done.
pub chunk_advance-Progress :
    (dec : ChunkDecoder) (m : Memory) (cur in_len out out_avail : ℕ)
    → IsDecoder dec
    → Progress cur in_len out_avail (chunk_advance dec m cur in_len out out_avail)
unfolding chunk_advance
chunk_advance-Progress dec m cur in_len out out_avail w =
    phase-Progress dec.phase dec m cur in_len out out_avail refl w
