-- ===== src/Body/Chunk.antt =====
-- src/HttpBody.c, `chunk_advance`: the chunk decoder. Its assertion `dec->remaining > 0` is the
-- condition `IsDecoder` of `Body.Progress`.
use http_server_from_scratch.Config.{http_max_body_len}
use http_server_from_scratch.Memory.{Memory, null, memchr, memcpy}
use http_server_from_scratch.ParseResult.{
  ParseResult, parse_ok, parse_bad_request, parse_payload_too_large, parse_incomplete,
  parse_result_zero, parse_error_set, UintResult, value, failed, uint_parse,
}
use http_server_from_scratch.Parser.{crlf_find}
use http_server_from_scratch.Prelude.{ℕ, ◌+◌, ◌-◌, not, ◌||◌, ltb, ◌==◌, if◌then◌else◌}

pub data ChunkedPhase : Type 0 where
  chunk_size chunk_data chunk_trail_cr chunk_trail_lf chunk_trailer chunk_done : ChunkedPhase

pub record ChunkDecoder : Type 0 where
  pub phase : ChunkedPhase
  pub remaining : ℕ

-- `{0}`
abbrev pub decoder_zero : ChunkDecoder
decoder_zero = record { phase = chunk_size; remaining = 0 }

pub record ChunkResult : Type 0 where
  pub parse_result : ParseResult
  pub bytes_written : ℕ

-- What a call changes: its result, the decoder, and the memory at `out`.
pub record Advanced : Type 0 where
  pub result : ChunkResult
  pub dec : ChunkDecoder
  pub memory : Memory

-- A return that leaves the decoder and the memory alone.
abbrev pub stay : ChunkDecoder → Memory → ParseResult → Advanced
stay dec m res = record {
  result = record { parse_result = res; bytes_written = 0 };
  dec = dec;
  memory = m;
}

-- PARSE_OK at `next`, in a new state of the decoder.
abbrev pub move : ChunkDecoder → Memory → ℕ → Advanced
move dec m next = stay dec m (record parse_result_zero { status = parse_ok; next = next })

-- The `case CHUNK_SIZE`, behind the search for the CRLF and the extension.
unfoldable pub size_line : ChunkDecoder → Memory → ℕ → UintResult → Advanced
size_line dec m crlf (failed status) = stay dec m (record parse_result_zero { status = status })
size_line dec m crlf (value len) =
    if len == 0
    then move (record dec { phase = chunk_trailer }) m (crlf + 2)
    else move (record { phase = chunk_data; remaining = len }) m (crlf + 2)

unfoldable pub advance_size : ChunkDecoder → Memory → ℕ → ℕ → Advanced
unfolding parse_error_set
advance_size dec m cur in_len =
    let crlf = crlf_find m cur (cur + in_len) in
    let end = cur + in_len in
    let semi = memchr m cur b';' (crlf - cur) in
    let size_end = if semi == null then crlf else semi in
    if crlf == null || ltb (end - crlf) 2
    then stay dec m (parse_error_set parse_result_zero parse_incomplete cur)
    else if size_end == cur
    then stay dec m (parse_error_set parse_result_zero parse_bad_request cur)
    else size_line dec m crlf (uint_parse m cur (size_end - cur) 16 http_max_body_len)

unfoldable pub advance_data : ChunkDecoder → Memory → ℕ → ℕ → ℕ → ℕ → Advanced
unfolding parse_error_set
advance_data dec m cur in_len out out_avail =
    let n = if ltb dec.remaining in_len then dec.remaining else in_len in
    if ltb out_avail n
    then stay dec m (parse_error_set parse_result_zero parse_payload_too_large cur)
    else record {
      result = record {
        parse_result = record {
          status = if dec.remaining - n == 0 then parse_ok else parse_incomplete;
          error_position = null;
          next = cur + n;
        };
        bytes_written = n;
      };
      dec = record {
        phase = if dec.remaining - n == 0 then chunk_trail_cr else dec.phase;
        remaining = dec.remaining - n;
      };
      memory = memcpy m out cur n;
    }

-- `case CHUNK_TRAIL_CR` and `case CHUNK_TRAIL_LF`: one expected byte.
unfoldable pub advance_byte : ℕ → ChunkedPhase → ChunkDecoder → Memory → ℕ → ℕ → Advanced
unfolding parse_error_set
advance_byte expected phase dec m cur in_len =
    if in_len == 0
    then stay dec m (parse_error_set parse_result_zero parse_incomplete cur)
    else if not (m cur == expected)
    then stay dec m (parse_error_set parse_result_zero parse_bad_request cur)
    else move (record dec { phase = phase }) m (cur + 1)

unfoldable pub advance_trailer : ChunkDecoder → Memory → ℕ → ℕ → Advanced
unfolding parse_error_set
advance_trailer dec m cur in_len =
    if ltb in_len 2
    then stay dec m (parse_error_set parse_result_zero parse_incomplete cur)
    else if not (m cur == b'\r') || not (m (cur + 1) == b'\n')
    then stay dec m (parse_error_set parse_result_zero parse_bad_request cur)
    else move (record dec { phase = chunk_done }) m (cur + 2)

-- The `switch (dec->phase)`.
unfoldable pub advance_in : ChunkedPhase → ChunkDecoder → Memory → ℕ → ℕ → ℕ → ℕ → Advanced
advance_in chunk_size dec m cur in_len out out_avail = advance_size dec m cur in_len
advance_in chunk_data dec m cur in_len out out_avail = advance_data dec m cur in_len out out_avail
advance_in chunk_trail_cr dec m cur in_len out out_avail =
    advance_byte b'\r' chunk_trail_lf dec m cur in_len
advance_in chunk_trail_lf dec m cur in_len out out_avail =
    advance_byte b'\n' chunk_size dec m cur in_len
advance_in chunk_trailer dec m cur in_len out out_avail = advance_trailer dec m cur in_len
advance_in chunk_done dec m cur in_len out out_avail = move dec m cur

unfoldable pub chunk_advance : ChunkDecoder → Memory → ℕ → ℕ → ℕ → ℕ → Advanced
chunk_advance dec m cur in_len out out_avail = advance_in dec.phase dec m cur in_len out out_avail
