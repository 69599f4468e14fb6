-- ===== src/Headers/Line.antt =====
-- src/HttpHeaders.c, `header_line_parse` and `crlf_parse`: one line of the header block.
use http_server_from_scratch.Config.{
  http_max_headers, http_max_header_key_len, http_max_header_value_len,
}
use http_server_from_scratch.Headers.Field.{
  KeyRead, header_key_parse_sound, ValueRead, header_value_parse_sound,
}
use http_server_from_scratch.Headers.{
  Header, header_zero, header_key_parse, header_value_parse, header_line_parse, crlf_parse,
}
use http_server_from_scratch.Memory.Scan.{length-slice}
use http_server_from_scratch.Memory.{Memory}
use http_server_from_scratch.ParseResult.{parse_ok, parse_error_set}
use http_server_from_scratch.Parser.Search.{FirstAt, colon_find_lem}
use http_server_from_scratch.Parser.{is_crlf, is_colon, is_tchar, is_field_content_byte, colon_find}
use http_server_from_scratch.Prelude.{
  ℕ, ◌+◌, ◌<◌, ◌≤◌, ◌≡◌, ◌≢◌, inl, inr, refl, true, arith, List, [], ◌∷◌, ◌++◌, length, All,
}

-- A header that the parser may store: a token for a name, field bytes for a value, and room for the
-- NUL of both.
pub record IsHeader (h : Header) : Type 0 where
  pub some_key : 0 < length h.key
  pub token : All (λ c. is_tchar c ≡ true) h.key
  pub key_fits : length h.key < http_max_header_key_len
  pub content : All (λ c. is_field_content_byte c ≡ true) h.value
  pub value_fits : length h.value < http_max_header_value_len

-- What PARSE_OK from `header_line_parse` means: the line is split at its first colon.
pub record HeaderRead (m : Memory) (cur end : ℕ) (headers headers' : List Header) (next : ℕ)
    : Type 0 where
  pub header : Header
  pub colon : ℕ
  pub stored : headers' ≡ headers ++ header ∷ []
  pub room : length headers < http_max_headers
  pub first_colon : FirstAt (λ q. is_colon (m q)) cur colon
  pub key : KeyRead m cur colon header.key (colon + 1)
  pub value : ValueRead m (colon + 1) end header.value next

passes :
    (m : Memory) (cur end : ℕ) (headers : List Header)
    → (header_line_parse m cur end headers).0.status ≡ parse_ok
    → let key = header_key_parse m cur (colon_find m cur end) header_zero in
      let value = header_value_parse m key.0.next end key.1 in
      (cur < end)
      × (key.0.status ≡ parse_ok)
      × (value.0.status ≡ parse_ok)
      × (length headers < http_max_headers)
      × (header_line_parse m cur end headers
          ≡ (record value.0 { status = parse_ok }, headers ++ value.1 ∷ []))
unfolding header_line_parse parse_error_set
passes m cur end headers h = ground arith

-- PARSE_OK means that one header was appended: the token before the first colon of the line, and
-- what is behind it without the blanks at its ends. The cursor is then at the end of the line, and
-- the array had room.
pub header_line_parse_sound :
    (m : Memory) (cur end : ℕ) (headers : List Header)
    → (header_line_parse m cur end headers).0.status ≡ parse_ok
    → HeaderRead m cur end headers
        (header_line_parse m cur end headers).1
        (header_line_parse m cur end headers).0.next
header_line_parse_sound m cur end headers h =
    let (some_bytes, key_ok, value_ok, room, result) = passes m cur end headers h in
    let colon = colon_find m cur end in
    let key = header_key_parse m cur colon header_zero in
    let value = header_value_parse m key.0.next end key.1 in
    let (k, _) = header_key_parse_sound m cur colon header_zero key_ok in
    let (v, kept) = header_value_parse_sound m key.0.next end key.1 value_ok in
    rw result (elim (colon_find_lem m cur end) [
      | inl (e, _) ↦ absurd (omega (arith, e, k.behind, v.lo, v.mid, v.hi))
      | inr (inside, first) ↦ record {
        header = value.1;
        colon = colon;
        stored = refl;
        room = room;
        first_colon = first;
        key = rw (kept, ← k.behind) k;
        value = rw (← k.behind) v;
      }
    ])

-- A call that does not return PARSE_OK stores nothing.
pub header_line_parse_failed :
    (m : Memory) (cur end : ℕ) (headers : List Header)
    → (header_line_parse m cur end headers).0.status ≢ parse_ok
    → (header_line_parse m cur end headers).1 ≡ headers
unfolding header_line_parse parse_error_set
header_line_parse_failed m cur end headers h = ground arith

pub HeaderRead-IsHeader :
    {m : Memory} {cur end next : ℕ} {headers headers' : List Header}
    → (r : HeaderRead m cur end headers headers' next) → IsHeader r.header
HeaderRead-IsHeader r = record {
  some_key = rw (r.key.raw, length-slice) (omega (arith, r.key.some_bytes));
  token = r.key.token;
  key_fits = r.key.fits;
  content = r.value.content;
  value_fits = r.value.fits;
}

-- PARSE_OK means that a CRLF stands at the cursor, inside the range, and the cursor moves behind it.
pub crlf_parse_sound :
    (m : Memory) (cur end : ℕ)
    → (crlf_parse m cur end).status ≡ parse_ok
    → (cur + 2 ≤ end) × (is_crlf m cur ≡ true) × ((crlf_parse m cur end).next ≡ cur + 2)
unfolding crlf_parse parse_error_set
crlf_parse_sound m cur end h = ground arith
