-- ===== src/Headers.antt =====
-- src/HttpHeaders.c and include/http_server/HttpHeaders.h: header fields. The array of headers with
-- its count is the list of its first `count` entries.
pub mod Field
pub mod Line
pub mod Find
use http_server_from_scratch.Config.{
  http_max_headers, http_max_header_key_len, http_max_header_value_len,
}
use http_server_from_scratch.Memory.{Memory}
use http_server_from_scratch.ParseResult.{
  ParseResult, parse_ok, parse_bad_request, parse_header_key_too_long, parse_header_value_too_long,
  parse_header_too_long, is_ok, parse_result_zero, parse_error_set,
}
use http_server_from_scratch.Parser.{
  is_crlf, is_colon, colon_find, ows_skip, ows_trim_trailing, is_tchar, is_field_content_byte,
  ascii_ieq,
}
use http_server_from_scratch.Prelude.{
  ℕ, zero, suc, ◌+◌, ◌-◌, Bool, true, false, not, ◌&&◌, ◌||◌, List, [], ◌∷◌, ◌++◌, ltb, leb,
  if◌then◌else◌, length, CString, Option, none, some,
}
use http_server_from_scratch.RequestLine.{bad_at}

pub record Header : Type 0 where
  pub key : CString
  pub value : CString

abbrev pub header_zero : Header
header_zero = record { key = []; value = [] }

-- The loop over the `n` bytes from `cur`; `key` holds the `count` bytes written so far.
unfoldable pub key_loop : Memory → ParseResult → ℕ → ℕ → CString → ParseResult × CString
unfolding parse_error_set
key_loop m res zero cur key = (record res { status = parse_ok; next = cur + 1 }, key)
key_loop m res (suc n) cur key =
    let rest = key_loop m res n (cur + 1) (key ++ m cur ∷ []) in
    if not (is_tchar (m cur))
    then (res, key)
    else if leb (http_max_header_key_len - 1) (length key)
    then (parse_error_set res parse_header_key_too_long cur, key)
    else rest

unfoldable pub header_key_parse : Memory → ℕ → ℕ → Header → ParseResult × Header
unfolding parse_error_set
header_key_parse m cur end header =
    let res = bad_at cur in
    let loop = key_loop m res (end - cur) cur [] in
    if leb end cur || not (is_colon (m end))
    then (res, header)
    else (loop.0, record header { key = loop.1 })

-- The loop over the `n` bytes from `cur`, up to `trimmed_end`; `done` is the result at its end.
unfoldable pub value_loop :
    Memory → ParseResult → ParseResult → ℕ → ℕ → CString → ParseResult × CString
value_loop m res done zero cur value = (done, value)
value_loop m res done (suc n) cur value =
    let rest = value_loop m res done n (cur + 1) (value ++ m cur ∷ []) in
    if not (is_field_content_byte (m cur)) then (res, value) else rest

unfoldable pub header_value_parse : Memory → ℕ → ℕ → Header → ParseResult × Header
unfolding parse_error_set
header_value_parse m cur end header =
    let res = bad_at cur in
    let cur' = ows_skip m cur end in
    let trimmed_end = ows_trim_trailing m cur' end in
    let loop =
      value_loop m res (record res { status = parse_ok; next = end }) (trimmed_end - cur') cur'
        [] in
    if ltb (http_max_header_value_len - 1) (end - cur)
    then (parse_error_set res parse_header_value_too_long cur, header)
    else if ltb end cur
    then (res, header)
    else (loop.0, record header { value = loop.1 })

unfoldable pub header_line_parse : Memory → ℕ → ℕ → List Header → ParseResult × List Header
header_line_parse m cur end headers =
    let (key_res, header₁) = header_key_parse m cur (colon_find m cur end) header_zero in
    let (res, header₂) = header_value_parse m key_res.next end header₁ in
    if leb end cur
    then (bad_at cur, headers)
    else if not (is_ok key_res.status)
    then (key_res, headers)
    else if not (is_ok res.status)
    then (res, headers)
    else if leb http_max_headers (length headers)
    then (parse_error_set res parse_header_too_long cur, headers)
    else (record res { status = parse_ok }, headers ++ header₂ ∷ [])

unfoldable pub crlf_parse : Memory → ℕ → ℕ → ParseResult
unfolding parse_error_set
crlf_parse m cur end =
    if leb (cur + 2) end && is_crlf m cur
    then record parse_result_zero { status = parse_ok; next = cur + 2 }
    else bad_at cur

-- `none` is NULL.
unfoldable pub header_find : List Header → CString → Option Header
header_find [] name = none
header_find (h ∷ headers) name = if ascii_ieq h.key name then some h else header_find headers name
