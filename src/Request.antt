-- ===== src/Request.antt =====
-- src/HttpRequest.c and include/http_server/HttpRequest.h: a whole request head.
pub mod Block
pub mod Parse
use http_server_from_scratch.Headers.{Header, header_line_parse, crlf_parse}
use http_server_from_scratch.Memory.{Memory, null}
use http_server_from_scratch.ParseResult.{ParseResult, parse_ok, is_ok, parse_result_zero}
use http_server_from_scratch.Parser.{crlf_find, ows_trim_trailing}
use http_server_from_scratch.Prelude.{
  ℕ, zero, suc, ◌+◌, ◌-◌, not, List, [], if◌then◌else◌, Option, none, some,
}
use http_server_from_scratch.RequestLine.{HttpRequestLine, request_line_parse, request_line_zero}

-- `body` is an address; the field `scratch`, the connection's arena, is given to a handler beside
-- the request.
pub record HttpRequest : Type 0 where
  pub request_line : HttpRequestLine
  pub headers : List Header
  pub body : ℕ
  pub body_len : ℕ

abbrev pub request_zero : HttpRequest
request_zero = record { request_line = request_line_zero; headers = []; body = null; body_len = 0 }

-- The `while (1)` loop over the header lines, in at most `n` rounds; `none` when those are used up.
unfoldable pub headers_loop :
    Memory → ℕ → ℕ → ℕ → ParseResult → List Header → Option (ParseResult × List Header)
headers_loop m end zero cur header_res headers = none
headers_loop m end (suc n) cur header_res headers =
    let eol = crlf_parse m cur end in
    let (line_res, headers') = header_line_parse m cur (crlf_find m cur end) headers in
    let crlf_res = crlf_parse m line_res.next end in
    let rest = headers_loop m end n crlf_res.next crlf_res headers' in
    if is_ok eol.status
    then some (record header_res { status = parse_ok; next = eol.next }, headers)
    else if not (is_ok line_res.status)
    then some (line_res, headers')
    else if not (is_ok crlf_res.status)
    then some (crlf_res, headers')
    else rest

unfoldable pub request_parse : Memory → ℕ → ℕ → HttpRequest → Option (ParseResult × HttpRequest)
request_parse m buf len req =
    let end = ows_trim_trailing m buf (buf + len) in
    let (line_res, line) = request_line_parse m buf (crlf_find m buf end) req.request_line in
    let crlf_res = crlf_parse m line_res.next end in
    let req' = record req { request_line = line } in
    let loop =
      headers_loop m end (end - crlf_res.next + 1) crlf_res.next parse_result_zero req.headers in
    if not (is_ok line_res.status)
    then some (line_res, req')
    else if not (is_ok crlf_res.status)
    then some (crlf_res, req')
    else elim loop [
      | none ↦ none
      | some (res, headers) ↦ some (res, record req' { headers = headers })
    ]
