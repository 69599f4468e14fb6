-- ===== src/RequestLine.antt =====
-- src/HttpRequestLine.c and include/http_server/HttpRequestLine.h: method, request target, version.
-- The character arrays of the structure hold NUL-terminated strings and are zeroed before a parse,
-- so each is the string of the bytes written to it.
pub mod Method
pub mod Uri
pub mod Version
pub mod Show
use http_server_from_scratch.Config.{http_max_path_len, http_max_query_len, http_version_len}
use http_server_from_scratch.Memory.{Memory, null, slice, mem_eq, memchr}
use http_server_from_scratch.ParseResult.{
  ParseResult, parse_ok, parse_bad_request, parse_uri_too_long, parse_version_not_supported, is_ok,
  parse_result_zero, parse_error_set,
}
use http_server_from_scratch.Parser.{isdigit, is_hex}
use http_server_from_scratch.Prelude.{
  ℕ, zero, suc, ◌+◌, ◌-◌, Bool, true, false, not, ◌&&◌, ◌||◌, [], ◌∷◌, ◌++◌, ltb, leb, ◌==◌,
  if◌then◌else◌, length, CString, codes,
}

pub data HttpMethod : Type 0 where
  get post put delete options head patch unknown : HttpMethod

-- `method == UNKNOWN`
abbrev pub is_unknown : HttpMethod → Bool
is_unknown unknown = true
is_unknown _ = false

unfoldable pub http_method_parse : Memory → ℕ → ℕ → HttpMethod
http_method_parse m s len =
    if mem_eq m s (codes "GET") && len == 3
    then get
    else if mem_eq m s (codes "POST") && len == 4
    then post
    else if mem_eq m s (codes "PUT") && len == 3
    then put
    else if mem_eq m s (codes "DELETE") && len == 6
    then delete
    else unknown

unfoldable pub http_method_show : HttpMethod → CString
http_method_show get = codes "GET"
http_method_show post = codes "POST"
http_method_show put = codes "PUT"
http_method_show delete = codes "DELETE"
http_method_show _ = codes "UNKNOWN"

pub record HttpRequestLine : Type 0 where
  pub method : HttpMethod
  pub path : CString
  pub query : CString
  pub version : CString

-- The structure after `memset(.., 0, ..)`.
abbrev pub request_line_zero : HttpRequestLine
request_line_zero = record { method = get; path = []; query = []; version = [] }

-- `parse_error_set(&res, PARSE_BAD_REQUEST, cur)` on `ParseResult res = {0}`
abbrev pub bad_at : ℕ → ParseResult
bad_at cur = parse_error_set parse_result_zero parse_bad_request cur

unfoldable pub method_parse : Memory → ℕ → ℕ → HttpRequestLine → ParseResult × HttpRequestLine
unfolding parse_error_set
method_parse m cur end line =
    let res = bad_at cur in
    let sp = memchr m cur b' ' (end - cur) in
    let line' = record line { method = http_method_parse m cur (sp - cur) } in
    if leb end cur
    then (res, line)
    else if m cur == b' '
    then (res, line)
    else if sp == null
    then (res, line)
    else if is_unknown line'.method
    then (res, line')
    else (record res { status = parse_ok; next = sp + 1 }, line')

-- The loop's variables: the two buffers with their lengths, and which one is being written.
pub record Target : Type 0 where
  pub path : CString
  pub query : CString
  pub in_query : Bool

-- `*len_ptr`
abbrev pub target_len : Target → ℕ
target_len t = if t.in_query then length t.query else length t.path

-- `cap`
abbrev pub target_cap : Target → ℕ
target_cap t = if t.in_query then http_max_query_len else http_max_path_len

-- `buf[(*len_ptr)++] = c;`
abbrev pub target_push : Target → ℕ → Target
target_push t c =
    if t.in_query
    then record t { query = t.query ++ c ∷ [] }
    else record t { path = t.path ++ c ∷ [] }

-- The loop from address `p = cur + i` on, in at most `n` rounds; `res` is the result so far.
unfoldable pub uri_loop : Memory → ℕ → ParseResult → ℕ → ℕ → Target → ParseResult × Target
unfolding parse_error_set
uri_loop m sp res zero p t = (record res { status = parse_ok; next = sp + 1 }, t)
uri_loop m sp res (suc n) p t =
    let c = m p in
    let start = uri_loop m sp res n (p + 1) (record t { query = c ∷ []; in_query = true }) in
    let escape =
      uri_loop m sp res n (p + 3)
        (target_push (target_push (target_push t c) (m (p + 1))) (m (p + 2))) in
    let plain = uri_loop m sp res n (p + 1) (target_push t c) in
    if not (ltb p sp)
    then (record res { status = parse_ok; next = sp + 1 }, t)
    else if ltb c 0x20 || leb 0x7f c
    then (res, t)
    else if c == b'#'
    then (res, t)
    else if not t.in_query && c == b'?'
    then start
    else if leb (target_cap t - 1) (target_len t)
    then (parse_error_set res parse_uri_too_long p, t)
    else if c == b'%'
    then (if ltb sp (p + 3)
        then (parse_error_set res parse_bad_request p, t)
        else if not (is_hex (m (p + 1))) || not (is_hex (m (p + 2)))
        then (parse_error_set res parse_bad_request p, t)
        else if ltb (target_cap t - 1) (target_len t + 3)
        then (parse_error_set res parse_uri_too_long p, t)
        else escape)
    else plain

unfoldable pub uri_parse : Memory → ℕ → ℕ → HttpRequestLine → ParseResult × HttpRequestLine
unfolding parse_error_set
uri_parse m cur end line =
    let res = bad_at cur in
    let sp = memchr m cur b' ' (end - cur) in
    let loop =
      uri_loop m sp res (sp - cur) cur (record { path = []; query = []; in_query = false }) in
    if leb end cur
    then (res, line)
    else if sp == null
    then (res, line)
    else if not (m cur == b'/')
    then (res, line)
    else (loop.0, record line { path = loop.1.path; query = loop.1.query })

unfoldable pub version_parse : Memory → ℕ → ℕ → HttpRequestLine → ParseResult × HttpRequestLine
unfolding parse_error_set
version_parse m cur end line =
    let res = bad_at cur in
    let d1 = m (cur + 5) in
    let period = m (cur + 6) in
    let d2 = m (end - 1) in
    let valid_version =
      mem_eq m (cur + 5) (codes "0.9")
      || mem_eq m (cur + 5) (codes "1.0")
      || mem_eq m (cur + 5) (codes "1.1") in
    if not (end - cur == http_version_len)
    then (res, line)
    else if not (mem_eq m cur (codes "HTTP/"))
    then (res, line)
    else if not (isdigit d1) || not (isdigit d2) || not (period == b'.')
    then (res, line)
    else if not valid_version
    then (parse_error_set res parse_version_not_supported cur, line)
    else (
      record res { status = parse_ok; next = end },
      record line { version = slice m cur http_version_len },
    )

unfoldable pub request_line_parse : Memory → ℕ → ℕ → HttpRequestLine → ParseResult × HttpRequestLine
request_line_parse m cur end line =
    let (method_res, line₁) = method_parse m cur end line in
    let (uri_res, line₂) = uri_parse m method_res.next end line₁ in
    if not (is_ok method_res.status)
    then (method_res, line₁)
    else if not (is_ok uri_res.status)
    then (uri_res, line₂)
    else version_parse m uri_res.next end line₂

-- What `request_line_show` prints, without the newline.
unfoldable pub request_line_show : HttpRequestLine → CString
request_line_show line =
    http_method_show line.method ++ (b' ' ∷ (line.path ++ (line.query ++ (b' ' ∷ line.version))))
