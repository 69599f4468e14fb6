-- ===== src/Response.antt =====
-- src/HttpResponse.c and include/http_server/HttpResponse.h: responses and their wire format. A
-- buffer written from its start on is the list of the bytes written, and `none` is the result -1.
-- The body pointer NULL goes with size 0 and is the empty list. `date` is the text that strftime
-- makes of the current time, `none` when time(2) fails. What a failing call has written by then is
-- not kept.
pub mod Serialize
pub mod Fits
pub mod Errors
pub mod Allow
pub mod Digits
pub mod Sending
use http_server_from_scratch.Memory.{null, Memory, slice}
use http_server_from_scratch.Network.{
  HttpBuffer, take, Send, accepted, send_again, send_interrupted, send_pipe, send_reset,
  send_failed,
}
use http_server_from_scratch.ParseResult.{
  ParseStatus, parse_bad_request, parse_payload_too_large, parse_uri_too_long,
  parse_header_key_too_long, parse_header_value_too_long, parse_header_too_long,
  parse_not_implemented, parse_version_not_supported, parse_not_found,
}
use http_server_from_scratch.Parser.{ascii_ieq}
use http_server_from_scratch.Prelude.{
  ◌>>=◌, ℕ, zero, suc, ◌+◌, ◌-◌, ◌/◌, ◌%◌, Bool, true, false, not, ◌&&◌, ◌||◌, List, [], ◌∷◌, ◌++◌,
  ltb, leb, ◌==◌, if◌then◌else◌, length, CString, codes, Option, none, some,
}
use http_server_from_scratch.Arena.{assert_then}

pub record ResponseHeader : Type 0 where
  pub key : CString
  pub value : CString

-- The results of the calls of a producer's `pull`: some bytes, or an error; past the list, the end.
pub data Pull : Type 0 where
  pulled : ℕ → List ℕ → Pull
  pull_failed : Pull

-- A producer: whether `pull` is set and what it will return, and whether `cleanup` is set.
pub record Stream : Type 0 where
  pub pull : Bool
  pub pulls : List Pull
  pub cleanup : Bool

-- `kind` with the arm of the union.
pub data Body : Type 0 where
  body_none : Body
  body_buffer : List ℕ → Body
  body_stream : Stream → Body

pub record HttpResponse : Type 0 where
  pub status : ℕ
  pub reason : CString
  pub headers : List ResponseHeader
  pub body : Body
  pub head_only : Bool

-- The digits of printf: `%d` and `%zu` for base 10, `%zx` for base 16.
abbrev pub digit_char : ℕ → ℕ
digit_char d = if ltb d 10 then b'0' + d else b'a' + (d - 10)

unfoldable pub print_loop : ℕ → ℕ → ℕ → List ℕ → List ℕ
print_loop zero base n acc = acc
print_loop (suc f) base n acc =
    let acc' = digit_char (n % base) ∷ acc in
    let rest = print_loop f base (n / base) acc' in if n / base == 0 then acc' else rest

-- 64 digits are enough for a `size_t` in every base from 2 on.
unfoldable pub print_uint : ℕ → ℕ → CString
print_uint base n = print_loop 64 base n []

abbrev pub crlf : List ℕ
crlf = codes "\r\n"

-- `snprintf` of `text` behind `out`; `none` when the text and its NUL do not fit.
unfoldable pub print_behind : ℕ → List ℕ → List ℕ → Option (List ℕ)
print_behind cap out text =
    if leb (cap - length out) (length text) then none else some (out ++ text)

unfoldable pub header_text : ResponseHeader → List ℕ
header_text h = h.key ++ (codes ": " ++ (h.value ++ crlf))

-- `response_header_write` for each header; the flag is `saw_content_length`.
unfoldable pub headers_write : ℕ → List ResponseHeader → List ℕ → Bool → Option (List ℕ × Bool)
headers_write cap [] out saw = some (out, saw)
headers_write cap (h ∷ headers) out saw = do
  out' ← print_behind cap out (header_text h)
  headers_write cap headers out' (if ascii_ieq h.key (codes "content-length") then true else saw)

abbrev pub connection_text : Bool → List ℕ
connection_text keep_alive =
    if keep_alive then codes "Connection: keep-alive\r\n" else codes "Connection: close\r\n"

-- The blank line.
unfoldable pub blank_write : ℕ → List ℕ → Option (List ℕ)
blank_write cap out = if leb cap (length out + 2) then none else some (out ++ crlf)

-- `case BODY_BUFFER`, its first part.
unfoldable pub length_write : ℕ → List ℕ → Bool → List ℕ → Option (List ℕ)
length_write cap bytes saw out =
    if not saw && ltb 0 (length bytes)
    then print_behind cap out (codes "Content-Length: " ++ (print_uint 10 (length bytes) ++ crlf))
    else some out

-- The body behind the blank line.
unfoldable pub bytes_write : ℕ → Bool → List ℕ → List ℕ → Option (List ℕ)
bytes_write cap head_only bytes out =
    if not head_only && ltb 0 (length bytes)
    then (if ltb cap (length out + length bytes) then none else some (out ++ bytes))
    else some out

-- The `switch (resp->kind)`.
unfoldable pub body_write : ℕ → Bool → Body → Bool → List ℕ → Option (List ℕ)
body_write cap head_only (body_buffer bytes) saw out = do
  out₁ ← length_write cap bytes saw out
  out₂ ← blank_write cap out₁
  bytes_write cap head_only bytes out₂
body_write cap head_only body_none saw out = blank_write cap out
body_write cap head_only (body_stream s) saw out =
    let chunked = codes "Transfer-Encoding: chunked\r\n" in
    if ltb cap (length out + length chunked) then none else blank_write cap (out ++ chunked)

unfoldable pub status_line : HttpResponse → List ℕ
status_line resp =
    codes "HTTP/1.1 " ++ (print_uint 10 resp.status ++ (codes " " ++ (resp.reason ++ crlf)))

-- The start line may fill the buffer to its end, where its last byte is the NUL; then the date does
-- not fit.
unfoldable pub start_write : ℕ → HttpResponse → Option (List ℕ)
start_write cap resp = if ltb cap (length (status_line resp)) then none else some (status_line resp)

-- `strftime` returns 0 when the text and its NUL do not fit.
unfoldable pub date_write : ℕ → Option CString → List ℕ → Option (List ℕ)
date_write cap none out = none
date_write cap (some date) out = print_behind cap out date

-- `response_header_connection_write` and the test behind it.
unfoldable pub connection_write : ℕ → Bool → List ℕ → Option (List ℕ)
connection_write cap keep_alive out = print_behind cap out (connection_text keep_alive)

unfoldable pub response_serialize : HttpResponse → ℕ → Bool → Option CString → Option (List ℕ)
response_serialize resp cap keep_alive date = do
  start ← start_write cap resp
  dated ← date_write cap date start
  (fields, saw) ← headers_write cap resp.headers dated false
  head ← connection_write cap keep_alive fields
  body_write cap resp.head_only resp.body saw head

unfoldable pub response_buffer : ℕ → CString → List ℕ → List ResponseHeader → HttpResponse
response_buffer status reason body headers = record {
  status = status;
  reason = reason;
  headers = headers;
  body = body_buffer body;
  head_only = false;
}

unfoldable pub response_none : ℕ → CString → List ResponseHeader → HttpResponse
response_none status reason headers = record {
  status = status;
  reason = reason;
  headers = headers;
  body = body_none;
  head_only = false;
}

unfoldable pub response_stream : ℕ → CString → Stream → List ResponseHeader → HttpResponse
response_stream status reason stream headers = record {
  status = status;
  reason = reason;
  headers = headers;
  body = body_stream stream;
  head_only = false;
}

-- The body is `sizeof R` bytes of the reason: the text with its NUL.
abbrev pub canned : ℕ → CString → HttpResponse
canned status reason = response_buffer status reason (reason ++ 0 ∷ []) []

unfoldable pub response_error_from_status : ParseStatus → HttpResponse
response_error_from_status parse_bad_request = canned 400 (codes "Bad Request")
response_error_from_status parse_payload_too_large = canned 413 (codes "Payload Too Large")
response_error_from_status parse_uri_too_long = canned 414 (codes "URI Too Long")
response_error_from_status parse_header_key_too_long =
    canned 431 (codes "Request Header Fields Too Large")
response_error_from_status parse_header_value_too_long =
    canned 431 (codes "Request Header Fields Too Large")
response_error_from_status parse_header_too_long =
    canned 431 (codes "Request Header Fields Too Large")
response_error_from_status parse_not_implemented = canned 501 (codes "Not Implemented")
response_error_from_status parse_version_not_supported =
    canned 505 (codes "HTTP Version Not Supported")
response_error_from_status parse_not_found = canned 404 (codes "Not Found")
response_error_from_status _ = canned 500 (codes "Internal Server Error")

-- `strncat(dst, src, cap - strlen(dst) - 1)`
abbrev pub strncat_room : ℕ → CString → CString → CString
strncat_room cap dst src = dst ++ take (cap - length dst - 1) src

-- The loop from an index on; `first` is `i == 0`.
unfoldable pub allow_loop : ℕ → Bool → List CString → CString → CString
allow_loop cap first [] buf = buf
allow_loop cap first (method ∷ allowed) buf =
    let separated = if first then buf else strncat_room cap buf (codes ", ") in
    allow_loop cap false allowed (strncat_room cap separated method)

-- `cap` is that of the empty scratch string.
unfoldable pub response_error_405 : List CString → ℕ → HttpResponse
response_error_405 allowed cap =
    response_buffer 405 (codes "Method Not Allowed") (codes "Method Not Allowed" ++ 0 ∷ [])
      (record { key = codes "Allow"; value = allow_loop cap true allowed [] } ∷ [])

-- The bytes for `resp->buffer`, with no keep-alive.
unfoldable pub response_error_serialize : ParseStatus → ℕ → Option CString → Option (List ℕ)
response_error_serialize s cap date =
    response_serialize (response_error_from_status s) cap false date

unfoldable pub chunk_frame : List ℕ → ℕ → Option (List ℕ)
chunk_frame payload out_cap =
    let size = print_uint 16 (length payload) ++ crlf in
    if leb out_cap (length size)
    then none
    else if ltb out_cap (length size + length payload + 2)
    then none
    else some (size ++ (payload ++ crlf))

unfoldable pub chunk_frame_last : ℕ → Option (List ℕ)
chunk_frame_last out_cap = if ltb out_cap 5 then none else some (codes "0\r\n\r\n")

pub data SendResponseStatus : Type 0 where
  send_ok send_peer_closed send_has_more send_error : SendResponseStatus

-- The result of `response_send`: the status, `st->sent`, the bytes that went out, and the calls of
-- send that are left.
pub record Sent : Type 0 where
  pub status : SendResponseStatus
  pub sent : ℕ
  pub wire : List ℕ
  pub left : List Send

-- `send` took `n` bytes.
abbrev pub send_took : Memory → HttpBuffer → ℕ → ℕ → List Send → Sent
send_took m resp sent n left = record {
  status = if sent + n == resp.size then send_ok else send_has_more;
  sent = sent + n;
  wire = slice m (resp.buffer + sent) n;
  left = left;
}

-- A call that took nothing.
abbrev pub send_none : SendResponseStatus → ℕ → List Send → Sent
send_none status sent left = record { status = status; sent = sent; wire = []; left = left }

unfoldable pub send_call : Memory → HttpBuffer → ℕ → List Send → Sent
send_call m resp sent [] = send_none send_has_more sent []
send_call m resp sent (send_again ∷ left) = send_none send_has_more sent left
send_call m resp sent (send_interrupted ∷ left) = send_none send_has_more sent left
send_call m resp sent (send_pipe ∷ left) = send_none send_peer_closed sent left
send_call m resp sent (send_reset ∷ left) = send_none send_peer_closed sent left
send_call m resp sent (send_failed ∷ left) = send_none send_error sent left
send_call m resp sent (accepted n ∷ left) =
    send_took m resp sent (if ltb n (resp.size - sent) then n else resp.size - sent) left

unfoldable pub response_send : Memory → HttpBuffer → ℕ → List Send → Option Sent
response_send m resp sent sends =
    assert_then (not (resp.buffer == null) && ltb sent resp.size)
      (some (send_call m resp sent sends))
