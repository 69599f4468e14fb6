-- ===== src/Response/Allow.antt =====
-- The page of 405 Method Not Allowed of src/HttpResponse.c, with its Allow header.
use http_server_from_scratch.Config.{http_response_buffer_size}
use http_server_from_scratch.Connection.Build.{allow_cap}
use http_server_from_scratch.Network.{take}
use http_server_from_scratch.Network.Store.{length-take-le}
use http_server_from_scratch.Parser.{ascii_ieq, tolower}
use http_server_from_scratch.Prelude.{
  ℕ, ◌-◌, ◌≤◌, ◌<◌, ◌≡◌, arith, Bool, true, false, CString, codes, length, length-append, List, [],
  ◌∷◌, ◌++◌, if◌then◌else◌, if_cases, some,
}
use http_server_from_scratch.Response.Fits.{layout, response_serialize-fits}
use http_server_from_scratch.Response.Serialize.{headers_text, has_length, framing, payload}
use http_server_from_scratch.Response.{
  HttpResponse, crlf, connection_text, status_line, response_serialize, response_error_405,
  response_buffer, header_text, strncat_room, allow_loop, print_uint, print_loop,
}

-- A string that `strncat` appends to keeps room for its NUL.
strncat_room-length :
    (cap : ℕ) (dst src : CString) → length dst < cap → length (strncat_room cap dst src) < cap
strncat_room-length cap dst src h =
    let l = length-append dst (take (cap - length dst - 1) src) in
    let k = length-take-le (cap - length dst - 1) src in omega (arith, l, k, h)

-- The value of the Allow header fits its buffer, however many methods there are.
allow_loop-length :
    (cap : ℕ) (first : Bool) (allowed : List CString) (buf : CString)
    → length buf < cap
    → length (allow_loop cap first allowed buf) < cap
unfolding allow_loop
allow_loop-length cap first [] buf h = h
allow_loop-length cap first (method ∷ allowed) buf h =
    let separated = if first then buf else strncat_room cap buf (codes ", ") in
    let l : length separated < cap =
      if_cases (λ (b : CString). length b < cap) first (λ e. h)
        (λ e. strncat_room-length cap buf (codes ", ") h) in
    allow_loop-length cap false allowed (strncat_room cap separated method)
      (strncat_room-length cap separated method l)

-- What stands behind the headers.
abbrev behind_headers : HttpResponse → Bool → List ℕ
behind_headers resp keep_alive =
    connection_text keep_alive
    ++ (framing resp.body (has_length resp.headers) ++ (crlf ++ payload resp.body resp.head_only))

page_parts :
    (allowed : List CString) (head_only keep_alive : Bool)
    → let resp = record (response_error_405 allowed allow_cap) { head_only = head_only } in
      (length (status_line resp) ≤ 100) × (length (behind_headers resp keep_alive) ≤ 200)
unfolding response_error_405 response_buffer status_line print_uint print_loop ascii_ieq tolower
page_parts allowed true true = omega arith
page_parts allowed true false = omega arith
page_parts allowed false true = omega arith
page_parts allowed false false = omega arith

headers-length :
    (allowed : List CString)
    → length (headers_text (response_error_405 allowed allow_cap).headers) ≤ 140
unfolding response_error_405 response_buffer header_text
headers-length allowed =
    let value = allow_loop allow_cap true allowed [] in
    let h = allow_loop-length allow_cap true allowed [] (omega arith) in
    let l = length-append value crlf in
    let k = length-append (value ++ crlf) [] in omega (arith, h, l, k)

-- With a date of at most 64 bytes, the page of `response_error_405` with the methods allowed, however
-- many and however long they are, with its body or without, is written and fits a buffer of
-- `http_response_buffer_size` bytes. The value of its Allow header fits the string of `allow_cap` bytes
-- that it is put together in, with a NUL.
pub response_error_405-fits :
    (allowed : List CString) (head_only keep_alive : Bool) (date : CString)
    → length date ≤ 64
    → let resp = record (response_error_405 allowed allow_cap) { head_only = head_only } in
      (response_serialize resp http_response_buffer_size keep_alive (some date)
        ≡ some (layout resp keep_alive date))
      × (length (layout resp keep_alive date) ≤ http_response_buffer_size)
      × (length (allow_loop allow_cap true allowed []) < allow_cap)
response_error_405-fits allowed head_only keep_alive date h =
    let resp = record (response_error_405 allowed allow_cap) { head_only = head_only } in
    let parts = page_parts allowed head_only keep_alive in
    let text = headers_text resp.headers in
    let rest = behind_headers resp keep_alive in
    let n : length text ≤ 140 = headers-length allowed in
    let l = length-append (status_line resp) (date ++ (text ++ rest)) in
    let k = length-append date (text ++ rest) in
    let j = length-append text rest in
    let fits : length (layout resp keep_alive date) < http_response_buffer_size =
      omega (arith, l, k, j, parts, n, h) in
    (
      response_serialize-fits resp http_response_buffer_size keep_alive date fits,
      omega (arith, fits),
      allow_loop-length allow_cap true allowed [] (omega arith),
    )
