-- ===== src/Response/Errors.antt =====
-- The error pages of src/HttpResponse.c fit the response buffer.
use http_server_from_scratch.Config.{http_response_buffer_size}
use http_server_from_scratch.ParseResult.{ParseStatus, parse_ok}
use http_server_from_scratch.Prelude.{
  ℕ, ◌≤◌, ◌<◌, ◌≡◌, arith, Bool, true, false, CString, length, length-append, List, ◌++◌, some,
}
use http_server_from_scratch.Response.Fits.{layout, response_serialize-fits}
use http_server_from_scratch.Response.Serialize.{headers_text, has_length, framing, payload}
use http_server_from_scratch.Response.{
  HttpResponse, crlf, connection_text, status_line, response_serialize, response_error_from_status,
  response_buffer, print_uint, print_loop,
}

-- What stands behind the date.
abbrev behind_date : HttpResponse → Bool → List ℕ
behind_date resp keep_alive =
    headers_text resp.headers
    ++ (connection_text keep_alive
        ++ (framing resp.body (has_length resp.headers)
            ++ (crlf ++ payload resp.body resp.head_only)))

error_parts :
    (status : ParseStatus) (head_only keep_alive : Bool)
    → let resp = record (response_error_from_status status) { head_only = head_only } in
      (length (status_line resp) ≤ 100) × (length (behind_date resp keep_alive) ≤ 200)
unfolding response_error_from_status response_buffer status_line print_uint print_loop
error_parts parse_ok true true = omega arith
error_parts parse_ok true false = omega arith
error_parts parse_ok false true = omega arith
error_parts parse_ok false false = omega arith
error_parts _ true true = omega arith
error_parts _ true false = omega arith
error_parts _ false true = omega arith
error_parts _ false false = omega arith

-- The page of an error, with or without its body, in a buffer of `http_response_buffer_size` bytes.
abbrev pub error_page : ParseStatus → Bool → Bool → CString → List ℕ
error_page status head_only keep_alive date =
    layout (record (response_error_from_status status) { head_only = head_only }) keep_alive date

error_page-length :
    (status : ParseStatus) (head_only keep_alive : Bool) (date : CString)
    → length date ≤ 64
    → length (error_page status head_only keep_alive date) < http_response_buffer_size
error_page-length status head_only keep_alive date h =
    let resp = record (response_error_from_status status) { head_only = head_only } in
    let parts = error_parts status head_only keep_alive in
    let l = length-append (status_line resp) (date ++ behind_date resp keep_alive) in
    let k = length-append date (behind_date resp keep_alive) in omega (arith, l, k, parts, h)

-- With a date of at most 64 bytes, every page of `response_error_from_status`, with its body or
-- without, is written, is not empty, and fits a buffer of `http_response_buffer_size` bytes.
pub error_page-fits :
    (status : ParseStatus) (head_only keep_alive : Bool) (date : CString)
    → length date ≤ 64
    → (response_serialize
          (record (response_error_from_status status) { head_only = head_only })
          http_response_buffer_size
          keep_alive
          (some date)
        ≡ some (error_page status head_only keep_alive date))
      × (0 < length (error_page status head_only keep_alive date))
      × (length (error_page status head_only keep_alive date) ≤ http_response_buffer_size)
unfolding status_line
error_page-fits status head_only keep_alive date h =
    let resp = record (response_error_from_status status) { head_only = head_only } in
    let l = error_page-length status head_only keep_alive date h in
    (
      response_serialize-fits resp http_response_buffer_size keep_alive date l,
      omega arith,
      omega (arith, l),
    )
