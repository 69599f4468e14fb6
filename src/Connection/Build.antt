-- ===== src/Connection/Build.antt =====
-- src/Connection.c, `step_response_build`: the answer to a request, written into the response buffer.
-- A handler's answer depends on the request alone: what it allocates from the arena is not modelled.
use http_server_from_scratch.Arena.{Arena}
use http_server_from_scratch.Connection.{
  conn_sending_response_stream, stream_header, System, Env, StepResult, set_conn, resp_written,
  phase_send_begin, request_consume, stream_release,
}
use http_server_from_scratch.ParseResult.{parse_not_found, parse_server_error}
use http_server_from_scratch.Prelude.{
  ◌>>=◌, ℕ, Bool, true, false, ltb, ◌==◌, if◌then◌else◌, length, List, Option, none, some,
}
use http_server_from_scratch.Memory.{null}
use http_server_from_scratch.Request.{HttpRequest}
use http_server_from_scratch.RequestLine.{HttpMethod, get, head, http_method_show}
use http_server_from_scratch.Response.{
  HttpResponse, Stream, Body, body_none, body_buffer, body_stream, response_serialize,
  response_error_from_status, response_error_405,
}
use http_server_from_scratch.Router.Serving.{
  is_head, ContentLookupResult, content_miss, content_gone, content_not_modified, content_hit,
  content_registry_lookup, response_for_entry, response_dynamic_304,
}
use http_server_from_scratch.Router.{RouteLookupResult, route_lookup}

abbrev pub is_get : HttpMethod → Bool
is_get get = true
is_get _ = false

-- `method == HEAD ? GET : method`
abbrev pub get_for_head : HttpMethod → HttpMethod
get_for_head head = get
get_for_head method = method

-- `sizeof(allow_storage)`
abbrev pub allow_cap : ℕ
allow_cap = 128

-- The answer once the routes were searched.
unfoldable pub route_answer : HttpRequest → Arena → RouteLookupResult → HttpResponse × Arena
route_answer req scratch r = elim r.route [
  | some route ↦
      if route.data_ptr == null
      then route.fn req scratch
      else route.fn_with_data req route.data_ptr scratch
  | none ↦
      if ltb 0 (length r.allowed)
      then (response_error_405 r.allowed allow_cap, scratch)
      else (response_error_from_status parse_not_found, scratch)
]

-- The connection's arena is the scratch of the request.
unfoldable pub routed : Env → System → HttpMethod → HttpResponse × System
routed env s method =
    let req = s.conn.req_parsed in
    let found = route_lookup env.routes (http_method_show method) req.request_line.path in
    let (res, arena) = route_answer req s.conn.arena found in
    (res, set_conn s (record s.conn { arena = arena }))

-- The `switch (d.status)`.
unfoldable pub content_answer :
    Env → System → HttpMethod → ContentLookupResult → Option (HttpResponse × System)
content_answer env s method content_miss = some (routed env s method)
content_answer env s method content_gone = some (response_error_from_status parse_not_found, s)
content_answer env s method (content_not_modified entry) = some (response_dynamic_304 entry, s)
content_answer env s method (content_hit entry) = do
  (res, arena) ← response_for_entry env.files s.conn.req_parsed entry s.conn.arena
  some (res, set_conn s (record s.conn { arena = arena }))

-- The code in front of `build_resp`.
unfoldable pub answer : Env → System → Option (HttpResponse × System)
answer env s =
    let req = s.conn.req_parsed in
    let method = get_for_head req.request_line.method in
    if is_get method
    then (content_registry_lookup env.files s.registry req req.request_line.path
        >>= (λ d. content_answer env (record s { registry = d.1 }) method d.0))
    else some (routed env s method)

abbrev pub serialize : Env → System → HttpResponse → Option (List ℕ)
serialize env s res = response_serialize res s.conn.resp_buf.cap s.conn.keep_alive env.date

-- A response that fits the buffer; the last assertion fails when not even the error does.
unfoldable pub build_buffered : Env → System → HttpResponse → StepResult
build_buffered env s res =
    let res' =
      if is_head s.conn.req_parsed.request_line.method
      then record res { head_only = true }
      else res in
    elim (serialize env s res') [
      | some bytes ↦ phase_send_begin (request_consume (resp_written s bytes))
      | none ↦ elim (serialize env s (response_error_from_status parse_server_error)) [
        | some bytes ↦ phase_send_begin (request_consume (resp_written s bytes))
        | none ↦ none
      ]
    ]

abbrev pub stream_begin : System → System
stream_begin s = set_conn s (record s.conn { st_stream_phase = stream_header; st_stream_sent = 0 })

-- The part for `res.kind == BODY_STREAM`.
unfoldable pub build_stream : Env → System → HttpResponse → Stream → StepResult
build_stream env s res stream =
    let s' = set_conn s (record s.conn { producer = some stream }) in
    elim (serialize env s' res) [
      | some bytes ↦
          some
            (conn_sending_response_stream, request_consume (stream_begin (resp_written s' bytes)))
      | none ↦
          build_buffered env (stream_release s') (response_error_from_status parse_server_error)
    ]

unfoldable pub build_body : Env → System → HttpResponse → Body → StepResult
build_body env s res (body_stream stream) = build_stream env s res stream
build_body env s res body_none = build_buffered env s res
build_body env s res (body_buffer bytes) = build_buffered env s res

unfoldable pub step_response_build : Env → System → StepResult
step_response_build env s = do (res, s') ← answer env s; build_body env s' res res.body
