-- ===== src/Tests/Bodies.antt =====
-- Runs of the body readers, the stores, the router and the responses.
use http_server_from_scratch.Arena.{Arena}
use http_server_from_scratch.Body.Chunk.{decoder_zero, chunk_advance}
use http_server_from_scratch.Body.ContentLength.{ClOutcome, conn_recv_body_cl-ClOutcome}
use http_server_from_scratch.Body.Frame.{ReadsFrame, IsFrameRead, chunk_frame-IsFrameRead}
use http_server_from_scratch.Body.Progress.{Progress, chunk_advance-Progress}
use Prim.{tt}
use http_server_from_scratch.Body.Read.{chunk_drain, ChunkedRead, ClRead, conn_recv_body_cl}
use http_server_from_scratch.Dictionary.{dict_init}
use http_server_from_scratch.Memory.{Memory, string_memory}
use http_server_from_scratch.Network.{HttpBuffer, Recv, received, recv_interrupted, accepted}
use http_server_from_scratch.Prelude.{
  inr, ℕ, ◌≤◌, ◌≡◌, refl, arith, true, false, List, [], ◌∷◌, ◌++◌, CString, codes, length, some,
}
use http_server_from_scratch.Response.Sending.{IsSent, response_send-IsSent}
use http_server_from_scratch.Response.Serialize.{
  headers_text, has_length, framing, payload, response_serialize-Layout,
}
use http_server_from_scratch.Response.{
  HttpResponse, Sent, crlf, status_line, connection_text, response_send, response_buffer,
}
use http_server_from_scratch.Router.Duplicates.{router_has_duplicate_routes_large}
use http_server_from_scratch.Router.Lookup.{Found, route_lookup-Found}
use http_server_from_scratch.Router.{Route, route_lookup, router_has_duplicate_routes}
use http_server_from_scratch.Tests.Program.{program}

-- Two chunks, the second one empty, behind four bytes of a head.
abbrev chunks : CString
chunks = codes "HEAD3\r\nabc\r\n0\r\n\r\nGET"

abbrev memory : Memory
memory = string_memory 100 chunks

abbrev req_buf : HttpBuffer
req_buf = record { cap = 100; size = 12; buffer = 100 }

abbrev reader : ChunkedRead
reader = record {
  memory = memory;
  req_buf = req_buf;
  dechunked = record { cap = 50; size = 0; buffer = 1000 };
  st = record { consumed = 0; dec = decoder_zero };
}

abbrev recvs : List Recv
recvs = received b'0' (codes "\r\n") ∷ recv_interrupted ∷ received b'\r' (codes "\nGET") ∷ []

chunk_advance-Progress_example :
    Progress 104 17 50 (chunk_advance decoder_zero memory 104 17 1000 50)
chunk_advance-Progress_example =
    chunk_advance-Progress decoder_zero memory 104 17 1000 50 (λ e. ground arith)

abbrev cl_reader : ClRead
cl_reader = record { memory = memory; req = req_buf; received = 8 }

conn_recv_body_cl-ClOutcome_example :
    ClOutcome 4 10 cl_reader (conn_recv_body_cl 4 10 cl_reader recvs)
conn_recv_body_cl-ClOutcome_example =
    conn_recv_body_cl-ClOutcome 4 10 cl_reader recvs
      (record { body = omega arith; input = omega arith })

abbrev arena : Arena
arena = record { base = 4096; cap = 64; used = 3 }

abbrev address : ℕ
address = 4104

-- A route that answers with its path.
abbrev route : CString → CString → Route
route method path = record {
  method = method;
  path = path;
  fn = λ req a. (response_buffer 200 (codes "OK") path [], a);
  fn_with_data = λ req ptr a. (response_buffer 200 (codes "OK") path [], a);
  data_ptr = 0;
}

abbrev routes : List Route
routes =
    route (codes "GET") (codes "/a")
    ∷ route (codes "GET") (codes "/b")
    ∷ route (codes "POST") (codes "/b")
    ∷ []

route_lookup-Found_example :
    Found routes
      (codes "PUT")
      (codes "/b")
      []
      (route_lookup routes (codes "PUT") (codes "/b")).route
      (route_lookup routes (codes "PUT") (codes "/b")).allowed
route_lookup-Found_example = route_lookup-Found routes (codes "PUT") (codes "/b")

router_has_duplicate_routes_large_example :
    router_has_duplicate_routes {V = ℕ} (λ r. false) dict_init routes ≡ true
router_has_duplicate_routes_large_example =
    router_has_duplicate_routes_large (λ r. false) dict_init (route (codes "GET") (codes "/a"))
      (route (codes "GET") (codes "/b")) (route (codes "POST") (codes "/b")) []

abbrev ok_response : HttpResponse
ok_response =
    response_buffer 200 (codes "OK") (codes "hi")
      (record { key = codes "X"; value = codes "y" } ∷ [])

abbrev ok_bytes : CString
ok_bytes =
    codes "HTTP/1.1 200 OK\r\nDate: now\r\nX: y\r\nConnection: close\r\nContent-Length: 2\r\n\r\nhi"

response_serialize-Layout_example :
    (ok_bytes
      ≡ status_line ok_response
        ++ (codes "Date: now\r\n"
            ++ (headers_text ok_response.headers
                ++ (connection_text false
                    ++ (framing ok_response.body (has_length ok_response.headers)
                        ++ (crlf ++ payload ok_response.body ok_response.head_only))))))
    × (length ok_bytes ≤ 200)
unfolding program
response_serialize-Layout_example =
    response_serialize-Layout ok_response 200 false (codes "Date: now\r\n") ok_bytes refl

response_send-IsSent_example :
    (r : Sent) × (response_send memory req_buf 5 (accepted 3 ∷ []) ≡ some r)
    × IsSent memory req_buf 5 r
response_send-IsSent_example =
    response_send-IsSent memory req_buf 5 (accepted 3 ∷ []) (omega arith) (omega arith)

-- A chunk of three bytes, behind a head of ten bytes.
abbrev frame : CString
frame = codes "3\r\nabc\r\n"

abbrev framed : ChunkedRead
framed = record {
  memory = string_memory 510 frame;
  req_buf = record { cap = 100; size = 18; buffer = 500 };
  dechunked = record { cap = 50; size = 0; buffer = 1000 };
  st = record { consumed = 0; dec = decoder_zero };
}

framed-ReadsFrame : ReadsFrame 10 (codes "abc") frame framed
unfolding program
framed-ReadsFrame = record {
  phase = refl;
  place = omega arith;
  stands = (refl, (refl, (refl, (refl, (refl, (refl, (refl, (refl, tt))))))));
  whole = omega arith;
  room = omega arith;
  apart = inr (omega arith);
}

chunk_frame-IsFrameRead_example :
    (t : ChunkedRead) × (chunk_drain 10 5 framed ≡ chunk_drain 10 1 t)
    × IsFrameRead (codes "abc") frame framed t
unfolding program
chunk_frame-IsFrameRead_example =
    chunk_frame-IsFrameRead 10 1 20 framed (codes "abc") frame refl (omega arith) (omega arith)
      framed-ReadsFrame
