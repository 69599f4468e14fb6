-- ===== src/Tests/Connections.antt =====
-- Runs of the steps of a connection.
use http_server_from_scratch.Body.Chunk.{decoder_zero}
use http_server_from_scratch.Body.TransferEncoding.{te_none}
use http_server_from_scratch.Connection.Framing.{IsFramed, head_decide-IsFramed}
use http_server_from_scratch.Connection.Header.{head_decide}
use http_server_from_scratch.Connection.Reset.{
  IsConsumed, IsFresh, request_consume-IsConsumed, response_end-IsFresh,
}
use http_server_from_scratch.Connection.{
  conn_closed, request_consume, conn_reading_request, stream_header, Connection, System,
}
use http_server_from_scratch.Dictionary.{dict_init}
use http_server_from_scratch.Memory.{string_memory}
use http_server_from_scratch.Network.{HttpBuffer, accepted}
use http_server_from_scratch.Prelude.{true, ◌+◌, ◌⊎◌, arith, ◌≡◌, refl, false, [], ◌∷◌, codes, none}
use http_server_from_scratch.Request.{HttpRequest, request_zero}
use http_server_from_scratch.RequestLine.{request_line_zero, post}
use http_server_from_scratch.Tests.Program.{program}

abbrev buffer : HttpBuffer
buffer = record { cap = 100; size = 10; buffer = 500 }

-- A POST with a body of five bytes.
abbrev request : HttpRequest
request = record request_zero {
  request_line = record request_line_zero {
    method = post;
    path = codes "/";
    version = codes "HTTP/1.1";
  };
  headers =
      record { key = codes "Host"; value = codes "h" }
      ∷ record { key = codes "Content-Length"; value = codes "5" }
      ∷ [];
}

abbrev connection : Connection
connection = record {
  phase = conn_reading_request;
  keep_alive = false;
  arena = record { base = 4096; cap = 64; used = 0 };
  req_mark = 0;
  req_buf = buffer;
  resp_buf = buffer;
  body_dechunked = buffer;
  req_parsed = request;
  body_start = 0;
  body_len = 0;
  body_coding = te_none;
  producer = none;
  next_req_offset = 0;
  requests = 0;
  st_cl_received = 0;
  st_chunked = record { consumed = 0; dec = decoder_zero };
  st_send_sent = 4;
  st_stream_phase = stream_header;
  st_stream_sent = 0;
}

abbrev system : System
system = record {
  fd = 5;
  conn = connection;
  memory = string_memory 500 (codes "0123456789");
  recvs = [];
  sends = accepted 3 ∷ [];
  wire = [];
  registry = dict_init;
  cleanups = 0;
}

head_decide-IsFramed_example : IsFramed connection (head_decide connection).0
unfolding program
head_decide-IsFramed_example = head_decide-IsFramed connection refl

-- Four bytes of the next request behind the first six.
abbrev pipelined : System
pipelined = record system { conn = record connection { next_req_offset = 6 } }

request_consume-IsConsumed_example : IsConsumed pipelined (request_consume pipelined)
request_consume-IsConsumed_example =
    request_consume-IsConsumed pipelined (omega arith) (omega arith) (omega arith)

abbrev kept : System
kept = record system { conn = record connection { requests = 1; keep_alive = true } }

abbrev next : System
next = record system {
  conn = record connection {
    requests = 2;
    st_send_sent = 0;
    resp_buf = record buffer { size = 0 };
    req_parsed = request_zero;
    keep_alive = false;
  };
}

response_end-IsFresh_example :
    ((conn_reading_request ≡ conn_closed)
      ⊎ ((conn_reading_request ≡ conn_reading_request)
          × (kept.conn.keep_alive ≡ true)
          × IsFresh next))
    × (next.conn.requests ≡ kept.conn.requests + 1)
    × (next.conn.req_buf ≡ kept.conn.req_buf)
unfolding program
response_end-IsFresh_example = response_end-IsFresh kept conn_reading_request next refl
