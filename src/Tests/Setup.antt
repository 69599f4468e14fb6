-- ===== src/Tests/Setup.antt =====
-- A connection, a table of clients and a system that the runs share.
use http_server_from_scratch.Arena.{Arena}
use http_server_from_scratch.Body.Chunk.{decoder_zero}
use http_server_from_scratch.Body.TransferEncoding.{te_none}
use http_server_from_scratch.Config.{http_conn_arena_size, http_response_buffer_size}
use http_server_from_scratch.Connection.Safety.{IsSafe, IsEnv}
use http_server_from_scratch.Connection.{
  conn_reading_request, conn_sending_response_stream, stream_header, stream_drain, Connection,
  System, Env,
}
use http_server_from_scratch.Dictionary.{dict_init}
use http_server_from_scratch.HttpServer.Goes.{IsServer}
use http_server_from_scratch.HttpServer.{Shared, Poll}
use http_server_from_scratch.Memory.{Memory}
use http_server_from_scratch.Network.{Recv, received, recv_again, accepted}
use http_server_from_scratch.Networking.Slots.{IsReady}
use http_server_from_scratch.Networking.{pollin, no_revents, ClientSet, at_rest}
use http_server_from_scratch.Prelude.{
  ℕ, CString, refl, arith, true, false, List, [], ◌∷◌, codes, some, none,
}
use http_server_from_scratch.Request.{request_zero}
use http_server_from_scratch.Response.{response_buffer, pulled}
use http_server_from_scratch.Router.{Route}
use http_server_from_scratch.Router.Scratch.{IsRoute}
use http_server_from_scratch.Router.Content.{Files}
use http_server_from_scratch.Router.Safety.{dict_init-IsRegistry}
use Prim.{tt}

abbrev pub memory : Memory
memory a = 0

-- A connection that was just set up in a row at 4096.
abbrev pub idle : Connection
idle = record {
  phase = conn_reading_request;
  keep_alive = false;
  arena = record { base = 4096; cap = http_conn_arena_size; used = 8413184 };
  req_mark = 8413184;
  req_buf = record { buffer = 4096; cap = 8388608; size = 0 };
  resp_buf = record { buffer = 8392704; cap = http_response_buffer_size; size = 0 };
  body_dechunked = record { buffer = 8400896; cap = 16384; size = 0 };
  req_parsed = request_zero;
  body_start = 0;
  body_len = 0;
  body_coding = te_none;
  producer = none;
  next_req_offset = 0;
  requests = 0;
  st_cl_received = 0;
  st_chunked = record { consumed = 0; dec = decoder_zero };
  st_send_sent = 0;
  st_stream_phase = stream_header;
  st_stream_sent = 0;
}

pub idle-IsReady : IsReady idle
idle-IsReady = record {
  sound = record {
    place = omega arith;
    input = omega arith;
    word = omega arith;
    output = refl;
    headers = record { each = tt; count = omega arith };
    mark = omega arith;
    arena = record {
      word = omega arith;
      origin = (1024, refl);
      used = omega arith;
      room = omega arith;
    };
    registry = dict_init-IsRegistry;
    socket = omega arith;
    response = omega arith;
    decoded = omega arith;
  };
  in_phase = tt;
}

abbrev pub get_root : List Recv
get_root = received b'G' (codes "ET / HTTP/1.1\r\nHost: a\r\n\r\n") ∷ recv_again ∷ []

-- A wake-up with a request to read and a socket that takes the whole response.
abbrev pub serving : System
serving = record (at_rest memory dict_init idle) { recvs = get_root; sends = accepted 9000 ∷ [] }

pub serving-IsSafe : IsSafe conn_reading_request serving
serving-IsSafe = record {
  sound = record {
    place = omega arith;
    input = omega arith;
    word = omega arith;
    output = refl;
    headers = record { each = tt; count = omega arith };
    mark = omega arith;
    arena = record {
      word = omega arith;
      origin = (1024, refl);
      used = omega arith;
      room = omega arith;
    };
    registry = dict_init-IsRegistry;
    socket = omega arith;
    response = omega arith;
    decoded = omega arith;
  };
  in_phase = tt;
}

abbrev pub files : Files
files = record {
  stat = λ p. none;
  file_read = λ p n. none;
  open_stream = λ p. none;
  http_date_format = λ n. [];
  http_date_parse = λ d. none;
}

-- A route whose handler answers with a text.
abbrev hello : Route
hello = record {
  method = codes "GET";
  path = codes "/";
  fn = λ req a. (response_buffer 200 (codes "OK") (codes "hello") [], a);
  fn_with_data = λ req ptr a. (response_buffer 200 (codes "OK") (codes "hello") [], a);
  data_ptr = 0;
}

hello-IsRoute : IsRoute hello
unfolding response_buffer
hello-IsRoute = record {
  plain = λ req a w. (tt, record { arena = w; same = (refl, refl); used = omega arith });
  with_data = λ req ptr a w. (tt, record { arena = w; same = (refl, refl); used = omega arith });
}

abbrev pub env : Env
env = record {
  routes = hello ∷ [];
  files = files;
  date = some (codes "Date: Thu, 01 Jan 1970 00:00:00 GMT\r\n");
}

pub env-IsEnv : IsEnv env
env-IsEnv =
    ((codes "Date: Thu, 01 Jan 1970 00:00:00 GMT\r\n", refl, omega arith), (hello-IsRoute, tt))

-- A chunk of a stream, half of which is still to be sent.
abbrev pub streaming : System
streaming = record (at_rest memory dict_init idle) {
  conn = record idle {
    phase = conn_sending_response_stream;
    resp_buf = record idle.resp_buf { size = 8 };
    producer = some (record { pull = true; pulls = pulled b'x' [] ∷ []; cleanup = true });
    st_stream_phase = stream_drain;
    st_stream_sent = 4;
  };
  sends = accepted 100 ∷ accepted 100 ∷ [];
}

pub streaming-IsSafe : IsSafe conn_sending_response_stream streaming
streaming-IsSafe = record {
  sound = record {
    place = omega arith;
    input = omega arith;
    word = omega arith;
    output = refl;
    headers = record { each = tt; count = omega arith };
    mark = omega arith;
    arena = record {
      word = omega arith;
      origin = (1024, refl);
      used = omega arith;
      room = omega arith;
    };
    registry = dict_init-IsRegistry;
    socket = omega arith;
    response = omega arith;
    decoded = omega arith;
  };
  in_phase = (omega arith, refl);
}

-- A table of two slots, the first of them taken.
abbrev pub table : ClientSet
table = record {
  slots =
      record {
        poll_fd = record { fd = some 5; events = pollin; revents = no_revents };
        conn = idle;
      }
      ∷ record {
        poll_fd = record { fd = none; events = pollin; revents = no_revents };
        conn = idle;
      }
      ∷ [];
  arena_backing = 4096;
  refused = [];
}

abbrev pub shared : Shared
shared = record { memory = memory; registry = dict_init; closed = []; wires = []; cleanups = 0 }

-- A new client, and a request on the first slot.
abbrev pub poll : Poll
poll = record {
  failed = false;
  env = env;
  listener_pollin = true;
  accepted = some 6;
  nonblocking = true;
  wakes =
      record {
        revents = record no_revents { has_pollin = true };
        recvs = get_root;
        sends = accepted 9000 ∷ [];
      }
      ∷ [];
}

pub table-IsServer : IsServer 2 table shared
table-IsServer = record {
  count = refl;
  slots = ((omega arith, idle-IsReady), (tt, tt));
  rows = (1024, refl, omega arith);
  registry = dict_init-IsRegistry;
}

-- A key inserted twice, with another one in between; the last call stands first.
abbrev pub calls : List (CString × ℕ)
calls = (codes "/", 1) ∷ (codes "/a", 2) ∷ (codes "/", 3) ∷ []

-- Sixteen bytes, from which three blocks are asked for.
abbrev pub small : Arena
small = record { base = 4096; cap = 16; used = 1 }
