-- ===== src/Networking.antt =====
-- src/Networking.c and src/Networking.h: the table of clients and a connection's buffers. What
-- accept(2) and fcntl(2) answer is given; `refused` lists the sockets
-- that were closed without a slot.
pub mod Buffers
pub mod Slots
use http_server_from_scratch.Arena.{Arena, arena_init, arena_alloc, arena_mark, assert_then}
use http_server_from_scratch.Body.Chunk.{decoder_zero}
use http_server_from_scratch.Config.{
  http_max_request_len, http_max_dechunk_size, http_response_buffer_size, http_conn_arena_size,
}
use http_server_from_scratch.Connection.{Connection, System, conn_reading_request, stream_header}
use http_server_from_scratch.Memory.{Memory, null}
use http_server_from_scratch.Prelude.{
  ℕ, zero, suc, ◌+◌, ◌*◌, Bool, true, false, not, ◌==◌, List, [], ◌∷◌, Option, none, some, ◌>>=◌,
  if◌then◌else◌,
}
use http_server_from_scratch.Request.{request_zero}
use http_server_from_scratch.Router.Content.{ContentRegistry}

-- `events`: POLLIN, POLLOUT or 0.
pub data Events : Type 0 where
  pollin pollout no_events : Events

-- The bits of `revents` that the code tests, and POLLERR.
pub record Revents : Type 0 where
  pub has_pollin : Bool
  pub has_pollout : Bool
  pub has_pollhup : Bool
  pub has_pollerr : Bool

abbrev pub no_revents : Revents
no_revents = record {
  has_pollin = false;
  has_pollout = false;
  has_pollhup = false;
  has_pollerr = false;
}

-- `struct pollfd`; `fd` is `none` for -1.
pub record PollFd : Type 0 where
  pub fd : Option ℕ
  pub events : Events
  pub revents : Revents

-- One index of the parallel arrays `poll_fd_set` and `conns`. The field `fd` of the connection is the
-- descriptor of its slot.
pub record Slot : Type 0 where
  pub poll_fd : PollFd
  pub conn : Connection

-- The slots of the clients, from index 1 on, and the address of `arena_backing`.
pub record ClientSet : Type 0 where
  pub slots : List Slot
  pub arena_backing : ℕ
  pub refused : List ℕ

-- One buffer from the arena, with the assertion that it is not NULL.
abbrev pub buffer_alloc : Arena → ℕ → Option (ℕ × Arena)
buffer_alloc arena size = do
  (p, arena') ← arena_alloc arena size 1
  assert_then (not (p == null)) (some (p, arena'))

-- `none` is a failed assertion. What is not named keeps its value: keep_alive, body_start, body_len,
-- body_coding, producer and next_req_offset are those of the connection before in the slot.
unfoldable pub connection_init : Connection → ℕ → ℕ → Option Connection
connection_init conn backing backing_cap = do
  arena₀ ← arena_init backing backing_cap
  (req, arena₁) ← buffer_alloc arena₀ http_max_request_len
  (resp, arena₂) ← buffer_alloc arena₁ http_response_buffer_size
  (dechunked, arena₃) ← buffer_alloc arena₂ http_max_dechunk_size
  mark ← arena_mark arena₃
  some (record conn {
    phase = conn_reading_request;
    arena = arena₃;
    req_mark = mark;
    req_buf = record { buffer = req; cap = http_max_request_len; size = 0 };
    resp_buf = record { buffer = resp; cap = http_response_buffer_size; size = 0 };
    body_dechunked = record { buffer = dechunked; cap = http_max_dechunk_size; size = 0 };
    req_parsed = request_zero;
    requests = 0;
    st_cl_received = 0;
    st_chunked = record { consumed = 0; dec = decoder_zero };
    st_send_sent = 0;
    st_stream_phase = stream_header;
    st_stream_sent = 0;
  })

-- A slot with a new socket; `backing` is the slot's row of `arena_backing`.
unfoldable pub slot_fill : Slot → ℕ → ℕ → Option Slot
slot_fill slot backing new_fd = do
  conn ← connection_init slot.conn backing http_conn_arena_size
  some (record {
    poll_fd = record { fd = some new_fd; events = pollin; revents = no_revents };
    conn = conn;
  })

-- The loop of `add_to_client_set` over the slots from one on whose row of `arena_backing` is at
-- `backing`: the slots, or nothing when none is free. The outer `none` is a failed assertion.
unfoldable pub add_loop : List Slot → ℕ → ℕ → Option (Option (List Slot))
add_loop [] backing new_fd = some none
add_loop (slot ∷ slots) backing new_fd = elim slot.poll_fd.fd [
  | none ↦ (slot_fill slot backing new_fd >>= (λ filled. some (some (filled ∷ slots))))
  | some fd ↦
      (add_loop slots (backing + http_conn_arena_size) new_fd
        >>= (λ rest. some (elim rest [ none ↦ none | some slots' ↦ some (slot ∷ slots') ])))
]

-- A full table refuses the connection.
unfoldable pub add_to_client_set : ClientSet → ℕ → Option ClientSet
add_to_client_set client_set new_fd = do
  added ← add_loop client_set.slots client_set.arena_backing new_fd
  some (elim added [
    | none ↦ record client_set { refused = new_fd ∷ client_set.refused }
    | some slots ↦ record client_set { slots = slots }
  ])

-- `accept` gives a socket or fails; `nonblocking` says that both calls of `fcntl` succeeded.
unfoldable pub client_set_add_new : Option ℕ → Bool → ClientSet → Option ClientSet
client_set_add_new none nonblocking client_set = some client_set
client_set_add_new (some new_fd) nonblocking client_set =
    if not nonblocking
    then some (record client_set { refused = new_fd ∷ client_set.refused })
    else add_to_client_set client_set new_fd

-- `poll_fd_set[i].fd = -1`
unfoldable pub client_set_delete : Slot → Slot
client_set_delete slot = record slot { poll_fd = record slot.poll_fd { fd = none } }

-- The slot, and the descriptor that was closed.
unfoldable pub connection_close : Slot → Slot × Option ℕ
connection_close slot = (client_set_delete slot, slot.poll_fd.fd)

-- A connection between two wake-ups, with the memory and the registry that all share, on the
-- descriptor 1.
abbrev pub at_rest : Memory → ContentRegistry → Connection → System
at_rest memory registry conn = record {
  fd = 1;
  conn = conn;
  memory = memory;
  recvs = [];
  sends = [];
  wire = [];
  registry = registry;
  cleanups = 0;
}
