-- ===== src/Networking/Buffers.antt =====
-- `connection_init` of src/Networking.c: where a connection's buffers are.
use http_server_from_scratch.Arena.Blocks.{IsArena, arena_alloc_lem, ceiling, AreBlocks}
use http_server_from_scratch.Arena.{Arena, arena_init, arena_mark}
use http_server_from_scratch.Body.Chunk.{decoder_zero}
use http_server_from_scratch.Request.{request_zero}
use http_server_from_scratch.Config.{
  http_max_request_len, http_max_dechunk_size, http_response_buffer_size, http_conn_arena_size,
  http_arena_slack,
}
use http_server_from_scratch.Connection.Safety.{IsSafe}
use http_server_from_scratch.Connection.{Connection, conn_reading_request, stream_header}
use http_server_from_scratch.Memory.{Memory}
use http_server_from_scratch.Networking.{buffer_alloc, connection_init, at_rest}
use http_server_from_scratch.Prelude.{
  ℕ, ◌+◌, ◌*◌, ◌≤◌, ◌<◌, ◌≡◌, inr, refl, arith, false, ltb, ◌==◌, [], ◌∷◌, some,
}
use http_server_from_scratch.Router.Content.{ContentRegistry}
use http_server_from_scratch.Router.Safety.{IsRegistry}
use Prim.{tt}

ceiling-0 : (used : ℕ) → ceiling used 0 ≡ used
ceiling-0 used = omega arith

buffer_alloc_lem :
    (a : Arena) (n : ℕ)
    → IsArena 2 a
    → a.used + n ≤ a.cap
    → 0 < a.base
    → buffer_alloc a n ≡ some (a.base + a.used, record a { used = a.used + n })
buffer_alloc_lem a n w h pos =
    let e = arena_alloc_lem a n 0 2 w (omega arith) in
    let fits : ltb a.cap (a.used + n) ≡ false = ground (arith, h) in
    let there : (a.base + a.used == 0) ≡ false = ground (arith, pos) in
    rw (e, ceiling-0 a.used, fits, there) refl

-- A connection that was set up: it reads its first request, with the three buffers one behind the
-- other from the start of its memory, and the rest of that memory for the arena.
pub record IsInit (backing : ℕ) (c : Connection) : Type 0 where
  pub phase : c.phase ≡ conn_reading_request
  pub blocks : AreBlocks backing (backing + c.req_mark) (
      (c.req_buf.buffer, c.req_buf.cap)
      ∷ (c.resp_buf.buffer, c.resp_buf.cap)
      ∷ (c.body_dechunked.buffer, c.body_dechunked.cap)
      ∷ [])
  pub left : c.req_mark + http_arena_slack ≡ c.arena.cap
  pub sizes : (c.req_buf.size ≡ 0) × (c.resp_buf.size ≡ 0) × (c.body_dechunked.size ≡ 0)
  pub requests : c.requests ≡ 0

init-IsArena :
    (q used : ℕ)
    → used ≤ http_conn_arena_size
    → IsArena 2 (record { base = q * 4; cap = http_conn_arena_size; used = used })
init-IsArena q used h = record {
  word = omega arith;
  origin = (q, refl);
  used = h;
  room = omega arith;
}

-- The connection that `connection_init` leaves.
abbrev set_up : Connection → ℕ → Connection
set_up conn backing =
    let used = http_max_request_len + http_response_buffer_size + http_max_dechunk_size in
    record conn {
      phase = conn_reading_request;
      arena = record { base = backing; cap = http_conn_arena_size; used = used };
      req_mark = used;
      req_buf = record { buffer = backing + 0; cap = http_max_request_len; size = 0 };
      resp_buf = record {
        buffer = backing + http_max_request_len;
        cap = http_response_buffer_size;
        size = 0;
      };
      body_dechunked = record {
        buffer = backing + (http_max_request_len + http_response_buffer_size);
        cap = http_max_dechunk_size;
        size = 0;
      };
      req_parsed = request_zero;
      requests = 0;
      st_cl_received = 0;
      st_chunked = record { consumed = 0; dec = decoder_zero };
      st_send_sent = 0;
      st_stream_phase = stream_header;
      st_stream_sent = 0;
    }

-- Whatever connection was in the slot before, at a memory of `http_conn_arena_size` bytes that begins
-- at a multiple of 4, not at NULL, `connection_init` fails no assertion. The three buffers lie one
-- behind the other in that memory and leave `http_arena_slack` bytes of it for the arena; they are
-- empty, and what the steps of the first phase rely on holds, with a well-formed content registry.
pub connection_init-IsInit :
    (conn : Connection) (q : ℕ) (memory : Memory) (registry : ContentRegistry)
    → 0 < q
    → IsRegistry registry
    → (c : Connection) × (connection_init conn (q * 4) http_conn_arena_size ≡ some c)
      × IsInit (q * 4) c
      × IsSafe c.phase (at_rest memory registry c)
unfolding connection_init arena_init arena_mark
connection_init-IsInit conn q memory registry pos v =
    let base : 0 < q * 4 = omega (arith, pos) in
    let there : (q * 4 == 0) ≡ false = ground (arith, base) in
    let a₀ : Arena = record { base = q * 4; cap = http_conn_arena_size; used = 0 } in
    let a₁ : Arena = record {
      base = q * 4;
      cap = http_conn_arena_size;
      used = http_max_request_len;
    } in
    let a₂ : Arena = record {
      base = q * 4;
      cap = http_conn_arena_size;
      used = http_max_request_len + http_response_buffer_size;
    } in
    let e₀ =
      buffer_alloc_lem a₀ http_max_request_len (init-IsArena q _ (omega arith)) (omega arith)
        base in
    let e₁ =
      buffer_alloc_lem a₁ http_response_buffer_size (init-IsArena q _ (omega arith)) (omega arith)
        base in
    let e₂ =
      buffer_alloc_lem a₂ http_max_dechunk_size (init-IsArena q _ (omega arith)) (omega arith)
        base in
    (
      set_up conn (q * 4),
      rw (there, e₀, e₁, e₂) refl,
      record {
        phase = refl;
        blocks = inr (omega arith, inr (omega arith, inr (omega arith, omega arith)));
        left = refl;
        sizes = (refl, refl, refl);
        requests = refl;
      },
      record {
        sound = record {
          place = omega (arith, base);
          input = omega arith;
          word = omega arith;
          output = refl;
          headers = record { each = tt; count = omega arith };
          mark = omega arith;
          arena = init-IsArena q _ (omega arith);
          registry = v;
          socket = omega arith;
          response = omega (arith, base);
          decoded = omega (arith, base);
        };
        in_phase = tt;
      },
    )
