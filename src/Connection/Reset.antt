-- ===== src/Connection/Reset.antt =====
-- The end of a request in src/Connection.c: the bytes of the next one, and the reset of the state.
use mathlib.Core.Option.{some_inj}
use http_server_from_scratch.Arena.Bounds.{assert_some}
use http_server_from_scratch.Arena.{arena_reset_to}
use http_server_from_scratch.Body.TransferEncoding.{te_none}
use http_server_from_scratch.Config.{http_max_requests}
use http_server_from_scratch.Connection.Step.{response_end}
use http_server_from_scratch.Connection.{
  ConnPhase, conn_reading_request, conn_closed, System, connection_reset, request_consume, set_conn,
}
use http_server_from_scratch.Memory.Copy.{memcpy-at}
use http_server_from_scratch.Memory.{memcpy, size_mod}
use http_server_from_scratch.Request.{request_zero}
use http_server_from_scratch.Prelude.{
  bind-some, ℕ, ◌+◌, ◌-◌, ◌%◌, ◌<◌, ◌≤◌, ◌≡◌, ◌⊎◌, inl, inr, refl, sym, ap, arith, true, false,
  Bool-cases, leb, not, ◌||◌, some, subst, lt→ltb,
}

-- What `request_consume` leaves of a buffer that holds the next request from an offset on.
pub record IsConsumed (s s' : System) : Type 0 where
  pub kept :
      (i : ℕ)
      → i < s.conn.req_buf.size - s.conn.next_req_offset
      → s'.memory (s.conn.req_buf.buffer + i)
        ≡ s.memory (s.conn.req_buf.buffer + s.conn.next_req_offset + i)
  pub size : s'.conn.req_buf.size ≡ s.conn.req_buf.size - s.conn.next_req_offset
  pub same :
      (s'.conn.req_buf.buffer ≡ s.conn.req_buf.buffer) × (s'.conn.req_buf.cap ≡ s.conn.req_buf.cap)
  pub offset : s'.conn.next_req_offset ≡ 0

-- When the next request begins at an offset other than 0 within the bytes received, whose number fits
-- `size_t`, `request_consume` moves its bytes to the start of the buffer, in their order; the buffer
-- then has just their number, and the offset is 0.
pub request_consume-IsConsumed :
    (s : System)
    → 0 < s.conn.next_req_offset
    → s.conn.next_req_offset ≤ s.conn.req_buf.size
    → s.conn.req_buf.size < size_mod
    → IsConsumed s (request_consume s)
unfolding request_consume memcpy
request_consume-IsConsumed s pos le word =
    let e = lt→ltb 0 s.conn.next_req_offset pos in
    let z : (s.conn.req_buf.size + size_mod - s.conn.next_req_offset) % size_mod
        ≡ s.conn.req_buf.size - s.conn.next_req_offset =
      omega (arith, le, word) in
    rw (e, z)
      (record {
        kept = λ i h.
            memcpy-at s.memory s.conn.req_buf.buffer
              (s.conn.req_buf.buffer + s.conn.next_req_offset)
              (s.conn.req_buf.size - s.conn.next_req_offset) i h;
        size = refl;
        same = (refl, refl);
        offset = refl;
      })

-- What a connection is like that reads the next request on.
pub record IsFresh (s : System) : Type 0 where
  pub requests : s.conn.requests < http_max_requests
  pub response : s.conn.resp_buf.size ≡ 0
  pub cursor : s.conn.st_send_sent ≡ 0
  pub body : (s.conn.body_start ≡ 0) × (s.conn.body_len ≡ 0)
  pub coding : s.conn.body_coding ≡ te_none
  pub parsed : s.conn.req_parsed ≡ request_zero
  pub keep_alive : s.conn.keep_alive ≡ false
  pub arena : s.conn.arena.used ≡ s.conn.req_mark

-- What the reset leaves of a connection.
connection_reset-kept :
    (t s' : System)
    → connection_reset t ≡ some s'
    → t.conn.requests < http_max_requests
    → IsFresh s' × (s'.conn.requests ≡ t.conn.requests) × (s'.conn.req_buf ≡ t.conn.req_buf)
unfolding connection_reset arena_reset_to
connection_reset-kept t s' h l =
    let (arena, f, g) = bind-some (arena_reset_to t.conn.arena t.conn.req_mark) _ s' h in
    let (p, f') = assert_some (leb t.conn.req_mark t.conn.arena.used) _ arena f in
    let (q, f'') =
      assert_some (leb t.conn.req_mark t.conn.arena.cap)
        (some (record t.conn.arena { used = t.conn.req_mark })) arena f' in
    let used : arena.used ≡ t.conn.req_mark = ap (λ a. a.used) (sym (some_inj.0 f'')) in
    subst (λ x. IsFresh x × (x.conn.requests ≡ t.conn.requests) × (x.conn.req_buf ≡ t.conn.req_buf))
      (some_inj.0 g)
      (
        record {
          requests = l;
          response = refl;
          cursor = refl;
          body = (refl, refl);
          coding = refl;
          parsed = refl;
          keep_alive = refl;
          arena = used;
        },
        refl,
        refl,
      )

-- When `response_end` returns, the connection either is closed, or it was to be kept alive, has served
-- fewer than `http_max_requests` requests and reads the next one. Then no request is parsed, with no
-- header stored, the response buffer is empty, its cursor, `body_start` and `body_len` are 0, there is
-- no body coding, `keep_alive` is off, and the arena is rewound to the mark. In both cases the request
-- is counted and the request buffer keeps its place and size.
pub response_end-IsFresh :
    (s : System) (phase : ConnPhase) (s' : System)
    → response_end s ≡ some (phase, s')
    → ((phase ≡ conn_closed)
        ⊎ ((phase ≡ conn_reading_request) × (s.conn.keep_alive ≡ true) × IsFresh s'))
      × (s'.conn.requests ≡ s.conn.requests + 1)
      × (s'.conn.req_buf ≡ s.conn.req_buf)
unfolding response_end
response_end-IsFresh s phase s' h =
    let c = record s.conn { requests = s.conn.requests + 1 } in
    elim (Bool-cases (not c.keep_alive || leb http_max_requests c.requests)) [
      | inl e ↦
          let q : (conn_closed, set_conn s c) ≡ (phase, s') = some_inj.0 (rw (e) at h) in
          subst
            (λ t.
              ((t.0 ≡ conn_closed)
                ⊎ ((t.0 ≡ conn_reading_request) × (s.conn.keep_alive ≡ true) × IsFresh t.1))
              × (t.1.conn.requests ≡ s.conn.requests + 1)
              × (t.1.conn.req_buf ≡ s.conn.req_buf))
            q (inl refl, refl, refl)
      | inr e ↦
          let few : s.conn.requests + 1 < http_max_requests = ground (arith, e) in
          let live : s.conn.keep_alive ≡ true = ground (arith, e) in
          let (t, f', g) =
            bind-some (connection_reset (set_conn s c)) _ (phase, s') (rw (e) at h) in
          let q : (conn_reading_request, t) ≡ (phase, s') = some_inj.0 g in
          let (fresh, k, b) = connection_reset-kept (set_conn s c) t f' few in
          subst
            (λ t.
              ((t.0 ≡ conn_closed)
                ⊎ ((t.0 ≡ conn_reading_request) × (s.conn.keep_alive ≡ true) × IsFresh t.1))
              × (t.1.conn.requests ≡ s.conn.requests + 1)
              × (t.1.conn.req_buf ≡ s.conn.req_buf))
            q (inr (refl, live, fresh), k, b)
    ]
