-- ===== src/Connection/Receive.antt =====
-- `conn_recv_header` of src/Connection.c.
use http_server_from_scratch.Network.Store.{length-take-le, Outside, store-Outside}
use http_server_from_scratch.Connection.Header.{
  ReadHeaderStatus, read_header_ok, read_header_too_large, HeaderRecv, find_terminator,
  header_check, header_leave, header_or, conn_recv_header,
}
use http_server_from_scratch.Memory.{Memory, null, advance, mem_eq}
use http_server_from_scratch.Network.{
  HttpBuffer, Recv, received, recv_closed, recv_again, recv_interrupted, recv_failed, store, take,
}
use http_server_from_scratch.Parser.Search.{FirstAt, Absent, advance_search}
use http_server_from_scratch.Prelude.{
  ℕ, ◌+◌, ◌-◌, ◌≤◌, ◌<◌, ◌≡◌, ◌⊎◌, inl, inr, refl, sym, subst, ◌∙◌, arith, Bool-cases, Bool, false,
  not, List, [], ◌∷◌, length, codes, none, some, ltb, leb, ◌==◌,
}

-- `\r\n\r\n` stands at an address.
abbrev pub ends_head : Memory → ℕ → Bool
ends_head m q = mem_eq m q (codes "\r\n\r\n")

-- What the status says of the bytes in the buffer.
abbrev pub HeaderEnd : Memory → HttpBuffer → ReadHeaderStatus → ℕ → Type 0
HeaderEnd m req read_header_ok body_start =
    (4 ≤ body_start)
    × (body_start ≤ req.size)
    × FirstAt (ends_head m) req.buffer (req.buffer + (body_start - 4))
HeaderEnd m req read_header_too_large body_start =
    (req.size ≡ req.cap) × Absent (ends_head m) req.buffer (req.buffer + (req.size - 3))
HeaderEnd m req _ body_start =
    (req.size < req.cap) × Absent (ends_head m) req.buffer (req.buffer + (req.size - 3))

pub record HeaderOutcome (m : Memory) (req : HttpBuffer) (r : HeaderRecv) : Type 0 where
  pub end : HeaderEnd r.memory r.req r.status r.body_start
  pub kept : Outside req m r.memory
  pub size : (req.size ≤ r.req.size) × (r.req.size ≤ r.req.cap)
  pub same : (r.req.buffer ≡ req.buffer) × (r.req.cap ≡ req.cap)

find_cases :
    (m : Memory) (p n : ℕ)
    → 0 < p
    → ((find_terminator m p n ≡ null) × Absent (ends_head m) p (p + (n - 3)))
      ⊎ ((p ≤ find_terminator m p n)
          × (find_terminator m p n + 4 ≤ p + n)
          × FirstAt (ends_head m) p (find_terminator m p n))
unfolding find_terminator
find_cases m p n pos =
    let e : p + (n - 3) - p ≡ n - 3 = omega arith in
    let r = advance (λ q. not (ends_head m q)) (n - 3) p in
    let (hit, miss, lo) = advance_search (ends_head m) p (p + (n - 3)) {r = r} (rw (e) refl) in
    elim (Bool-cases (ltb r (p + (n - 3)))) [
      | inl f ↦ rw (f) (inr (lo, ground (arith, f), hit (ground (arith, f))))
      | inr f ↦ rw (f) (inl (refl, miss (ground (arith, f))))
    ]

check_cases :
    (m : Memory) (req : HttpBuffer)
    → 0 < req.buffer
    → req.size ≤ req.cap
    → ((r : ReadHeaderStatus × ℕ) × (header_check m req ≡ some r) × HeaderEnd m req r.0 r.1)
      ⊎ ((header_check m req ≡ none)
          × (req.size < req.cap)
          × Absent (ends_head m) req.buffer (req.buffer + (req.size - 3)))
unfolding header_check
check_cases m req pos le = elim (find_cases m req.buffer req.size pos) [
  | inl (e, a) ↦ elim (Bool-cases (leb req.cap req.size)) [
    | inl f ↦ inl ((read_header_too_large, 0), rw (e, f) refl, (ground (arith, f, le), a))
    | inr f ↦ inr (rw (e, f) refl, ground (arith, f), a)
  ]
  | inr (lo, hi, f) ↦
      let t = find_terminator m req.buffer req.size in
      let z : (t == null) ≡ false = ground (arith, lo, pos) in
      let q : req.buffer + (t - req.buffer + 4 - 4) ≡ t = omega (arith, lo) in
      inl (
        (read_header_ok, t - req.buffer + 4),
        rw (z) refl,
        (omega (arith, lo), omega (arith, lo, hi), rw (q) f),
      )
]

left_at :
    (m : Memory) (req : HttpBuffer) (left : List Recv) (r : ReadHeaderStatus × ℕ)
    → req.size ≤ req.cap
    → HeaderEnd m req r.0 r.1
    → HeaderOutcome m req (header_leave m req left r)
left_at m req left r le e = record {
  end = e;
  kept = λ q h. refl;
  size = (omega arith, le);
  same = (refl, refl);
}

entered :
    (m : Memory) (req : HttpBuffer) (left : List Recv) (next : HeaderRecv)
    → 0 < req.buffer
    → req.size ≤ req.cap
    → ((req.size < req.cap) × Absent (ends_head m) req.buffer (req.buffer + (req.size - 3))
        → HeaderOutcome m req next)
    → HeaderOutcome m req (header_or (header_check m req) m req left next)
unfolding header_or
entered m req left next pos le k = elim (check_cases m req pos le) [
  | inl (r, c, e) ↦
      subst (λ x. HeaderOutcome m req (header_or x m req left next)) (sym c)
        (left_at m req left r le e)
  | inr (c, e, f) ↦
      subst (λ x. HeaderOutcome m req (header_or x m req left next)) (sym c) (k (e, f))
]

taken :
    (m : Memory) (req : HttpBuffer) (bytes : List ℕ) (r : HeaderRecv)
    → length bytes ≤ req.cap - req.size
    → req.size ≤ req.cap
    → HeaderOutcome
        (store m (req.buffer + req.size) bytes)
        (record req { size = req.size + length bytes })
        r
    → HeaderOutcome m req r
taken m req bytes r l le t = record {
  end = t.end;
  same = t.same;
  size = (omega (arith, t.size), t.size.1);
  kept = λ q h.
      t.kept q (elim h [ inl a ↦ inl (omega arith) | inr a ↦ inr a ])
      ∙ store-Outside m req bytes l le q h;
}

-- From a buffer that is not at NULL and within its capacity, whatever recv does, `conn_recv_header`
-- leaves the buffer in place and within its capacity, and all bytes of memory outside its free part.
-- READ_HEADER_OK says that the first `\r\n\r\n` of the bytes received ends at `body_start`;
-- READ_HEADER_TOO_LARGE that there is none and the buffer is full; every other status that there is
-- none and the buffer is not full.
pub conn_recv_header-HeaderOutcome :
    (m : Memory) (req : HttpBuffer) (recvs : List Recv)
    → 0 < req.buffer
    → req.size ≤ req.cap
    → HeaderOutcome m req (conn_recv_header m req recvs)
unfolding conn_recv_header
conn_recv_header-HeaderOutcome m req [] pos le =
    entered m req _ _ pos le (λ e. left_at m req _ _ le e)
conn_recv_header-HeaderOutcome m req (recv_closed ∷ left) pos le =
    entered m req _ _ pos le (λ e. left_at m req _ _ le e)
conn_recv_header-HeaderOutcome m req (recv_again ∷ left) pos le =
    entered m req _ _ pos le (λ e. left_at m req _ _ le e)
conn_recv_header-HeaderOutcome m req (recv_failed ∷ left) pos le =
    entered m req _ _ pos le (λ e. left_at m req _ _ le e)
conn_recv_header-HeaderOutcome m req (recv_interrupted ∷ left) pos le =
    entered m req _ _ pos le (λ e. conn_recv_header-HeaderOutcome m req left pos le)
conn_recv_header-HeaderOutcome m req (received b bs ∷ left) pos le =
    let bytes = take (req.cap - req.size) (b ∷ bs) in
    let l = length-take-le (req.cap - req.size) (b ∷ bs) in
    entered m req _ _ pos le (λ e. taken m req bytes _ l le (
      conn_recv_header-HeaderOutcome (store m (req.buffer + req.size) bytes)
        (record req { size = req.size + length bytes }) left pos (omega (arith, l, le))))
