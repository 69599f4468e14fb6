-- ===== src/Body/ContentLength.antt =====
-- The reader of a body by Content-Length of src/HttpBody.c.
use http_server_from_scratch.Body.Read.{
  ReadBodyStatus, read_body_ok, read_body_peer_closed, read_body_too_large, read_body_io_error,
  read_body_bad_data, read_body_has_more, ReadBodyResult, ClRead, BodyRead, recv_bytes, cl_check,
  cl_take, leave_or, conn_recv_body_cl,
}
use http_server_from_scratch.Network.Store.{length-take-le, Outside, store-Outside}
use http_server_from_scratch.Network.{
  Recv, received, recv_closed, recv_again, recv_interrupted, recv_failed,
}
use Prim.{⊥}
use http_server_from_scratch.Prelude.{
  ℕ, ◌+◌, ◌-◌, ◌≤◌, ◌<◌, ◌≡◌, ◌⊎◌, inl, inr, refl, arith, Bool-cases, ltb, leb, none, some, List,
  [], ◌∷◌, if◌then◌else◌, ◌∙◌, subst, sym,
}

-- Behind `body_start` lie the bytes received of the body, and the buffer is within its capacity.
pub record IsClReader (body_start : ℕ) (s : ClRead) : Type 0 where
  pub body : body_start + s.received ≡ s.req.size
  pub input : s.req.size ≤ s.req.cap

-- What the status says: the whole body is in the buffer, and the next request starts behind it, where
-- 0 stands for "nothing behind it"; or the body is not complete.
abbrev pub ClEnd : ℕ → ℕ → ReadBodyStatus → ℕ → ClRead → Type 0
ClEnd body_start body_len read_body_ok offset s =
    ((body_start + body_len ≡ s.req.size) × (offset ≡ 0))
    ⊎ ((body_start + body_len < s.req.size) × (offset ≡ body_start + body_len))
ClEnd body_start body_len read_body_too_large offset s =
    (body_start + s.received ≡ s.req.cap) × (s.received < body_len)
ClEnd body_start body_len read_body_bad_data offset s = ⊥
ClEnd body_start body_len _ offset s = (s.received < body_len) × (s.req.size < s.req.cap)

pub record ClOutcome (body_start body_len : ℕ) (s : ClRead) (r : BodyRead ClRead) : Type 0 where
  pub reader : IsClReader body_start r.state
  pub end : ClEnd body_start body_len r.result.status r.result.next_req_offset r.state
  pub kept : Outside s.req s.memory r.state.memory
  pub same : (r.state.req.buffer ≡ s.req.buffer) × (r.state.req.cap ≡ s.req.cap)

abbrev LeaveOk : ℕ → ℕ → ClRead → Type 0
LeaveOk body_start body_len s =
    (r : ReadBodyResult) × (cl_check body_start body_len s ≡ some r)
    × ClEnd body_start body_len r.status r.next_req_offset s

check_cases :
    (body_start body_len : ℕ) (s : ClRead)
    → IsClReader body_start s
    → LeaveOk body_start body_len s
      ⊎ ((cl_check body_start body_len s ≡ none)
          × (s.received < body_len)
          × (s.req.size < s.req.cap))
check_cases body_start body_len s w = elim (Bool-cases (leb body_len s.received)) [
  | inl e ↦ inl (
    record {
      status = read_body_ok;
      next_req_offset = if ltb body_len s.received then body_start + body_len else 0;
    },
    rw (e) refl,
    elim (Bool-cases (ltb body_len s.received)) [
      | inl f ↦ inr (ground (arith, w.body), rw (f) refl)
      | inr f ↦ inl (ground (arith, w.body), rw (f) refl)
    ],
  )
  | inr e ↦ elim (Bool-cases (leb s.req.cap s.req.size)) [
    | inl f ↦ inl (
      record { status = read_body_too_large; next_req_offset = 0 },
      rw (e, f) refl,
      (ground (arith, w.body, w.input), ground arith),
    )
    | inr f ↦ inr (rw (e, f) refl, ground arith, ground arith)
  ]
]

take-IsClReader :
    (body_start : ℕ) (s : ClRead) (b : ℕ) (bs : List ℕ)
    → IsClReader body_start s
    → IsClReader body_start (cl_take s (recv_bytes s.req b bs))
take-IsClReader body_start s b bs w =
    let l = length-take-le (s.req.cap - s.req.size) (b ∷ bs) in
    record { body = omega (arith, w.body); input = omega (arith, l, w.input) }

-- The loop left before a call of recv, or after one that ended it.
left_at :
    (body_start body_len : ℕ) (s : ClRead) (left : List Recv) (r : ReadBodyResult)
    → IsClReader body_start s
    → ClEnd body_start body_len r.status r.next_req_offset s
    → ClOutcome body_start body_len s (record { result = r; state = s; left = left })
left_at body_start body_len s left r w e = record {
  reader = w;
  end = e;
  kept = λ q h. refl;
  same = (refl, refl);
}

-- What the calls after some bytes did, seen from before them.
taken :
    (body_start body_len : ℕ) (s : ClRead) (b : ℕ) (bs : List ℕ) (r : BodyRead ClRead)
    → IsClReader body_start s
    → ClOutcome body_start body_len (cl_take s (recv_bytes s.req b bs)) r
    → ClOutcome body_start body_len s r
taken body_start body_len s b bs r w t =
    let l = length-take-le (s.req.cap - s.req.size) (b ∷ bs) in
    record {
      reader = t.reader;
      end = t.end;
      same = t.same;
      kept = λ q h.
          t.kept q (elim h [ inl a ↦ inl (omega arith) | inr a ↦ inr a ])
          ∙ store-Outside s.memory s.req (recv_bytes s.req b bs) l w.input q h;
    }

entered :
    (body_start body_len : ℕ) (s : ClRead) (left : List Recv) (next : BodyRead ClRead)
    → IsClReader body_start s
    → ((s.received < body_len) × (s.req.size < s.req.cap) → ClOutcome body_start body_len s next)
    → ClOutcome body_start body_len s (leave_or (cl_check body_start body_len s) s left next)
unfolding leave_or
entered body_start body_len s left next w k = elim (check_cases body_start body_len s w) [
  | inl (r, c, e) ↦
      subst (λ x. ClOutcome body_start body_len s (leave_or x s left next)) (sym c)
        (left_at body_start body_len s left r w e)
  | inr (c, e, f) ↦
      subst (λ x. ClOutcome body_start body_len s (leave_or x s left next)) (sym c) (k (e, f))
]

-- From a state in which the bytes received lie behind `body_start` in a buffer within its capacity,
-- whatever recv does, `conn_recv_body_cl` leaves such a state, the same buffer and all bytes of memory
-- outside its free part. With READ_BODY_OK all `body_len` bytes are in the buffer, and the offset of
-- the next request is the end of the body if bytes lie behind it, or else 0. READ_BODY_TOO_LARGE says
-- that the buffer is full and the body not complete; READ_BODY_BAD_DATA never comes; every other
-- status says that the body is not complete and the buffer not full.
pub conn_recv_body_cl-ClOutcome :
    (body_start body_len : ℕ) (s : ClRead) (recvs : List Recv)
    → IsClReader body_start s
    → ClOutcome body_start body_len s (conn_recv_body_cl body_start body_len s recvs)
unfolding conn_recv_body_cl
conn_recv_body_cl-ClOutcome body_start body_len s [] w = entered body_start body_len s [] _ w (λ e.
    left_at body_start body_len s _ (record { status = read_body_has_more; next_req_offset = 0 }) w
      e)
conn_recv_body_cl-ClOutcome body_start body_len s (recv_closed ∷ left) w =
    entered body_start body_len s _ _ w (λ e.
      left_at body_start body_len s _
        (record { status = read_body_peer_closed; next_req_offset = 0 }) w e)
conn_recv_body_cl-ClOutcome body_start body_len s (recv_again ∷ left) w =
    entered body_start body_len s _ _ w (λ e.
      left_at body_start body_len s _ (record { status = read_body_has_more; next_req_offset = 0 })
        w e)
conn_recv_body_cl-ClOutcome body_start body_len s (recv_interrupted ∷ left) w =
    entered body_start body_len s _ _ w
      (λ e. conn_recv_body_cl-ClOutcome body_start body_len s left w)
conn_recv_body_cl-ClOutcome body_start body_len s (recv_failed ∷ left) w =
    entered body_start body_len s _ _ w (λ e.
      left_at body_start body_len s _ (record { status = read_body_io_error; next_req_offset = 0 })
        w e)
conn_recv_body_cl-ClOutcome body_start body_len s (received b bs ∷ left) w =
    entered body_start body_len s _ _ w (λ e. taken body_start body_len s b bs _ w (
      conn_recv_body_cl-ClOutcome body_start body_len (cl_take s (recv_bytes s.req b bs)) left
        (take-IsClReader body_start s b bs w)))
