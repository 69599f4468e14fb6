-- ===== src/Connection/Safety/Run.antt =====
-- `connection_step_process` of src/Connection.c: a wake-up of a connection ends.
use http_server_from_scratch.Config.{http_max_requests}
use http_server_from_scratch.Connection.Machine.{
  phase_number, phase_step, connection_step, settled, connection_step_process,
}
use http_server_from_scratch.Connection.Safety.Building.{step_response_build-Steps}
use http_server_from_scratch.Connection.Safety.Pulling.{step_response_send_stream-Steps}
use http_server_from_scratch.Connection.Safety.Bodies.{
  step_body_cl_read-Steps, step_body_chunked_read-Steps,
}
use http_server_from_scratch.Connection.Safety.Reading.{step_header_read-Steps}
use http_server_from_scratch.Connection.Safety.Sending.{
  step_send_100-Steps, step_response_send-Steps,
}
use http_server_from_scratch.Connection.Safety.{
  IsSafe, InStream, rank, Waits, Advances, Steps, IsEnv,
}
use http_server_from_scratch.Connection.{
  ConnPhase, conn_reading_request, conn_reading_body_cl, conn_reading_body_chunked,
  conn_sending_100, conn_building, conn_sending_response, conn_sending_response_stream, conn_closed,
  StreamPhase, stream_header, stream_pull, stream_drain, stream_trailer, stream_done, Connection,
  System, Env, StepResult, set_conn,
}
use http_server_from_scratch.Prelude.{
  ℕ, zero, suc, ◌+◌, ◌-◌, ◌*◌, ◌≤◌, ◌<◌, ◌≡◌, inl, inr, refl, sym, ap, subst, ◌∙◌, arith, true,
  false, Bool-cases, if◌then◌else◌, ltb, ==_iff, ◌==◌, Option, none, some, ◌>>=◌,
}
use Prim.{tt, absurd, ⊥}

pub phase_step-Steps :
    (env : Env) (s : System) (phase : ConnPhase)
    → IsEnv env
    → IsSafe phase s
    → Steps phase s.conn.requests (phase_step env s phase)
unfolding phase_step
phase_step-Steps env s conn_reading_request d v = step_header_read-Steps env s d.0 v
phase_step-Steps env s conn_reading_body_cl d v = step_body_cl_read-Steps env s d.0 v
phase_step-Steps env s conn_reading_body_chunked d v = step_body_chunked_read-Steps env s d.0 v
phase_step-Steps env s conn_sending_100 d v = step_send_100-Steps s v
phase_step-Steps env s conn_building d v = step_response_build-Steps env s d v
phase_step-Steps env s conn_sending_response d v = step_response_send-Steps s v
phase_step-Steps env s conn_sending_response_stream d v = step_response_send_stream-Steps s v
phase_step-Steps env s conn_closed d v = (v, inl (refl, tt))

-- The rounds that can follow one that ends in a phase, with so many requests served.
abbrev pub steps_left : ConnPhase → ℕ → ℕ
steps_left phase requests = 6 * (http_max_requests - requests) + (5 - rank phase)

rank-le : (phase : ConnPhase) → rank phase ≤ 5
rank-le conn_reading_request = omega arith
rank-le conn_reading_body_cl = omega arith
rank-le conn_reading_body_chunked = omega arith
rank-le conn_sending_100 = omega arith
rank-le conn_building = omega arith
rank-le conn_sending_response = omega arith
rank-le conn_sending_response_stream = omega arith
rank-le conn_closed = omega arith

-- A wake-up that ends, in a connection in which the conditions of its phase hold.
pub record IsWoken (o : Option System) : Type 0 where
  pub system : System
  pub returned : o ≡ some system
  pub safe : IsSafe system.conn.phase system
  pub rests : Waits system.conn.phase

unsettled-left :
    (p q : ConnPhase) (n k : ℕ)
    → settled p q ≡ false
    → Advances p n q k
    → steps_left q k < steps_left p n
unsettled-left p q n k e (inl (f, w)) =
    let g : phase_number q ≡ phase_number p = ap phase_number f in ground (arith, e, g)
unsettled-left p q n k e (inr (inl f)) =
    let g : phase_number q ≡ 7 = ap phase_number f in ground (arith, e, g)
unsettled-left p q n k e (inr (inr (inl (f, l)))) = let r = rank-le q in omega (arith, f, l, r)
unsettled-left p q n k e (inr (inr (inr (g, f, l)))) = let r = rank-le p in omega (arith, f, l, r)

-- The rank by the value of the enumerator.
abbrev numbered : ℕ → ℕ
numbered n =
    if n == 0
    then 0
    else if n == 3
    then 1
    else if n == 4
    then 3
    else if n == 7
    then 5
    else if ltb n 3
    then 2
    else 4

rank-numbered : (p : ConnPhase) → rank p ≡ numbered (phase_number p)
rank-numbered conn_reading_request = refl
rank-numbered conn_reading_body_cl = refl
rank-numbered conn_reading_body_chunked = refl
rank-numbered conn_sending_100 = refl
rank-numbered conn_building = refl
rank-numbered conn_sending_response = refl
rank-numbered conn_sending_response_stream = refl
rank-numbered conn_closed = refl

last-Waits : (q : ConnPhase) → phase_number q ≡ 7 → Waits q
last-Waits conn_building h = ground arith
last-Waits conn_reading_request h = tt
last-Waits conn_reading_body_cl h = tt
last-Waits conn_reading_body_chunked h = tt
last-Waits conn_sending_100 h = tt
last-Waits conn_sending_response h = tt
last-Waits conn_sending_response_stream h = tt
last-Waits conn_closed h = tt

irreflexive : (n : ℕ) → n < n → ⊥
irreflexive n h = omega (arith, h)

settled-Waits : (p q : ConnPhase) (n k : ℕ) → settled p q ≡ true → Advances p n q k → Waits q
settled-Waits p q n k e (inl (f, w)) = subst Waits (sym f) w
settled-Waits p q n k e (inr (inl f)) = subst Waits (sym f) tt
settled-Waits p q n k e (inr (inr (inr (f, l, l')))) = subst Waits (sym f) tt
settled-Waits p q n k e (inr (inr (inl (f, l)))) = elim (Bool-cases (phase_number q == 7)) [
  | inl g ↦ last-Waits q ((==_iff _ 7).0 g)
  | inr g ↦
      let same : phase_number q ≡ phase_number p = ground (arith, e, g) in
      let r : rank q ≡ rank p = rank-numbered q ∙ ap numbered same ∙ sym (rank-numbered p) in
      absurd (irreflexive (rank p) (omega (arith, r, l)))
]

stream-phase :
    (p : StreamPhase) (c : Connection) (q : ConnPhase)
    → InStream p c
    → InStream p (record c { phase = q })
stream-phase stream_header c q h = h
stream-phase stream_pull c q h = h
stream-phase stream_drain c q h = h
stream-phase stream_trailer c q h = h
stream-phase stream_done c q h = h

-- Storing the phase changes nothing that a phase relies on.
phase-IsSafe :
    (t : System) (q : ConnPhase) → IsSafe q t → IsSafe q (set_conn t (record t.conn { phase = q }))
phase-IsSafe t conn_reading_request u = record { sound = u.sound; in_phase = u.in_phase }
phase-IsSafe t conn_reading_body_cl u = record { sound = u.sound; in_phase = u.in_phase }
phase-IsSafe t conn_reading_body_chunked u = record { sound = u.sound; in_phase = u.in_phase }
phase-IsSafe t conn_sending_100 u = record { sound = u.sound; in_phase = u.in_phase }
phase-IsSafe t conn_building u = record { sound = u.sound; in_phase = u.in_phase }
phase-IsSafe t conn_sending_response u = record { sound = u.sound; in_phase = u.in_phase }
phase-IsSafe t conn_sending_response_stream u = record {
  sound = u.sound;
  in_phase = stream-phase t.conn.st_stream_phase t.conn conn_sending_response_stream u.in_phase;
}
phase-IsSafe t conn_closed u = record { sound = u.sound; in_phase = u.in_phase }

round-IsWoken :
    (n : ℕ) (env : Env) (p : ConnPhase) (before : ℕ) (o : StepResult)
    → Steps p before o
    → steps_left p before < suc n
    → ((t : System)
        → IsSafe t.conn.phase t
        → steps_left t.conn.phase t.conn.requests < n
        → IsWoken (connection_step_process n env t))
    → IsWoken (elim (o >>= (λ r. some (set_conn r.1 (record r.1.conn { phase = r.0 })))) [
      | none ↦ none
      | some s' ↦ elim (settled p s'.conn.phase) [
        | true ↦ some s'
        | false ↦ connection_step_process n env s'
      ]
    ])
round-IsWoken n env p before none v h k = absurd v
round-IsWoken n env p before (some (q, t)) v h k =
    let t' = set_conn t (record t.conn { phase = q }) in
    let safe : IsSafe q t' = phase-IsSafe t q v.0 in
    elim (Bool-cases (settled p q)) [
      | inl e ↦ rw e (record {
        system = t';
        returned = refl;
        safe = safe;
        rests = settled-Waits p q before t.conn.requests e v.1;
      })
      | inr e ↦
          let l = unsettled-left p q before t.conn.requests e v.1 in
          rw e (k t' safe (omega (arith, h, l)))
    ]

process-IsWoken :
    (n : ℕ) (env : Env) (s : System)
    → IsEnv env
    → IsSafe s.conn.phase s
    → steps_left s.conn.phase s.conn.requests < n
    → IsWoken (connection_step_process n env s)
unfolding connection_step_process connection_step
process-IsWoken zero env s d v h = elim h [ ]
process-IsWoken (suc n) env s d v h =
    round-IsWoken n env s.conn.phase s.conn.requests (phase_step env s s.conn.phase)
      (phase_step-Steps env s s.conn.phase d v) h (λ t u l. process-IsWoken n env t d u l)

pub connection_step_process-IsWoken :
    (env : Env) (s : System) (n : ℕ)
    → IsEnv env
    → IsSafe s.conn.phase s
    → 6 * http_max_requests + 6 ≤ n
    → IsWoken (connection_step_process n env s)
connection_step_process-IsWoken env s n d v h = process-IsWoken n env s d v (omega (arith, h))
