-- ===== src/HttpServer/Loop.antt =====
-- The event loop of src/HttpServer.c over the clients.
use http_server_from_scratch.Config.{http_max_requests}
use http_server_from_scratch.Connection.Machine.{connection_step_process}
use http_server_from_scratch.Connection.Safety.Run.{connection_step_process-IsWoken}
use http_server_from_scratch.Connection.Safety.{IsSafe, InPhase, Waits, IsEnv}
use http_server_from_scratch.Connection.{
  ConnPhase, conn_reading_request, conn_reading_body_cl, conn_reading_body_chunked,
  conn_sending_100, conn_building, conn_sending_response, conn_sending_response_stream, conn_closed,
  System, Env,
}
use http_server_from_scratch.Dictionary.{dict_init}
use http_server_from_scratch.HttpServer.{
  conn_phase_event, Wake, Shared, is_due, wake_system, is_closed, client_after, client_serve,
}
use http_server_from_scratch.Networking.Slots.{IsReady, Taken, IsSlot}
use http_server_from_scratch.Networking.{Events, Slot, connection_close, client_set_delete, at_rest}
use http_server_from_scratch.Prelude.{
  ℕ, ◌+◌, ◌*◌, ◌≤◌, ◌<◌, ◌≡◌, arith, ◌⊎◌, inl, inr, refl, sym, ap, subst, ◌∙◌, Bool, true, false,
  not, if_cases, if◌then◌else◌, Option, none, some, ◌>>=◌,
}
use http_server_from_scratch.Router.Safety.{IsRegistry, dict_init-IsRegistry}
use Prim.{tt, absurd}

-- What holds in a phase does not depend on memory, on the calls to come, nor on which well-formed
-- registry there is.
moved-IsSafe :
    (p : ConnPhase) (s t : System)
    → IsSafe p s
    → IsRegistry t.registry
    → 0 < t.fd
    → IsSafe p (record t { conn = s.conn })
moved-IsSafe p s t v g socket = record {
  sound = record {
    place = v.sound.place;
    input = v.sound.input;
    word = v.sound.word;
    output = v.sound.output;
    headers = v.sound.headers;
    mark = v.sound.mark;
    arena = v.sound.arena;
    registry = g;
    socket = socket;
    response = v.sound.response;
    decoded = v.sound.decoded;
  };
  in_phase = moved_phase p v.in_phase;
}
  where
    moved_phase : (p : ConnPhase) → InPhase p s → InPhase p (record t { conn = s.conn })
    moved_phase conn_reading_request h = tt
    moved_phase conn_reading_body_cl h = record { body = h.body; input = h.input }
    moved_phase conn_reading_body_chunked h = record {
      decoder = h.decoder;
      cursor = h.cursor;
      input = h.input;
      output = h.output;
      places = h.places;
    }
    moved_phase conn_sending_100 h = h
    moved_phase conn_building h = h
    moved_phase conn_sending_response h = h
    moved_phase conn_sending_response_stream h = h
    moved_phase conn_closed h = tt

-- A client that stops the server: its socket is due, and at the end of its wake-up it still has to
-- send a part of `100 Continue`, for which `conn_phase_event` has no events.
pub record ClientStops (n : ℕ) (env : Env) (slot : Slot) (shared : Shared) (wake : Wake)
    : Type 0 where
  pub fd : ℕ
  pub taken : slot.poll_fd.fd ≡ some fd
  pub due : is_due slot.poll_fd.revents ≡ true
  pub system : System
  pub returned : connection_step_process n env (wake_system fd shared slot.conn wake) ≡ some system
  pub unsent : system.conn.phase ≡ conn_sending_100

-- A client that was served, or that stops the server.
abbrev pub Serves : ℕ → Env → Slot → Shared → Wake → Option (Slot × Shared) → Type 0
Serves n env slot shared wake o =
    ((r : Slot × Shared) × (o ≡ some r) × IsSlot r.0 × IsRegistry r.1.registry)
    ⊎ ((o ≡ none) × ClientStops n env slot shared wake)

event_cases :
    (p : ConnPhase)
    → Waits p
    → ((e : Events) × (conn_phase_event p ≡ some e)) ⊎ (p ≡ conn_sending_100)
unfolding conn_phase_event
event_cases conn_building h = absurd h
event_cases conn_sending_100 h = inr refl
event_cases conn_reading_request h = inl (_, refl)
event_cases conn_reading_body_cl h = inl (_, refl)
event_cases conn_reading_body_chunked h = inl (_, refl)
event_cases conn_sending_response h = inl (_, refl)
event_cases conn_sending_response_stream h = inl (_, refl)
event_cases conn_closed h = inl (_, refl)

sending_100_event : conn_phase_event conn_sending_100 ≡ none
unfolding conn_phase_event
sending_100_event = refl

closed-IsSlot :
    (slot : Slot) (fd : ℕ) (b : Bool)
    → slot.poll_fd.fd ≡ some fd
    → 0 < fd
    → IsReady slot.conn
    → IsSlot (if b then (connection_close slot).0 else slot)
unfolding connection_close client_set_delete
closed-IsSlot slot fd true e socket h = tt
closed-IsSlot slot fd false e socket h = subst (λ o. Taken o slot.conn) (sym e) (socket, h)

client_after-Serves :
    (n : ℕ) (env : Env) (slot : Slot) (shared : Shared) (wake : Wake) (fd : ℕ) (s : System)
    → slot.poll_fd.fd ≡ some fd
    → 0 < fd
    → is_due slot.poll_fd.revents ≡ true
    → IsSafe s.conn.phase s
    → Waits s.conn.phase
    → connection_step_process n env (wake_system fd shared slot.conn wake) ≡ some s
    → Serves n env slot shared wake (client_after slot shared fd s)
unfolding client_after
client_after-Serves n env slot shared wake fd s e socket due v w f =
    elim (event_cases s.conn.phase w) [
      | inl (events, g) ↦
          let slot' : Slot = record {
            poll_fd = record slot.poll_fd { events = events };
            conn = s.conn;
          } in
          let ready : IsReady s.conn =
            moved-IsSafe s.conn.phase s (at_rest (λ a. 0) dict_init s.conn) v dict_init-IsRegistry
              (omega arith) in
          rw g (
            inl (
              _,
              refl,
              closed-IsSlot slot' fd (is_closed s.conn.phase) e socket ready,
              v.sound.registry,
            ))
      | inr g ↦
          let stop : conn_phase_event s.conn.phase ≡ none =
            ap conn_phase_event g ∙ sending_100_event in
          rw stop (
            inr (
              refl,
              record { fd = fd; taken = e; due = due; system = s; returned = f; unsent = g },
            ))
    ]

due-Serves :
    (n : ℕ) (env : Env) (slot : Slot) (shared : Shared) (wake : Wake) (fd : ℕ)
    → slot.poll_fd.fd ≡ some fd
    → Taken (some fd) slot.conn
    → IsEnv env
    → IsRegistry shared.registry
    → 6 * http_max_requests + 6 ≤ n
    → Serves n env slot shared wake (
        if not (is_due slot.poll_fd.revents)
        then some (slot, shared)
        else (connection_step_process n env (wake_system fd shared slot.conn wake)
            >>= (λ s. client_after slot shared fd s)))
due-Serves n env slot shared wake fd e (socket, v) d g h =
    if_cases (Serves n env slot shared wake) (not (is_due slot.poll_fd.revents))
      (λ f. inl ((slot, shared), refl, subst (λ o. Taken o slot.conn) (sym e) (socket, v), g))
      (λ f.
        let s = wake_system fd shared slot.conn wake in
        let safe : IsSafe slot.conn.phase s =
          moved-IsSafe slot.conn.phase (at_rest (λ a. 0) dict_init slot.conn) s v g socket in
        let woken = connection_step_process-IsWoken env s n d safe h in
        subst (λ o. Serves n env slot shared wake (o >>= (λ s. client_after slot shared fd s)))
          (sym woken.returned)
          (client_after-Serves n env slot shared wake fd woken.system e socket (ground (arith, f))
            woken.safe woken.rests woken.returned))

fd-Serves :
    (n : ℕ) (env : Env) (slot : Slot) (shared : Shared) (wake : Wake) (o : Option ℕ)
    → slot.poll_fd.fd ≡ o
    → Taken o slot.conn
    → IsEnv env
    → IsRegistry shared.registry
    → 6 * http_max_requests + 6 ≤ n
    → Serves n env slot shared wake (elim o [
      | none ↦ some (slot, shared)
      | some fd ↦
          if not (is_due slot.poll_fd.revents)
          then some (slot, shared)
          else (connection_step_process n env (wake_system fd shared slot.conn wake)
              >>= (λ s. client_after slot shared fd s))
    ])
fd-Serves n env slot shared wake none e v d g h =
    inl ((slot, shared), refl, subst (λ o. Taken o slot.conn) (sym e) tt, g)
fd-Serves n env slot shared wake (some fd) e v d g h =
    due-Serves n env slot shared wake fd e v d g h

-- Serving a client keeps its slot and the registry as they have to be, whatever recv, send and the
-- files do. The one assertion that fails is that of `conn_phase_event`, when this very connection
-- still has to send a part of `100 Continue` at the end of its wake-up.
pub client_serve-Serves :
    (n : ℕ) (env : Env) (slot : Slot) (shared : Shared) (wake : Wake)
    → IsSlot slot
    → IsEnv env
    → IsRegistry shared.registry
    → 6 * http_max_requests + 6 ≤ n
    → Serves n env slot shared wake (client_serve n env slot shared wake)
unfolding client_serve
client_serve-Serves n env slot shared wake v d g h =
    fd-Serves n env slot shared wake slot.poll_fd.fd refl v d g h
