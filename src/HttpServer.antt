-- ===== src/HttpServer.antt =====
-- src/HttpServer.c: the event loop. What poll(2) answers is given for each round: the bits of every
-- descriptor, and for every client the calls of recv and send to come.
pub mod Loop
pub mod Goes
pub mod Rounds
pub mod Start
pub mod Port
use http_server_from_scratch.Connection.Machine.{connection_step_process}
use http_server_from_scratch.Connection.{
  ConnPhase, conn_reading_request, conn_reading_body_cl, conn_reading_body_chunked,
  conn_sending_100, conn_building, conn_sending_response, conn_sending_response_stream, conn_closed,
  Connection, System, Env,
}
use http_server_from_scratch.Memory.{Memory}
use http_server_from_scratch.Network.{Recv, Send}
use http_server_from_scratch.Networking.{
  Events, pollin, pollout, no_events, Revents, no_revents, PollFd, Slot, ClientSet,
  connection_close, client_set_add_new,
}
use http_server_from_scratch.Prelude.{
  ℕ, zero, suc, ◌+◌, Bool, true, false, not, ◌||◌, List, [], ◌∷◌, Option, none, some, ◌>>=◌,
  if◌then◌else◌,
}
use http_server_from_scratch.Router.Content.{ContentRegistry}

-- `none` is a failed assertion: the one in front, and the one of `default`.
unfoldable pub conn_phase_event : ConnPhase → Option Events
conn_phase_event conn_building = none
conn_phase_event conn_reading_request = some pollin
conn_phase_event conn_reading_body_cl = some pollin
conn_phase_event conn_reading_body_chunked = some pollin
conn_phase_event conn_sending_response = some pollout
conn_phase_event conn_sending_response_stream = some pollout
conn_phase_event conn_closed = some no_events
conn_phase_event conn_sending_100 = none

-- What a round gives a client: `revents`, and the calls of recv and send to come.
pub record Wake : Type 0 where
  pub revents : Revents
  pub recvs : List Recv
  pub sends : List Send

-- What the connections share, and what the process has done: the sockets closed, the bytes sent with
-- their descriptor, and the calls of `cleanup`.
pub record Shared : Type 0 where
  pub memory : Memory
  pub registry : ContentRegistry
  pub closed : List ℕ
  pub wires : List (ℕ × List ℕ)
  pub cleanups : ℕ

-- `poll_fd->revents & (POLLIN | POLLHUP | POLLOUT)`
abbrev pub is_due : Revents → Bool
is_due r = r.has_pollin || r.has_pollhup || r.has_pollout

abbrev pub wake_system : ℕ → Shared → Connection → Wake → System
wake_system fd shared conn wake = record {
  fd = fd;
  conn = conn;
  memory = shared.memory;
  recvs = wake.recvs;
  sends = wake.sends;
  wire = [];
  registry = shared.registry;
  cleanups = shared.cleanups;
}

abbrev pub is_closed : ConnPhase → Bool
is_closed conn_closed = true
is_closed _ = false

abbrev pub shared_after : Shared → ℕ → System → Shared
shared_after shared fd s = record {
  memory = s.memory;
  registry = s.registry;
  closed = if is_closed s.conn.phase then fd ∷ shared.closed else shared.closed;
  wires = (fd, s.wire) ∷ shared.wires;
  cleanups = s.cleanups;
}

-- What follows `connection_step_process`.
unfoldable pub client_after : Slot → Shared → ℕ → System → Option (Slot × Shared)
client_after slot shared fd s = do
  events ← conn_phase_event s.conn.phase
  let slot' : Slot = record { poll_fd = record slot.poll_fd { events = events }; conn = s.conn }
  some (
    if is_closed s.conn.phase then (connection_close slot').0 else slot',
    shared_after shared fd s,
  )

-- The body of the loop over the clients; `n` bounds the rounds of `connection_step_process`.
unfoldable pub client_serve : ℕ → Env → Slot → Shared → Wake → Option (Slot × Shared)
client_serve n env slot shared wake = elim slot.poll_fd.fd [
  | none ↦ some (slot, shared)
  | some fd ↦
      if not (is_due slot.poll_fd.revents)
      then some (slot, shared)
      else (connection_step_process n env (wake_system fd shared slot.conn wake)
          >>= (λ s. client_after slot shared fd s))
]

-- Slots behind the last wake get no call of recv or send.
abbrev pub first_wake : List Wake → Wake
first_wake [] = record { revents = no_revents; recvs = []; sends = [] }
first_wake (wake ∷ wakes) = wake

abbrev pub later_wakes : List Wake → List Wake
later_wakes [] = []
later_wakes (wake ∷ wakes) = wakes

-- The loop over the clients.
unfoldable pub clients_serve :
    ℕ → Env → List Slot → Shared → List Wake → Option (List Slot × Shared)
clients_serve n env [] shared wakes = some ([], shared)
clients_serve n env (slot ∷ slots) shared [] = do
  (slot', shared') ← client_serve n env slot shared (first_wake [])
  (slots', shared'') ← clients_serve n env slots shared' []
  some (slot' ∷ slots', shared'')
clients_serve n env (slot ∷ slots) shared (wake ∷ wakes) = do
  (slot', shared') ← client_serve n env slot shared wake
  (slots', shared'') ← clients_serve n env slots shared' wakes
  some (slot' ∷ slots', shared'')

-- `poll` fills `revents` in; it is 0 where the descriptor is negative.
abbrev pub polled : Slot → Revents → Slot
polled slot revents = record slot {
  poll_fd = record slot.poll_fd {
    revents = elim slot.poll_fd.fd [ none ↦ no_revents | some fd ↦ revents ];
  };
}

unfoldable pub poll_fill : List Slot → List Wake → List Slot
poll_fill [] wakes = []
poll_fill (slot ∷ slots) [] = polled slot no_revents ∷ poll_fill slots []
poll_fill (slot ∷ slots) (wake ∷ wakes) = polled slot wake.revents ∷ poll_fill slots wakes

-- What one round is given: whether `poll` returned -1, the routes, files and time of the round, the
-- listener's POLLIN with what `accept` and `fcntl` answer, and the wakes of the clients.
pub record Poll : Type 0 where
  pub failed : Bool
  pub env : Env
  pub listener_pollin : Bool
  pub accepted : Option ℕ
  pub nonblocking : Bool
  pub wakes : List Wake

-- How a round ends: the loop goes on, or `exit(1)`.
pub data Ran : Type 0 where
  ran : ClientSet → Shared → Ran
  exited : Ran

abbrev pub poll_filled : ClientSet → Poll → ClientSet
poll_filled client_set p = record client_set { slots = poll_fill client_set.slots p.wakes }

-- `if (client_set.poll_fd_set[0].revents & POLLIN) client_set_add_new(&client_set);`
abbrev pub listener_serve : Poll → ClientSet → Option ClientSet
listener_serve p client_set =
    if p.listener_pollin
    then client_set_add_new p.accepted p.nonblocking client_set
    else some client_set

-- One round of the loop of `server_run`; `none` is a failed assertion.
unfoldable pub server_round : ℕ → ClientSet → Shared → Poll → Option Ran
server_round n client_set shared p = if p.failed then some exited else (do
  client_set' ← listener_serve p (poll_filled client_set p)
  (slots, shared') ← clients_serve n p.env client_set'.slots shared p.wakes
  some (ran (record client_set' { slots = slots }) shared'))

-- The rounds to come behind one.
unfoldable pub server_goes : (ClientSet → Shared → Option Ran) → Ran → Option Ran
server_goes rest exited = some exited
server_goes rest (ran client_set shared) = rest client_set shared

-- The loop for the rounds to come.
unfoldable pub server_loop : ℕ → ClientSet → Shared → List Poll → Option Ran
server_loop n client_set shared [] = some (ran client_set shared)
server_loop n client_set shared (p ∷ polls) = do
  r ← server_round n client_set shared p
  server_goes (λ client_set' shared'. server_loop n client_set' shared' polls) r
