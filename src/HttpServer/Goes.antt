-- ===== src/HttpServer/Goes.antt =====
-- How the event loop of src/HttpServer.c may go: what is in order between its rounds, and where it may
-- end.
use http_server_from_scratch.Connection.Safety.{IsEnv}
use http_server_from_scratch.Connection.{Env}
use http_server_from_scratch.HttpServer.Loop.{ClientStops}
use http_server_from_scratch.HttpServer.{
  Wake, first_wake, later_wakes, Shared, client_serve, Poll, Ran, ran, exited, poll_filled,
  listener_serve, server_round,
}
use http_server_from_scratch.Networking.Slots.{IsSlot}
use http_server_from_scratch.Networking.{Slot, ClientSet}
use http_server_from_scratch.Prelude.{
  ℕ, ◌*◌, ◌<◌, ◌≡◌, true, false, List, [], ◌∷◌, length, All, Option, none, some,
}
use http_server_from_scratch.Router.Safety.{IsRegistry}

-- The table has so many slots; the connection of every slot that is taken is as its phase relies on;
-- the rows of the arenas begin at a multiple of 4; and the content registry is well formed.
pub record IsServer (clients : ℕ) (client_set : ClientSet) (shared : Shared) : Type 0 where
  pub count : length client_set.slots ≡ clients
  pub slots : All IsSlot client_set.slots
  pub rows : (q : ℕ) × (client_set.arena_backing ≡ q * 4) × (0 < q)
  pub registry : IsRegistry shared.registry

-- A client of a round that stops the server, after those before it were served.
pub data ClientsStop (n : ℕ) (env : Env) : List Slot → Shared → List Wake → Type 0 where
  this_client :
      {slot : Slot} {slots : List Slot} {shared : Shared} {wakes : List Wake}
      → ClientStops n env slot shared (first_wake wakes)
      → ClientsStop n env (slot ∷ slots) shared wakes
  later_client :
      {slot slot' : Slot} {slots : List Slot} {shared shared' : Shared} {wakes : List Wake}
      → client_serve n env slot shared (first_wake wakes) ≡ some (slot', shared')
      → ClientsStop n env slots shared' (later_wakes wakes)
      → ClientsStop n env (slot ∷ slots) shared wakes

-- How the loop goes on from a table and what is shared, with the rounds to come and its result: there
-- is no further round, and all is in order; `poll` fails, and the process exits; a client of this
-- round stops the server with a failed assertion; or this round leaves all in order, and the loop goes
-- on.
pub data Goes (clients n : ℕ) : ClientSet → Shared → List Poll → Option Ran → Type 0 where
  rests :
      {client_set : ClientSet} {shared : Shared}
      → IsServer clients client_set shared
      → Goes clients n client_set shared [] (some (ran client_set shared))
  fails :
      {client_set : ClientSet} {shared : Shared} {p : Poll} {polls : List Poll}
      → p.failed ≡ true
      → Goes clients n client_set shared (p ∷ polls) (some exited)
  stops :
      {client_set after : ClientSet} {shared : Shared} {p : Poll} {polls : List Poll}
      → p.failed ≡ false
      → listener_serve p (poll_filled client_set p) ≡ some after
      → ClientsStop n p.env after.slots shared p.wakes
      → Goes clients n client_set shared (p ∷ polls) none
  goes :
      {client_set client_set' : ClientSet} {shared shared' : Shared} {p : Poll} {polls : List Poll}
      {o : Option Ran}
      → p.failed ≡ false
      → server_round n client_set shared p ≡ some (ran client_set' shared')
      → IsServer clients client_set' shared'
      → Goes clients n client_set' shared' polls o
      → Goes clients n client_set shared (p ∷ polls) o

-- `accept` does not give the descriptor 0, which stays open.
abbrev pub IsSocket : Option ℕ → Type 0
IsSocket none = Unit {0}
IsSocket (some fd) = 0 < fd

-- What a round is given: a time of day and handlers as `IsEnv` says, and a socket as above.
abbrev pub IsPoll : Poll → Type 0
IsPoll p = IsEnv p.env × IsSocket p.accepted
