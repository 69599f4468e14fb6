-- ===== src/HttpServer/Rounds.antt =====
-- The rounds of the event loop of src/HttpServer.c.
use http_server_from_scratch.Connection.{Env}
use http_server_from_scratch.HttpServer.Goes.{IsServer, ClientsStop, Goes}
use http_server_from_scratch.HttpServer.{
  Wake, Shared, polled, Poll, Ran, ran, exited, poll_filled, listener_serve,
}
use http_server_from_scratch.Networking.Slots.{IsSlot}
use http_server_from_scratch.Networking.{Revents, Slot, ClientSet}
use http_server_from_scratch.Prelude.{
  ℕ, ◌*◌, ◌<◌, ◌≡◌, ◌⊎◌, true, false, List, length, All, Option, none, some,
}
use http_server_from_scratch.Router.Safety.{IsRegistry}

polled-IsSlot : (slot : Slot) (revents : Revents) → IsSlot slot → IsSlot (polled slot revents)
polled-IsSlot slot revents v = v

abbrev InOrder : ℕ → ClientSet → Type 0
InOrder count client_set =
    (length client_set.slots ≡ count)
    × All IsSlot client_set.slots
    × ((q : ℕ) × (client_set.arena_backing ≡ q * 4) × (0 < q))

-- The clients that were served, or one that stops the server.
abbrev ServesAll :
    ℕ → ℕ → Env → List Slot → Shared → List Wake → Option (List Slot × Shared) → Type 0
ServesAll count n env slots shared wakes o =
    ((r : List Slot × Shared) × (o ≡ some r)
      × (length r.0 ≡ count)
      × All IsSlot r.0
      × IsRegistry r.1.registry)
    ⊎ ((o ≡ none) × ClientsStop n env slots shared wakes)

-- How one round ends.
abbrev RoundEnds : ℕ → ℕ → ClientSet → Shared → Poll → Option Ran → Type 0
RoundEnds clients n client_set shared p o =
    ((p.failed ≡ true) × (o ≡ some exited))
    ⊎ ((r : ClientSet × Shared) × (p.failed ≡ false)
        × (o ≡ some (ran r.0 r.1))
        × IsServer clients r.0 r.1)
    ⊎ ((after : ClientSet) × (p.failed ≡ false)
        × (o ≡ none)
        × (listener_serve p (poll_filled client_set p) ≡ some after)
        × ClientsStop n p.env after.slots shared p.wakes)
