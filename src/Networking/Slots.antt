-- ===== src/Networking/Slots.antt =====
-- Finding a slot for a new socket: `add_to_client_set` of src/Networking.c.
use http_server_from_scratch.Config.{http_conn_arena_size}
use http_server_from_scratch.Connection.Safety.{IsSafe}
use http_server_from_scratch.Connection.{Connection}
use http_server_from_scratch.Dictionary.{dict_init}
use http_server_from_scratch.Networking.Buffers.{IsInit, connection_init-IsInit}
use http_server_from_scratch.Networking.{
  pollin, no_revents, Slot, ClientSet, slot_fill, add_loop, add_to_client_set, at_rest,
}
use http_server_from_scratch.Prelude.{
  ℕ, ◌+◌, ◌*◌, ◌/◌, ◌<◌, ◌≡◌, ◌⊎◌, inl, inr, refl, sym, subst, arith, List, [], ◌∷◌, All, Option,
  none, some,
}
use http_server_from_scratch.Router.Safety.{dict_init-IsRegistry}
use Prim.{tt}

-- What the conditions of a connection's phase say of the connection alone: with any memory, and with
-- a registry that is empty.
abbrev pub IsReady : Connection → Type 0
IsReady c = IsSafe c.phase (at_rest (λ a. 0) dict_init c)

-- The connection of a slot that is taken, and its descriptor, which is not 0.
abbrev pub Taken : Option ℕ → Connection → Type 0
Taken none c = Unit {0}
Taken (some fd) c = (0 < fd) × IsReady c

abbrev pub IsSlot : Slot → Type 0
IsSlot slot = Taken slot.poll_fd.fd slot.conn

-- The slot is taken.
abbrev pub IsTaken : Slot → Type 0
IsTaken slot = (fd : ℕ) × (slot.poll_fd.fd ≡ some fd)

-- The slots `after` are those `before`, except that the first free one has the socket, waits for
-- POLLIN, and has a connection that was set up in its row, the rows beginning at `backing`.
pub data Adds (fd : ℕ) : ℕ → List Slot → List Slot → Type 0 where
  here :
      {backing : ℕ} {slot filled : Slot} {slots : List Slot}
      → slot.poll_fd.fd ≡ none
      → filled.poll_fd ≡ record { fd = some fd; events = pollin; revents = no_revents }
      → IsInit backing filled.conn
      → IsReady filled.conn
      → Adds fd backing (slot ∷ slots) (filled ∷ slots)
  there :
      {backing : ℕ} {slot : Slot} {before after : List Slot}
      → IsTaken slot
      → Adds fd (backing + http_conn_arena_size) before after
      → Adds fd backing (slot ∷ before) (slot ∷ after)

-- The result of the loop: no slot is free, or one was filled.
abbrev AddsOr : ℕ → ℕ → List Slot → Option (List Slot) → Type 0
AddsOr fd backing slots none = All IsTaken slots
AddsOr fd backing slots (some after) = Adds fd backing slots after

there-AddsOr :
    (fd backing : ℕ) (slot : Slot) (slots : List Slot) (o : Option (List Slot))
    → IsTaken slot
    → AddsOr fd (backing + http_conn_arena_size) slots o
    → AddsOr fd backing (slot ∷ slots) (elim o [ none ↦ none | some slots' ↦ some (slot ∷ slots') ])
there-AddsOr fd backing slot slots none t h = (t, h)
there-AddsOr fd backing slot slots (some after) t h = there t h

slot_fill-there :
    (slot : Slot) (q fd : ℕ)
    → 0 < q
    → (filled : Slot) × (slot_fill slot (q * 4) fd ≡ some filled)
      × (filled.poll_fd ≡ record { fd = some fd; events = pollin; revents = no_revents })
      × IsInit (q * 4) filled.conn
      × IsReady filled.conn
unfolding slot_fill
slot_fill-there slot q fd pos =
    let (c, e, i, safe) =
      connection_init-IsInit slot.conn q (λ a. 0) dict_init pos dict_init-IsRegistry in
    let filled : Slot = record {
      poll_fd = record { fd = some fd; events = pollin; revents = no_revents };
      conn = c;
    } in
    (filled, rw e refl, refl, i, safe)

next_row : (q : ℕ) → q * 4 + http_conn_arena_size ≡ (q + http_conn_arena_size / 4) * 4
next_row q = omega arith

add_loop-AddsOr :
    (slots : List Slot) (q fd : ℕ)
    → 0 < q
    → (o : Option (List Slot)) × (add_loop slots (q * 4) fd ≡ some o) × AddsOr fd (q * 4) slots o
unfolding add_loop slot_fill-there
add_loop-AddsOr [] q fd pos = (none, refl, tt)
add_loop-AddsOr (slot ∷ slots) q fd pos =
    at_fd slot.poll_fd.fd refl
      (add_loop-AddsOr slots (q + http_conn_arena_size / 4) fd (omega (arith, pos)))
  where
    at_fd :
        (f : Option ℕ)
        → slot.poll_fd.fd ≡ f
        → ((o : Option (List Slot)) × (add_loop slots ((q + http_conn_arena_size / 4) * 4) fd
              ≡ some o)
            × AddsOr fd ((q + http_conn_arena_size / 4) * 4) slots o)
        → (o : Option (List Slot)) × (add_loop (slot ∷ slots) (q * 4) fd ≡ some o)
          × AddsOr fd (q * 4) (slot ∷ slots) o
    at_fd none e rest =
        let (filled, f, p, i, r) = slot_fill-there slot q fd pos in
        (some (filled ∷ slots), rw (e, f) refl, here e p i r)
    at_fd (some old) e rest =
        let (o, f, h) = rest in
        let row = next_row q in
        let f' : add_loop slots (q * 4 + http_conn_arena_size) fd ≡ some o = rw row f in
        let h' : AddsOr fd (q * 4 + http_conn_arena_size) slots o =
          subst (λ t. AddsOr fd t slots o) (sym row) h in
        (
          elim o [ none ↦ none | some slots' ↦ some (slot ∷ slots') ],
          rw (e, f') refl,
          there-AddsOr fd (q * 4) slot slots o (old, e) h',
        )

-- What `add_to_client_set` leaves: the table is full and as it was, and the socket is closed; or the
-- first free slot has it.
abbrev pub IsAdded : ℕ → ClientSet → ClientSet → Type 0
IsAdded fd before after =
    (All IsTaken before.slots
      × (after.slots ≡ before.slots)
      × (after.refused ≡ fd ∷ before.refused))
    ⊎ (Adds fd before.arena_backing before.slots after.slots × (after.refused ≡ before.refused))

-- With rows that begin at a multiple of 4, not at NULL, `add_to_client_set` fails no assertion. The
-- socket goes into the first free slot, whose connection is set up in its own row, and the other slots
-- stay as they were; when all slots are taken, the table stays as it was and the socket is closed.
pub add_to_client_set-IsAdded :
    (client_set : ClientSet) (q fd : ℕ)
    → client_set.arena_backing ≡ q * 4
    → 0 < q
    → (after : ClientSet) × (add_to_client_set client_set fd ≡ some after)
      × (after.arena_backing ≡ client_set.arena_backing)
      × IsAdded fd client_set after
unfolding add_to_client_set
add_to_client_set-IsAdded client_set q fd e pos =
    let (o, f, h) = add_loop-AddsOr client_set.slots q fd pos in
    let f' : add_loop client_set.slots client_set.arena_backing fd ≡ some o = rw e f in
    let h' : AddsOr fd client_set.arena_backing client_set.slots o =
      subst (λ t. AddsOr fd t client_set.slots o) (sym e) h in
    finish o f' h'
  where
    finish :
        (o : Option (List Slot))
        → add_loop client_set.slots client_set.arena_backing fd ≡ some o
        → AddsOr fd client_set.arena_backing client_set.slots o
        → (after : ClientSet) × (add_to_client_set client_set fd ≡ some after)
          × (after.arena_backing ≡ client_set.arena_backing)
          × IsAdded fd client_set after
    finish none f h = (
      record client_set { refused = fd ∷ client_set.refused },
      rw f refl,
      refl,
      inl (h, refl, refl),
    )
    finish (some slots) f h = (record client_set { slots = slots }, rw f refl, refl, inr (h, refl))
