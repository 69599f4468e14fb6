-- ===== src/Router/Scratch.antt =====
-- What src/HttpRouter.c allocates from the arena of a connection.
use http_server_from_scratch.Arena.Blocks.{IsArena, alloc_next}
use http_server_from_scratch.Arena.{Arena, arena_alloc}
use http_server_from_scratch.Memory.{null}
use http_server_from_scratch.ParseResult.{ParseStatus, parse_ok, parse_server_error}
use http_server_from_scratch.Prelude.{
  ℕ, not, ltb, length, str_eq, All, [], ◌∷◌, ◌≤◌, ◌≡◌, inl, inr, refl, sym, subst, arith, true,
  CString, Option, none, some, List, if◌then◌else◌, if_cases, ◌==◌, codes,
}
use http_server_from_scratch.Request.{HttpRequest}
use http_server_from_scratch.Response.{
  Stream, Pull, ResponseHeader, HttpResponse, Body, body_stream, response_buffer,
  response_error_from_status, response_error_405, response_stream,
}
use http_server_from_scratch.Router.Content.{
  Files, ServeMode, serve_static_resident, serve_static_streamed, serve_dyn_resident,
  serve_dyn_streamed, RevalMeta, ContentEntry,
}
use http_server_from_scratch.Router.Safety.{HasReval, IsEntry}
use http_server_from_scratch.Router.Serving.{
  first_headers, response_resident, response_in_mode, response_for_entry, file_stream_open,
  response_streamed,
}
use http_server_from_scratch.Router.{Route, RouteLookupResult, lookup_loop, route_lookup}
use Prim.{tt, absurd}

-- An arena after some allocations.
pub record IsGrown (a b : Arena) : Type 0 where
  pub arena : IsArena 2 b
  pub same : (b.base ≡ a.base) × (b.cap ≡ a.cap)
  pub used : a.used ≤ b.used

-- A result with some property that is returned, with the arena after it.
abbrev pub Grows : {R : Type 0} → (R → Type 0) → Arena → Option (R × Arena) → Type 0
Grows {R = R} P a o = (r : R × Arena) × (o ≡ some r) × P r.0 × IsGrown a r.1

pub IsGrown-refl : (a : Arena) → IsArena 2 a → IsGrown a a
IsGrown-refl a w = record { arena = w; same = (refl, refl); used = omega arith }

-- A stream that is there has a `pull`.
abbrev pub HasPull : Option Stream → Type 0
HasPull none = Unit {0}
HasPull (some p) = p.pull ≡ true

abbrev pub BodyPulls : Body → Type 0
BodyPulls (body_stream p) = p.pull ≡ true
BodyPulls _ = Unit {0}

-- A response whose body, where it is a stream, has a `pull`.
abbrev pub IsServed : HttpResponse → Type 0
IsServed res = BodyPulls res.body

-- What a handler relies on and keeps: given an arena that begins at a multiple of 4 and is well formed,
-- it leaves one at the same place that is used no less, as `arena_alloc` does, and a stream that it
-- answers with has a `pull`.
pub record IsRoute (route : Route) : Type 0 where
  pub plain :
      (req : HttpRequest) (a : Arena)
      → IsArena 2 a
      → IsServed (route.fn req a).0 × IsGrown a (route.fn req a).1
  pub with_data :
      (req : HttpRequest) (data_ptr : ℕ) (a : Arena)
      → IsArena 2 a
      → IsServed (route.fn_with_data req data_ptr a).0
        × IsGrown a (route.fn_with_data req data_ptr a).1

-- A route that a lookup found.
abbrev pub FoundRoute : Option Route → Type 0
FoundRoute none = Unit {0}
FoundRoute (some route) = IsRoute route

lookup_loop-FoundRoute :
    (routes : List Route) (method path : CString) (allowed : List CString)
    → All IsRoute routes
    → FoundRoute (lookup_loop routes method path allowed).route
unfolding lookup_loop
lookup_loop-FoundRoute [] method path allowed v = tt
lookup_loop-FoundRoute (r ∷ routes) method path allowed v =
    let P : RouteLookupResult → Type 0 = λ t. FoundRoute t.route in
    if_cases P (not (str_eq path r.path))
      (λ e. lookup_loop-FoundRoute routes method path allowed v.1)
      (λ e.
        if_cases P (str_eq method r.method) (λ f. v.0)
          (λ f.
            if_cases P (ltb (length allowed) 8)
              (λ g. lookup_loop-FoundRoute routes method path _ v.1)
              (λ g. lookup_loop-FoundRoute routes method path allowed v.1)))

pub route_lookup-FoundRoute :
    (routes : List Route) (method path : CString)
    → All IsRoute routes
    → FoundRoute (route_lookup routes method path).route
unfolding route_lookup
route_lookup-FoundRoute routes method path v = lookup_loop-FoundRoute routes method path [] v

pub error-IsServed : (status : ParseStatus) → IsServed (response_error_from_status status)
unfolding response_error_from_status response_buffer
error-IsServed parse_ok = tt
error-IsServed _ = tt

pub error_405-IsServed :
    (allowed : List CString) (cap : ℕ) → IsServed (response_error_405 allowed cap)
unfolding response_error_405 response_buffer
error_405-IsServed allowed cap = tt

pub resident-IsServed :
    (req : HttpRequest) (entry : ContentEntry) → IsServed (response_resident req entry)
unfolding response_resident
resident-IsServed req entry = tt

stream-IsServed :
    (p : Stream) (headers : List ResponseHeader)
    → p.pull ≡ true
    → IsServed (response_stream 200 (codes "OK") p headers)
unfolding response_stream
stream-IsServed p headers h = h

opened-Grows :
    (a : Arena) (pulls : List Pull)
    → IsArena 2 a
    → Grows HasPull a (elim (arena_alloc a 4 4) [
      | none ↦ none
      | some (p, scratch') ↦
          if p == null
          then some (none, scratch')
          else some (some (record { pull = true; pulls = pulls; cleanup = true }), scratch')
    ])
opened-Grows a pulls w =
    let (p, a', e, w', base, cap', place) = alloc_next a 4 2 2 w (omega arith) in
    let e' : arena_alloc a 4 4 ≡ some (p, a') = e in
    let used : a.used ≤ a'.used = elim place [
      | inl (z, same) ↦ subst (λ t. a.used ≤ t.used) (sym same) (omega arith)
      | inr (lo, end) ↦ omega (arith, lo, end, base)
    ] in
    let g : IsGrown a a' = record { arena = w'; same = (base, cap'); used = used } in
    rw e' (
      if_cases (λ o. Grows HasPull a o) (p == null) (λ f. ((none, a'), refl, tt, g))
        (λ f. ((some (record { pull = true; pulls = pulls; cleanup = true }), a'), refl, refl, g)))

open-Grows :
    (a : Arena) (o : Option (List Pull))
    → IsArena 2 a
    → Grows HasPull a (elim o [
      | none ↦ some (none, a)
      | some pulls ↦ elim (arena_alloc a 4 4) [
        | none ↦ none
        | some (p, scratch') ↦
            if p == null
            then some (none, scratch')
            else some (some (record { pull = true; pulls = pulls; cleanup = true }), scratch')
      ]
    ])
open-Grows a none w = ((none, a), refl, tt, IsGrown-refl a w)
open-Grows a (some pulls) w = opened-Grows a pulls w

file_stream_open-Grows :
    (files : Files) (fs_path : CString) (a : Arena)
    → IsArena 2 a
    → Grows HasPull a (file_stream_open files fs_path a)
unfolding file_stream_open
file_stream_open-Grows files fs_path a w = open-Grows a (files.open_stream fs_path) w

stream-Grows :
    (a b : Arena) (file : ContentEntry) (o : Option Stream)
    → HasPull o
    → IsGrown a b
    → Grows IsServed a (elim o [
      | none ↦ some (response_error_from_status parse_server_error, b)
      | some s ↦ some (response_stream 200 (codes "OK") s (first_headers 4 file.headers), b)
    ])
stream-Grows a b file none k g = ((_, b), refl, error-IsServed parse_server_error, g)
stream-Grows a b file (some s) k g =
    ((_, b), refl, stream-IsServed s (first_headers 4 file.headers) k, g)

response_streamed-Grows :
    (files : Files) (file : ContentEntry) (a : Arena) (reval : RevalMeta)
    → file.reval ≡ some reval
    → IsArena 2 a
    → Grows IsServed a (response_streamed files file a)
unfolding response_streamed
response_streamed-Grows files file a reval e w =
    let ((o, b), f, k, g) = file_stream_open-Grows files reval.fs_path a w in
    rw (e, f) (stream-Grows a b file o k g)

mode-Grows :
    (files : Files) (req : HttpRequest) (entry : ContentEntry) (a : Arena) (mode : ServeMode)
    (o : Option RevalMeta)
    → HasReval mode o
    → entry.reval ≡ o
    → IsArena 2 a
    → Grows IsServed a (response_in_mode files req entry a mode)
unfolding response_in_mode
mode-Grows files req entry a serve_static_resident o v e w =
    ((_, a), refl, resident-IsServed req entry, IsGrown-refl a w)
mode-Grows files req entry a serve_dyn_resident o v e w =
    ((_, a), refl, resident-IsServed req entry, IsGrown-refl a w)
mode-Grows files req entry a serve_static_streamed none v e w = absurd v
mode-Grows files req entry a serve_dyn_streamed none v e w = absurd v
mode-Grows files req entry a serve_static_streamed (some reval) v e w =
    response_streamed-Grows files entry a reval e w
mode-Grows files req entry a serve_dyn_streamed (some reval) v e w =
    response_streamed-Grows files entry a reval e w

-- With an arena that begins at a multiple of 4, the answer from a well-formed entry is always made: no
-- assertion fails, a stream in it has a `pull`, and the arena is well formed again, at the same place,
-- and used no less.
pub response_for_entry-Grows :
    (files : Files) (req : HttpRequest) (entry : ContentEntry) (a : Arena)
    → IsEntry entry
    → IsArena 2 a
    → Grows IsServed a (response_for_entry files req entry a)
unfolding response_for_entry
response_for_entry-Grows files req entry a v w =
    mode-Grows files req entry a entry.mode entry.reval v refl w
