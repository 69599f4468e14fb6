-- ===== src/Router.antt =====
-- src/HttpRouter.c and include/http_server/HttpRouter.h: the route table. The content registry is in
-- `Router.Content`, `Router.Serving` and `Router.Registration`.
pub mod Content
pub mod Serving
pub mod Registration
pub mod Safety
pub mod Revalidation
pub mod Scratch
pub mod Lookup
pub mod Duplicates
use http_server_from_scratch.Arena.{Arena}
use http_server_from_scratch.Dictionary.{Dictionary, dict_find}
use http_server_from_scratch.Memory.{null}
use http_server_from_scratch.Parser.{str_ends_with}
use http_server_from_scratch.Prelude.{
  ℕ, zero, suc, Bool, true, false, not, ◌&&◌, ◌||◌, List, [], ◌∷◌, ◌++◌, ltb, ◌==◌, if◌then◌else◌,
  length, CString, codes, str_eq, Option, none, some,
}
use http_server_from_scratch.Request.{HttpRequest}
use http_server_from_scratch.Response.{HttpResponse}

-- The two arms of the union `handler`, of which `data` says the one in use. A handler is given the
-- request, with the arena to which its field `scratch` points, and leaves that arena.
pub record Route : Type 0 where
  pub method : CString
  pub path : CString
  pub fn : HttpRequest → Arena → HttpResponse × Arena
  pub fn_with_data : HttpRequest → ℕ → Arena → HttpResponse × Arena
  pub data_ptr : ℕ

pub record RouteLookupResult : Type 0 where
  pub route : Option Route
  pub allowed : List CString

-- The loop over the table, with the methods allowed so far; the array holds eight of them.
unfoldable pub lookup_loop : List Route → CString → CString → List CString → RouteLookupResult
lookup_loop [] method path allowed = record { route = none; allowed = allowed }
lookup_loop (r ∷ routes) method path allowed =
    let skip = lookup_loop routes method path allowed in
    let full = lookup_loop routes method path allowed in
    let noted = lookup_loop routes method path (allowed ++ r.method ∷ []) in
    if not (str_eq path r.path)
    then skip
    else if str_eq method r.method
    then record { route = some r; allowed = allowed }
    else if ltb (length allowed) 8
    then noted
    else full

unfoldable pub route_lookup : List Route → CString → CString → RouteLookupResult
route_lookup routes method path = lookup_loop routes method path []

unfoldable pub content_type : CString → CString
content_type path =
    if str_ends_with path (codes ".html")
    then codes "text/html"
    else if str_ends_with path (codes ".ico")
    then codes "image/x-icon"
    else if str_ends_with path (codes ".jpg") || str_ends_with path (codes ".jpeg")
    then codes "image/jpeg"
    else if str_ends_with path (codes ".png")
    then codes "image/png"
    else if str_ends_with path (codes ".css")
    then codes "text/css"
    else if str_ends_with path (codes ".js")
    then codes "application/javascript"
    else if str_ends_with path (codes ".wasm")
    then codes "application/wasm"
    else if str_ends_with path (codes ".data")
    then codes "application/octet-stream"
    else codes "application/octet-stream"

-- `route->method != get` compares addresses; `same_literal` says whether a route's method is the
-- very literal that `http_method_show(GET)` returns.
unfoldable pub shadows_content : {V : Type 0} → (Route → Bool) → Dictionary V → List Route → Bool
shadows_content same_literal registry [] = false
shadows_content same_literal registry (r ∷ routes) =
    let rest = shadows_content same_literal registry routes in
    if not (same_literal r)
    then rest
    else elim (dict_find registry r.path) [ some file ↦ true | none ↦ rest ]

abbrev pub same_route : Route → Route → Bool
same_route a b = str_eq a.path b.path && str_eq a.method b.method

-- The inner loop over `routes[1 ..]`.
unfoldable pub repeats : Route → List Route → Bool
repeats r [] = false
repeats r (s ∷ routes) = if same_route r s then true else repeats r routes

-- The outer loop over all routes but the last. (With an empty table the bound `route_count - 1` wraps
-- in the source, but the inner loop has no rounds then, so that nothing is compared; here the outer
-- loop has none either.)
unfoldable pub any_repeats : List Route → List Route → Bool
any_repeats [] others = false
any_repeats (r ∷ []) others = false
any_repeats (r ∷ s ∷ routes) others =
    if repeats r others then true else any_repeats (s ∷ routes) others

-- `routes[1 ..]`
abbrev pub behind_first : List Route → List Route
behind_first [] = []
behind_first (r ∷ routes) = routes

unfoldable pub router_has_duplicate_routes :
    {V : Type 0} → (Route → Bool) → Dictionary V → List Route → Bool
router_has_duplicate_routes same_literal registry routes =
    if shadows_content same_literal registry routes
    then true
    else any_repeats routes (behind_first routes)
