-- ===== src/Connection/Safety/Answering.antt =====
-- How `step_response_build` of src/Connection.c finds its answer.
use http_server_from_scratch.Connection.Build.{
  is_get, get_for_head, allow_cap, route_answer, routed, content_answer, answer,
}
use http_server_from_scratch.Connection.Safety.{IsConnection}
use http_server_from_scratch.Connection.{System, Env, set_conn}
use http_server_from_scratch.ParseResult.{parse_not_found}
use http_server_from_scratch.Prelude.{
  ◌≤◌, ◌≡◌, refl, arith, if_cases, ltb, ◌==◌, length, List, All, CString, Option, none, some,
}
use http_server_from_scratch.RequestLine.{HttpMethod, http_method_show}
use http_server_from_scratch.Response.{HttpResponse, response_error_from_status, response_none}
use http_server_from_scratch.Router.Content.{ContentEntry}
use http_server_from_scratch.Router.Revalidation.{content_registry_lookup-IsLookup}
use http_server_from_scratch.Router.Safety.{IsEntry}
use http_server_from_scratch.Router.Scratch.{
  IsGrown, IsGrown-refl, IsServed, IsRoute, FoundRoute, route_lookup-FoundRoute, error-IsServed,
  error_405-IsServed, response_for_entry-Grows,
}
use http_server_from_scratch.Router.{Route, route_lookup}
use http_server_from_scratch.Request.{HttpRequest}
use http_server_from_scratch.Arena.{Arena}
use http_server_from_scratch.Arena.Blocks.{IsArena}
use http_server_from_scratch.Memory.{null}
use Prim.{tt}
use http_server_from_scratch.Router.Serving.{
  ContentLookupResult, content_miss, content_gone, content_not_modified, content_hit,
  response_dynamic_304,
}

-- An answer that is found, and the system after it.
pub record IsAnswer (s : System) (o : Option (HttpResponse × System)) : Type 0 where
  pub result : HttpResponse × System
  pub returned : o ≡ some result
  pub sound : IsConnection result.1
  pub served : IsServed result.0
  pub requests : result.1.conn.requests ≡ s.conn.requests
  pub offset : result.1.conn.next_req_offset ≤ result.1.conn.req_buf.size

-- The connection with an arena that is grown.
grown-IsConnection :
    (s : System) (a : Arena)
    → IsConnection s
    → IsGrown s.conn.arena a
    → IsConnection (set_conn s (record s.conn { arena = a }))
grown-IsConnection s a w g = record {
  place = w.place;
  input = w.input;
  word = w.word;
  output = w.output;
  headers = w.headers;
  mark = omega (arith, w.mark, g.used);
  arena = g.arena;
  registry = w.registry;
  socket = w.socket;
  response = w.response;
  decoded = w.decoded;
}

-- An answer by a route leaves the arena grown.
route_answer-IsGrown :
    (req : HttpRequest) (a : Arena) (o : Option Route) (allowed : List CString)
    → IsArena 2 a
    → FoundRoute o
    → let p = route_answer req a (record { route = o; allowed = allowed }) in
      IsServed p.0 × IsGrown a p.1
unfolding route_answer
route_answer-IsGrown req a (some route) allowed w h =
    if_cases (λ (p : HttpResponse × Arena). IsServed p.0 × IsGrown a p.1) (route.data_ptr == null)
      (λ e. h.plain req a w) (λ e. h.with_data req route.data_ptr a w)
route_answer-IsGrown req a none allowed w h =
    if_cases (λ (p : HttpResponse × Arena). IsServed p.0 × IsGrown a p.1) (ltb 0 (length allowed))
      (λ e. (error_405-IsServed allowed allow_cap, IsGrown-refl a w))
      (λ e. (error-IsServed parse_not_found, IsGrown-refl a w))

routed-IsAnswer :
    (env : Env) (s : System) (method : HttpMethod)
    → All IsRoute env.routes
    → IsConnection s
    → s.conn.next_req_offset ≤ s.conn.req_buf.size
    → IsAnswer s (some (routed env s method))
unfolding routed
routed-IsAnswer env s method routes w h =
    let req = s.conn.req_parsed in
    let text = http_method_show method in
    let found = route_lookup env.routes text req.request_line.path in
    let (served, g) =
      route_answer-IsGrown req s.conn.arena found.route found.allowed w.arena
        (route_lookup-FoundRoute env.routes text req.request_line.path routes) in
    record {
      result = routed env s method;
      returned = refl;
      sound = grown-IsConnection s (route_answer req s.conn.arena found).1 w g;
      served = served;
      requests = refl;
      offset = h;
    }

not_modified-IsServed : (entry : ContentEntry) → IsServed (response_dynamic_304 entry)
unfolding response_dynamic_304 response_none
not_modified-IsServed entry = tt

content_answer-IsAnswer :
    (env : Env) (s : System) (method : HttpMethod) (d : ContentLookupResult)
    → All IsRoute env.routes
    → IsConnection s
    → ((e : ContentEntry) → d ≡ content_hit e → IsEntry e)
    → s.conn.next_req_offset ≤ s.conn.req_buf.size
    → IsAnswer s (content_answer env s method d)
unfolding content_answer
content_answer-IsAnswer env s method content_miss routes w k h =
    routed-IsAnswer env s method routes w h
content_answer-IsAnswer env s method content_gone routes w k h = record {
  result = (response_error_from_status parse_not_found, s);
  returned = refl;
  sound = w;
  served = error-IsServed parse_not_found;
  requests = refl;
  offset = h;
}
content_answer-IsAnswer env s method (content_not_modified entry) routes w k h = record {
  result = (response_dynamic_304 entry, s);
  returned = refl;
  sound = w;
  served = not_modified-IsServed entry;
  requests = refl;
  offset = h;
}
content_answer-IsAnswer env s method (content_hit entry) routes w k h =
    let (r, e, served, g) =
      response_for_entry-Grows env.files s.conn.req_parsed entry s.conn.arena (k entry refl)
        w.arena in
    record {
      result = (r.0, set_conn s (record s.conn { arena = r.1 }));
      returned = rw e refl;
      sound = grown-IsConnection s r.1 w g;
      served = served;
      requests = refl;
      offset = h;
    }

pub answer-IsAnswer :
    (env : Env) (s : System)
    → All IsRoute env.routes
    → IsConnection s
    → s.conn.next_req_offset ≤ s.conn.req_buf.size
    → IsAnswer s (answer env s)
unfolding answer
answer-IsAnswer env s routes w h =
    let req = s.conn.req_parsed in
    let method = get_for_head req.request_line.method in
    if_cases (IsAnswer s) (is_get method)
      (λ e.
        let l =
          content_registry_lookup-IsLookup env.files s.registry req req.request_line.path
            w.registry in
        let s' = record s { registry = l.result.1 } in
        let w' : IsConnection s' = record {
          place = w.place;
          input = w.input;
          word = w.word;
          output = w.output;
          headers = w.headers;
          mark = w.mark;
          arena = w.arena;
          registry = l.registry;
          socket = w.socket;
          response = w.response;
          decoded = w.decoded;
        } in
        let a = content_answer-IsAnswer env s' method l.result.0 routes w' l.found h in
        record {
          result = a.result;
          returned = rw (l.returned) a.returned;
          sound = a.sound;
          served = a.served;
          requests = a.requests;
          offset = a.offset;
        })
      (λ e. routed-IsAnswer env s method routes w h)
