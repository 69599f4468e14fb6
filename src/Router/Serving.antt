-- ===== src/Router/Serving.antt =====
-- src/HttpRouter.c: looking a target up in the content registry, and the responses made of its
-- entries.
use http_server_from_scratch.Router.Content.{
  Stat, Files, ServeMode, serve_static_resident, serve_dyn_resident, RevalMeta, ContentEntry,
  ContentRegistry, reval_fill, content_entry_dynamic_load,
}
use http_server_from_scratch.Arena.{Arena, arena_alloc}
use http_server_from_scratch.Dictionary.{dict_find, dict_insert}
use http_server_from_scratch.Headers.{header_find}
use http_server_from_scratch.Memory.{null}
use http_server_from_scratch.ParseResult.{parse_server_error}
use http_server_from_scratch.Prelude.{
  ◌>>=◌, ℕ, zero, suc, Bool, true, false, not, ◌||◌, List, [], ◌∷◌, leb, ◌==◌, if◌then◌else◌,
  CString, codes, str_eq, Option, none, some,
}
use http_server_from_scratch.Request.{HttpRequest}
use http_server_from_scratch.RequestLine.{HttpMethod, head}
use http_server_from_scratch.Response.{
  ResponseHeader, Stream, body_buffer, HttpResponse, response_error_from_status, response_none,
  response_stream,
}

-- The first `n` of the headers.
unfoldable pub first_headers : ℕ → List ResponseHeader → List ResponseHeader
first_headers zero hs = []
first_headers (suc n) [] = []
first_headers (suc n) (h ∷ hs) = h ∷ first_headers n hs

-- `&headers[n]`
unfoldable pub headers_from : ℕ → List ResponseHeader → List ResponseHeader
headers_from zero hs = hs
headers_from (suc n) [] = []
headers_from (suc n) (h ∷ hs) = headers_from n hs

abbrev pub is_head : HttpMethod → Bool
is_head head = true
is_head _ = false

abbrev pub is_static_resident : ServeMode → Bool
is_static_resident serve_static_resident = true
is_static_resident _ = false

unfoldable pub response_resident : HttpRequest → ContentEntry → HttpResponse
response_resident req file =
    let head_only = is_head req.request_line.method in
    record {
      status = 200;
      reason = codes "OK";
      headers = first_headers (if is_static_resident file.mode then 3 else 5) file.headers;
      body = body_buffer (if head_only then [] else file.data_bytes);
      head_only = head_only;
    }

-- `file_stream_open`: the context is four bytes of the arena; `none` for the stream is `{0}`.
unfoldable pub file_stream_open : Files → CString → Arena → Option (Option Stream × Arena)
file_stream_open files fs_path scratch = elim (files.open_stream fs_path) [
  | none ↦ some (none, scratch)
  | some pulls ↦ elim (arena_alloc scratch 4 4) [
    | none ↦ none
    | some (p, scratch') ↦
        if p == null
        then some (none, scratch')
        else some (some (record { pull = true; pulls = pulls; cleanup = true }), scratch')
  ]
]

-- An entry with no `reval` fails the assertion.
unfoldable pub response_streamed : Files → ContentEntry → Arena → Option (HttpResponse × Arena)
response_streamed files file scratch = do
  reval ← file.reval
  (stream, scratch') ← file_stream_open files reval.fs_path scratch
  elim stream [
    | none ↦ some (response_error_from_status parse_server_error, scratch')
    | some s ↦ some (response_stream 200 (codes "OK") s (first_headers 4 file.headers), scratch')
  ]

unfoldable pub response_dynamic_304 : ContentEntry → HttpResponse
response_dynamic_304 f =
    response_none 304 (codes "Not Modified") (first_headers 3 (headers_from 2 f.headers))

unfoldable pub request_validators_match : Files → HttpRequest → RevalMeta → Bool
request_validators_match files req reval = elim (header_find req.headers (codes "if-none-match")) [
  | some inm ↦ if str_eq inm.value (codes "*") then true else str_eq inm.value reval.etag
  | none ↦ elim (header_find req.headers (codes "if-modified-since")) [
    | none ↦ false
    | some ims ↦ elim (files.http_date_parse ims.value) [
      | none ↦ false
      | some t ↦ leb reval.mtime t
    ]
  ]
]

pub data ContentLookupResult : Type 0 where
  content_miss content_gone : ContentLookupResult
  content_not_modified content_hit : ContentEntry → ContentLookupResult

-- The answer for a dynamic entry that is current.
abbrev pub revalidated : Files → HttpRequest → ContentEntry → RevalMeta → ContentLookupResult
revalidated files req entry reval =
    if request_validators_match files req reval
    then content_not_modified entry
    else content_hit entry

-- What follows `stat`.
unfoldable pub stat_dynamic :
    Files
    → ContentRegistry
    → HttpRequest
    → CString
    → ContentEntry
    → RevalMeta
    → Option Stat
    → ContentLookupResult × ContentRegistry
stat_dynamic files registry req url_path entry reval none = (content_gone, registry)
stat_dynamic files registry req url_path entry reval (some st) =
    if not (st.st_mtime == reval.mtime) || not (st.st_size == reval.size)
    then elim (content_entry_dynamic_load files reval.fs_path st) [
      | none ↦ (content_gone, registry)
      | some fresh ↦ (
        revalidated files req fresh (reval_fill files st reval.fs_path),
        dict_insert registry url_path fresh,
      )
    ]
    else (revalidated files req entry reval, registry)

-- `case SERVE_DYN_RESIDENT`, from the entry's revalidation data on.
unfoldable pub lookup_dynamic :
    Files
    → ContentRegistry
    → HttpRequest
    → CString
    → ContentEntry
    → RevalMeta
    → ContentLookupResult × ContentRegistry
lookup_dynamic files registry req url_path entry reval =
    stat_dynamic files registry req url_path entry reval (files.stat reval.fs_path)

-- The `switch (entry->mode)`; `none` is a read through the NULL `reval` of a dynamic entry.
unfoldable pub lookup_entry :
    Files
    → ContentRegistry
    → HttpRequest
    → CString
    → ContentEntry
    → ServeMode
    → Option (ContentLookupResult × ContentRegistry)
lookup_entry files registry req url_path entry serve_dyn_resident = elim entry.reval [
  | none ↦ none
  | some reval ↦ some (lookup_dynamic files registry req url_path entry reval)
]
lookup_entry files registry req url_path entry _ = some (content_hit entry, registry)

unfoldable pub content_registry_lookup :
    Files → ContentRegistry → HttpRequest → CString → Option (ContentLookupResult × ContentRegistry)
content_registry_lookup files registry req url_path = elim (dict_find registry url_path) [
  | none ↦ some (content_miss, registry)
  | some entry ↦ lookup_entry files registry req url_path entry entry.mode
]

-- The `switch (entry->mode)` of `response_for_entry`.
unfoldable pub response_in_mode :
    Files → HttpRequest → ContentEntry → Arena → ServeMode → Option (HttpResponse × Arena)
response_in_mode files req entry scratch serve_static_resident =
    some (response_resident req entry, scratch)
response_in_mode files req entry scratch serve_dyn_resident =
    some (response_resident req entry, scratch)
response_in_mode files req entry scratch _ = response_streamed files entry scratch

unfoldable pub response_for_entry :
    Files → HttpRequest → ContentEntry → Arena → Option (HttpResponse × Arena)
response_for_entry files req entry scratch = response_in_mode files req entry scratch entry.mode
