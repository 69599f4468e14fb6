-- ===== src/RequestLine/Uri.antt =====
-- src/HttpRequestLine.c, `uri_parse`: what an accepted request target is, and where its parts go.
mod Loop
use http_server_from_scratch.Config.{http_max_path_len, http_max_query_len}
use http_server_from_scratch.Memory.Scan.{slice-pop}
use http_server_from_scratch.Memory.{Memory, slice, memchr, null}
use http_server_from_scratch.ParseResult.{ParseResult, parse_ok, parse_bad_request, parse_error_set}
use http_server_from_scratch.Parser.Search.{FirstAt, Absent, memchr_lem}
use http_server_from_scratch.Parser.{is_hex}
use http_server_from_scratch.Prelude.{
  ℕ, zero, suc, ◌+◌, ◌-◌, ◌<◌, ◌≤◌, ◌≡◌, ◌⊎◌, ◌≢◌, inl, inr, refl, sym, ap, subst, ◌∙◌, Bool, true,
  false, arith, ◌==◌, CString, List, [], ◌∷◌, ◌++◌, length, length-append, All, All-append,
  Bool-cases,
}
use http_server_from_scratch.RequestLine.{
  HttpRequestLine, bad_at, Target, target_len, target_cap, target_push, uri_loop, uri_parse,
}
use Loop.{IsEscaped, IsSplit, LoopRead, uri_loop-Ends}

-- What PARSE_OK from `uri_parse` means for the range before the first space.
pub record UriRead (m : Memory) (cur end : ℕ) (path query : CString) (next : ℕ) : Type 0 where
  pub pos : 0 < next
  pub in_range : next ≤ end
  pub space : FirstAt (λ q. m q == b' ') cur (next - 1)
  pub slash : m cur ≡ b'/'
  pub raw : path ++ query ≡ slice m cur (next - 1 - cur)
  pub escaped : IsEscaped (slice m cur (next - 1 - cur))
  pub path_fits : length path < http_max_path_len
  pub query_fits : length query < http_max_query_len
  pub path_free : All (λ c. c ≢ b'?') path
  pub query_form : (query ≡ []) ⊎ ((q : CString) × (query ≡ b'?' ∷ q))

abbrev target_zero : Target
target_zero = record { path = []; query = []; in_query = false }

zero-IsSplit : IsSplit target_zero
zero-IsSplit = record {
  path_fits = omega arith;
  query_fits = omega arith;
  path_free = tt;
  query_form = inl (refl, refl);
}

-- The tests that PARSE_OK has passed, and the result.
passes :
    (m : Memory) (cur end : ℕ) (line : HttpRequestLine)
    → (uri_parse m cur end line).0.status ≡ parse_ok
    → let sp = memchr m cur b' ' (end - cur) in
      let loop = uri_loop m sp (bad_at cur) (sp - cur) cur target_zero in
      (sp ≢ null)
      × (cur < end)
      × (m cur ≡ b'/')
      × (loop.0.status ≡ parse_ok)
      × (uri_parse m cur end line
          ≡ (loop.0, record line { path = loop.1.path; query = loop.1.query }))
unfolding uri_parse parse_error_set
passes m cur end line h = ground arith

-- From a non-NULL cursor: PARSE_OK means that a target was read up to the first space. It begins
-- with a slash, consists of plain bytes and escapes, and is the path followed by the query: the
-- path is what stands before the first `?`, both fit their arrays with a NUL, and the method and
-- the version are left alone.
pub uri_parse_sound :
    (m : Memory) (cur end : ℕ) (line : HttpRequestLine)
    → 0 < cur
    → (uri_parse m cur end line).0.status ≡ parse_ok
    → UriRead m cur end
        (uri_parse m cur end line).1.path
        (uri_parse m cur end line).1.query
        (uri_parse m cur end line).0.next
      × ((uri_parse m cur end line).1.method ≡ line.method)
      × ((uri_parse m cur end line).1.version ≡ line.version)
uri_parse_sound m cur end line pos h =
    let (found, some_bytes, slash, ended, result) = passes m cur end line h in
    let sp = memchr m cur b' ' (end - cur) in
    let (r, next) =
      uri_loop-Ends m sp (bad_at cur) (unfold parse_error_set in refl) (sp - cur) cur target_zero
        (omega arith) zero-IsSplit ended in
    rw result (elim (memchr_lem m cur b' ' (end - cur) pos) [
      | inl (nothing, _) ↦ absurd (found nothing)
      | inr (_, before_end, first) ↦
          let e : sp + 1 - 1 ≡ sp = omega arith in
          rw next (
            record {
              pos = omega arith;
              in_range = omega arith;
              space = rw e first;
              slash = slash;
              raw = rw e r.raw;
              escaped = rw e r.escaped;
              path_fits = r.split.path_fits;
              query_fits = r.split.query_fits;
              path_free = r.split.path_free;
              query_form = ground (arith, r.split.query_form);
            },
            refl,
            refl,
          )
    ])
