-- ===== src/Request/Block.antt =====
-- src/HttpRequest.c, the loop of `request_parse` over the header lines: it terminates, and what an
-- accepted block is.
use http_server_from_scratch.Config.{http_max_headers}
use http_server_from_scratch.Headers.Line.{
  IsHeader, HeaderRead, header_line_parse_sound, header_line_parse_failed, HeaderRead-IsHeader,
  crlf_parse_sound,
}
use http_server_from_scratch.Headers.{Header, header_line_parse, crlf_parse}
use http_server_from_scratch.Memory.{Memory}
use http_server_from_scratch.ParseResult.{
  ParseStatus, ParseResult, parse_ok, is_ok, parse_error_set,
}
use http_server_from_scratch.Parser.Search.{FirstAt, crlf_find_lem}
use http_server_from_scratch.Parser.{is_crlf, crlf_find}
use http_server_from_scratch.Prelude.{
  ℕ, zero, suc, ◌+◌, ◌-◌, ◌<◌, ◌≤◌, ◌≡◌, ◌≢◌, inl, inr, refl, subst, true, false, arith, List, [],
  ◌∷◌, length, length-append, All, All-append, Option, some, Bool-cases,
}
use http_server_from_scratch.Request.{headers_loop}

pub ok_of : (s : ParseStatus) → is_ok s ≡ true → s ≡ parse_ok
ok_of s h = ground arith

pub not_ok_of : (s : ParseStatus) → is_ok s ≡ false → s ≢ parse_ok
not_ok_of s h = ground arith

-- One header line and its CRLF move the cursor on, within the range.
line_progress :
    (m : Memory) (cur end : ℕ) (headers : List Header)
    → let line = header_line_parse m cur (crlf_find m cur end) headers in
      line.0.status ≡ parse_ok
      → (crlf_parse m line.0.next end).status ≡ parse_ok
      → (cur < (crlf_parse m line.0.next end).next) × ((crlf_parse m line.0.next end).next ≤ end)
line_progress m cur end headers ok eol =
    let r = header_line_parse_sound m cur (crlf_find m cur end) headers ok in
    let (fits, _, next) = crlf_parse_sound m _ end eol in
    omega (arith, next, fits, r.value.at_end, r.value.lo, r.value.mid, r.value.hi, r.key.some_bytes)

-- The stored headers are well formed and fit the array.
pub record AreHeaders (headers : List Header) : Type 0 where
  pub each : All IsHeader headers
  pub count : length headers ≤ http_max_headers

line-AreHeaders :
    (m : Memory) (cur end : ℕ) (headers : List Header)
    → AreHeaders headers
    → AreHeaders (header_line_parse m cur end headers).1
line-AreHeaders m cur end headers a =
    elim (Bool-cases (is_ok (header_line_parse m cur end headers).0.status)) [
      | inr e ↦ rw (header_line_parse_failed m cur end headers (not_ok_of _ e)) a
      | inl e ↦
          let r = header_line_parse_sound m cur end headers (ok_of _ e) in
          rw r.stored (record {
            each = All-append IsHeader headers (r.header ∷ []) a.each (HeaderRead-IsHeader r, tt);
            count = rw length-append (omega (arith, r.room));
          })
    ]

-- A header line at the cursor: it is not empty, it ends at the first CRLF from the cursor on, which
-- is inside the range, and the header that it is read as is appended.
pub record LineAt (m : Memory) (cur end : ℕ) (headers headers' : List Header) : Type 0 where
  pub not_empty : is_crlf m cur ≡ false
  pub first_eol : FirstAt (is_crlf m) cur (crlf_find m cur end)
  pub in_range : crlf_find m cur end + 2 ≤ end
  pub read : HeaderRead m cur (crlf_find m cur end) headers headers' (crlf_find m cur end)

-- The block at a cursor, with some headers stored before: an empty line, behind which the block ends
-- and nothing is stored; or a header line, and the block behind it.
pub data Block (m : Memory) (end next : ℕ) (all : List Header) : ℕ → List Header → Type 0 where
  empty_line :
      {cur : ℕ} → is_crlf m cur ≡ true → next ≡ cur + 2 → next ≤ end → Block m end next all cur all
  header_line :
      {cur : ℕ} {headers headers' : List Header}
      → LineAt m cur end headers headers'
      → Block m end next all (crlf_find m cur end + 2) headers'
      → Block m end next all cur headers

-- What the loop returns.
pub record BlockRead (m : Memory) (cur end : ℕ) (headers : List Header)
    (loop : Option (ParseResult × List Header)) : Type 0 where
  pub result : ParseResult × List Header
  pub returned : loop ≡ some result
  pub stored : AreHeaders result.1
  pub ends : result.0.status ≡ parse_ok → Block m end result.0.next result.1 cur headers

not_at :
    (m : Memory) (cur end : ℕ)
    → is_ok (crlf_parse m cur end).status ≡ false
    → cur + 2 ≤ end
    → is_crlf m cur ≡ false
unfolding crlf_parse parse_error_set
not_at m cur end h fits = ground (arith, h, fits)

-- A line that is parsed, and the CRLF behind it.
line-LineAt :
    (m : Memory) (cur end : ℕ) (headers : List Header)
    → let line = header_line_parse m cur (crlf_find m cur end) headers in
      is_ok (crlf_parse m cur end).status ≡ false
      → line.0.status ≡ parse_ok
      → (crlf_parse m line.0.next end).status ≡ parse_ok
      → LineAt m cur end headers line.1
        × ((crlf_parse m line.0.next end).next ≡ crlf_find m cur end + 2)
line-LineAt m cur end headers live ok eol =
    let r = header_line_parse_sound m cur (crlf_find m cur end) headers ok in
    let (fits, _, next) = crlf_parse_sound m _ end eol in
    let line = header_line_parse m cur (crlf_find m cur end) headers in
    let there : line.0.next ≡ crlf_find m cur end = r.value.at_end in
    elim (crlf_find_lem m cur end) [
      | inl (e, _) ↦ absurd (omega (arith, e, fits, there))
      | inr (_, first) ↦ (
        record {
          not_empty =
              not_at m cur end live
                (omega (arith, fits, there, r.value.lo, r.value.mid, r.value.hi, r.key.some_bytes));
          first_eol = first;
          in_range = omega (arith, fits, there);
          read = subst (HeaderRead m cur (crlf_find m cur end) headers line.1) there r;
        },
        omega (arith, next, there),
      )
    ]

-- A return that is not PARSE_OK.
BlockRead-failed :
    {m : Memory} {cur end : ℕ} {before : List Header} (res : ParseResult) (headers : List Header)
    → is_ok res.status ≡ false
    → AreHeaders headers
    → BlockRead m cur end before (some (res, headers))
BlockRead-failed res headers e a = record {
  result = (res, headers);
  returned = refl;
  stored = a;
  ends = λ k. absurd (not_ok_of _ e k);
}

pub headers_loop-BlockRead :
    (m : Memory) (end n cur : ℕ) (res : ParseResult) (headers : List Header)
    → end - cur < n
    → AreHeaders headers
    → BlockRead m cur end headers (headers_loop m end n cur res headers)
unfolding headers_loop
headers_loop-BlockRead m end zero cur res headers fuel a = absurd (omega arith)
headers_loop-BlockRead m end (suc n) cur res headers fuel a =
    let eol = crlf_parse m cur end in
    let line = header_line_parse m cur (crlf_find m cur end) headers in
    let crlf = crlf_parse m line.0.next end in
    let a' = line-AreHeaders m cur (crlf_find m cur end) headers a in
    elim (Bool-cases (is_ok eol.status)) [
      | inl e ↦
          let (fits, hit, next) = crlf_parse_sound m cur end (ok_of _ e) in
          rw e (record {
            result = (record res { status = parse_ok; next = eol.next }, headers);
            returned = refl;
            stored = a;
            ends = λ _. empty_line hit next (omega (arith, next, fits));
          })
      | inr e ↦ elim (Bool-cases (is_ok line.0.status)) [
        | inr f ↦ rw (e, f) (BlockRead-failed line.0 line.1 f a')
        | inl f ↦ elim (Bool-cases (is_ok crlf.status)) [
          | inr g ↦ rw (e, f, g) (BlockRead-failed crlf line.1 g a')
          | inl g ↦
              let (on, inside) = line_progress m cur end headers (ok_of _ f) (ok_of _ g) in
              let (at, next) = line-LineAt m cur end headers e (ok_of _ f) (ok_of _ g) in
              let t =
                headers_loop-BlockRead m end n crlf.next crlf line.1
                  (omega (arith, fuel, on, inside)) a' in
              rw (e, f, g)
                (record {
                  result = t.result;
                  returned = t.returned;
                  stored = t.stored;
                  ends = λ k. header_line at (
                      subst (λ c. Block m end t.result.0.next t.result.1 c line.1) next (t.ends k));
                })
        ]
      ]
    ]
