-- ===== src/Headers/Field.antt =====
-- src/HttpHeaders.c, `header_key_parse` and `header_value_parse`: what an accepted field is.
use http_server_from_scratch.Config.{http_max_header_key_len, http_max_header_value_len}
use http_server_from_scratch.Headers.{
  Header, key_loop, header_key_parse, value_loop, header_value_parse,
}
use http_server_from_scratch.Memory.Scan.{length-slice}
use http_server_from_scratch.Memory.{Memory, slice}
use http_server_from_scratch.ParseResult.{ParseResult, parse_ok, parse_bad_request, parse_error_set}
use http_server_from_scratch.Parser.Search.{ows_skip_lem, ows_trim_trailing_lem}
use http_server_from_scratch.Parser.{
  is_ows, is_colon, is_tchar, is_field_content_byte, ows_skip, ows_trim_trailing,
}
use http_server_from_scratch.Prelude.{
  ℕ, zero, suc, ◌+◌, ◌-◌, ◌<◌, ◌≤◌, ◌≡◌, inl, inr, refl, sym, ap, ◌∙◌, true, false, arith, CString,
  [], ◌∷◌, ◌++◌, length, length-append, All, Bool-cases, leb,
}
use http_server_from_scratch.RequestLine.{bad_at}
use mathlib.Core.List.{append-nil, append_assoc}

-- What the loop has read when it ends well.
record KeyLoop (m : Memory) (n cur : ℕ) (key key' : CString) (next : ℕ) : Type 0 where
  raw : key' ≡ key ++ slice m cur n
  token : All (λ c. is_tchar c ≡ true) (slice m cur n)
  fits : length key' < http_max_header_key_len
  behind : next ≡ cur + n + 1

key_loop-KeyLoop :
    (m : Memory) (res : ParseResult) (n cur : ℕ) (key : CString)
    → res.status ≡ parse_bad_request
    → length key < http_max_header_key_len
    → (key_loop m res n cur key).0.status ≡ parse_ok
    → KeyLoop m n cur key (key_loop m res n cur key).1 (key_loop m res n cur key).0.next
unfolding key_loop slice parse_error_set
key_loop-KeyLoop m res zero cur key bad fits h = record {
  raw = sym (append-nil key);
  token = tt;
  fits = fits;
  behind = omega arith;
}
key_loop-KeyLoop m res (suc n) cur key bad fits h = elim (Bool-cases (is_tchar (m cur))) [
  | inr e ↦ ground arith
  | inl e ↦ elim (Bool-cases (leb (http_max_header_key_len - 1) (length key))) [
    | inl long ↦ ground arith
    | inr room ↦
        let t =
          key_loop-KeyLoop m res n (cur + 1) (key ++ m cur ∷ []) bad
            (rw length-append (ground arith)) (rw (e, room) at h) in
        rw (e, room)
          (record {
            raw = t.raw ∙ append_assoc key (m cur ∷ []) (slice m (cur + 1) n);
            token = (e, t.token);
            fits = t.fits;
            behind = omega (arith, t.behind);
          })
  ]
]

-- What PARSE_OK from `header_key_parse` means.
pub record KeyRead (m : Memory) (cur end : ℕ) (key : CString) (next : ℕ) : Type 0 where
  pub some_bytes : cur < end
  pub raw : key ≡ slice m cur (end - cur)
  pub token : All (λ c. is_tchar c ≡ true) key
  pub fits : length key < http_max_header_key_len
  pub colon : is_colon (m end) ≡ true
  pub behind : next ≡ end + 1

key_passes :
    (m : Memory) (cur end : ℕ) (header : Header)
    → (header_key_parse m cur end header).0.status ≡ parse_ok
    → let loop = key_loop m (bad_at cur) (end - cur) cur [] in
      (cur < end)
      × (is_colon (m end) ≡ true)
      × (loop.0.status ≡ parse_ok)
      × (header_key_parse m cur end header ≡ (loop.0, record header { key = loop.1 }))
unfolding header_key_parse parse_error_set
key_passes m cur end header h = ground arith

-- PARSE_OK means that the range is a token of at least one byte with a colon behind it, and that
-- the key is that token and fits its array with a NUL. The value is left alone.
pub header_key_parse_sound :
    (m : Memory) (cur end : ℕ) (header : Header)
    → (header_key_parse m cur end header).0.status ≡ parse_ok
    → KeyRead m cur end
        (header_key_parse m cur end header).1.key
        (header_key_parse m cur end header).0.next
      × ((header_key_parse m cur end header).1.value ≡ header.value)
header_key_parse_sound m cur end header h =
    let (some_bytes, colon, ended, result) = key_passes m cur end header h in
    let t =
      key_loop-KeyLoop m (bad_at cur) (end - cur) cur [] (unfold parse_error_set in refl)
        (omega arith) ended in
    rw result (
      record {
        some_bytes = some_bytes;
        raw = t.raw;
        token = rw t.raw t.token;
        fits = t.fits;
        colon = colon;
        behind = omega (arith, t.behind);
      },
      refl,
    )

-- What the loop over the value has read when it ends well.
record ValueLoop (m : Memory) (n cur : ℕ) (value value' : CString) : Type 0 where
  raw : value' ≡ value ++ slice m cur n
  content : All (λ c. is_field_content_byte c ≡ true) (slice m cur n)

value_loop-ValueLoop :
    (m : Memory) (res done : ParseResult) (n cur : ℕ) (value : CString)
    → res.status ≡ parse_bad_request
    → (value_loop m res done n cur value).0.status ≡ parse_ok
    → ValueLoop m n cur value (value_loop m res done n cur value).1
      × ((value_loop m res done n cur value).0 ≡ done)
unfolding value_loop slice
value_loop-ValueLoop m res done zero cur value bad h =
    (record { raw = sym (append-nil value); content = tt }, refl)
value_loop-ValueLoop m res done (suc n) cur value bad h =
    elim (Bool-cases (is_field_content_byte (m cur))) [
      | inr e ↦ ground arith
      | inl e ↦
          let (t, at_end) =
            value_loop-ValueLoop m res done n (cur + 1) (value ++ m cur ∷ []) bad (rw e at h) in
          rw e (
            record {
              raw = t.raw ∙ append_assoc value (m cur ∷ []) (slice m (cur + 1) n);
              content = (e, t.content);
            },
            at_end,
          )
    ]

-- What PARSE_OK from `header_value_parse` means: `[start, stop)` is the range without the blanks
-- round it.
pub record ValueRead (m : Memory) (cur end : ℕ) (value : CString) (next : ℕ) : Type 0 where
  pub start : ℕ
  pub stop : ℕ
  pub lo : cur ≤ start
  pub mid : start ≤ stop
  pub hi : stop ≤ end
  pub raw : value ≡ slice m start (stop - start)
  pub before : (q : ℕ) → cur ≤ q → q < start → is_ows (m q) ≡ true
  pub after : (q : ℕ) → stop ≤ q → q < end → is_ows (m q) ≡ true
  pub first : start < stop → is_ows (m start) ≡ false
  pub last : start < stop → is_ows (m (stop - 1)) ≡ false
  pub content : All (λ c. is_field_content_byte c ≡ true) value
  pub fits : length value < http_max_header_value_len
  pub at_end : next ≡ end

value_passes :
    (m : Memory) (cur end : ℕ) (header : Header)
    → (header_value_parse m cur end header).0.status ≡ parse_ok
    → let start = ows_skip m cur end in
      let stop = ows_trim_trailing m start end in
      let loop =
        value_loop m
          (bad_at cur)
          (record (bad_at cur) { status = parse_ok; next = end })
          (stop - start)
          start
          [] in
      (end - cur < http_max_header_value_len)
      × (cur ≤ end)
      × (loop.0.status ≡ parse_ok)
      × (header_value_parse m cur end header ≡ (loop.0, record header { value = loop.1 }))
unfolding header_value_parse parse_error_set
value_passes m cur end header h = ground arith

-- PARSE_OK means that the value is the range without the spaces and tabs at its two ends, that all
-- its bytes may stand in a field, and that it fits its array with a NUL. The key is left alone.
pub header_value_parse_sound :
    (m : Memory) (cur end : ℕ) (header : Header)
    → (header_value_parse m cur end header).0.status ≡ parse_ok
    → ValueRead m cur end
        (header_value_parse m cur end header).1.value
        (header_value_parse m cur end header).0.next
      × ((header_value_parse m cur end header).1.key ≡ header.key)
header_value_parse_sound m cur end header h =
    let (short, forward, ended, result) = value_passes m cur end header h in
    let start = ows_skip m cur end in
    let stop = ows_trim_trailing m start end in
    let a = ows_skip_lem m cur end forward in
    let b = ows_trim_trailing_lem m start end (omega (arith, a.hi)) in
    let (t, at_end) =
      value_loop-ValueLoop m (bad_at cur) _ (stop - start) start [] (unfold parse_error_set in refl)
        ended in
    rw result (
      record {
        start = start;
        stop = stop;
        lo = a.lo;
        mid = omega (arith, b.lo, a.hi);
        hi = b.hi;
        raw = t.raw;
        before = a.passed;
        after = b.passed;
        first = λ k. a.failed (omega (arith, b.hi));
        last = λ k. b.failed (omega (arith, a.hi));
        content = rw t.raw t.content;
        fits = rw (t.raw, length-slice) (omega (arith, a.lo, b.hi));
        at_end = ap (λ (r : ParseResult). r.next) at_end;
      },
      refl,
    )
