-- ===== src/Body/TransferEncoding.antt =====
-- src/HttpBody.c, `transfer_encoding_parse`: the list of codings in a Transfer-Encoding header.
use http_server_from_scratch.Memory.{Memory, null, advance, memchr, string_memory, slice}
use http_server_from_scratch.ParseResult.{
  ParseStatus, parse_ok, parse_bad_request, parse_not_implemented,
}
use http_server_from_scratch.Parser.{ows_skip, ows_trim_trailing, is_token}
use http_server_from_scratch.Prelude.{
  ℕ, zero, suc, ◌+◌, ◌-◌, Bool, true, false, not, ◌&&◌, ltb, leb, ◌==◌, if◌then◌else◌, length,
  CString, codes, str_eq, map, Option, none, some,
}

pub data TransferCoding : Type 0 where
  te_none te_chunked te_unsupported : TransferCoding

-- `if (c >= 'A' && c <= 'Z') c += 32;`
abbrev lower : ℕ → ℕ
lower c = if leb b'A' c && leb c b'Z' then c + 32 else c

-- The loop compares all seven bytes with the literal.
unfoldable pub eq_chunked : Memory → ℕ → ℕ → Bool
eq_chunked m start len =
    if not (len == 7) then false else str_eq (map lower (slice m start 7)) (codes "chunked")

-- The variables of the loop; `chunked_position` is read only once `chunked_found` is set, so its
-- start value -1 is written 0 here.
pub record Codings : Type 0 where
  pub chunked_found : Bool
  pub total_non_empty : ℕ
  pub chunked_position : ℕ
  pub has_unsupported : Bool

abbrev pub codings_zero : Codings
codings_zero = record {
  chunked_found = false;
  total_non_empty = 0;
  chunked_position = 0;
  has_unsupported = false;
}

-- The body of `if (tok_start < tok_end)`; `none` is PARSE_BAD_REQUEST.
unfoldable pub coding_classify : Memory → ℕ → ℕ → Codings → Option Codings
coding_classify m tok_start tok_end s =
    let semi = memchr m tok_start b';' (tok_end - tok_start) in
    let name_end = if semi == null then tok_end else ows_trim_trailing m tok_start semi in
    let name_len = name_end - tok_start in
    if name_len == 0
    then none
    else if not (is_token m tok_start name_len)
    then none
    else if eq_chunked m tok_start name_len
    then (if s.chunked_found
        then none
        else some (record s {
          chunked_found = true;
          chunked_position = s.total_non_empty;
          total_non_empty = s.total_non_empty + 1;
        }))
    else some (record s { has_unsupported = true; total_non_empty = s.total_non_empty + 1 })

-- The loop over the list in at most `n` rounds; each uses up a byte, so the bytes left are enough.
unfoldable pub codings_loop : Memory → ℕ → ℕ → ℕ → Codings → Option Codings
codings_loop m end zero cur s = some s
codings_loop m end (suc n) cur s =
    let tok_start = ows_skip m cur end in
    let comma = advance (λ q. not (m q == b',')) (end - cur) cur in
    let tok_end = ows_trim_trailing m tok_start comma in
    let after = if ltb comma end then comma + 1 else comma in
    let classified =
      if ltb tok_start tok_end then coding_classify m tok_start tok_end s else some s in
    if not (ltb cur end)
    then some s
    else elim classified [ none ↦ none | some s' ↦ codings_loop m end n after s' ]

-- The decision behind the loop.
unfoldable pub codings_decide : Codings → ParseStatus × TransferCoding
codings_decide s =
    if s.total_non_empty == 0
    then (parse_bad_request, te_none)
    else if s.chunked_found
        && s.has_unsupported
        && not (s.chunked_position == s.total_non_empty - 1)
    then (parse_bad_request, te_none)
    else if s.has_unsupported
    then (parse_not_implemented, te_unsupported)
    else (parse_ok, te_chunked)

-- The status, and `*coding`. The string stands at address 1.
unfoldable pub transfer_encoding_parse : CString → ParseStatus × TransferCoding
transfer_encoding_parse val =
    let m = string_memory 1 val in
    elim (codings_loop m (1 + length val) (length val) 1 codings_zero) [
      | none ↦ (parse_bad_request, te_none)
      | some s ↦ codings_decide s
    ]
