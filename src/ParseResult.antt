-- ===== src/ParseResult.antt =====
-- src/ParseResult.c and include/http_server/ParseResult.h: the parsers' status and cursor, and the
-- unsigned-integer parser. `http_date_parse` and `http_date_format` only call the C library.
pub mod Uint
use http_server_from_scratch.Memory.{Memory, null, size_mod}
use http_server_from_scratch.Parser.{isdigit, is_hex}
use http_server_from_scratch.Prelude.{
  ℕ, zero, suc, ◌+◌, ◌-◌, ◌*◌, ◌/◌, ◌%◌, Bool, true, false, not, ◌&&◌, ◌||◌, ltb, leb, ◌==◌,
  if◌then◌else◌, Option, none, some,
}

pub data ParseStatus : Type 0 where
  parse_ok parse_bad_request parse_uri_too_long parse_header_key_too_long : ParseStatus
  parse_header_value_too_long parse_header_too_long parse_version_not_supported : ParseStatus
  parse_payload_too_large parse_not_implemented parse_incomplete parse_not_found : ParseStatus
  parse_not_allowed parse_server_error : ParseStatus

-- `status == PARSE_OK`
abbrev pub is_ok : ParseStatus → Bool
is_ok parse_ok = true
is_ok _ = false

pub record ParseResult : Type 0 where
  pub status : ParseStatus
  pub error_position : ℕ
  pub next : ℕ

-- `ParseResult res = {0};`
abbrev pub parse_result_zero : ParseResult
parse_result_zero = record { status = parse_ok; error_position = null; next = null }

unfoldable pub parse_error_set : ParseResult → ParseStatus → ℕ → ParseResult
parse_error_set res status pos = record res { status = status; error_position = pos }

-- `return v < base ? v : -1;` with `none` for -1
abbrev below_base : ℕ → ℕ → Option ℕ
below_base base v = if ltb v base then some v else none

unfoldable pub digit_value : ℕ → ℕ → Option ℕ
digit_value c base =
    if leb b'0' c && leb c b'9'
    then (if not (isdigit c) then none else below_base base (c - b'0'))
    else if leb b'a' c && leb c b'f'
    then (if not (is_hex c) then none else below_base base (10 + (c - b'a')))
    else if leb b'A' c && leb c b'F'
    then (if not (is_hex c) then none else below_base base (10 + (c - b'A')))
    else none

-- The outcome of `uint_parse`: the value goes out through `*out` on PARSE_OK alone.
pub data UintResult : Type 0 where
  value : ℕ → UintResult
  failed : ParseStatus → UintResult

-- The loop over the `n` bytes from `s`, on `size_t` values.
unfoldable pub uint_loop : Memory → ℕ → ℕ → ℕ → ℕ → ℕ → UintResult
uint_loop m s zero base max result = value result
uint_loop m s (suc n) base max result = elim (digit_value (m s) base) [
  | none ↦ failed parse_bad_request
  | some digit ↦
      let rest = uint_loop m (s + 1) n base max ((result * base + digit) % size_mod) in
      if ltb ((max + size_mod - digit) % size_mod / base) result
      then failed parse_payload_too_large
      else rest
]

unfoldable pub uint_parse : Memory → ℕ → ℕ → ℕ → ℕ → UintResult
uint_parse m s len base max =
    if len == 0 || m s == 0 then failed parse_bad_request else uint_loop m s len base max 0
