-- ===== src/Parser.antt =====
-- src/parser.c: the byte classes, the cursor searches, and the tests on C strings.
pub mod Search
use http_server_from_scratch.Memory.{Memory, advance, retreat}
use http_server_from_scratch.Prelude.{
  ℕ, zero, suc, ◌+◌, ◌-◌, Bool, true, false, not, ◌&&◌, ◌||◌, [], ◌∷◌, ltb, leb, ◌==◌,
  if◌then◌else◌, length, CString, str_eq,
}

-- `isdigit`, `isalpha`, `isalnum` and `tolower` of <ctype.h> in the C locale
abbrev pub isdigit : ℕ → Bool
isdigit c = leb b'0' c && leb c b'9'

abbrev pub isalpha : ℕ → Bool
isalpha c = (leb b'a' c && leb c b'z') || (leb b'A' c && leb c b'Z')

abbrev pub isalnum : ℕ → Bool
isalnum c = isdigit c || isalpha c

unfoldable pub tolower : ℕ → ℕ
tolower c = if leb b'A' c && leb c b'Z' then c + 32 else c

unfoldable pub is_crlf : Memory → ℕ → Bool
is_crlf m cur = m cur == b'\r' && m (cur + 1) == b'\n'

-- Returns `end` when there is no CRLF.
unfoldable pub crlf_find : Memory → ℕ → ℕ → ℕ
crlf_find m cur end =
    let p = advance (λ q. not (is_crlf m q)) (end - 1 - cur) cur in
    if ltb (p + 1) end then p else end

unfoldable pub is_ows : ℕ → Bool
is_ows c = c == b' ' || c == b'\t'

unfoldable pub is_colon : ℕ → Bool
is_colon c = c == b':'

-- Returns `end` when there is no colon.
unfoldable pub colon_find : Memory → ℕ → ℕ → ℕ
colon_find m cur end =
    let p = advance (λ q. not (is_colon (m q))) (end - cur) cur in if ltb p end then p else end

unfoldable pub ows_skip : Memory → ℕ → ℕ → ℕ
ows_skip m cur end = advance (λ q. is_ows (m q)) (end - cur) cur

-- The loop tests `*end`, the one byte past the range.
unfoldable pub range_trim_to_comma : Memory → ℕ → ℕ → ℕ
range_trim_to_comma m start end = retreat (λ q. not (m (q + 1) == b',')) (end - start) end

unfoldable pub ows_trim_trailing : Memory → ℕ → ℕ → ℕ
ows_trim_trailing m start end = retreat (λ q. is_ows (m q)) (end - start) end

unfoldable pub is_hex : ℕ → Bool
is_hex c = isdigit c || (leb b'a' c && leb c b'f') || (leb b'A' c && leb c b'F')

unfoldable pub is_tchar : ℕ → Bool
is_tchar c =
    c == b'!'
    || c == b'#'
    || c == b'$'
    || c == b'%'
    || c == b'&'
    || c == b'\''
    || c == b'*'
    || c == b'+'
    || c == b'-'
    || c == b'.'
    || c == b'^'
    || c == b'_'
    || c == b'`'
    || c == b'|'
    || c == b'~'
    || isalnum c

-- The loop of `is_token` over the `n` bytes from `p`.
unfoldable pub all_tchar : Memory → ℕ → ℕ → Bool
all_tchar m p zero = true
all_tchar m p (suc n) = if not (is_tchar (m p)) then false else all_tchar m (p + 1) n

unfoldable pub is_token : Memory → ℕ → ℕ → Bool
is_token m token len = if leb len 0 then false else all_tchar m token len

unfoldable pub is_vchar : ℕ → Bool
is_vchar c = leb 0x21 c && leb c 0x7e

unfoldable pub is_field_content_byte : ℕ → Bool
is_field_content_byte c = is_ows c || is_vchar c || leb 0x80 c

-- The loop stops at a difference, or at the NUL that ends one of the strings; equal means that
-- both are then at their NUL.
unfoldable pub ascii_ieq : CString → CString → Bool
ascii_ieq [] [] = true
ascii_ieq (x ∷ a) (y ∷ b) = if not (tolower x == tolower y) then false else ascii_ieq a b
ascii_ieq _ _ = false

-- `str + k`
unfoldable pub string_from : ℕ → CString → CString
string_from zero s = s
string_from (suc k) [] = []
string_from (suc k) (c ∷ s) = string_from k s

-- Neither argument is NULL. `strncmp` over `len_suffix` bytes compares the two tails whole, since
-- both are that long.
unfoldable pub str_ends_with : CString → CString → Bool
str_ends_with str suffix =
    if ltb (length str) (length suffix)
    then false
    else str_eq (string_from (length str - length suffix) str) suffix
