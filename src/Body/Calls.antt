-- ===== src/Body/Calls.antt =====
-- The calls of `chunk_advance` in src/HttpBody.c on the parts of a chunk that src/HttpResponse.c wrote.
use http_server_from_scratch.Body.Chunk.{
  ChunkDecoder, ChunkedPhase, chunk_data, chunk_trail_cr, Advanced, advance_size, advance_data,
  advance_byte, size_line, move,
}
use http_server_from_scratch.Config.{http_max_body_len}
use http_server_from_scratch.Memory.{Memory, null, slice, Stands, memchr, memcpy}
use http_server_from_scratch.ParseResult.Uint.{numeral, uint_parse_complete}
use http_server_from_scratch.ParseResult.{parse_ok, value, uint_parse}
use http_server_from_scratch.Parser.Search.{crlf_find_lem, memchr_lem}
use http_server_from_scratch.Parser.{is_crlf, crlf_find}
use http_server_from_scratch.Prelude.{
  ℕ, suc, ◌+◌, ◌-◌, ◌≤◌, ◌<◌, ◌≡◌, inl, inr, refl, sym, ap, subst, ◌∙◌, arith, true, false,
  Bool-cases, ltb, ◌==◌, ==_iff, if◌then◌else◌, List, [], ◌∷◌, ◌++◌, length, All,
}
use http_server_from_scratch.Response.Digits.{
  IsDigit, print_uint-All, print_uint-numeral, print_uint-pos,
}
use http_server_from_scratch.Response.{print_uint, crlf}
use Prim.{tt, absurd, ⊥}

pub Stands-append :
    (m : Memory) (p : ℕ) (xs ys : List ℕ)
    → Stands m p (xs ++ ys)
    → Stands m p xs × Stands m (p + length xs) ys
Stands-append m p [] ys h = let e : p ≡ p + 0 = omega arith in (tt, subst (λ t. Stands m t ys) e h)
Stands-append m p (x ∷ xs) ys h =
    let (a, b) = Stands-append m (p + 1) xs ys h.1 in
    let e : p + 1 + length xs ≡ p + suc (length xs) = omega arith in
    ((h.0, a), subst (λ t. Stands m t ys) e b)

Stands-slice : (m : Memory) (p : ℕ) (xs : List ℕ) → Stands m p xs → slice m p (length xs) ≡ xs
unfolding slice
Stands-slice m p [] h = refl
Stands-slice m p (x ∷ xs) h = rw (h.0, Stands-slice m (p + 1) xs h.1) refl

Stands-IsDigit :
    (m : Memory) (p : ℕ) (xs : List ℕ)
    → Stands m p xs
    → All IsDigit xs
    → (q : ℕ) → p ≤ q
    → q < p + length xs
    → IsDigit (m q)
Stands-IsDigit m p [] h a q lo hi = absurd (omega (arith, lo, hi))
Stands-IsDigit m p (x ∷ xs) h a q lo hi = elim (Bool-cases (q == p)) [
  | inl e ↦
      let at : p ≡ q = sym ((==_iff q p).0 e) in
      subst (λ t. IsDigit (m t)) at (subst IsDigit (sym h.0) a.0)
  | inr e ↦ Stands-IsDigit m (p + 1) xs h.1 a.1 q (ground (arith, e, lo)) (omega (arith, hi))
]

-- A digit is neither the first byte of a CRLF nor a semicolon.
digit_no_crlf : (m : Memory) (q : ℕ) → IsDigit (m q) → is_crlf m q ≡ true → ⊥
unfolding is_crlf
digit_no_crlf m q d h = ground (arith, d, h)

digit_no_semi : (m : Memory) (q : ℕ) → IsDigit (m q) → (m q == b';') ≡ true → ⊥
digit_no_semi m q d h = ground (arith, d, h)

-- Behind the digits the first CRLF, with no semicolon in front.
crlf-behind :
    (m : Memory) (cur in_len : ℕ) (xs : List ℕ)
    → Stands m cur (xs ++ crlf)
    → All IsDigit xs
    → length xs + 2 ≤ in_len
    → crlf_find m cur (cur + in_len) ≡ cur + length xs
unfolding is_crlf
crlf-behind m cur in_len xs h a l =
    let (ds, c) = Stands-append m cur xs crlf h in
    let r = crlf_find m cur (cur + in_len) in
    let e₀ : m (cur + length xs) ≡ 13 = c.0 in
    let e₁ : m (cur + length xs + 1) ≡ 10 = c.1.0 in
    let hit : is_crlf m (cur + length xs) ≡ true = ground (arith, e₀, e₁) in
    elim (crlf_find_lem m cur (cur + in_len)) [
      | inl (e, absent) ↦
          let miss = absent (cur + length xs) (omega arith) (omega (arith, l)) in
          cc (sym hit ∙ miss)
      | inr (e, f) ↦ elim (Bool-cases (ltb r (cur + length xs))) [
        | inl g ↦
            absurd
              (digit_no_crlf m r (Stands-IsDigit m cur xs ds a r f.lo (ground (arith, g))) f.hit)
        | inr g ↦ elim (Bool-cases (ltb (cur + length xs) r)) [
          | inl k ↦
              let miss = f.before (cur + length xs) (omega arith) (ground (arith, k)) in
              cc (sym hit ∙ miss)
          | inr k ↦ ground (arith, g, k)
        ]
      ]
    ]

no_semi :
    (m : Memory) (cur : ℕ) (xs : List ℕ)
    → 0 < cur
    → Stands m cur xs
    → All IsDigit xs
    → memchr m cur b';' (length xs) ≡ null
no_semi m cur xs pos h a = elim (memchr_lem m cur b';' (length xs) pos) [
  | inl (e, absent) ↦ e
  | inr (there, hi, f) ↦ absurd (digit_no_semi m _ (Stands-IsDigit m cur xs h a _ f.lo hi) f.hit)
]

pub size_read :
    (dec : ChunkDecoder) (m : Memory) (cur in_len n : ℕ)
    → 0 < cur
    → 0 < n
    → n ≤ http_max_body_len
    → Stands m cur (print_uint 16 n ++ crlf)
    → length (print_uint 16 n) + 2 ≤ in_len
    → advance_size dec m cur in_len
      ≡ move (record { phase = chunk_data; remaining = n }) m (cur + length (print_uint 16 n) + 2)
unfolding advance_size size_line
size_read dec m cur in_len n pos some_bytes le h l =
    let xs = print_uint 16 n in
    let ds = Stands-append m cur xs crlf h in
    let digits = print_uint-All 16 n (omega arith) (omega arith) in
    let len = print_uint-pos 16 n in
    let found = crlf-behind m cur in_len xs h digits l in
    let semi = no_semi m cur xs pos ds.0 digits in
    let size : cur + length xs - cur ≡ length xs = omega arith in
    let there : (cur + length xs == null) ≡ false = ground (arith, pos) in
    let room : ltb (cur + in_len - (cur + length xs)) 2 ≡ false = ground (arith, l) in
    let some_digits : (cur + length xs == cur) ≡ false = ground (arith, len) in
    let num : uint_parse m cur (length xs) 16 http_max_body_len ≡ value n =
      uint_parse_complete 16 http_max_body_len (omega arith) (omega arith) (omega arith) m cur
        (length xs) n len
        (ap (numeral 16 0) (Stands-slice m cur xs ds.0)
          ∙ print_uint-numeral 16 n (omega arith) (omega arith) (omega (arith, le)))
        le in
    let more : (n == 0) ≡ false = ground (arith, some_bytes) in
    rw (found, size, semi, there, room, some_digits, size, num, more) refl

-- The result of a call that took all `n` bytes of a chunk's data.
abbrev pub data_result : Memory → ℕ → ℕ → Advanced
data_result m cur n = record {
  result = record {
    parse_result = record { status = parse_ok; error_position = null; next = cur + n };
    bytes_written = n;
  };
  dec = record { phase = chunk_trail_cr; remaining = 0 };
  memory = m;
}

pub data_read :
    (dec : ChunkDecoder) (m : Memory) (cur in_len out out_avail : ℕ)
    → dec.phase ≡ chunk_data
    → dec.remaining ≤ in_len
    → dec.remaining ≤ out_avail
    → advance_data dec m cur in_len out out_avail
      ≡ data_result (memcpy m out cur dec.remaining) cur dec.remaining
unfolding advance_data
data_read dec m cur in_len out out_avail p i o =
    let n = dec.remaining in
    let whole : (if ltb n in_len then n else in_len) ≡ n = ground (arith, i) in
    let fits : ltb out_avail n ≡ false = ground (arith, o) in
    let none_left : n - n ≡ 0 = omega arith in rw (whole, fits, none_left) refl

pub byte_read :
    (expected : ℕ) (phase : ChunkedPhase) (dec : ChunkDecoder) (m : Memory) (cur in_len : ℕ)
    → 0 < in_len
    → m cur ≡ expected
    → advance_byte expected phase dec m cur in_len ≡ move (record dec { phase = phase }) m (cur + 1)
unfolding advance_byte
byte_read expected phase dec m cur in_len l h =
    let some_bytes : (in_len == 0) ≡ false = ground (arith, l) in
    let same : (m cur == expected) ≡ true = (==_iff (m cur) expected).1 h in
    rw (some_bytes, same) refl
