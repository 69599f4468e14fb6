-- ===== src/Response/Digits.antt =====
-- The numbers that src/HttpResponse.c prints, as src/ParseResult.c reads them.
use http_server_from_scratch.ParseResult.Uint.{numeral, numeral-cons}
use http_server_from_scratch.ParseResult.{digit_value}
use http_server_from_scratch.Parser.{is_hex}
use http_server_from_scratch.Prelude.{
  ℕ, zero, suc, ◌/◌, ◌%◌, ◌^◌, ◌≤◌, ◌<◌, ◌≡◌, ◌⊎◌, inl, inr, ap, subst, ◌∙◌, arith, false,
  Bool-cases, ltb, ◌==◌, ==_iff, List, [], ◌∷◌, length, All, some,
}
use http_server_from_scratch.Response.{digit_char, print_loop, print_uint}
use native.Mathlib.Nat.{mod-lt, div-add-mod', div-lt_iff_lt-mul, pow-suc, pow-zero}
use Prim.{tt, absurd}

-- A digit up to f, in lower case.
abbrev pub IsDigit : ℕ → Type 0
IsDigit c = ((48 ≤ c) × (c ≤ 57)) ⊎ ((97 ≤ c) × (c ≤ 102))

digit_char-IsDigit : (d : ℕ) → d < 16 → IsDigit (digit_char d)
digit_char-IsDigit d h = elim (Bool-cases (ltb d 10)) [
  | inl e ↦ rw e (inl (omega arith, ground (arith, e)))
  | inr e ↦ rw e (inr (omega arith, omega (arith, h)))
]

digit_value-digit_char :
    (base d : ℕ) → d < base → base ≤ 16 → digit_value (digit_char d) base ≡ some d
unfolding digit_value is_hex
digit_value-digit_char base d h l = ground (arith, h, l)

print_loop-All :
    (f base n : ℕ) (acc : List ℕ)
    → 0 < base
    → base ≤ 16
    → All IsDigit acc
    → All IsDigit (print_loop f base n acc)
unfolding print_loop
print_loop-All zero base n acc pos l h = h
print_loop-All (suc f) base n acc pos l h =
    let d : n % base < base = mod-lt n pos in
    let h' : All IsDigit (digit_char (n % base) ∷ acc) =
      (digit_char-IsDigit (n % base) (omega (arith, d, l)), h) in
    elim (Bool-cases (n / base == 0)) [
      | inl e ↦ rw e h'
      | inr e ↦ rw e (print_loop-All f base (n / base) (digit_char (n % base) ∷ acc) pos l h')
    ]

-- All bytes are digits.
pub print_uint-All : (base n : ℕ) → 0 < base → base ≤ 16 → All IsDigit (print_uint base n)
unfolding print_uint
print_uint-All base n pos l = print_loop-All 64 base n [] pos l tt

last_digit :
    (base n : ℕ) (acc : List ℕ)
    → 0 < base
    → base ≤ 16
    → numeral base (n / base) (digit_char (n % base) ∷ acc) ≡ numeral base n acc
last_digit base n acc pos l =
    numeral-cons base (n / base) (digit_char (n % base)) (n % base) acc
      (digit_value-digit_char base (n % base) (mod-lt n pos) l)
    ∙ ap (λ t. numeral base t acc) (div-add-mod' n base)

print_loop-numeral :
    (f base n : ℕ) (acc : List ℕ)
    → 0 < base
    → base ≤ 16
    → n < base ^ f
    → 0 < f
    → numeral base 0 (print_loop f base n acc) ≡ numeral base n acc
unfolding print_loop
print_loop-numeral zero base n acc pos l h k = absurd (omega (arith, k))
print_loop-numeral (suc f) base n acc pos l h k =
    let below : n / base < base ^ f =
      (div-lt_iff_lt-mul pos).1 (subst (λ t. n < t) (pow-suc base f) h) in
    elim (Bool-cases (n / base == 0)) [
      | inl z ↦
          let e : n / base ≡ 0 = (==_iff (n / base) 0).0 z in
          rw z (
            subst (λ t. numeral base t (digit_char (n % base) ∷ acc) ≡ numeral base n acc) e
              (last_digit base n acc pos l))
      | inr z ↦
          let more : 0 < f = some_rounds f below z in
          rw z (
            print_loop-numeral f base (n / base) (digit_char (n % base) ∷ acc) pos l below more
            ∙ last_digit base n acc pos l)
    ]
  where
    some_rounds : (f : ℕ) → n / base < base ^ f → (n / base == 0) ≡ false → 0 < f
    some_rounds zero h z = let one : base ^ 0 ≡ 1 = pow-zero base in ground (arith, h, z, one)
    some_rounds (suc f) h z = omega arith

-- A number of at most 64 digits in a base up to 16, printed in that base, stands for itself.
pub print_uint-numeral :
    (base n : ℕ)
    → 0 < base
    → base ≤ 16
    → n < base ^ 64
    → numeral base 0 (print_uint base n) ≡ some n
unfolding print_uint
print_uint-numeral base n pos l h = print_loop-numeral 64 base n [] pos l h (omega arith)

print_loop-pos :
    (f base n : ℕ) (acc : List ℕ) → 0 < length acc → 0 < length (print_loop f base n acc)
unfolding print_loop
print_loop-pos zero base n acc h = h
print_loop-pos (suc f) base n acc h = elim (Bool-cases (n / base == 0)) [
  | inl z ↦ rw z (omega arith)
  | inr z ↦ rw z (print_loop-pos f base (n / base) (digit_char (n % base) ∷ acc) (omega arith))
]

pub print_uint-pos : (base n : ℕ) → 0 < length (print_uint base n)
unfolding print_uint print_loop
print_uint-pos base n = elim (Bool-cases (n / base == 0)) [
  | inl z ↦ rw z (omega arith)
  | inr z ↦ rw z (print_loop-pos 63 base (n / base) (digit_char (n % base) ∷ []) (omega arith))
]
