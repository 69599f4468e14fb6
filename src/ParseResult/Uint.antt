-- ===== src/ParseResult/Uint.antt =====
-- `uint_parse` against the plain reading of a numeral: no wrap-around, and every value up to the
-- bound.
use http_server_from_scratch.Memory.{Memory, slice, size_mod}
use http_server_from_scratch.ParseResult.{
  UintResult, value, failed, parse_bad_request, parse_payload_too_large, digit_value, uint_loop,
  uint_parse,
}
use http_server_from_scratch.Prelude.{
  ℕ, zero, suc, ◌+◌, ◌-◌, ◌*◌, ◌/◌, ◌%◌, ◌≤◌, ◌<◌, ◌≡◌, ◌⊎◌, inl, inr, refl, sym, ap, ◌∙◌, true,
  false, ltb, ◌==◌, ==_iff, Option, none, some, List, [], ◌∷◌, arith, Bool-cases,
}
use native.Mathlib.Nat.{le-div_iff_mul-le, div-lt_iff_lt-mul}

-- The number that digits stand for in a base, read from the left onto `acc`, with no bound.
abbrev pub numeral : ℕ → ℕ → List ℕ → Option ℕ
numeral base acc [] = some acc
numeral base acc (c ∷ cs) = elim (digit_value c base) [
  | none ↦ none
  | some d ↦ numeral base (acc * base + d) cs
]

pub numeral-cons :
    (base acc c d : ℕ) (cs : List ℕ)
    → digit_value c base ≡ some d
    → numeral base acc (c ∷ cs) ≡ numeral base (acc * base + d) cs
numeral-cons base acc c d cs e = ground arith

numeral_bad :
    (base acc c : ℕ) (cs : List ℕ) → digit_value c base ≡ none → numeral base acc (c ∷ cs) ≡ none
numeral_bad base acc c cs e = ground arith

Option-cases : (o : Option ℕ) → (o ≡ none) ⊎ ((d : ℕ) × (o ≡ some d))
Option-cases none = inl refl
Option-cases (some d) = inr (d, refl)

pub digit_value-lt : (c base : ℕ) {d : ℕ} → digit_value c base ≡ some d → d < base
unfolding digit_value
digit_value-lt c base h = ground arith

-- The guard of the loop, read without `size_t`.
guard_pass :
    (max base d r : ℕ)
    → 0 < base
    → base ≤ max
    → max < size_mod
    → d < base
    → ltb ((max + size_mod - d) % size_mod / base) r ≡ false
    → (r * base + d ≤ max) × ((r * base + d) % size_mod ≡ r * base + d)
guard_pass max base d r p q w l g =
    let e : (max + size_mod - d) % size_mod ≡ max - d = omega arith in
    let h : r ≤ (max - d) / base = ground (arith, e) in
    let k : r * base ≤ max - d = (le-div_iff_mul-le p).0 h in (omega arith, omega arith)

guard_fail :
    (max base d r : ℕ)
    → 0 < base
    → base ≤ max
    → max < size_mod
    → d < base
    → ltb ((max + size_mod - d) % size_mod / base) r ≡ true
    → max < r * base + d
guard_fail max base d r p q w l g =
    let e : (max + size_mod - d) % size_mod ≡ max - d = omega arith in
    let h : (max - d) / base < r = ground (arith, e) in
    let k : max - d < r * base = (div-lt_iff_lt-mul p).0 h in omega arith

numeral-le : (base acc v : ℕ) (cs : List ℕ) → 0 < base → numeral base acc cs ≡ some v → acc ≤ v
numeral-le base acc v [] pos h = ground arith
numeral-le base acc v (c ∷ cs) pos h = elim (Option-cases (digit_value c base)) [
  | inl e ↦ cc (sym (numeral_bad base acc c cs e) ∙ h)
  | inr (d, e) ↦
      let t =
        numeral-le base (acc * base + d) v cs pos (sym (numeral-cons base acc c d cs e) ∙ h) in
      grind arith
]

digit_value-nul : (base : ℕ) → digit_value 0 base ≡ none
unfolding digit_value
digit_value-nul base = refl

suc-ne-zero : (n : ℕ) → (suc n == 0) ≡ false
suc-ne-zero n = ground arith

-- One outcome of the loop started at `acc` on the digits of a range.
abbrev pub Reads : Memory → ℕ → ℕ → ℕ → ℕ → ℕ → UintResult → Type 0
Reads m s len base max acc (value v) = (numeral base acc (slice m s len) ≡ some v) × (v ≤ max)
Reads m s len base max acc (failed parse_payload_too_large) =
    (k : ℕ) × (v : ℕ) × (k ≤ len) × (numeral base acc (slice m s k) ≡ some v) × (max < v)
Reads m s len base max acc (failed parse_bad_request) = numeral base acc (slice m s len) ≡ none
Reads m s len base max acc (failed _) = ⊥

module _ (base max : ℕ) (pos : 0 < base) (fits : base ≤ max) (word : max < size_mod) where
  -- The value read from the first byte on is the one read from the second on with one more digit.
  Reads-cons :
      (m : Memory) (s n acc d : ℕ) (r : UintResult)
      → digit_value (m s) base ≡ some d
      → Reads m (s + 1) n base max (acc * base + d) r
      → Reads m s (suc n) base max acc r
  unfolding slice
  Reads-cons m s n acc d (value v) e h = (numeral-cons base acc (m s) d _ e ∙ h.0, h.1)
  Reads-cons m s n acc d (failed parse_payload_too_large) e (k, v, le, num, big) =
      (suc k, v, omega arith, numeral-cons base acc (m s) d _ e ∙ num, big)
  Reads-cons m s n acc d (failed parse_bad_request) e h = numeral-cons base acc (m s) d _ e ∙ h
  Reads-cons m s n acc d (failed _) e h = elim h [ ]

  uint_loop-Reads :
      (m : Memory) (n s acc : ℕ)
      → acc ≤ max
      → Reads m s n base max acc (uint_loop m s n base max acc)
  unfolding uint_loop slice
  uint_loop-Reads m zero s acc h = (refl, h)
  uint_loop-Reads m (suc n) s acc h = elim (Option-cases (digit_value (m s) base)) [
    | inl e ↦ rw (e, uint_loop) (numeral_bad base acc (m s) (slice m (s + 1) n) e)
    | inr (d, e) ↦
        let l = digit_value-lt (m s) base e in
        elim (Bool-cases (ltb ((max + size_mod - d) % size_mod / base) acc)) [
          | inl g ↦
              rw (e, uint_loop)
                (rw g (
                  1,
                  acc * base + d,
                  omega arith,
                  numeral-cons base acc (m s) d [] e,
                  guard_fail max base d acc pos fits word l g,
                ))
          | inr g ↦
              let (small, exact) = guard_pass max base d acc pos fits word l g in
              rw (e, uint_loop)
                (rw (g, exact)
                  (Reads-cons m s n acc d _ e (uint_loop-Reads m n (s + 1) (acc * base + d) small)))
        ]
  ]

  -- For a base from 1 on and a bound that is at least the base and fits `size_t`: PARSE_OK hands out
  -- the number that all `len` bytes stand for, and it is within the bound; PARSE_PAYLOAD_TOO_LARGE
  -- says that some first digits already stand for more than the bound; PARSE_BAD_REQUEST says that
  -- there are no bytes or that they are no numeral; and there is no other outcome.
  pub uint_parse-Reads :
      (m : Memory) (s len : ℕ)
      → ((len ≡ 0) × (uint_parse m s len base max ≡ failed parse_bad_request))
        ⊎ Reads m s len base max 0 (uint_parse m s len base max)
  unfolding uint_parse slice
  uint_parse-Reads m s zero = inl (refl, refl)
  uint_parse-Reads m s (suc n) = elim (Bool-cases (m s == 0)) [
    | inl e ↦ inr (
        rw (e, suc-ne-zero n)
          (numeral_bad base 0 (m s) (slice m (s + 1) n)
            (ap (λ c. digit_value c base) ((==_iff (m s) 0).0 e) ∙ digit_value-nul base)))
    | inr e ↦ inr (rw (e, suc-ne-zero n) (uint_loop-Reads m (suc n) s 0 (omega arith)))
  ]

  uint_loop_complete :
      (m : Memory) (n s acc v : ℕ)
      → acc ≤ max
      → numeral base acc (slice m s n) ≡ some v
      → v ≤ max
      → uint_loop m s n base max acc ≡ value v
  unfolding uint_loop slice
  uint_loop_complete m zero s acc v a num le = ground arith
  uint_loop_complete m (suc n) s acc v a num le = elim (Option-cases (digit_value (m s) base)) [
    | inl e ↦ cc (sym (numeral_bad base acc (m s) (slice m (s + 1) n) e) ∙ num)
    | inr (d, e) ↦
        let l = digit_value-lt (m s) base e in
        let num' = sym (numeral-cons base acc (m s) d (slice m (s + 1) n) e) ∙ num in
        elim (Bool-cases (ltb ((max + size_mod - d) % size_mod / base) acc)) [
          | inl g ↦
              let big = guard_fail max base d acc pos fits word l g in
              absurd
                (omega (arith, numeral-le base (acc * base + d) v (slice m (s + 1) n) pos num'))
          | inr g ↦
              let (small, exact) = guard_pass max base d acc pos fits word l g in
              rw (e, uint_loop)
                (rw (g, exact) (uint_loop_complete m n (s + 1) (acc * base + d) v small num' le))
        ]
  ]

  -- Under the same conditions every numeral of at least one digit whose number is within the bound
  -- is accepted, with that number.
  pub uint_parse_complete :
      (m : Memory) (s len v : ℕ)
      → 0 < len
      → numeral base 0 (slice m s len) ≡ some v
      → v ≤ max
      → uint_parse m s len base max ≡ value v
  unfolding uint_parse slice
  uint_parse_complete m s zero v some_digits num le = absurd (omega arith)
  uint_parse_complete m s (suc n) v some_digits num le = elim (Bool-cases (m s == 0)) [
    | inl e ↦
        let bad = ap (λ c. digit_value c base) ((==_iff (m s) 0).0 e) ∙ digit_value-nul base in
        cc (sym (numeral_bad base 0 (m s) (slice m (s + 1) n) bad) ∙ num)
    | inr e ↦ rw (e, suc-ne-zero n) (uint_loop_complete m (suc n) s 0 v (omega arith) num le)
  ]
