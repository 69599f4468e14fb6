-- ===== src/Arena/Bits.antt =====
-- Binary masks: the low bits of a number, and the number without them.
use Prim.{absurd}
use Prim.Native.Nat.{digits, bit_and-bitwise}
use native.Mathlib.Nat.{div-div-eq-div-mul, mul-div_cancel}
use http_server_from_scratch.Prelude.{
  ℕ, zero, suc, ◌+◌, ◌-◌, ◌*◌, ◌/◌, ◌≤◌, ◌<◌, ◌≡◌, refl, sym, ap, ◌∙◌, arith, min, bit_and,
}

-- `2 ^ k`
abbrev pub pow2 : ℕ → ℕ
pow2 zero = 1
pow2 (suc k) = 2 * pow2 k

pub pow2-pos : (k : ℕ) → 0 < pow2 k
pow2-pos zero = omega arith
pow2-pos (suc k) = omega (arith, pow2-pos k)

-- The mask of the `n` lowest bits, and a mask with `k` zeros behind it.
abbrev pub low : ℕ → ℕ
low zero = 0
low (suc n) = 2 * low n + 1

abbrev pub shifted : ℕ → ℕ → ℕ
shifted zero mask = mask
shifted (suc k) mask = 2 * shifted k mask

-- The number with its `k` lowest bits cleared.
abbrev floor : ℕ → ℕ → ℕ
floor zero a = a
floor (suc k) a = floor k (a / 2) * 2

abbrev and_bits : ℕ → ℕ → ℕ → ℕ
and_bits = digits (λ b. zero) min

pub low-pow2 : (n : ℕ) → low n + 1 ≡ pow2 n
low-pow2 zero = refl
low-pow2 (suc n) = omega (arith, low-pow2 n)

floor-zero : (k : ℕ) → floor k 0 ≡ 0
floor-zero zero = refl
floor-zero (suc k) = omega (arith, floor-zero k)

and_bits-zero : (n a : ℕ) → a ≤ n → and_bits n a 0 ≡ 0
and_bits-zero zero zero h = refl
and_bits-zero zero (suc a) h = elim h [ ]
and_bits-zero (suc n) zero h = refl
and_bits-zero (suc n) (suc a) h = omega (arith, and_bits-zero n (suc a / 2) (omega arith))

and_bits-low : (n k a : ℕ) → a ≤ n → and_bits n a (low k) + floor k a ≡ a
and_bits-low zero k zero h = omega (arith, floor-zero k)
and_bits-low zero k (suc a) h = elim h [ ]
and_bits-low (suc n) k zero h = omega (arith, floor-zero k)
and_bits-low (suc n) zero (suc a) h = omega (arith, and_bits-zero (suc n) (suc a) h)
and_bits-low (suc n) (suc k) (suc a) h =
    let e : (2 * low k + 1) / 2 ≡ low k = omega arith in
    rw e (omega (arith, and_bits-low n k (suc a / 2) (omega arith)))

and_bits-high :
    (n k m a : ℕ) → a ≤ n → a < pow2 k * pow2 m → and_bits n a (shifted k (low m)) ≡ floor k a
and_bits-high zero k m zero h l = sym (floor-zero k)
and_bits-high zero k m (suc a) h l = elim h [ ]
and_bits-high (suc n) k m zero h l = sym (floor-zero k)
and_bits-high (suc n) zero zero (suc a) h l = absurd (omega arith)
and_bits-high (suc n) zero (suc m) (suc a) h l =
    let e : (2 * low m + 1) / 2 ≡ low m = omega arith in
    rw e (omega (arith, and_bits-high n zero m (suc a / 2) (omega arith) (omega arith)))
and_bits-high (suc n) (suc k) m (suc a) h l =
    let e : 2 * shifted k (low m) / 2 ≡ shifted k (low m) = omega arith in
    rw e (omega (arith, and_bits-high n k m (suc a / 2) (omega arith) (omega arith)))

floor-div : (k a : ℕ) → floor k a ≡ a / pow2 k * pow2 k
floor-div zero a = omega arith
floor-div (suc k) a =
    let q = pow2 k in
    let t = a / 2 / q in
    let e : a / (2 * q) ≡ t = sym (div-div-eq-div-mul a 2 q) in
    let f : floor k (a / 2) ≡ t * q = floor-div k (a / 2) in rw (e, f) (grind arith)

-- `a & (2^k - 1)` is zero for the multiples of `2^k`.
pub bit_and-low : (k c : ℕ) → bit_and (c * pow2 k) (pow2 k - 1) ≡ 0
bit_and-low k c =
    let a = c * pow2 k in
    let m : pow2 k - 1 ≡ low k = omega (arith, low-pow2 k) in
    let f : floor k a ≡ a = floor-div k a ∙ ap (λ t. t * pow2 k) (mul-div_cancel c (pow2-pos k)) in
    let g : bit_and a (low k) ≡ 0 =
      bit_and-bitwise a (low k) ∙ omega (arith, and_bits-low a k a (omega arith), f) in
    rw m g

-- `a & ~(2^k - 1)` is the largest multiple of `2^k` that is at most `a`.
pub bit_and-shifted :
    (k m a : ℕ) → a < pow2 k * pow2 m → bit_and a (shifted k (low m)) ≡ a / pow2 k * pow2 k
bit_and-shifted k m a h =
    bit_and-bitwise a (shifted k (low m)) ∙ and_bits-high a k m a (omega arith) h ∙ floor-div k a

pub shifted-low : (k m : ℕ) → shifted k (low m) + pow2 k ≡ pow2 k * pow2 m
shifted-low zero m = omega (arith, low-pow2 m)
shifted-low (suc k) m = omega (arith, shifted-low k m)

pub pow2-add : (k m : ℕ) → pow2 (k + m) ≡ pow2 k * pow2 m
pow2-add zero m = let e : 0 + m ≡ m = omega arith in rw e (omega arith)
pow2-add (suc k) m =
    let e : suc k + m ≡ suc (k + m) = omega arith in rw e (omega (arith, pow2-add k m))
