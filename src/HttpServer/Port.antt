-- ===== src/HttpServer/Port.antt =====
-- The test of the port in src/HttpServer.c, on decimal numerals.
use http_server_from_scratch.HttpServer.Start.{pos, Strtol, out_of_range, server_port_valid}
use http_server_from_scratch.Prelude.{
  ℕ, ◌^◌, ◌≤◌, ◌<◌, ◌≡◌, ◌↔◌, inl, inr, subst, sym, arith, Bool-cases, CString, length, not, ◌||◌,
  ltb, ◌==◌, if◌then◌else◌,
}
use http_server_from_scratch.Response.Digits.{print_uint-pos}
use http_server_from_scratch.Response.{print_uint}
use Prim.{absurd, ⊥}

-- `LONG_MAX + 1`
abbrev pub long_bound : ℕ
long_bound = 9223372036854775808

abbrev pub erange : ℕ
erange = 34

-- What strtol(3) promises of the decimal numeral of a number: the whole text is read; the result is
-- the number, without an error, or the error ERANGE when it does not fit a `long`.
pub record IsStrtol (strtol : CString → Strtol) : Type 0 where
  pub fits :
      (n : ℕ)
      → n < long_bound
      → strtol (print_uint 10 n)
        ≡ record { num = pos n; errno = 0; end_ptr = length (print_uint 10 n) }
  pub too_large : (n : ℕ) → long_bound ≤ n → n < 10 ^ 64 → (strtol (print_uint 10 n)).errno ≡ erange

-- The two tests behind the call of strtol.
abbrev tested : Strtol → ℕ → ℕ
tested r l =
    if not (r.errno == 0) || not (r.end_ptr == l) || r.end_ptr == 0
    then 1
    else if out_of_range r.num
    then 1
    else 0

tested_number :
    (l n : ℕ)
    → 0 < l
    → (tested (record { num = pos n; errno = 0; end_ptr = l }) l ≡ 0) ↔ ((0 < n) × (n ≤ 65535))
tested_number l n h = (λ k. ground (arith, k, h), λ k. ground (arith, k, h))

tested_error : (r : Strtol) (l : ℕ) → r.errno ≡ erange → tested r l ≡ 1
tested_error r l h = ground (arith, h)

one_zero : {x : ℕ} → x ≡ 1 → x ≡ 0 → ⊥
one_zero h k = omega (arith, h, k)

-- With a strtol as documented, the numeral of a number below 10 ^ 64 is accepted as a port exactly
-- when the number is from 1 to 65535.
pub server_port_valid_iff :
    (strtol : CString → Strtol) (n : ℕ)
    → IsStrtol strtol
    → n < 10 ^ 64
    → (server_port_valid strtol (print_uint 10 n) ≡ 0) ↔ ((0 < n) × (n ≤ 65535))
unfolding server_port_valid
server_port_valid_iff strtol n w h = elim (Bool-cases (ltb n long_bound)) [
  | inl e ↦
      let l = length (print_uint 10 n) in
      subst (λ r. (tested r l ≡ 0) ↔ ((0 < n) × (n ≤ 65535))) (sym (w.fits n (ground (arith, e))))
        (tested_number l n (print_uint-pos 10 n))
  | inr e ↦
      let l = length (print_uint 10 n) in
      let f = tested_error (strtol (print_uint 10 n)) l (w.too_large n (ground (arith, e)) h) in
      (λ k. absurd (one_zero f k), λ k. absurd (ground (arith, k, e)))
]
