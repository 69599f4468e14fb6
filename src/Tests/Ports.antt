-- ===== src/Tests/Ports.antt =====
-- A run of the test of the port, with a strtol that reads decimal numerals.
use http_server_from_scratch.HttpServer.Port.{long_bound, erange, IsStrtol, server_port_valid_iff}
use http_server_from_scratch.HttpServer.Start.{pos, Strtol, server_port_valid}
use http_server_from_scratch.ParseResult.Uint.{numeral}
use http_server_from_scratch.Prelude.{
  ℕ, ◌≤◌, ◌<◌, ◌≡◌, ◌↔◌, refl, arith, true, false, CString, length, if◌then◌else◌, ltb, Option,
  none, some,
}
use http_server_from_scratch.Response.Digits.{print_uint-numeral}
use http_server_from_scratch.Response.{print_uint}

abbrev read_as : CString → Option ℕ → Strtol
read_as str none = record { num = pos 0; errno = 0; end_ptr = 0 }
read_as str (some n) =
    if ltb n long_bound
    then record { num = pos n; errno = 0; end_ptr = length str }
    else record { num = pos 9223372036854775807; errno = erange; end_ptr = length str }

abbrev strtol : CString → Strtol
strtol str = read_as str (numeral 10 0 str)

strtol-IsStrtol : IsStrtol strtol
strtol-IsStrtol = record {
  fits = λ n h.
      let e : numeral 10 0 (print_uint 10 n) ≡ some n =
        print_uint-numeral 10 n (omega arith) (omega arith) (omega (arith, h)) in
      let l : ltb n long_bound ≡ true = ground (arith, h) in rw (e, l) refl;
  too_large = λ n h k.
      let e : numeral 10 0 (print_uint 10 n) ≡ some n =
        print_uint-numeral 10 n (omega arith) (omega arith) k in
      let l : ltb n long_bound ≡ false = ground (arith, h) in rw (e, l) refl;
}

server_port_valid_iff_example :
    (server_port_valid strtol (print_uint 10 8080) ≡ 0) ↔ ((0 < 8080) × (8080 ≤ 65535))
server_port_valid_iff_example = server_port_valid_iff strtol 8080 strtol-IsStrtol (omega arith)
