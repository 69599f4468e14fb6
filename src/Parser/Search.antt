-- ===== src/Parser/Search.antt =====
-- What the searches find: the first place that passes a test, or the value for "not there".
use http_server_from_scratch.Memory.Scan.{Stops, advance-Stops, StopsBack, retreat-StopsBack}
use http_server_from_scratch.Memory.{Memory, advance, memchr, null}
use http_server_from_scratch.Parser.{
  is_crlf, crlf_find, is_ows, ows_skip, ows_trim_trailing, is_colon, colon_find,
}
use http_server_from_scratch.Prelude.{
  ℕ, ◌+◌, ◌-◌, ◌≤◌, ◌<◌, ◌≡◌, ◌⊎◌, inl, inr, refl, ap, Bool, true, false, not, arith, ltb, ◌==◌,
  Bool-cases,
}

-- `r` is the first place from `cur` on that passes the test.
pub record FirstAt (test : ℕ → Bool) (cur r : ℕ) : Type 0 where
  pub lo : cur ≤ r
  pub hit : test r ≡ true
  pub before : (q : ℕ) → cur ≤ q → q < r → test q ≡ false

abbrev pub Absent : (ℕ → Bool) → ℕ → ℕ → Type 0
Absent test cur last = (q : ℕ) → cur ≤ q → q < last → test q ≡ false

not_eq : {b c : Bool} → not b ≡ c → b ≡ not c
not_eq {b} {c} h = ground arith

-- A search over `[cur, last)` by `advance`, which stops at the first hit.
pub advance_search :
    (test : ℕ → Bool) (cur last : ℕ) {r : ℕ}
    → advance (λ q. not (test q)) (last - cur) cur ≡ r
    → (r < last → FirstAt test cur r) × (last ≤ r → Absent test cur last) × (cur ≤ r)
advance_search test cur last e =
    let t = rw e at (advance-Stops (λ q. not (test q)) (last - cur) cur) in
    (
      λ h. record {
        lo = t.lo;
        hit = not_eq (t.failed (omega (arith, t.lo)));
        before = λ q a b. not_eq (t.passed q a b);
      },
      λ h q a b. not_eq (t.passed q a (omega (arith, h, b))),
      t.lo,
    )

-- `crlf_find` returns the first CRLF that lies whole in the range, and `end` exactly when there is
-- none.
pub crlf_find_lem :
    (m : Memory) (cur end : ℕ)
    → ((crlf_find m cur end ≡ end) × Absent (is_crlf m) cur (end - 1))
      ⊎ ((crlf_find m cur end + 1 < end) × FirstAt (is_crlf m) cur (crlf_find m cur end))
unfolding crlf_find
crlf_find_lem m cur end =
    let (hit, miss, lo) = advance_search (is_crlf m) cur (end - 1) refl in
    let p = advance (λ q. not (is_crlf m q)) (end - 1 - cur) cur in
    elim (Bool-cases (ltb (p + 1) end)) [
      | inl e ↦ let l : p + 1 < end = ground arith in inr (rw (e) l, rw (e) (hit (omega arith)))
      | inr e ↦ let l : end ≤ p + 1 = ground arith in inl (rw (e), miss (omega arith))
    ]

-- `memchr` returns the first byte `c` of the range, which is not at NULL, and NULL exactly when
-- there is none.
pub memchr_lem :
    (m : Memory) (p c n : ℕ)
    → 0 < p
    → ((memchr m p c n ≡ null) × Absent (λ q. m q == c) p (p + n))
      ⊎ ((0 < memchr m p c n)
          × (memchr m p c n < p + n)
          × FirstAt (λ q. m q == c) p (memchr m p c n))
unfolding memchr
memchr_lem m p c n pos =
    let e : p + n - p ≡ n = omega arith in
    let t =
      advance_search (λ q. m q == c) p (p + n) (ap (λ k. advance (λ q. not (m q == c)) k p) e) in
    let found = advance (λ q. not (m q == c)) n p in
    elim (Bool-cases (ltb found (p + n))) [
      | inl h ↦
          let l : found < p + n = ground arith in
          let pos' : 0 < found = omega (arith, t.2) in inr (rw h pos', rw h l, rw h (t.0 l))
      | inr h ↦ inl (rw h, t.1 (ground arith))
    ]

-- `colon_find` returns the first colon of the range, and `end` exactly when there is none.
pub colon_find_lem :
    (m : Memory) (cur end : ℕ)
    → ((colon_find m cur end ≡ end) × Absent (λ q. is_colon (m q)) cur end)
      ⊎ ((colon_find m cur end < end) × FirstAt (λ q. is_colon (m q)) cur (colon_find m cur end))
unfolding colon_find
colon_find_lem m cur end =
    let (hit, miss, lo) = advance_search (λ q. is_colon (m q)) cur end refl in
    let p = advance (λ q. not (is_colon (m q))) (end - cur) cur in
    elim (Bool-cases (ltb p end)) [
      | inl e ↦ let l : p < end = ground arith in inr (rw e l, rw e (hit l))
      | inr e ↦ inl (rw e, miss (ground arith))
    ]

-- `ows_skip` stays in the range, passes only spaces and tabs, and stops before another byte.
pub ows_skip_lem :
    (m : Memory) (cur end : ℕ)
    → cur ≤ end
    → Stops (λ q. is_ows (m q)) (end - cur) cur (ows_skip m cur end)
unfolding ows_skip
ows_skip_lem m cur end h = advance-Stops (λ q. is_ows (m q)) (end - cur) cur

-- `ows_trim_trailing` does the same from the end.
pub ows_trim_trailing_lem :
    (m : Memory) (start end : ℕ)
    → start ≤ end
    → StopsBack (λ q. is_ows (m q)) (end - start) end (ows_trim_trailing m start end)
unfolding ows_trim_trailing
ows_trim_trailing_lem m start end h =
    retreat-StopsBack (λ q. is_ows (m q)) (end - start) end (omega arith)
