-- ===== src/Connection/Framing.antt =====
-- How `step_header_read` of src/Connection.c decides the framing of the body.
use http_server_from_scratch.Body.TransferEncoding.{te_none}
use http_server_from_scratch.Config.{http_max_body_len}
use http_server_from_scratch.Connection.Header.{
  te_loop, is_some, is_http_1_0, length_decide, head_decide,
}
use http_server_from_scratch.Connection.{Connection, is_chunked, is_unsupported}
use http_server_from_scratch.Headers.{Header, header_find}
use Prim.{⊥}
use http_server_from_scratch.Memory.{string_memory, slice}
use http_server_from_scratch.ParseResult.Uint.{Reads, numeral, uint_parse-Reads}
use http_server_from_scratch.ParseResult.{
  ParseStatus, parse_ok, UintResult, value, failed, is_ok, uint_parse,
}
use http_server_from_scratch.Prelude.{
  ℕ, ◌≤◌, ◌≡◌, inl, inr, refl, sym, subst, ◌∙◌, arith, true, false, not, ◌&&◌, if_cases, CString,
  codes, length, Option, none, some,
}

-- A request whose head is accepted names one framing of its body.
pub record IsFramed (c d : Connection) : Type 0 where
  pub supported : is_unsupported d.body_coding ≡ false
  pub host :
      is_http_1_0 c ≡ false → is_some (header_find c.req_parsed.headers (codes "host")) ≡ true
  pub one_framing :
      is_chunked d.body_coding ≡ true
      → (is_http_1_0 c ≡ false) × (header_find c.req_parsed.headers (codes "content-length") ≡ none)
  pub len :
      (h : Header)
      → header_find c.req_parsed.headers (codes "content-length") ≡ some h
      → (numeral 10 0 (slice (string_memory 1 h.value) 1 (length h.value)) ≡ some d.body_len)
        × (d.body_len ≤ http_max_body_len)
  pub unsized :
      header_find c.req_parsed.headers (codes "content-length") ≡ none → d.body_len ≡ c.body_len

value_Reads :
    (v : CString) (n : ℕ)
    → uint_parse (string_memory 1 v) 1 (length v) 10 http_max_body_len ≡ value n
    → (numeral 10 0 (slice (string_memory 1 v) 1 (length v)) ≡ some n) × (n ≤ http_max_body_len)
value_Reads v n e =
    elim (uint_parse-Reads 10 http_max_body_len (omega arith) (omega arith) (omega arith)
      (string_memory 1 v) 1 (length v)) [
        | inl (z, b) ↦ ground arith
        | inr r ↦ subst (Reads (string_memory 1 v) 1 (length v) 10 http_max_body_len 0) e r
      ]

abbrev Accepts : Connection → Connection × Option ParseStatus → Type 0
Accepts c r = r.1 ≡ none → IsFramed c r.0

none-some : {h : Header} → none ≡ some h → ⊥
none-some e = cc e

refused : (c d : Connection) (status : ParseStatus) → Accepts c (d, some status)
refused c d status h = ground arith

header_inj : {h k : Header} → some h ≡ some k → h ≡ k
header_inj e = cc e

length-Accepts :
    (c d : Connection) (r : UintResult) (h : Header)
    → header_find c.req_parsed.headers (codes "content-length") ≡ some h
    → uint_parse (string_memory 1 h.value) 1 (length h.value) 10 http_max_body_len ≡ r
    → is_unsupported d.body_coding ≡ false
    → (is_http_1_0 c ≡ false → is_some (header_find c.req_parsed.headers (codes "host")) ≡ true)
    → is_chunked d.body_coding ≡ false
    → Accepts c
        (elim r [ failed status ↦ (d, some status) | value n ↦ (record d { body_len = n }, none) ])
length-Accepts c d (failed status) h e p sup host one = refused c d status
length-Accepts c d (value n) h e p sup host one = λ q. record {
  supported = sup;
  host = host;
  one_framing = λ k. ground (arith, one, k);
  len = λ h' e'.
      subst
        (λ g.
          (numeral 10 0 (slice (string_memory 1 g.value) 1 (length g.value)) ≡ some n)
          × (n ≤ http_max_body_len))
        (header_inj (sym e ∙ e')) (value_Reads h.value n p);
  unsized = λ e'. elim (none-some (sym e' ∙ e)) [ ];
}

sized :
    (c d : Connection) (o : Option Header)
    → header_find c.req_parsed.headers (codes "content-length") ≡ o
    → is_unsupported d.body_coding ≡ false
    → (is_http_1_0 c ≡ false → is_some (header_find c.req_parsed.headers (codes "host")) ≡ true)
    → is_http_1_0 c && is_chunked d.body_coding ≡ false
    → is_some o && is_chunked d.body_coding ≡ false
    → d.body_len ≡ c.body_len
    → Accepts c (length_decide d o)
unfolding length_decide
sized c d none e sup host old one same = λ q. record {
  supported = sup;
  host = host;
  one_framing = λ k. (ground (arith, k, old), e);
  len = λ h e'. elim (none-some (sym e ∙ e')) [ ];
  unsized = λ e'. same;
}
sized c d (some h) e sup host old one same =
    length-Accepts c d
      (uint_parse (string_memory 1 h.value) 1 (length h.value) 10 http_max_body_len) h e refl sup
      host one

-- When `head_decide` reports no error, the transfer coding is a supported one; a request of a
-- version other than HTTP/1.0 has a Host header; a chunked body comes with neither HTTP/1.0 nor a
-- Content-Length header; with a Content-Length header `body_len` is the decimal number that its
-- value stands for and at most `http_max_body_len`; without one `body_len` is what it was before.
pub head_decide-IsFramed :
    (c : Connection) → (head_decide c).1 ≡ none → IsFramed c (head_decide c).0
unfolding head_decide length_decide
head_decide-IsFramed c =
    let headers = c.req_parsed.headers in
    let te = te_loop headers (parse_ok, te_none) in
    let ct = header_find headers (codes "content-length") in
    if_cases (Accepts c) (not (is_http_1_0 c) && not (is_some (header_find headers (codes "host"))))
      (λ e. refused c _ _)
      (λ e₁.
        if_cases (Accepts c) (is_unsupported te.1) (λ e. refused c _ _)
          (λ e₂.
            if_cases (Accepts c) (not (is_ok te.0)) (λ e. refused c _ _)
              (λ e₃.
                if_cases (Accepts c) (is_http_1_0 c && is_chunked te.1) (λ e. refused c _ _)
                  (λ e₄.
                    if_cases (Accepts c) (is_some ct && is_chunked te.1) (λ e. refused c _ _)
                      (λ e₅. sized c _ ct refl e₂ (λ k. ground (arith, e₁, k)) e₄ e₅ refl)))))
