-- ===== src/Response/Fits.antt =====
-- When `response_serialize` of src/HttpResponse.c succeeds.
use http_server_from_scratch.Parser.{ascii_ieq}
use http_server_from_scratch.Prelude.{
  ℕ, ◌+◌, ◌-◌, ◌<◌, ◌≡◌, refl, sym, ap, ◌∙◌, ap₂, arith, Bool, true, false, not, ◌&&◌, ◌||◌,
  Bool-cases, inl, inr, CString, codes, length, length-append, List, [], ◌∷◌, ◌++◌, if◌then◌else◌,
  some, ltb, leb, lt→ltb, le→not_ltb,
}
use http_server_from_scratch.Response.Serialize.{
  headers_text, has_length, framing, payload, append_assoc, append-nil,
}
use http_server_from_scratch.Response.{
  ResponseHeader, Body, body_none, body_buffer, body_stream, HttpResponse, crlf, print_behind,
  header_text, headers_write, connection_text, blank_write, length_write, bytes_write, body_write,
  status_line, start_write, date_write, connection_write, response_serialize,
}

print_behind-fits :
    (cap : ℕ) (out text : List ℕ)
    → length out + length text < cap
    → print_behind cap out text ≡ some (out ++ text)
unfolding print_behind
print_behind-fits cap out text h =
    let e : leb (cap - length out) (length text) ≡ false = ground arith in rw e refl

blank_write-fits :
    (cap : ℕ) (out : List ℕ) → length out + 2 < cap → blank_write cap out ≡ some (out ++ crlf)
unfolding blank_write
blank_write-fits cap out h = let e : leb cap (length out + 2) ≡ false = ground arith in rw e refl

saw_or :
    (saw b rest : Bool) → ((if b then true else saw) || rest) ≡ (saw || (if b then true else rest))
saw_or saw b rest = ground arith

saw_nil : (saw : Bool) → saw ≡ (saw || false)
saw_nil saw = ground arith

headers_write-fits :
    (cap : ℕ) (headers : List ResponseHeader) (out : List ℕ) (saw : Bool)
    → length out + length (headers_text headers) < cap
    → headers_write cap headers out saw
      ≡ some (out ++ headers_text headers, saw || has_length headers)
unfolding headers_write
headers_write-fits cap [] out saw h =
    ap some (ap₂ (λ a b. (a, b)) (sym (append-nil out)) (saw_nil saw))
headers_write-fits cap (x ∷ headers) out saw h =
    let b = ascii_ieq x.key (codes "content-length") in
    let l = length-append (header_text x) (headers_text headers) in
    let k = length-append out (header_text x) in
    let e = print_behind-fits cap out (header_text x) (omega (arith, l, h)) in
    let f =
      headers_write-fits cap headers (out ++ header_text x) (if b then true else saw)
        (omega (arith, l, k, h)) in
    rw e (
      f
      ∙ ap some (
          ap₂ (λ a b. (a, b)) (append_assoc out (header_text x) (headers_text headers))
            (saw_or saw b (has_length headers))))

length_write-fits :
    (cap : ℕ) (bytes : List ℕ) (saw : Bool) (out : List ℕ)
    → length out + length (framing (body_buffer bytes) saw) < cap
    → length_write cap bytes saw out ≡ some (out ++ framing (body_buffer bytes) saw)
unfolding length_write
length_write-fits cap bytes saw out h = elim (Bool-cases (not saw && ltb 0 (length bytes))) [
  | inl e ↦ rw (e) (print_behind-fits cap out _ (rw (e) at h))
  | inr e ↦ rw (e) (ap some (sym (append-nil out)))
]

bytes_write-fits :
    (cap : ℕ) (head_only : Bool) (bytes out : List ℕ)
    → length out + length (payload (body_buffer bytes) head_only) < cap
    → bytes_write cap head_only bytes out ≡ some (out ++ payload (body_buffer bytes) head_only)
unfolding bytes_write
bytes_write-fits cap true bytes out h = ap some (sym (append-nil out))
bytes_write-fits cap false [] out h = ap some (sym (append-nil out))
bytes_write-fits cap false (x ∷ bytes) out h =
    let pos : ltb 0 (length (x ∷ bytes)) ≡ true = lt→ltb 0 (length (x ∷ bytes)) (omega arith) in
    let e : ltb cap (length out + length (x ∷ bytes)) ≡ false = ground (arith, h) in
    rw (pos, e) refl

body_write-fits :
    (cap : ℕ) (head_only : Bool) (body : Body) (saw : Bool) (out : List ℕ)
    → length out + length (framing body saw ++ (crlf ++ payload body head_only)) < cap
    → body_write cap head_only body saw out
      ≡ some (out ++ (framing body saw ++ (crlf ++ payload body head_only)))
unfolding body_write
body_write-fits cap head_only body_none saw out h = blank_write-fits cap out (omega (arith, h))
body_write-fits cap head_only (body_buffer bytes) saw out h =
    let f = framing (body_buffer bytes) saw in
    let p = payload (body_buffer bytes) head_only in
    let l = length-append f (crlf ++ p) in
    let k = length-append out f in
    let j = length-append (out ++ f) crlf in
    let a = length_write-fits cap bytes saw out (omega (arith, l, h)) in
    let b = blank_write-fits cap (out ++ f) (omega (arith, l, k, h)) in
    let c = bytes_write-fits cap head_only bytes ((out ++ f) ++ crlf) (omega (arith, l, k, j, h)) in
    rw (a, b) (c ∙ ap some (append_assoc (out ++ f) crlf p ∙ append_assoc out f (crlf ++ p)))
body_write-fits cap head_only (body_stream s) saw out h =
    let f = codes "Transfer-Encoding: chunked\r\n" in
    let l = length-append f crlf in
    let k = length-append out f in
    let e : ltb cap (length out + length f) ≡ false = ground (arith, h, l) in
    rw e
      (blank_write-fits cap (out ++ f) (omega (arith, l, k, h)) ∙ ap some (append_assoc out f crlf))

-- The bytes of a response, as one list.
abbrev pub layout : HttpResponse → Bool → CString → List ℕ
layout resp keep_alive date =
    status_line resp
    ++ (date
        ++ (headers_text resp.headers
            ++ (connection_text keep_alive
                ++ (framing resp.body (has_length resp.headers)
                    ++ (crlf ++ payload resp.body resp.head_only)))))

-- `response_serialize` succeeds with the response's bytes whenever they leave a byte of the buffer
-- free.
pub response_serialize-fits :
    (resp : HttpResponse) (cap : ℕ) (keep_alive : Bool) (date : CString)
    → length (layout resp keep_alive date) < cap
    → response_serialize resp cap keep_alive (some date) ≡ some (layout resp keep_alive date)
unfolding response_serialize start_write date_write connection_write
response_serialize-fits resp cap keep_alive date h =
    let s = status_line resp in
    let hs = headers_text resp.headers in
    let c = connection_text keep_alive in
    let saw = has_length resp.headers in
    let t = framing resp.body saw ++ (crlf ++ payload resp.body resp.head_only) in
    let l₁ = length-append s (date ++ (hs ++ (c ++ t))) in
    let l₂ = length-append date (hs ++ (c ++ t)) in
    let l₃ = length-append hs (c ++ t) in
    let l₄ = length-append c t in
    let k₁ = length-append s date in
    let k₂ = length-append (s ++ date) hs in
    let k₃ = length-append ((s ++ date) ++ hs) c in
    let e₁ : ltb cap (length s) ≡ false = le→not_ltb cap (length s) (omega (arith, h, l₁)) in
    let e₂ = print_behind-fits cap s date (omega (arith, h, l₁, l₂)) in
    let e₃ =
      headers_write-fits cap resp.headers (s ++ date) false (omega (arith, h, l₁, l₂, l₃, k₁)) in
    let e₄ =
      print_behind-fits cap ((s ++ date) ++ hs) c (omega (arith, h, l₁, l₂, l₃, l₄, k₁, k₂)) in
    let e₅ =
      body_write-fits cap resp.head_only resp.body saw (((s ++ date) ++ hs) ++ c)
        (omega (arith, h, l₁, l₂, l₃, l₄, k₁, k₂, k₃)) in
    rw (e₁, e₂, e₃, e₄)
      (e₅
        ∙ ap some (
            append_assoc ((s ++ date) ++ hs) c t
            ∙ append_assoc (s ++ date) hs (c ++ t)
            ∙ append_assoc s date (hs ++ (c ++ t))))
