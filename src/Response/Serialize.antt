-- ===== src/Response/Serialize.antt =====
-- The wire format of src/HttpResponse.c, `response_serialize`.
use mathlib.Core.Option.{some_inj}
use http_server_from_scratch.Parser.{ascii_ieq}
use http_server_from_scratch.Prelude.{
  bind-some, ℕ, ◌+◌, ◌-◌, ◌≤◌, ◌≡◌, refl, sym, ap, ◌∙◌, subst, arith, Bool, true, false, not, ◌&&◌,
  ◌||◌, Bool-cases, CString, codes, length, length-append, List, [], ◌∷◌, ◌++◌, if◌then◌else◌,
  Option, none, some, ltb, leb, lt→ltb, suc, inl, inr,
}
use http_server_from_scratch.Response.{
  ResponseHeader, Body, body_none, body_buffer, body_stream, HttpResponse, print_uint, crlf,
  print_behind, header_text, headers_write, connection_text, blank_write, length_write, bytes_write,
  body_write, status_line, start_write, date_write, connection_write, response_serialize,
}

-- All header lines, one behind the other.
abbrev pub headers_text : List ResponseHeader → List ℕ
headers_text [] = []
headers_text (h ∷ headers) = header_text h ++ headers_text headers

-- One of the headers is a Content-Length.
abbrev pub has_length : List ResponseHeader → Bool
has_length [] = false
has_length (h ∷ headers) =
    if ascii_ieq h.key (codes "content-length") then true else has_length headers

-- The line that frames the body, and the body.
abbrev pub framing : Body → Bool → List ℕ
framing body_none saw = []
framing (body_buffer bytes) saw =
    if not saw && ltb 0 (length bytes)
    then codes "Content-Length: " ++ (print_uint 10 (length bytes) ++ crlf)
    else []
framing (body_stream s) saw = codes "Transfer-Encoding: chunked\r\n"

abbrev pub payload : Body → Bool → List ℕ
payload (body_buffer bytes) head_only = if head_only then [] else bytes
payload _ head_only = []

-- The pieces' results: `text` written behind `out` within the buffer.
abbrev Wrote : ℕ → List ℕ → List ℕ → List ℕ → Type 0
Wrote cap out text o = (o ≡ out ++ text) × (length o ≤ cap)

guard_some {ℓ} :
    {A : Type ℓ} (b : Bool) (x o : A)
    → (if b then none else some x) ≡ some o
    → (b ≡ false) × (o ≡ x)
guard_some true x o h = ground arith
guard_some false x o h = (refl, cc h)

stream_some {ℓ} :
    {A : Type ℓ} (b : Bool) (x : Option A) (o : A)
    → (if b then none else x) ≡ some o
    → (b ≡ false) × (x ≡ some o)
stream_some true x o h = ground arith
stream_some false x o h = (refl, h)

print_behind-Wrote :
    (cap : ℕ) (out text o : List ℕ) → print_behind cap out text ≡ some o → Wrote cap out text o
unfolding print_behind
print_behind-Wrote cap out text o h =
    let (g, e) = guard_some (leb (cap - length out) (length text)) (out ++ text) o h in
    let l : length out + length text ≤ cap = ground arith in
    (e, rw (e) (omega (arith, l, length-append out text)))

blank_write-Wrote : (cap : ℕ) (out o : List ℕ) → blank_write cap out ≡ some o → Wrote cap out crlf o
unfolding blank_write
blank_write-Wrote cap out o h =
    let (g, e) = guard_some (leb cap (length out + 2)) (out ++ crlf) o h in
    (e, rw (e) (let l = length-append out crlf in ground (arith, l, g)))

pub append_assoc : (xs ys zs : List ℕ) → (xs ++ ys) ++ zs ≡ xs ++ (ys ++ zs)
append_assoc [] ys zs = refl
append_assoc (x ∷ xs) ys zs = ap (λ t. x ∷ t) (append_assoc xs ys zs)

pub append-nil : (xs : List ℕ) → xs ++ [] ≡ xs
append-nil [] = refl
append-nil (x ∷ xs) = ap (λ t. x ∷ t) (append-nil xs)

Wrote-nil : (cap : ℕ) (out o : List ℕ) → length out ≤ cap → o ≡ out → Wrote cap out [] o
Wrote-nil cap out o l e = (e ∙ sym (append-nil out), rw (e) l)

Wrote-Wrote :
    (cap : ℕ) (out xs mid ys o : List ℕ)
    → Wrote cap out xs mid
    → Wrote cap mid ys o
    → Wrote cap out (xs ++ ys) o
Wrote-Wrote cap out xs mid ys o (e, l) (f, k) =
    (f ∙ ap (λ t. t ++ ys) e ∙ append_assoc out xs ys, k)

saw_or :
    (saw b rest : Bool) → ((if b then true else saw) || rest) ≡ (saw || (if b then true else rest))
saw_or saw b rest = ground arith

saw_nil : (saw : Bool) → saw ≡ (saw || false)
saw_nil saw = ground arith

headers_write-Wrote :
    (cap : ℕ) (headers : List ResponseHeader) (out : List ℕ) (saw : Bool) (r : List ℕ × Bool)
    → length out ≤ cap
    → headers_write cap headers out saw ≡ some r
    → Wrote cap out (headers_text headers) r.0 × (r.1 ≡ (saw || has_length headers))
unfolding headers_write
headers_write-Wrote cap [] out saw r l e =
    subst (λ t. Wrote cap out [] t.0 × (t.1 ≡ (saw || false))) (some_inj.0 e)
      (Wrote-nil cap out out l refl, saw_nil saw)
headers_write-Wrote cap (h ∷ headers) out saw r l e =
    let b = ascii_ieq h.key (codes "content-length") in
    let (mid, f, g) = bind-some (print_behind cap out (header_text h)) _ r e in
    let w = print_behind-Wrote cap out (header_text h) mid f in
    let (v, s) = headers_write-Wrote cap headers mid (if b then true else saw) r w.1 g in
    (
      Wrote-Wrote cap out (header_text h) mid (headers_text headers) r.0 w v,
      s ∙ saw_or saw b (has_length headers),
    )

length_write-Wrote :
    (cap : ℕ) (bytes : List ℕ) (saw : Bool) (out o : List ℕ)
    → length out ≤ cap
    → length_write cap bytes saw out ≡ some o
    → Wrote cap out (framing (body_buffer bytes) saw) o
unfolding length_write
length_write-Wrote cap bytes saw out o l h = elim (Bool-cases (not saw && ltb 0 (length bytes))) [
  | inl e ↦ rw (e) (print_behind-Wrote cap out _ o (rw (e) at h))
  | inr e ↦ rw (e) (Wrote-nil cap out o l (sym (some_inj.0 (rw (e) at h))))
]

bytes_write-Wrote :
    (cap : ℕ) (head_only : Bool) (bytes out o : List ℕ)
    → length out ≤ cap
    → bytes_write cap head_only bytes out ≡ some o
    → Wrote cap out (payload (body_buffer bytes) head_only) o
unfolding bytes_write
bytes_write-Wrote cap true bytes out o l h = Wrote-nil cap out o l (sym (some_inj.0 h))
bytes_write-Wrote cap false [] out o l h = Wrote-nil cap out o l (sym (some_inj.0 h))
bytes_write-Wrote cap false (x ∷ bytes) out o l h =
    let pos : ltb 0 (suc (length bytes)) ≡ true = lt→ltb 0 (suc (length bytes)) (omega arith) in
    let (g, e) =
      guard_some (ltb cap (length out + length (x ∷ bytes))) (out ++ (x ∷ bytes)) o
        (rw (pos) at h) in
    (e, rw (e) (let k = length-append out (x ∷ bytes) in ground (arith, k, g)))

body_write-Wrote :
    (cap : ℕ) (head_only : Bool) (body : Body) (saw : Bool) (out o : List ℕ)
    → length out ≤ cap
    → body_write cap head_only body saw out ≡ some o
    → Wrote cap out (framing body saw ++ (crlf ++ payload body head_only)) o
unfolding body_write
body_write-Wrote cap head_only body_none saw out o l h = let w = blank_write-Wrote cap out o h in w
body_write-Wrote cap head_only (body_buffer bytes) saw out o l h =
    let (a, f, g) = bind-some (length_write cap bytes saw out) _ o h in
    let (b, p, q) = bind-some (blank_write cap a) _ o g in
    let u = length_write-Wrote cap bytes saw out a l f in
    let v = blank_write-Wrote cap a b p in
    let w = bytes_write-Wrote cap head_only bytes b o v.1 q in
    Wrote-Wrote cap out (framing (body_buffer bytes) saw) a
      (crlf ++ payload (body_buffer bytes) head_only) o u
      (Wrote-Wrote cap a crlf b (payload (body_buffer bytes) head_only) o v w)
body_write-Wrote cap head_only (body_stream s) saw out o l h =
    let chunked = codes "Transfer-Encoding: chunked\r\n" in
    let (g, e) =
      stream_some (ltb cap (length out + length chunked)) (blank_write cap (out ++ chunked)) o h in
    let k = length-append out chunked in
    Wrote-Wrote cap out chunked (out ++ chunked) crlf o (refl, ground (arith, g, k))
      (blank_write-Wrote cap (out ++ chunked) o e)

-- When `response_serialize` succeeds, the bytes are the status line, the date, the response's headers
-- in their order, the Connection line, the line that frames the body (a Content-Length when the
-- response has a non-empty body and no Content-Length header, chunked for a stream), the blank line,
-- and the body unless it is a stream or only the head is asked for; they fit the buffer.
pub response_serialize-Layout :
    (resp : HttpResponse) (cap : ℕ) (keep_alive : Bool) (date : CString) (out : List ℕ)
    → response_serialize resp cap keep_alive (some date) ≡ some out
    → (out
        ≡ status_line resp
          ++ (date
              ++ (headers_text resp.headers
                  ++ (connection_text keep_alive
                      ++ (framing resp.body (has_length resp.headers)
                          ++ (crlf ++ payload resp.body resp.head_only))))))
      × (length out ≤ cap)
unfolding response_serialize start_write date_write connection_write
response_serialize-Layout resp cap keep_alive date out h =
    let (a, h₁, k₁) = bind-some (start_write cap resp) _ out h in
    let (b, h₂, k₂) = bind-some (date_write cap (some date) a) _ out k₁ in
    let (r, h₃, k₃) = bind-some (headers_write cap resp.headers b false) _ out k₂ in
    let (d, h₄, k₄) = bind-some (connection_write cap keep_alive r.0) _ out k₃ in
    let (g, s) = guard_some (ltb cap (length (status_line resp))) (status_line resp) a h₁ in
    let u₂ = print_behind-Wrote cap a date b h₂ in
    let (u₃, saw) = headers_write-Wrote cap resp.headers b false r u₂.1 h₃ in
    let u₄ = print_behind-Wrote cap r.0 (connection_text keep_alive) d h₄ in
    let u₅ =
      subst
        (λ t. Wrote cap d (framing resp.body t ++ (crlf ++ payload resp.body resp.head_only)) out)
        saw (body_write-Wrote cap resp.head_only resp.body r.1 d out u₄.1 k₄) in
    let w =
      Wrote-Wrote cap a _ b _ out u₂
        (Wrote-Wrote cap b _ r.0 _ out u₃ (Wrote-Wrote cap r.0 _ d _ out u₄ u₅)) in
    (
      subst
          (λ t.
            out
            ≡ t
              ++ (date
                  ++ (headers_text resp.headers
                      ++ (connection_text keep_alive
                          ++ (framing resp.body (has_length resp.headers)
                              ++ (crlf ++ payload resp.body resp.head_only))))))
          s w.0,
      w.1,
    )
