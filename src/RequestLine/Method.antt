-- ===== src/RequestLine/Method.antt =====
-- src/HttpRequestLine.c, `http_method_parse` and `method_parse`: which methods are recognised.
use http_server_from_scratch.Memory.Scan.{slice-Stands, Stands-slice, mem_eq-Stands, length-slice}
use http_server_from_scratch.Memory.{Memory, slice, Stands, mem_eq, memchr, null}
use http_server_from_scratch.ParseResult.{parse_ok, parse_error_set}
use http_server_from_scratch.Parser.Search.{FirstAt, memchr_lem}
use http_server_from_scratch.Prelude.{
  ℕ, ◌+◌, ◌-◌, ◌<◌, ◌≤◌, ◌≡◌, ◌⊎◌, ◌≢◌, inl, inr, refl, sym, ap, subst, ◌∙◌, true, arith, ◌==◌,
  ==_iff, CString, codes, length, str_eq,
}
use http_server_from_scratch.RequestLine.{
  HttpMethod, get, post, put, delete, unknown, HttpRequestLine, http_method_parse, http_method_show,
  method_parse,
}

shown :
    (m : Memory) (s len : ℕ) (v : CString)
    → mem_eq m s v ≡ true
    → (len == length v) ≡ true
    → slice m s len ≡ v
shown m s len v h e =
    ap (slice m s) ((==_iff len (length v)).0 e) ∙ slice-Stands m s v (mem_eq-Stands m s v h)

named :
    (m : Memory) (s len : ℕ) (k : HttpMethod)
    → slice m s len ≡ http_method_show k
    → (len ≡ length (http_method_show k)) × Stands m s (http_method_show k)
named m s len k h =
    (sym (length-slice m s len) ∙ ap length h, subst (Stands m s) h (Stands-slice m s len))

-- A recognised method is the one whose name the bytes are, and only the four methods of the list
-- are ever recognised: HEAD, OPTIONS and PATCH are not among them.
pub http_method_parse_sound :
    (m : Memory) (s len : ℕ)
    → http_method_parse m s len ≢ unknown
    → (slice m s len ≡ http_method_show (http_method_parse m s len))
      × ((http_method_parse m s len ≡ get)
          ⊎ (http_method_parse m s len ≡ post)
          ⊎ (http_method_parse m s len ≡ put)
          ⊎ (http_method_parse m s len ≡ delete))
unfolding http_method_parse http_method_show
http_method_parse_sound m s len h = ground (
  arith,
  shown m s len (codes "GET"),
  shown m s len (codes "POST"),
  shown m s len (codes "PUT"),
  shown m s len (codes "DELETE"),
)

-- The four methods are recognised.
pub http_method_parse_complete :
    (m : Memory) (s len : ℕ) (k : HttpMethod)
    → (k ≡ get) ⊎ (k ≡ post) ⊎ (k ≡ put) ⊎ (k ≡ delete)
    → slice m s len ≡ http_method_show k
    → http_method_parse m s len ≡ k
unfolding http_method_parse http_method_show mem_eq slice str_eq
http_method_parse_complete m s len k (inl e) h =
    let n = named m s len get (rw e at h) in ground (arith, n)
http_method_parse_complete m s len k (inr (inl e)) h =
    let n = named m s len post (rw e at h) in ground (arith, n)
http_method_parse_complete m s len k (inr (inr (inl e))) h =
    let n = named m s len put (rw e at h) in ground (arith, n)
http_method_parse_complete m s len k (inr (inr (inr e))) h =
    let n = named m s len delete (rw e at h) in ground (arith, n)

-- What PARSE_OK from `method_parse` means: the method's name stands before the first space, and the
-- cursor is behind that space.
pub record MethodRead (m : Memory) (cur end : ℕ) (method : HttpMethod) (next : ℕ) : Type 0 where
  pub known : (method ≡ get) ⊎ (method ≡ post) ⊎ (method ≡ put) ⊎ (method ≡ delete)
  pub pos : 0 < next
  pub in_range : next ≤ end
  pub space : FirstAt (λ q. m q == b' ') cur (next - 1)
  pub name : slice m cur (next - 1 - cur) ≡ http_method_show method

-- The tests that PARSE_OK has passed, and the result.
passes :
    (m : Memory) (cur end : ℕ) (line : HttpRequestLine)
    → (method_parse m cur end line).0.status ≡ parse_ok
    → let sp = memchr m cur b' ' (end - cur) in
      (sp ≢ null)
      × (cur < end)
      × (http_method_parse m cur (sp - cur) ≢ unknown)
      × (method_parse m cur end line ≡ (
        record { status = parse_ok; error_position = cur; next = sp + 1 },
        record line { method = http_method_parse m cur (sp - cur) },
      ))
unfolding method_parse parse_error_set
passes m cur end line h = ground arith

-- From a non-NULL cursor: PARSE_OK means that the method's name and a space were read, and changes
-- only the method.
pub method_parse_sound :
    (m : Memory) (cur end : ℕ) (line : HttpRequestLine)
    → 0 < cur
    → (method_parse m cur end line).0.status ≡ parse_ok
    → MethodRead m cur end
        (method_parse m cur end line).1.method
        (method_parse m cur end line).0.next
      × ((method_parse m cur end line).1
          ≡ record line { method = (method_parse m cur end line).1.method })
method_parse_sound m cur end line pos h =
    let (found, some_bytes, known, result) = passes m cur end line h in
    let sp = memchr m cur b' ' (end - cur) in
    let (name, among) = http_method_parse_sound m cur (sp - cur) known in
    rw result (elim (memchr_lem m cur b' ' (end - cur) pos) [
      | inl (nothing, _) ↦ absurd (found nothing)
      | inr (_, before_end, first) ↦
          let e : sp + 1 - 1 ≡ sp = omega arith in
          (
            record {
              known = among;
              pos = omega arith;
              in_range = omega arith;
              space = rw e first;
              name = rw e name;
            },
            refl,
          )
    ])
