-- ===== src/RequestLine/Show.antt =====
-- src/HttpRequestLine.c, `request_line_parse` against `request_line_show`: a line that is accepted
-- is shown as it was read.
use http_server_from_scratch.Memory.Scan.{slice-cut}
use http_server_from_scratch.Memory.{Memory, slice}
use http_server_from_scratch.ParseResult.{parse_ok}
use http_server_from_scratch.Parser.Search.{FirstAt}
use http_server_from_scratch.Prelude.{
  ℕ, ◌+◌, ◌-◌, ◌<◌, ◌≡◌, sym, ap, ◌∙◌, arith, ◌==◌, ==_iff, CString, ◌∷◌, ◌++◌,
}
use http_server_from_scratch.RequestLine.Method.{MethodRead, method_parse_sound}
use http_server_from_scratch.RequestLine.Uri.{UriRead, uri_parse_sound}
use http_server_from_scratch.RequestLine.Version.{IsVersion, version_parse_sound}
use http_server_from_scratch.RequestLine.{
  HttpRequestLine, http_method_show, method_parse, uri_parse, version_parse, request_line_parse,
  request_line_show,
}
use mathlib.Core.List.{append_assoc}

-- What PARSE_OK from `request_line_parse` means.
pub record LineRead (m : Memory) (cur end : ℕ) (line : HttpRequestLine) (next : ℕ) : Type 0 where
  pub sp₁ : ℕ
  pub sp₂ : ℕ
  pub method : MethodRead m cur end line.method (sp₁ + 1)
  pub target : UriRead m (sp₁ + 1) end line.path line.query (sp₂ + 1)
  pub version : IsVersion line.version
  pub at_end : next ≡ end
  pub shown : request_line_show line ≡ slice m cur (end - cur)

passes :
    (m : Memory) (cur end : ℕ) (line : HttpRequestLine)
    → (request_line_parse m cur end line).0.status ≡ parse_ok
    → let method = method_parse m cur end line in
      let target = uri_parse m method.0.next end method.1 in
      (method.0.status ≡ parse_ok)
      × (target.0.status ≡ parse_ok)
      × (request_line_parse m cur end line ≡ version_parse m target.0.next end target.1)
unfolding request_line_parse
passes m cur end line h = ground arith

-- Three pieces with a space between them are the whole range; `n₁` and `n₂` are behind the spaces.
pieces :
    (m : Memory) (cur n₁ n₂ end : ℕ) (name path query : CString)
    → 0 < n₁
    → 0 < n₂
    → FirstAt (λ q. m q == b' ') cur (n₁ - 1)
    → slice m cur (n₁ - 1 - cur) ≡ name
    → FirstAt (λ q. m q == b' ') n₁ (n₂ - 1)
    → path ++ query ≡ slice m n₁ (n₂ - 1 - n₁)
    → end ≡ n₂ + 8
    → name ++ (b' ' ∷ (path ++ (query ++ (b' ' ∷ slice m n₂ 8)))) ≡ slice m cur (end - cur)
pieces m cur n₁ n₂ end name path query p₁ p₂ space₁ named space₂ raw width =
    let back₁ : n₁ - 1 + 1 ≡ n₁ = omega arith in
    let back₂ : n₂ - 1 + 1 ≡ n₂ = omega arith in
    let inside₁ : n₁ - 1 < end = omega (arith, space₂.lo) in
    let inside₂ : n₂ - 1 < end = omega arith in
    let eight : end - n₂ ≡ 8 = omega arith in
    let blank₁ = (==_iff (m (n₁ - 1)) b' ').0 space₁.hit in
    let blank₂ = (==_iff (m (n₂ - 1)) b' ').0 space₂.hit in
    rw
      (
        slice-cut m cur (n₁ - 1) end space₁.lo inside₁,
        back₁,
        slice-cut m n₁ (n₂ - 1) end space₂.lo inside₂,
        back₂,
        eight,
        blank₁,
        blank₂,
        named,
        ← raw,
      )
      (ap (λ l. name ++ b' ' ∷ l) (sym (append_assoc path query (b' ' ∷ slice m n₂ 8))))

-- From a non-NULL cursor: PARSE_OK means that the range is a method, a target and a version with
-- one space between them, each as the three parsers read it, and that printing the stored line
-- gives back the bytes of the range. Nothing that was read is lost or changed.
pub request_line_parse_sound :
    (m : Memory) (cur end : ℕ) (line : HttpRequestLine)
    → 0 < cur
    → (request_line_parse m cur end line).0.status ≡ parse_ok
    → LineRead m cur end
        (request_line_parse m cur end line).1
        (request_line_parse m cur end line).0.next
unfolding request_line_show
request_line_parse_sound m cur end line pos h =
    let (method_ok, target_ok, result) = passes m cur end line h in
    let a = method_parse m cur end line in
    let (method, _) = method_parse_sound m cur end line pos method_ok in
    let b = uri_parse m a.0.next end a.1 in
    let (target, kept, _) = uri_parse_sound m a.0.next end a.1 method.pos target_ok in
    let version_ok = rw (result) at h in
    let (width, version, next, stored) = version_parse_sound m b.0.next end b.1 version_ok in
    let one : a.0.next - 1 + 1 ≡ a.0.next = omega (arith, method.pos) in
    let two : b.0.next - 1 + 1 ≡ b.0.next = omega (arith, target.pos) in
    rw result (
      rw stored (record {
        sp₁ = a.0.next - 1;
        sp₂ = b.0.next - 1;
        method = rw (one, kept) method;
        target = rw (one, two) target;
        version = version;
        at_end = next;
        shown =
            pieces m cur a.0.next b.0.next end _ b.1.path b.1.query method.pos target.pos
              method.space (method.name ∙ ap http_method_show (sym kept)) target.space target.raw
              width;
      }))
