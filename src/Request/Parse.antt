-- ===== src/Request/Parse.antt =====
-- src/HttpRequest.c, `request_parse`: it terminates, and what an accepted request head is.
use http_server_from_scratch.Headers.Line.{crlf_parse_sound}
use http_server_from_scratch.Headers.{Header, crlf_parse}
use http_server_from_scratch.Memory.{Memory}
use http_server_from_scratch.ParseResult.{ParseResult, parse_ok, is_ok, parse_result_zero}
use http_server_from_scratch.Parser.{is_crlf, crlf_find, ows_trim_trailing}
use http_server_from_scratch.Prelude.{
  ℕ, ◌+◌, ◌-◌, ◌<◌, ◌≡◌, inl, inr, refl, subst, true, arith, List, Option, some, Bool-cases,
}
use http_server_from_scratch.Request.{HttpRequest, request_parse}
use http_server_from_scratch.RequestLine.Show.{LineRead, request_line_parse_sound}
use http_server_from_scratch.RequestLine.{request_line_parse}
use http_server_from_scratch.Request.Block.{
  ok_of, not_ok_of, AreHeaders, Block, headers_loop-BlockRead,
}

-- An accepted request head: a request line before the first CRLF, and a block of header lines.
pub record HeadRead (m : Memory) (buf end : ℕ) (before : List Header) (req : HttpRequest)
    (res : ParseResult) : Type 0 where
  pub line : LineRead m buf (crlf_find m buf end) req.request_line (crlf_find m buf end)
  pub line_end : is_crlf m (crlf_find m buf end) ≡ true
  pub block : Block m end res.next req.headers (crlf_find m buf end + 2) before

-- What `request_parse` returns.
pub record RequestRead (m : Memory) (buf len : ℕ) (req : HttpRequest)
    (parsed : Option (ParseResult × HttpRequest)) : Type 0 where
  pub result : ParseResult × HttpRequest
  pub returned : parsed ≡ some result
  pub headers : AreHeaders result.1.headers
  pub body_kept : (result.1.body ≡ req.body) × (result.1.body_len ≡ req.body_len)
  pub accepted :
      result.0.status ≡ parse_ok
      → HeadRead m buf (ows_trim_trailing m buf (buf + len)) req.headers result.1 result.0

-- `request_parse` always returns, from a non-NULL buffer and with no header stored yet or only
-- well-formed ones: the loop over the header lines ends. The headers it leaves are well formed and
-- fit the array, also when it fails. PARSE_OK means that the bytes are a request line up to the first
-- CRLF, header lines, and the first empty line, with the cursor behind it: each header line is not
-- empty and ends at its first CRLF, and the headers stored are those stored before and the header of
-- each of the lines in their order.
pub request_parse-RequestRead :
    (m : Memory) (buf len : ℕ) (req : HttpRequest)
    → 0 < buf
    → AreHeaders req.headers
    → RequestRead m buf len req (request_parse m buf len req)
unfolding request_parse
request_parse-RequestRead m buf len req pos a =
    let end = ows_trim_trailing m buf (buf + len) in
    let line_end = crlf_find m buf end in
    let line = request_line_parse m buf line_end req.request_line in
    let crlf = crlf_parse m line.0.next end in
    elim (Bool-cases (is_ok line.0.status)) [
      | inr e ↦ rw e (record {
        result = (line.0, record req { request_line = line.1 });
        returned = refl;
        headers = a;
        body_kept = (refl, refl);
        accepted = λ k. absurd (not_ok_of _ e k);
      })
      | inl e ↦ elim (Bool-cases (is_ok crlf.status)) [
        | inr f ↦
            rw (e, f)
              (record {
                result = (crlf, record req { request_line = line.1 });
                returned = refl;
                headers = a;
                body_kept = (refl, refl);
                accepted = λ k. absurd (not_ok_of _ f k);
              })
        | inl f ↦
            let (_, hit, next) = crlf_parse_sound m line.0.next end (ok_of _ f) in
            let t =
              headers_loop-BlockRead m end (end - crlf.next + 1) crlf.next parse_result_zero
                req.headers (omega arith) a in
            let r = request_line_parse_sound m buf line_end req.request_line pos (ok_of _ e) in
            rw (e, f, t.returned)
              (record {
                result = (t.result.0, record req { request_line = line.1; headers = t.result.1 });
                returned = refl;
                headers = t.stored;
                body_kept = (refl, refl);
                accepted = λ k. record {
                  line = rw r.at_end at r;
                  line_end = rw r.at_end at hit;
                  block =
                      subst (λ c. Block m end t.result.0.next t.result.1 c req.headers)
                        (omega (arith, next, r.at_end)) (t.ends k);
                };
              })
      ]
    ]
