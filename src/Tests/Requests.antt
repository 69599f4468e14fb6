-- ===== src/Tests/Requests.antt =====
-- Runs of the parsers of the request head.
use Prim.{tt}
use http_server_from_scratch.Headers.Field.{
  KeyRead, ValueRead, header_key_parse_sound, header_value_parse_sound,
}
use http_server_from_scratch.Headers.Find.{FoundHeader, ascii_ieq_iff, header_find_lem}
use http_server_from_scratch.Headers.Line.{
  HeaderRead, header_line_parse_failed, header_line_parse_sound,
}
use http_server_from_scratch.Headers.{
  header_line_parse, header_key_parse, header_value_parse, Header, header_find,
}
use http_server_from_scratch.Memory.{slice, Memory, string_memory}
use http_server_from_scratch.ParseResult.Uint.{Reads, uint_parse-Reads, uint_parse_complete}
use http_server_from_scratch.ParseResult.{failed, parse_bad_request, parse_ok, value, uint_parse}
use http_server_from_scratch.Parser.Search.{Absent, FirstAt, crlf_find_lem}
use http_server_from_scratch.Parser.{is_crlf, crlf_find, ascii_ieq, tolower}
use http_server_from_scratch.Prelude.{
  ◌<◌, ◌⊎◌, ◌↔◌, map, inr, true, ◌+◌, ◌≡◌, refl, arith, [], ◌∷◌, CString, codes, length, inl,
}
use http_server_from_scratch.Request.Parse.{RequestRead, request_parse-RequestRead}
use http_server_from_scratch.Request.{request_zero, request_parse}
use http_server_from_scratch.RequestLine.Method.{
  http_method_parse_sound, http_method_parse_complete,
}
use http_server_from_scratch.RequestLine.Show.{LineRead, request_line_parse_sound}
use http_server_from_scratch.RequestLine.Uri.{UriRead, uri_parse_sound}
use http_server_from_scratch.RequestLine.Version.{
  IsVersion, version_parse_sound, version_parse_complete,
}
use http_server_from_scratch.RequestLine.{
  post, put, delete, http_method_parse, http_method_show, request_line_parse, uri_parse,
  version_parse, request_line_zero, get,
}
use http_server_from_scratch.Tests.Program.{program}

abbrev text : CString
text = codes "GET /a%20b?q=1 HTTP/1.1\r\nHost: x.y\r\nX-Id:  7 \r\n\r\n"

-- The request at address 100.
abbrev memory : Memory
memory = string_memory 100 text

abbrev host : Header
host = record { key = codes "Host"; value = codes "x.y" }

request_parse-RequestRead_example :
    RequestRead memory 100
      (length text)
      request_zero
      (request_parse memory 100 (length text) request_zero)
request_parse-RequestRead_example =
    request_parse-RequestRead memory 100 (length text) request_zero (omega arith)
      (record { each = tt; count = omega arith })

request_line_parse_sound_example :
    LineRead memory 100 123
      (request_line_parse memory 100 123 request_line_zero).1
      (request_line_parse memory 100 123 request_line_zero).0.next
unfolding program
request_line_parse_sound_example =
    request_line_parse_sound memory 100 123 request_line_zero (omega arith) refl

uri_parse_sound_example :
    UriRead memory 104 123
      (uri_parse memory 104 123 request_line_zero).1.path
      (uri_parse memory 104 123 request_line_zero).1.query
      (uri_parse memory 104 123 request_line_zero).0.next
    × ((uri_parse memory 104 123 request_line_zero).1.method ≡ request_line_zero.method)
    × ((uri_parse memory 104 123 request_line_zero).1.version ≡ request_line_zero.version)
unfolding program
uri_parse_sound_example = uri_parse_sound memory 104 123 request_line_zero (omega arith) refl

http_method_parse_sound_example :
    (slice memory 100 3 ≡ http_method_show (http_method_parse memory 100 3))
    × ((http_method_parse memory 100 3 ≡ get)
        ⊎ (http_method_parse memory 100 3 ≡ post)
        ⊎ (http_method_parse memory 100 3 ≡ put)
        ⊎ (http_method_parse memory 100 3 ≡ delete))
unfolding program
http_method_parse_sound_example = http_method_parse_sound memory 100 3 (λ e. ground arith)

http_method_parse_complete_example : http_method_parse memory 100 3 ≡ get
unfolding program
http_method_parse_complete_example = http_method_parse_complete memory 100 3 get (inl refl) refl

version_parse_sound_example :
    (123 ≡ 115 + 8)
    × IsVersion (slice memory 115 8)
    × ((version_parse memory 115 123 request_line_zero).0.next ≡ 123)
    × ((version_parse memory 115 123 request_line_zero).1
        ≡ record request_line_zero { version = slice memory 115 8 })
unfolding program
version_parse_sound_example = version_parse_sound memory 115 123 request_line_zero refl

version_parse_complete_example :
    (version_parse memory 115 123 request_line_zero).0.status ≡ parse_ok
unfolding program
version_parse_complete_example =
    version_parse_complete memory 115 request_line_zero (inr (inr refl))

header_line_parse_sound_example :
    HeaderRead memory 125 134 []
      (header_line_parse memory 125 134 []).1
      (header_line_parse memory 125 134 []).0.next
unfolding program
header_line_parse_sound_example = header_line_parse_sound memory 125 134 [] refl

header_line_parse_failed_example : (header_line_parse memory 123 134 (host ∷ [])).1 ≡ host ∷ []
unfolding program
header_line_parse_failed_example =
    header_line_parse_failed memory 123 134 (host ∷ []) (λ e. ground arith)

header_key_parse_sound_example :
    KeyRead memory 136 140
      (header_key_parse memory 136 140 host).1.key
      (header_key_parse memory 136 140 host).0.next
    × ((header_key_parse memory 136 140 host).1.value ≡ host.value)
unfolding program
header_key_parse_sound_example = header_key_parse_sound memory 136 140 host refl

header_value_parse_sound_example :
    ValueRead memory 141 145
      (header_value_parse memory 141 145 host).1.value
      (header_value_parse memory 141 145 host).0.next
    × ((header_value_parse memory 141 145 host).1.key ≡ host.key)
unfolding program
header_value_parse_sound_example = header_value_parse_sound memory 141 145 host refl

header_find_lem_example :
    FoundHeader (host ∷ []) (codes "HOST") (header_find (host ∷ []) (codes "HOST"))
header_find_lem_example = header_find_lem (host ∷ []) (codes "HOST")

ascii_ieq_iff_example :
    (ascii_ieq (codes "Host") (codes "hOST") ≡ true)
    ↔ (map tolower (codes "Host") ≡ map tolower (codes "hOST"))
ascii_ieq_iff_example = ascii_ieq_iff (codes "Host") (codes "hOST")

crlf_find_lem_example :
    ((crlf_find memory 100 150 ≡ 150) × Absent (is_crlf memory) 100 149)
    ⊎ ((crlf_find memory 100 150 + 1 < 150)
        × FirstAt (is_crlf memory) 100 (crlf_find memory 100 150))
crlf_find_lem_example = crlf_find_lem memory 100 150

-- A Content-Length of 42 at address 1.
abbrev digits : Memory
digits = string_memory 1 (codes "42")

uint_parse-Reads_example :
    ((length (codes "42") ≡ 0)
      × (uint_parse digits 1 (length (codes "42")) 10 999 ≡ failed parse_bad_request))
    ⊎ Reads digits 1 2 10 999 0 (uint_parse digits 1 2 10 999)
uint_parse-Reads_example =
    uint_parse-Reads 10 999 (omega arith) (omega arith) (omega arith) digits 1 2

uint_parse_complete_example : uint_parse digits 1 2 10 999 ≡ value 42
unfolding program
uint_parse_complete_example =
    uint_parse_complete 10 999 (omega arith) (omega arith) (omega arith) digits 1 2 42 (omega arith)
      refl (omega arith)
