-- ===== src/Body.antt =====
-- src/HttpBody.c and include/http_server/HttpBody.h: the request body. `Body.Chunk` is the chunk
-- decoder, `Body.Read` the readers, `Body.TransferEncoding` the header's parser; this file has the
-- parser of Content-Length.
pub mod Chunk
pub mod Read
pub mod Progress
pub mod Total
pub mod Place
pub mod Calls
pub mod Frame
pub mod ContentLength
pub mod TransferEncoding
use http_server_from_scratch.Config.{http_max_body_len}
use http_server_from_scratch.Memory.{string_memory}
use http_server_from_scratch.ParseResult.{UintResult, uint_parse}
use http_server_from_scratch.Prelude.{length, CString}

-- The string stands at address 1.
unfoldable pub content_length_parse : CString → UintResult
content_length_parse val = uint_parse (string_memory 1 val) 1 (length val) 10 http_max_body_len
