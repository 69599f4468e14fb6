-- ===== src/Lib.antt =====
-- Verification of the HTTP/1.1 server.
--
-- The program serves requests over non-blocking sockets. For each connection it reads a request head
-- into a buffer, parses it (request line, headers), decides how the body is framed, reads the body by
-- its length or chunk by chunk, looks the target up in the content registry and the route table,
-- writes a response into a second buffer and sends it; then the connection is closed or reset for the
-- next request.
--
-- Files and the code they model (paths from the root of the repository):
--   Prelude          numbers, lists, byte strings and Boolean tests that all files share
--   Config           include/http_server/Config.h, the limits of the default profile
--   Memory           pointers, ranges of bytes and the functions of string.h; Scan and
--                    Copy on them
--   Parser           src/parser.c; Parser.Search on its searches
--   ParseResult      src/ParseResult.c; ParseResult.Uint on `uint_parse`
--   RequestLine      src/HttpRequestLine.c; Method, Uri, Version and Show on its parsers
--   Headers          src/HttpHeaders.c; Field, Line and Find on its functions
--   Request          src/HttpRequest.c; Block on the header lines, Parse on `request_parse`
--   Network          include/http_server/HttpBuffer.h and the results of recv and send
--   Body             src/HttpBody.c: Chunk (`chunk_advance`), Read (the two readers) and
--                    TransferEncoding; Progress, Total, Place and ContentLength hold the
--                    proofs, Calls and Frame those on chunks that the server wrote
--   Arena            src/Arena.c; Blocks on blocks, Bits on masks, Bounds on assertions
--   Dictionary       src/Dictionary.c; Map on insertion and lookup, Refinement on tables as maps
--   Response         src/HttpResponse.c; Serialize and Fits on writing, Errors on the error pages,
--                    Allow on that of 405, Digits on numbers, Sending on sending
--   Router           src/HttpRouter.c: the route table; Content, Serving and Registration are the
--                    content registry: its entries, answers from it, and filling it; Lookup,
--                    Duplicates, Safety, Revalidation and Scratch hold the proofs
--   Connection       src/Connection.c and src/Connection.h: the state and what steps share; Header
--                    (reading a head), Step (bodies and sending), Build (the answer), Streaming (a
--                    response in chunks) and Machine (`connection_step_process`); Framing, Receive,
--                    Reset and Rounds hold proofs on single functions, and Safety, with its
--                    children, what holds in each phase: Sending, Reading, Bodies, Answering,
--                    Building and Pulling on the steps, Run on the loop around them
--   Networking       src/Networking.c and src/Networking.h: the table of clients; Buffers on setting
--                    a connection up, Slots on adding one
--   HttpServer       src/HttpServer.c: the event loop; Loop on one client, Goes on how the loop may go,
--                    Rounds on its rounds, Start the start of `server_run`, Port on the test of the
--                    port
--   Tests            runs at concrete inputs
--
-- The model. Memory is a function from addresses to bytes, a pointer is an address and NULL is 0; a
-- cursor into a buffer is a number between the address of its first byte and that of its end. A C
-- string that is stored is the list of the bytes before its NUL, and the limit of its array is kept
-- where the code tests it. A parser returns the struct ParseResult and what it stored. `size_t` has 64
-- bits; the wrap-around is written out where the code can reach it. A failed assertion is `none`, but
-- for those of `conn_recv_header` and `conn_recv_body_cl`: that the descriptor is not negative holds
-- of every number, and that the request buffer is not NULL is a condition in every phase of a
-- connection. A pointer to a struct that a function asserts is not NULL is the struct. A wake-up is given the results of its calls of recv or
-- send as a list; when the list is used up the socket has nothing more (EAGAIN).
--
-- Loops over a range run on the number of its bytes, which is what the code's loop condition leaves.
-- The loop over header lines and the inner loop over chunks have their rounds counted: as many as
-- there are bytes left and one more, since a round that goes on uses up a byte. The loop of the
-- streaming step has one round for each call of send and of a producer to come and three more: for
-- the end of the producer, the trailer and the last phase. `connection_step_process` is given its
-- number of rounds; it needs six for each request that the connection may still serve, and six more.
-- The event loop runs for the results of poll that it is given, each with its files and time, which
-- stay the same within the round. `exit(1)` when poll fails is a result of the loop.
--
-- Not modelled: `listener_socket_get` and `inet_ntop2`, which only call the system, the functions that
-- print for debugging, freeing, and the ESP32 profile. The file system, HTTP dates, the text of the
-- current time, and the results of accept, fcntl, poll and strtol are parameters. Allocation by malloc
-- succeeds. A handler is a parameter: a function of the request and of the
-- arena to which `scratch` points.
pub mod Prelude
pub mod Config
pub mod Memory
pub mod Parser
pub mod ParseResult
pub mod RequestLine
pub mod Headers
pub mod Request
pub mod Network
pub mod Body
pub mod Arena
pub mod Dictionary
pub mod Response
pub mod Router
pub mod Connection
pub mod Networking
pub mod HttpServer
mod Tests
