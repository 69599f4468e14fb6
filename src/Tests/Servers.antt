-- ===== src/Tests/Servers.antt =====
-- Runs of a whole connection, of the table of clients and of the event loop.
use http_server_from_scratch.Tests.Setup.{
  memory, idle, get_root, streaming, streaming-IsSafe, files, table, calls, small,
}
use http_server_from_scratch.Arena.Blocks.{IsArena, AreBlocks, arena_allocs, arena_allocs-AreBlocks}
use http_server_from_scratch.Arena.{Arena}
use http_server_from_scratch.Config.{http_conn_arena_size, http_response_buffer_size}
use http_server_from_scratch.Connection.Header.{conn_recv_header}
use http_server_from_scratch.Connection.Receive.{HeaderOutcome, conn_recv_header-HeaderOutcome}
use http_server_from_scratch.Connection.Safety.{IsSafe, Steps}
use http_server_from_scratch.Connection.Safety.Pulling.{step_response_send_stream-Steps}
use http_server_from_scratch.Connection.Streaming.{step_response_send_stream}
use http_server_from_scratch.Connection.{conn_sending_response_stream, Connection}
use http_server_from_scratch.Dictionary.Refinement.{inserted, puts, dict_find-inserted}
use http_server_from_scratch.Dictionary.{dict_init, dict_find}
use http_server_from_scratch.HttpServer.Goes.{Goes}
use http_server_from_scratch.Networking.Buffers.{IsInit, connection_init-IsInit}
use http_server_from_scratch.Networking.Slots.{IsAdded, add_to_client_set-IsAdded}
use http_server_from_scratch.Networking.{ClientSet, connection_init, add_to_client_set, at_rest}
use http_server_from_scratch.ParseResult.{parse_not_found}
use http_server_from_scratch.Prelude.{
  ℕ, ◌+◌, ◌*◌, ◌≤◌, ◌<◌, ◌≡◌, refl, arith, true, false, List, [], none, ◌∷◌, length, codes, some,
}
use http_server_from_scratch.Response.Errors.{error_page, error_page-fits}
use http_server_from_scratch.Connection.Build.{allow_cap}
use http_server_from_scratch.Request.{request_zero}
use http_server_from_scratch.Response.Allow.{response_error_405-fits}
use http_server_from_scratch.Response.Fits.{layout}
use http_server_from_scratch.Response.{
  response_serialize, response_error_from_status, response_error_405, allow_loop,
}
use http_server_from_scratch.Router.Content.{Files, ContentRegistry, serve_dyn_resident}
use http_server_from_scratch.Router.Registration.{content_registry_add_dir}
use http_server_from_scratch.Router.Revalidation.{IsLookup, content_registry_lookup-IsLookup}
use http_server_from_scratch.Router.Serving.{content_registry_lookup}
use http_server_from_scratch.Router.Safety.{
  IsRegistry, dict_init-IsRegistry, content_registry_add_dir-IsRegistry,
}
use Prim.{tt}

step_response_send_stream-Steps_example :
    Steps conn_sending_response_stream 0 (step_response_send_stream streaming)
step_response_send_stream-Steps_example = step_response_send_stream-Steps streaming streaming-IsSafe

conn_recv_header-HeaderOutcome_example :
    HeaderOutcome memory idle.req_buf (conn_recv_header memory idle.req_buf get_root)
conn_recv_header-HeaderOutcome_example =
    conn_recv_header-HeaderOutcome memory idle.req_buf get_root (omega arith) (omega arith)

connection_init-IsInit_example :
    (c : Connection) × (connection_init idle (1024 * 4) http_conn_arena_size ≡ some c)
    × IsInit (1024 * 4) c
    × IsSafe c.phase (at_rest memory dict_init c)
connection_init-IsInit_example =
    connection_init-IsInit idle 1024 memory dict_init (omega arith) dict_init-IsRegistry

add_to_client_set-IsAdded_example :
    (after : ClientSet) × (add_to_client_set table 6 ≡ some after)
    × (after.arena_backing ≡ table.arena_backing)
    × IsAdded 6 table after
add_to_client_set-IsAdded_example = add_to_client_set-IsAdded table 1024 6 refl (omega arith)

dict_find-inserted_example : dict_find (inserted calls) (codes "/") ≡ puts calls (codes "/")
dict_find-inserted_example = dict_find-inserted calls (codes "/")

arena_allocs-AreBlocks_example :
    (blocks : List (ℕ × ℕ)) × (a' : Arena) × (arena_allocs small ((3, 0) ∷ (4, 2) ∷ (9, 1) ∷ [])
      ≡ some (blocks, a'))
    × IsArena 2 a'
    × (a'.base ≡ small.base)
    × (a'.cap ≡ small.cap)
    × AreBlocks (small.base + small.used) (a'.base + a'.used) blocks
arena_allocs-AreBlocks_example =
    arena_allocs-AreBlocks 2 small ((3, 0) ∷ (4, 2) ∷ (9, 1) ∷ [])
      (record { word = omega arith; origin = (1024, refl); used = omega arith; room = omega arith })
      (omega arith, (omega arith, (omega arith, tt)))

error_page-fits_example :
    (response_serialize
        (record (response_error_from_status parse_not_found) { head_only = false })
        http_response_buffer_size
        false
        (some (codes "Date: now\r\n"))
      ≡ some (error_page parse_not_found false false (codes "Date: now\r\n")))
    × (0 < length (error_page parse_not_found false false (codes "Date: now\r\n")))
    × (length (error_page parse_not_found false false (codes "Date: now\r\n"))
        ≤ http_response_buffer_size)
error_page-fits_example =
    error_page-fits parse_not_found false false (codes "Date: now\r\n") (omega arith)

response_error_405-fits_example :
    (response_serialize
        (record (response_error_405 (codes "GET" ∷ codes "POST" ∷ []) allow_cap) {
          head_only = true;
        })
        http_response_buffer_size
        false
        (some (codes "Date: now\r\n"))
      ≡ some (
          layout
            (record (response_error_405 (codes "GET" ∷ codes "POST" ∷ []) allow_cap) {
              head_only = true;
            })
            false
            (codes "Date: now\r\n")))
    × (length (
          layout
            (record (response_error_405 (codes "GET" ∷ codes "POST" ∷ []) allow_cap) {
              head_only = true;
            })
            false
            (codes "Date: now\r\n"))
        ≤ http_response_buffer_size)
    × (length (allow_loop allow_cap true (codes "GET" ∷ codes "POST" ∷ []) []) < allow_cap)
response_error_405-fits_example =
    response_error_405-fits (codes "GET" ∷ codes "POST" ∷ []) true false (codes "Date: now\r\n")
      (omega arith)

-- A file of three bytes, which has changed since it was loaded.
abbrev changed : Files
changed = record files {
  stat = λ p. some (record { st_mtime = 9; st_size = 3 });
  file_read = λ p n. some (codes "abc");
}

abbrev loaded : ContentRegistry
loaded =
    (content_registry_add_dir
      (record changed { stat = λ p. some (record { st_mtime = 8; st_size = 3 }) }) dict_init
      (codes "www") (some (record { d_name = codes "a.css"; is_regular = true } ∷ [])) none
      serve_dyn_resident).1

loaded-IsRegistry : IsRegistry loaded
loaded-IsRegistry =
    content_registry_add_dir-IsRegistry
      (record changed { stat = λ p. some (record { st_mtime = 8; st_size = 3 }) }) dict_init
      (codes "www") (some (record { d_name = codes "a.css"; is_regular = true } ∷ [])) none
      serve_dyn_resident dict_init-IsRegistry

content_registry_lookup-IsLookup_example :
    IsLookup (content_registry_lookup changed loaded request_zero (codes "/a.css"))
content_registry_lookup-IsLookup_example =
    content_registry_lookup-IsLookup changed loaded request_zero (codes "/a.css") loaded-IsRegistry
