-- ===== src/Config.antt =====
-- include/http_server/Config.h: the limits of a build with no overrides and no ESP32 profile.
use http_server_from_scratch.Prelude.{ℕ, ◌*◌, ◌+◌}

abbrev pub http_max_path_len : ℕ
http_max_path_len = 2048

abbrev pub http_max_query_len : ℕ
http_max_query_len = 512

abbrev pub http_max_request_len : ℕ
http_max_request_len = 8 * 1024 * 1024

abbrev pub http_version_len : ℕ
http_version_len = 8

abbrev pub http_max_headers : ℕ
http_max_headers = 32

abbrev pub http_max_header_key_len : ℕ
http_max_header_key_len = 64

abbrev pub http_max_header_value_len : ℕ
http_max_header_value_len = 256

abbrev pub http_max_body_len : ℕ
http_max_body_len = 1 * 1024 * 1000

abbrev pub http_max_dechunk_size : ℕ
http_max_dechunk_size = 16 * 1024

abbrev pub http_response_buffer_size : ℕ
http_response_buffer_size = 8 * 1024

abbrev pub http_stream_chunk_size : ℕ
http_stream_chunk_size = 4 * 1024

abbrev pub http_max_requests : ℕ
http_max_requests = 100

abbrev pub http_max_connections : ℕ
http_max_connections = 4

abbrev pub http_arena_slack : ℕ
http_arena_slack = 8 * 1024

abbrev pub http_conn_arena_size : ℕ
http_conn_arena_size =
    http_max_request_len + http_response_buffer_size + http_max_dechunk_size + http_arena_slack

abbrev pub http_bucket : ℕ
http_bucket = 1024
