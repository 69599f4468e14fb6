-- ===== src/Tests/Program.antt =====
-- What the runs of the model unfold: all its functions.
use Prim.{tt}
use http_server_from_scratch.Arena.{
  arena_init, arena_mark, arena_reset_to, arena_reset, align_up, arena_alloc,
}
use http_server_from_scratch.Body.{content_length_parse}
use http_server_from_scratch.Body.Chunk.{
  size_line, advance_size, advance_data, advance_byte, advance_trailer, advance_in, chunk_advance,
}
use http_server_from_scratch.Body.Read.{
  drain_call, drain_step, chunk_drain, leave_or, conn_recv_body_cl, chunked_recv, after_drain,
  chunked_loop, conn_recv_body_chunked,
}
use http_server_from_scratch.Body.TransferEncoding.{
  eq_chunked, coding_classify, codings_loop, codings_decide, transfer_encoding_parse,
}
use http_server_from_scratch.Connection.{
  phase_send_begin, phase_send_100_begin, error_begin, send_error_response, phase_body_dispatch,
  request_consume, connection_reset, stream_release,
}
use http_server_from_scratch.Connection.Build.{
  route_answer, routed, content_answer, answer, build_buffered, build_stream, build_body,
  step_response_build,
}
use http_server_from_scratch.Connection.Header.{
  find_terminator, header_check, header_or, conn_recv_header, te_loop, length_decide, head_decide,
  body_decide, head_parsed, head_step, header_status, step_header_read,
}
use http_server_from_scratch.Connection.Machine.{
  phase_step, connection_step, connection_step_process,
}
use http_server_from_scratch.Connection.Step.{
  send_step, step_send_100, cl_status, step_body_cl_read, chunked_status, step_body_chunked_read,
  response_end, step_response_send,
}
use http_server_from_scratch.Connection.Streaming.{
  stream_abort, stream_handle_response, stream_sent, stream_send, stream_frame, stream_pulled,
  pull_round, stream_round, stream_loop, step_response_send_stream,
}
use http_server_from_scratch.Dictionary.{
  hash_loop, key_hash, dict_index, dict_init, chain_replace, node_head_insert, dict_insert,
  chain_find, dict_find,
}
use http_server_from_scratch.Headers.{
  key_loop, header_key_parse, value_loop, header_value_parse, header_line_parse, crlf_parse,
  header_find,
}
use http_server_from_scratch.HttpServer.{
  conn_phase_event, client_after, client_serve, clients_serve, poll_fill, server_round, server_goes,
  server_loop,
}
use http_server_from_scratch.HttpServer.Start.{server_port_valid, free_slots, server_start}
use http_server_from_scratch.Memory.{advance, retreat, slice, string_memory, mem_eq, memchr, memcpy}
use http_server_from_scratch.Network.{store}
use http_server_from_scratch.Networking.{
  connection_init, slot_fill, add_loop, add_to_client_set, client_set_add_new, client_set_delete,
  connection_close,
}
use http_server_from_scratch.ParseResult.{parse_error_set, digit_value, uint_loop, uint_parse}
use http_server_from_scratch.Parser.{
  tolower, is_crlf, crlf_find, is_ows, is_colon, colon_find, ows_skip, range_trim_to_comma,
  ows_trim_trailing, is_hex, is_tchar, all_tchar, is_token, is_vchar, is_field_content_byte,
  ascii_ieq, string_from, str_ends_with,
}
use http_server_from_scratch.Prelude.{str_eq}
use http_server_from_scratch.Request.{headers_loop, request_parse}
use http_server_from_scratch.RequestLine.{
  http_method_parse, http_method_show, method_parse, uri_loop, uri_parse, version_parse,
  request_line_parse, request_line_show,
}
use http_server_from_scratch.Response.{
  print_loop, print_uint, print_behind, header_text, headers_write, blank_write, length_write,
  bytes_write, body_write, status_line, start_write, date_write, connection_write,
  response_serialize, response_buffer, response_none, response_stream, response_error_from_status,
  allow_loop, response_error_405, response_error_serialize, chunk_frame, chunk_frame_last,
  send_call, response_send,
}
use http_server_from_scratch.Router.{
  lookup_loop, route_lookup, content_type, shadows_content, repeats, any_repeats,
  router_has_duplicate_routes,
}
use http_server_from_scratch.Router.Content.{
  reval_fill, content_type_header, content_entry_static_load, content_entry_dynamic_load,
  content_entry_streamed_load,
}
use http_server_from_scratch.Router.Registration.{
  entry_load, add_loaded, add_found, content_registry_add_file, add_dir_loop,
  content_registry_add_dir,
}
use http_server_from_scratch.Router.Serving.{
  first_headers, headers_from, response_resident, file_stream_open, response_streamed,
  response_dynamic_304, request_validators_match, stat_dynamic, lookup_dynamic, lookup_entry,
  content_registry_lookup, response_in_mode, response_for_entry,
}

unfoldable pub program : Unit {0}
unfolding arena_init arena_mark arena_reset_to arena_reset align_up arena_alloc content_length_parse
    size_line advance_size advance_data advance_byte advance_trailer advance_in chunk_advance
    drain_call drain_step chunk_drain leave_or conn_recv_body_cl chunked_recv after_drain
    chunked_loop conn_recv_body_chunked eq_chunked coding_classify codings_loop codings_decide
    transfer_encoding_parse phase_send_begin phase_send_100_begin error_begin send_error_response
    phase_body_dispatch request_consume connection_reset stream_release route_answer routed
    content_answer answer build_buffered build_stream build_body step_response_build find_terminator
    header_check header_or conn_recv_header te_loop length_decide head_decide body_decide
    head_parsed head_step header_status step_header_read phase_step connection_step
    connection_step_process send_step step_send_100 cl_status step_body_cl_read chunked_status
    step_body_chunked_read response_end step_response_send stream_abort stream_handle_response
    stream_sent stream_send stream_frame stream_pulled pull_round stream_round stream_loop
    step_response_send_stream hash_loop key_hash dict_index dict_init chain_replace node_head_insert
    dict_insert chain_find dict_find key_loop header_key_parse value_loop header_value_parse
    header_line_parse crlf_parse header_find conn_phase_event client_after client_serve
    clients_serve poll_fill server_round server_goes server_loop server_port_valid free_slots
    server_start advance retreat slice string_memory mem_eq memchr memcpy store connection_init
    slot_fill add_loop add_to_client_set client_set_add_new client_set_delete connection_close
    parse_error_set digit_value uint_loop uint_parse tolower is_crlf crlf_find is_ows is_colon
    colon_find ows_skip range_trim_to_comma ows_trim_trailing is_hex is_tchar all_tchar is_token
    is_vchar is_field_content_byte ascii_ieq string_from str_ends_with str_eq headers_loop
    request_parse http_method_parse http_method_show method_parse uri_loop uri_parse version_parse
    request_line_parse request_line_show print_loop print_uint print_behind header_text
    headers_write blank_write length_write bytes_write body_write status_line start_write date_write
    connection_write response_serialize response_buffer response_none response_stream
    response_error_from_status allow_loop response_error_405 response_error_serialize chunk_frame
    chunk_frame_last send_call response_send lookup_loop route_lookup content_type shadows_content
    repeats any_repeats router_has_duplicate_routes reval_fill content_type_header
    content_entry_static_load content_entry_dynamic_load content_entry_streamed_load entry_load
    add_loaded add_found content_registry_add_file add_dir_loop content_registry_add_dir
    first_headers headers_from response_resident file_stream_open response_streamed
    response_dynamic_304 request_validators_match stat_dynamic lookup_dynamic lookup_entry
    content_registry_lookup response_in_mode response_for_entry
program = tt
