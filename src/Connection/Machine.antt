-- ===== src/Connection/Machine.antt =====
-- src/Connection.c, `connection_step_process`: the steps of a connection during one wake-up.
use http_server_from_scratch.Connection.Build.{step_response_build}
use http_server_from_scratch.Connection.Header.{step_header_read}
use http_server_from_scratch.Connection.Step.{
  step_send_100, step_body_cl_read, step_body_chunked_read, step_response_send,
}
use http_server_from_scratch.Connection.Streaming.{step_response_send_stream}
use http_server_from_scratch.Connection.{
  ConnPhase, conn_reading_request, conn_reading_body_cl, conn_reading_body_chunked,
  conn_sending_100, conn_building, conn_sending_response, conn_sending_response_stream, conn_closed,
  System, Env, StepResult, set_conn,
}
use http_server_from_scratch.Prelude.{
  ◌>>=◌, ℕ, zero, suc, Bool, true, false, ◌||◌, ◌==◌, Option, none, some,
}

-- The value of the enumerator.
abbrev pub phase_number : ConnPhase → ℕ
phase_number conn_reading_request = 0
phase_number conn_reading_body_cl = 1
phase_number conn_reading_body_chunked = 2
phase_number conn_sending_100 = 3
phase_number conn_building = 4
phase_number conn_sending_response = 5
phase_number conn_sending_response_stream = 6
phase_number conn_closed = 7

-- The `switch (conn->phase)`.
unfoldable pub phase_step : Env → System → ConnPhase → StepResult
phase_step env s conn_reading_request = step_header_read env s
phase_step env s conn_sending_100 = step_send_100 s
phase_step env s conn_reading_body_cl = step_body_cl_read env s
phase_step env s conn_reading_body_chunked = step_body_chunked_read env s
phase_step env s conn_building = step_response_build env s
phase_step env s conn_sending_response = step_response_send s
phase_step env s conn_sending_response_stream = step_response_send_stream s
phase_step env s conn_closed = some (conn_closed, s)

-- One round, with the new phase stored.
unfoldable pub connection_step : Env → System → Option System
connection_step env s = do
  (phase, s') ← phase_step env s s.conn.phase
  some (set_conn s' (record s'.conn { phase = phase }))

-- `conn->phase != prev && conn->phase != CONN_CLOSED`, negated
abbrev pub settled : ConnPhase → ConnPhase → Bool
settled prev phase = phase_number phase == phase_number prev || phase_number phase == 7

-- The loop in at most `n` rounds; `none` also when those are used up.
unfoldable pub connection_step_process : ℕ → Env → System → Option System
connection_step_process zero env s = none
connection_step_process (suc n) env s = elim (connection_step env s) [
  | none ↦ none
  | some s' ↦ elim (settled s.conn.phase s'.conn.phase) [
    | true ↦ some s'
    | false ↦ connection_step_process n env s'
  ]
]
