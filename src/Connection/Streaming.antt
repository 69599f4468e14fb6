-- ===== src/Connection/Streaming.antt =====
-- src/Connection.c, `step_response_send_stream`: pulling from a producer and sending chunks.
use http_server_from_scratch.Config.{http_stream_chunk_size}
use http_server_from_scratch.Connection.Step.{response_end}
use http_server_from_scratch.Connection.{
  conn_sending_response_stream, conn_closed, StreamPhase, stream_header, stream_pull, stream_drain,
  stream_trailer, stream_done, System, StepResult, set_conn, resp_written, stream_release,
}
use http_server_from_scratch.Network.{take}
use http_server_from_scratch.Prelude.{
  ℕ, zero, suc, ◌+◌, List, [], ◌∷◌, ◌++◌, if◌then◌else◌, length, Option, none, some,
}
use http_server_from_scratch.Response.{
  Pull, pulled, pull_failed, Stream, Sent, SendResponseStatus, send_ok, send_peer_closed,
  send_has_more, send_error, response_send, chunk_frame, chunk_frame_last,
}
use http_server_from_scratch.Router.Serving.{is_head}

-- How one round of the loop ends: the step returns, or the loop goes on.
pub data Round : Type 0 where
  leave : StepResult → Round
  again : System → Round

unfoldable pub stream_abort : System → StepResult
stream_abort s =
    let s' = stream_release s in
    some (conn_closed, set_conn s' (record s'.conn { st_stream_phase = stream_done }))

-- `st.stream.send.sent = 0; st.stream.phase = phase;`
abbrev stream_enter : System → StreamPhase → System
stream_enter s phase = set_conn s (record s.conn { st_stream_phase = phase; st_stream_sent = 0 })

unfoldable pub stream_handle_response : System → SendResponseStatus → StreamPhase → Round
stream_handle_response s send_error phase = leave (stream_abort s)
stream_handle_response s send_peer_closed phase = leave (stream_abort s)
stream_handle_response s send_has_more phase = leave (some (conn_sending_response_stream, s))
stream_handle_response s send_ok phase = again (stream_enter s phase)

-- What follows a call of `response_send`, and the phase behind it.
unfoldable pub stream_sent : System → Option Sent → StreamPhase → Round
stream_sent s none phase = leave none
stream_sent s (some r) phase =
    stream_handle_response
      (record s {
        conn = record s.conn { st_stream_sent = r.sent };
        sends = r.left;
        wire = s.wire ++ r.wire;
      })
      r.status phase

unfoldable pub stream_send : System → StreamPhase → Round
stream_send s phase =
    stream_sent s (response_send s.memory s.conn.resp_buf s.conn.st_stream_sent s.sends) phase

-- A frame written into the response buffer, if it fits.
unfoldable pub stream_frame : System → Option (List ℕ) → StreamPhase → Round
stream_frame s none phase = leave (stream_abort s)
stream_frame s (some bytes) phase = again (stream_enter (resp_written s bytes) phase)

-- One call of `pull`, by the results of the calls to come.
unfoldable pub stream_pulled : System → Stream → List Pull → Round
stream_pulled s p [] = stream_frame s (chunk_frame_last s.conn.resp_buf.cap) stream_trailer
stream_pulled s p (pull_failed ∷ pulls) =
    leave
      (stream_abort (set_conn s (record s.conn { producer = some (record p { pulls = pulls }) })))
stream_pulled s p (pulled b bs ∷ pulls) =
    stream_frame (set_conn s (record s.conn { producer = some (record p { pulls = pulls }) }))
      (chunk_frame (take http_stream_chunk_size (b ∷ bs)) s.conn.resp_buf.cap) stream_drain

-- A call of `pull` when it is NULL is `none`, be it that the producer was cleared or that it has none.
unfoldable pub pull_round : System → Option Stream → Round
pull_round s none = leave none
pull_round s (some p) = if p.pull then stream_pulled s p p.pulls else leave none

-- The `switch (conn->st.stream.phase)`.
unfoldable pub stream_round : System → StreamPhase → Round
stream_round s stream_header =
    stream_send s
      (if is_head s.conn.req_parsed.request_line.method then stream_done else stream_pull)
stream_round s stream_pull = pull_round s s.conn.producer
stream_round s stream_drain = stream_send s stream_pull
stream_round s stream_trailer = stream_send s stream_done
stream_round s stream_done = leave (response_end (stream_release s))

-- The loop in at most `n` rounds.
unfoldable pub stream_loop : ℕ → System → StepResult
stream_loop zero s = none
stream_loop (suc n) s = elim (stream_round s s.conn.st_stream_phase) [
  | leave r ↦ r
  | again s' ↦ stream_loop n s'
]

-- The calls of `pull` to come.
abbrev pub producer_pulls : Option Stream → ℕ
producer_pulls none = 0
producer_pulls (some p) = length p.pulls

abbrev pub pulls_left : System → ℕ
pulls_left s = producer_pulls s.conn.producer

-- A round that does not leave the loop uses up a call of send or of `pull`, or enters the trailer.
unfoldable pub step_response_send_stream : System → StepResult
step_response_send_stream s = stream_loop (length s.sends + pulls_left s + 3) s
