-- ===== src/Rpc/Server.antt =====
-- The server's side of a connection in src/qworker/rpc.py: `_handle_connection`.
use dogqoder.Prelude.{String, List, [], ◌∷◌, ◌++◌, ◌==◌, if◌then◌else◌, false}
use dogqoder.Json.{Object, null, str}
use dogqoder.Supervisor.{Sup}
use dogqoder.Supervisor.Resume.{status}
use dogqoder.Rpc.Fields.{rejected, parsed}
use dogqoder.Rpc.Requests.{Request, decode_request}
use dogqoder.Rpc.Dispatch.{Service, Fault, dispatch}
use dogqoder.Rpc.Report.{
  Line, line, oversized, interrupted, Handled, report, report_oversized, write_answer,
}
use dogqoder.Rpc.Stream.{WatchRequest, Watched, read_watch, stream, settle_stream}

module _ (service : Service) (watched : WatchRequest → Sup → Watched) where
  -- `_stream_watch`
  unfoldable pub stream_watch : String → Object → Sup → Handled × Sup
  unfolding read_watch settle_stream stream
  stream_watch id params s = elim (read_watch params) [
    | rejected message ↦ (report (str id) (Fault.invalid message), s)
    | parsed r ↦ (
      settle_stream (str id)
          (stream service (str id) r (status service.env r.worker_id s).0 (watched r s)),
      (watched r s).later,
    )
  ]

  -- One request that was read.
  unfoldable pub serve : Request → Sup → Handled × Sup
  unfolding dispatch write_answer stream_watch
  serve r s = if r.method == "watch" then stream_watch r.request_id r.params s else (
    write_answer (str r.request_id) (dispatch service r.method r.params s).0,
    (dispatch service r.method r.params s).1,
  )

  -- One turn of the loop of `_handle_connection`.
  unfoldable pub handle_line : Line → Sup → Handled × Sup
  unfolding decode_request serve
  handle_line interrupted s = (record { written = []; goes_on = false }, s)
  handle_line (oversized id) s = (report_oversized id, s)
  handle_line (line v) s = elim (decode_request v) [
    | rejected message ↦ (report null (Fault.invalid message), s)
    | parsed r ↦ serve r s
  ]

  -- `_handle_connection`, on the lines that are there until the client leaves.
  unfoldable pub handle_connection : List Line → Sup → List Object × Sup
  unfolding handle_line
  handle_connection [] s = ([], s)
  handle_connection (l ∷ ls) s =
      let turn = handle_line l s in
      let rest = handle_connection ls turn.1 in
      if turn.0.goes_on then (turn.0.written ++ rest.0, rest.1) else (turn.0.written, turn.1)
