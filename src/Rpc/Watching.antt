-- ===== src/Rpc/Watching.antt =====
-- A watch of src/qworker/rpc.py from end to end: the client's `watch` against the server's stream.
use dogqoder.Rpc.Flags.{follows-read_watch}
use dogqoder.Prelude.{
  ℕ, ◌≡◌, refl, ap, ◌∙◌, inl, inr, Bool, true, false, not, ◌&&◌, none, some, String, List, [], ◌∷◌,
  ◌++◌, ◌==◌, if◌then◌else◌, Bool-cases, contains,
}
use dogqoder.Json.{Json, Object, obj, str, from_fields, from_items}
use dogqoder.Store.Operations.{number}
use dogqoder.Lifecycle.{
  WorkerState, starting, running, requires_action, completed, failed, cancelled, lost, is_terminal,
}
use dogqoder.Store.{WorkerRecord, find_worker}
use dogqoder.Store.Queries.{latest_event_cursor}
use dogqoder.Supervisor.{Sup, Env, returned, require_worker}
use dogqoder.Preflight.{normalize_preflight_warnings}
use dogqoder.Supervisor.Views.{state_text, worker_json}
use dogqoder.Supervisor.Resume.{status, shown_approvals}
use dogqoder.Rpc.Size.{fits}
use dogqoder.Rpc.Fields.{parsed}
use dogqoder.Rpc.Requests.{Request, valid_request_id, request_frame, success}
use dogqoder.Rpc.Bounds.{fits-not_live}
use dogqoder.Rpc.Dispatch.{Service}
use dogqoder.Rpc.Report.{line, report, write_failure}
use dogqoder.Rpc.Stream.{
  WatchRequest, Watched, read_watch, complete, Streamed, emit_events, watch_header, after_events,
  finish_stream, end_stream, not_live, stream, settle_stream, terminal_states, end_result,
}
use dogqoder.Rpc.Server.{stream_watch, serve}
use dogqoder.Rpc.Client.{
  yield, Called, got, client_error, too_large, Yielded, received, read_response, read_stream, watch,
  after_header, rest_of,
}
use dogqoder.Rpc.Exchange.{handle-request_frame, server}
use dogqoder.Rpc.Streaming.{
  seen, reads, read-end-frame, reads-emit_events, reads-success, reads-overflow, settle-cons,
  validated-success, read-failed,
}

terminal-state_text : (s : WorkerState) → contains terminal_states (state_text s) ≡ is_terminal s
terminal-state_text starting = refl
terminal-state_text running = refl
terminal-state_text requires_action = refl
terminal-state_text completed = refl
terminal-state_text failed = refl
terminal-state_text cancelled = refl
terminal-state_text lost = refl

-- How a watch ends, with the worker at its end.
unfoldable pub ending : String → Bool → WorkerRecord → ℕ → Called (Unit {0})
unfolding fits success
ending id follow worker cursor =
    if follow && not (is_terminal worker.state)
    then client_error "worker_not_live" "Follow watch ended before worker termination." []
    else if fits (success (str id) (end_result follow (number cursor) (state_text worker.state)))
    then got tt
    else too_large

status-returned :
    (env : Env) (id : String) (s : Sup) (worker : WorkerRecord)
    → find_worker id s.db ≡ some worker
    → (status env id s).0
      ≡ returned (
          worker_json env.isoformat worker (latest_event_cursor id s.db)
          ++ ("pending_approvals", Json.arr (from_items (shown_approvals worker s.pending))) ∷ [])
unfolding status require_worker
status-returned env id s worker found = rw found refl

module _ (id : String) (follow : Bool) (valid : valid_request_id id ≡ true) where
  reads-not_live :
      reads id follow valid ([], not_live)
      ≡ ([], client_error "worker_not_live" "Follow watch ended before worker termination." [])
  unfolding reads settle_stream report write_failure normalize_preflight_warnings
  reads-not_live = rw (fits-not_live id) (read-failed id follow valid _ _ [] refl)

  reads-end :
      (worker : WorkerRecord) (n : ℕ)
      → reads id follow valid
          (end_stream (str id) follow (some (state_text worker.state)) (some (number n)))
        ≡ ([], ending id follow worker n)
  unfolding ending
  reads-end worker n = elim (Bool-cases (follow && not (is_terminal worker.state))) [
    | inl early ↦ rw (terminal-state_text worker.state, early) reads-not_live
    | inr over ↦
        elim (Bool-cases
          (fits (success (str id) (end_result follow (number n) (state_text worker.state))))) [
            | inl small ↦
                rw (terminal-state_text worker.state, over, small)
                  (reads-success id follow valid
                      (end_result follow (number n) (state_text worker.state)) [] complete
                    ∙ ap (λ f. yield f (reads id follow valid ([], complete)))
                        (read-end-frame follow n (state_text worker.state)
                          (rw (terminal-state_text worker.state) over)))
            | inr large ↦
                rw (terminal-state_text worker.state, over, large) (reads-overflow id follow valid)
          ]
  ]

  -- The client's reading of what follows a first result.
  reading : List Object → Yielded
  unfolding read_response read_stream
  reading written =
      after_header id follow (read_response id (received written)) (rest_of (received written))

  reading-header :
      (v : Json) (t : Streamed)
      → reading (settle_stream (str id) (success (str id) v ∷ t.0, t.1)).written
        ≡ reads id follow valid t
  unfolding reading reads read_response
  reading-header v t =
      ap reading (settle-cons (str id) (success (str id) v) t.0 t.1)
      ∙ ap (λ c. after_header id follow c (received (settle_stream (str id) t).written))
          (validated-success id v)

module _ (service : Service) (watched : WatchRequest → Sup → Watched) where
  finish :
      (id : String) (w : WatchRequest) (worker : WorkerRecord) (s : Sup)
      → (watched w s).failure ≡ none
      → find_worker w.worker_id (watched w s).later.db ≡ some worker
      → after_events service (str id) w (watched w s)
        ≡ end_stream
            (str id)
            w.follow
            (some (state_text worker.state))
            (some (number (latest_event_cursor w.worker_id (watched w s).later.db)))
  unfolding after_events finish_stream worker_json
  finish id w worker s calm found =
      rw calm (rw (status-returned service.env w.worker_id (watched w s).later worker found) refl)

  stream-header :
      (id : String) (w : WatchRequest) (first : Object) (s : Sup)
      → fits (success (str id) (watch_header w)) ≡ true
      → stream service (str id) w (returned first) (watched w s) ≡ (
        success (str id) (watch_header w)
            ∷ (emit_events
                (str id)
                (watched w s).events
                (after_events service (str id) w (watched w s))).0,
        (emit_events
            (str id)
            (watched w s).events
            (after_events service (str id) w (watched w s))).1,
      )
  unfolding stream
  stream-header id w first s small = rw (small, stream) refl

  reading-stream :
      (id : String) (w : WatchRequest) (worker : WorkerRecord) (first : Object) (s : Sup)
      → (valid : valid_request_id id ≡ true) → fits (success (str id) (watch_header w)) ≡ true
      → (watched w s).failure ≡ none
      → find_worker w.worker_id (watched w s).later.db ≡ some worker
      → reading id w.follow valid
          (settle_stream
            (str id)
            (stream service (str id) w (returned first) (watched w s))).written
        ≡ seen id
            (watched w s).events
            ([], ending id w.follow worker (latest_event_cursor w.worker_id (watched w s).later.db))
  reading-stream id w worker first s valid small calm found =
      ap (λ t. reading id w.follow valid (settle_stream (str id) t).written)
        (stream-header id w first s small)
      ∙ reading-header id w.follow valid (watch_header w) _
      ∙ reads-emit_events id w.follow valid (watched w s).events _
      ∙ ap (λ t. seen id (watched w s).events (reads id w.follow valid t))
          (finish id w worker s calm found)
      ∙ ap (seen id (watched w s).events) (reads-end id w.follow valid worker _)

  stream_watch-stream :
      (id : String) (params : Object) (w : WatchRequest) (first : Object) (s : Sup)
      → read_watch params ≡ parsed w
      → (status service.env w.worker_id s).0 ≡ returned first
      → stream_watch service watched id params s ≡ (
        settle_stream (str id) (stream service (str id) w (returned first) (watched w s)),
        (watched w s).later,
      )
  unfolding stream_watch
  stream_watch-stream id params w first s read known = rw (read, known, stream_watch) refl

  -- A client that watches a worker, with a request and a first frame within the limit, where the
  -- worker is known and the supervisor's watch raises nothing, yields exactly the events that
  -- this watch gives to the server, up to the first that is longer than a frame, where it raises
  -- frame_too_large. After all of them it ends as the worker's state at the end says: it raises
  -- worker_not_live where it was to follow and that state is not terminal, and otherwise it
  -- returns, unless the last frame is too long.
  pub watch-stream :
      (r : Request) (w : WatchRequest) (worker : WorkerRecord) (first : Object) (s : Sup)
      → valid_request_id r.request_id ≡ true
      → r.method ≡ "watch"
      → fits (request_frame r) ≡ true
      → read_watch r.params ≡ parsed w
      → (status service.env w.worker_id s).0 ≡ returned first
      → fits (success (str r.request_id) (watch_header w)) ≡ true
      → (watched w s).failure ≡ none
      → find_worker w.worker_id (watched w s).later.db ≡ some worker
      → watch r (server service watched (line (some (obj (from_fields (request_frame r))))) s).0
        ≡ seen r.request_id (watched w s).events (
          [],
          ending r.request_id w.follow worker
              (latest_event_cursor w.worker_id (watched w s).later.db),
        )
  unfolding watch server serve reading
  watch-stream r w worker first s valid named small read known head calm found =
      let other : (r.method == "") ≡ false = rw named refl in
      rw
        (
          valid,
          small,
          handle-request_frame service watched r s valid other,
          named,
          stream_watch-stream r.request_id r.params w first s read known,
          follows-read_watch r.params w read,
        )
        (reading-stream r.request_id w worker first s valid head calm found)
