-- ===== src/Rpc/Stream.antt =====
-- `_stream_watch` of src/qworker/rpc.py, with what the supervisor's `watch` yields as an argument.
use dogqoder.Prelude.{
  ℕ, Bool, false, not, Option, none, some, String, List, [], ◌∷◌, ◌++◌, ◌&&◌, lookup, contains,
  if◌then◌else◌,
}
use dogqoder.Json.{Json, Object, bool, int, str, obj, from_fields}
use dogqoder.Store.Operations.{number}
use dogqoder.Supervisor.{Failure, Reply, returned, raised, Sup}
use dogqoder.Supervisor.Resume.{status}
use dogqoder.Rpc.Size.{fits}
use dogqoder.Rpc.Fields.{
  Parsed, parsed, ◌>>=◌, ◌>>◌, validate_fields, string, non_negative_integer, boolean, text_of,
}
use dogqoder.Rpc.Requests.{success}
use dogqoder.Rpc.Dispatch.{Service, Fault, fault_of}
use dogqoder.Rpc.Report.{Handled, report, report_oversized}

-- What the supervisor gives to a watcher: the events of its `watch`, the exception that ended it, if
-- one did, and the state that it leaves.
pub record Watched : Type 0 where
  pub events : List Object
  pub failure : Option Failure
  pub later : Sup

pub record WatchRequest : Type 0 where
  pub worker_id : String
  pub since : ℕ
  pub follow : Bool

unfoldable pub read_watch : Object → Parsed WatchRequest
unfolding validate_fields string non_negative_integer boolean
read_watch params = do
  validate_fields ("worker_id" ∷ []) ("since" ∷ "follow" ∷ []) params
  worker_id ← string "worker_id" params
  since ← non_negative_integer "since" 0 params
  follow ← boolean "follow" false params
  parsed (record { worker_id = worker_id; since = since; follow = follow })

-- How a stream ended: it is complete, an exception stopped it, or a frame was beyond the limit.
pub data StreamEnd : Type 0 where
  complete : StreamEnd
  stopped : Fault → StreamEnd
  overflow : StreamEnd

abbrev pub Streamed : Type 0
Streamed = List Object × StreamEnd

-- `_write_frame`, and what follows it.
abbrev pub emit : Object → Streamed → Streamed
emit frame rest = if fits frame then (frame ∷ rest.0, rest.1) else ([], overflow)

abbrev pub event_result : Object → Json
event_result event = obj (from_fields (("event", obj (from_fields event)) ∷ []))

unfoldable pub emit_events : Json → List Object → Streamed → Streamed
emit_events id [] rest = rest
emit_events id (e ∷ es) rest = emit (success id (event_result e)) (emit_events id es rest)

-- `_TERMINAL_STATES`
abbrev pub terminal_states : List String
terminal_states = "completed" ∷ "failed" ∷ "cancelled" ∷ "lost" ∷ []

abbrev pub reason_of : Bool → String
reason_of follow = if follow then "terminal" else "replay_complete"

-- `isinstance(value, int)`, which holds of a bool too.
abbrev pub int_of : Option Json → Option Json
int_of (some (int n)) = some (int n)
int_of (some (bool b)) = some (bool b)
int_of _ = none

abbrev pub end_result : Bool → Json → String → Json
end_result follow cursor state = obj (
    from_fields (
      (
        "end",
        obj (
            from_fields (
              ("reason", str (reason_of follow)) ∷ ("cursor", cursor) ∷ ("state", str state) ∷ [])),
      )
      ∷ []))

abbrev pub metadata_failure : StreamEnd
metadata_failure =
    stopped
      (Fault.supervisor_failure "sdk_protocol_error" "Worker status has invalid watch metadata." [])

abbrev pub not_live : StreamEnd
not_live =
    stopped (
      Fault.supervisor_failure "worker_not_live" "Follow watch ended before worker termination." [])

abbrev pub end_stream : Json → Bool → Option String → Option Json → Streamed
end_stream id follow none cursor = ([], metadata_failure)
end_stream id follow (some state) none = ([], metadata_failure)
end_stream id follow (some state) (some cursor) =
    if follow && not (contains terminal_states state)
    then ([], not_live)
    else emit (success id (end_result follow cursor state)) ([], complete)

abbrev pub watch_header : WatchRequest → Json
watch_header r = obj (
    from_fields
      (("worker_id", str r.worker_id) ∷ ("since", number r.since) ∷ ("follow", bool r.follow) ∷ []))

module _ (service : Service) where
  abbrev pub failed_stream : Failure → Streamed
  failed_stream e = ([], stopped (fault_of service.message_of e))

  -- The second status, and the last frame.
  unfoldable pub finish_stream : Json → Bool → Reply Object → Streamed
  finish_stream id follow (raised e) = failed_stream e
  finish_stream id follow (returned o) =
      end_stream id follow (text_of (lookup "state" o)) (int_of (lookup "event_cursor" o))

  unfoldable pub after_events : Json → WatchRequest → Watched → Streamed
  unfolding finish_stream
  after_events id r w = elim w.failure [
    | some e ↦ failed_stream e
    | none ↦ finish_stream id r.follow (status service.env r.worker_id w.later).0
  ]

  unfoldable pub stream : Json → WatchRequest → Reply Object → Watched → Streamed
  unfolding after_events emit_events
  stream id r (raised e) w = failed_stream e
  stream id r (returned o) w =
      emit (success id (watch_header r)) (emit_events id w.events (after_events id r w))

-- What the connection makes of the end of a stream.
unfoldable pub settle_stream : Json → Streamed → Handled
unfolding report report_oversized
settle_stream id (frames, complete) = record { written = frames; goes_on = false }
settle_stream id (frames, stopped f) = record {
  written = frames ++ (report id f).written;
  goes_on = (report id f).goes_on;
}
settle_stream id (frames, overflow) = record {
  written = frames ++ (report_oversized id).written;
  goes_on = false;
}
