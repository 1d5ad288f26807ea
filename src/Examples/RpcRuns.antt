-- ===== src/Examples/RpcRuns.antt =====
-- Runs of src/qworker/rpc.py: a worker is spawned over the socket and watched.
use dogqoder.Prelude.{◌≡◌, refl, true, false, none, some, [], ◌∷◌, ◌++◌, map, ◌↔◌, inl}
use dogqoder.Json.{Json, Items, Object, bool, str, obj, from_fields, insert_field}
use dogqoder.Chars.{is_alnum, fold, is_digit, is_space}
use dogqoder.Regex.{fullmatch, found}
use dogqoder.Ulid.{new_ulid}
use dogqoder.Payload.{one_of, absolute_path, runtime_path, safe_runtime_version, positive_integer}
use dogqoder.Lifecycle.{
  transition, WorkerRole, WorkerState, WorkerHealth, WriteCapability, NestedState,
}
use dogqoder.Patterns.{is_safe_metadata, version}
use dogqoder.Workspace.{canonical_workspace}
use dogqoder.Config.{sorted_set}
use dogqoder.Events.{event_schemas, validated_payload}
use dogqoder.Store.{append_row, find_worker, WorkerRecord}
use dogqoder.Store.Project.{project_event, parse_state}
use dogqoder.Store.Operations.{create_worker}
use dogqoder.Store.Queries.{latest_event_cursor}
use dogqoder.Supervisor.{Sup, return, require_worker}
use dogqoder.Supervisor.Spawn.{spawn}
use dogqoder.Supervisor.Resume.{status}
use dogqoder.Supervisor.Sessions.{new_supervisor}
use dogqoder.Supervisor.Watch.{replay}
use dogqoder.Supervisor.Views.{event_json, worker_json}
use dogqoder.Examples.SupervisorRuns.{env, metadata, w, spawned}
use dogqoder.Rpc.Size.{fits, size}
use dogqoder.Rpc.Fields.{
  parsed, validate_fields, string, optional_string, string_tuple, boolean, non_negative_integer,
}
use dogqoder.Rpc.Requests.{Request, valid_request_id, request_frame, success}
use dogqoder.Rpc.Dispatch.{Service, Call, read_spawn, read_call, perform, dispatch}
use dogqoder.Rpc.Report.{line}
use dogqoder.Rpc.Stream.{WatchRequest, Watched, read_watch}
use dogqoder.Rpc.Client.{call, watch}
use dogqoder.Rpc.Exchange.{server, expected, IsNormal, call-dispatch}
use dogqoder.Rpc.Streaming.{seen}
use dogqoder.Rpc.Parameters.{method_of, Says}
use dogqoder.Rpc.Calls.{read_call_iff}
use dogqoder.Rpc.Watching.{ending, watch-stream}

abbrev service : Service
service = record {
  env = env;
  path = λ text. text;
  message_of = λ e. some "refused";
  defaults = metadata;
  preflight = none;
  uuid = λ s. "00000000-0000-4000-8000-000000000000";
  is_canonical = λ text. true;
  deliver = λ worker message priority n. return tt;
  cancel = λ worker message n. return true;
  wait = λ worker n. return tt;
}

-- A watch that does not follow, on the tables as they are.
abbrev watched : WatchRequest → Sup → Watched
watched r s = record {
  events =
      map (event_json env.isoformat)
        (replay r.worker_id r.since (record { db = s.db; closed = s.closed }));
  failure = none;
  later = s;
}

abbrev spawn_request : Request
spawn_request = record {
  request_id = "1";
  method = "spawn";
  params =
      ("role", str "auditor")
      ∷ ("cwd", str "/work")
      ∷ ("objective", str "Look at the parser.")
      ∷ [];
}

call-dispatch_example : call (server service watched) spawn_request new_supervisor ≡ (
  expected "1" (dispatch service "spawn" spawn_request.params new_supervisor).0,
  (dispatch service "spawn" spawn_request.params new_supervisor).1,
)
unfolding valid_request_id fits size request_frame IsNormal dispatch read_call read_spawn perform
    validate_fields string optional_string string_tuple sorted_set spawn create_worker
    validated_payload event_schemas insert_field one_of absolute_path runtime_path
    safe_runtime_version positive_integer canonical_workspace is_safe_metadata version fullmatch
    found is_alnum fold is_digit is_space append_row new_ulid project_event parse_state transition
call-dispatch_example =
    call-dispatch service watched spawn_request new_supervisor refl refl refl refl tt

abbrev watch_request : Request
watch_request = record { request_id = "2"; method = "watch"; params = ("worker_id", str w) ∷ [] }

-- The worker that the run has spawned.
abbrev auditor : WorkerRecord
auditor = record {
  worker_id = w;
  role = WorkerRole.auditor;
  cwd = "/work";
  state = WorkerState.starting;
  health = WorkerHealth.unknown;
  write_capability = WriteCapability.read_only;
  requested_model = "qwen-auditor";
  resolved_model = none;
  actual_models = [];
  session_id = none;
  attempt = 1;
  runtime_path = "bundled";
  runtime_version = none;
  sdk_version = "1.0.13";
  created_at = 0;
  started_at = none;
  last_event_at = some 0;
  ended_at = none;
  result_summary = none;
  nested_state = NestedState.nothing;
  warnings = [];
}

is_found : find_worker w spawned.db ≡ some auditor
unfolding spawned
is_found = refl

watch-stream_example :
    watch watch_request
      (server service watched
        (line (some (obj (from_fields (request_frame watch_request)))))
        spawned).0
    ≡ seen "2"
        (watched (record { worker_id = w; since = 0; follow = false }) spawned).events
        ([], ending "2" false auditor (latest_event_cursor w spawned.db))
unfolding spawned valid_request_id fits size request_frame read_watch validate_fields string boolean
    non_negative_integer sorted_set status require_worker success latest_event_cursor
watch-stream_example =
    watch-stream service watched watch_request (record { worker_id = w; since = 0; follow = false })
      auditor
      (worker_json env.isoformat auditor 1 ++ ("pending_approvals", Json.arr Items.nil) ∷ [])
      spawned refl refl refl refl refl refl refl refl

stop_params : Object
stop_params = ("worker_id", str w) ∷ ("force", bool true) ∷ []

read_call_iff_example : (read_call service "stop" stop_params ≡ parsed (Call.stops w true none)) ↔ (
    (method_of (Call.stops w true none) ≡ method_of (Call.stops w true none))
    × Says service (Call.stops w true none) stop_params)
read_call_iff_example = read_call_iff service "stop" stop_params (Call.stops w true none)

is_taken : read_call service "stop" stop_params ≡ parsed (Call.stops w true none)
unfolding stop_params
is_taken =
    (read_call_iff service "stop" stop_params (Call.stops w true none)).1
      (refl, ((refl, refl), (refl, refl), inl refl, refl))
