-- ===== src/Examples/SupervisorRuns.antt =====
-- A run of src/qworker/supervisor.py: a worker is spawned, runs, asks for a permission and is answered.
use dogqoder.Prelude.{
  ℕ, ◌≡◌, refl, true, false, Option, none, some, String, List, [], ◌∷◌, ◌⊎◌, ◌==◌, ◌*◌, map, lookup,
  keep, drop,
}
use dogqoder.Json.{Json, Object, insert_field}
use dogqoder.Chars.{is_alnum, fold, is_digit, is_space}
use dogqoder.Regex.{fullmatch, found}
use dogqoder.Ulid.{new_ulid}
use dogqoder.Patterns.{inline_credential, keyed_credential}
use dogqoder.Payload
use dogqoder.Payload.{
  approval_choices, one_of, absolute_path, runtime_path, safe_runtime_version, positive_integer,
}
use dogqoder.Lifecycle.{WorkerState, requires_action, transition}
use dogqoder.Patterns.{is_safe_metadata, version}
use dogqoder.PatternTests.{bare_host}
use dogqoder.Workspace.{FileSystem, canonical_workspace}
use dogqoder.Control.{ApprovalRequest, ApprovalDecision, parse_approval_response}
use dogqoder.Events.{event_schemas, validated_payload}
use dogqoder.Store.{WorkerRecord, EventRecord, append_row, find_worker}
use dogqoder.Store.Approvals.{record_approval_request, record_approval_resolution}
use dogqoder.Control.{safe_display_text}
use dogqoder.Control.Display.{approval_display}
use dogqoder.Events.{approval_request_shape, tool_permission_shape}
use dogqoder.Store.Project.{project_event, parse_state}
use dogqoder.Store.Operations.{create_worker, append_event}
use dogqoder.Store.Consistency.{view}
use dogqoder.Store.History.{empty_db-IsSound}
use dogqoder.Store.Replay.{is_own, Consecutive}
use dogqoder.Supervisor.Watch.{Reading, follow}
use dogqoder.Supervisor.Following.{Growing, Explains, follow-exact}
use dogqoder.Supervisor.{
  Sup, Env, M, return, returned, raised, PendingApproval, supervisor_error, waiting, decided,
}
use dogqoder.Supervisor.Views.{WorkerContract}
use dogqoder.Supervisor.Spawn.{Metadata, spawn}
use dogqoder.Supervisor.Finish.{Ended, bind_transport, on_initialized, end_worker}
use dogqoder.Supervisor.Approvals.{approval_status, new_request_id, request_approval}
use dogqoder.Supervisor.Responding.{respond, complete_live_attempt}
use dogqoder.Supervisor.Sessions.{
  spawns, binds, initializes, requests, Session, here, next, new_supervisor, Session-Reaches,
  Session-Extends,
}
use dogqoder.Supervisor.Answers.{respond-answers}
use dogqoder.Supervisor.Messages
use dogqoder.Supervisor.Messages.{steer-delivers}
use dogqoder.Supervisor.Steering.{SteeringPriority, steer}

abbrev pub disk : FileSystem
disk = record { resolve = some; is_dir = λ _. true; parents = λ _. [] }

abbrev pub env : Env
env = record {
  host = bare_host;
  fs = disk;
  clock = λ n. n;
  draw = λ n. record { time_ns = n * 1000000; bits = 0 };
  isoformat = λ n. "2026-08-24T00:00:00+00:00";
  snapshot = λ schema. none;
  matches = λ schema content. true;
  auditor_resumes = true;
  coder_resumes = true;
}

abbrev pub metadata : Metadata
metadata = record { sdk_version = "1.0.13"; runtime_path = "bundled"; runtime_version = none }

abbrev contract : WorkerContract
contract = WorkerContract.audit (record {
  objective = "Look at the parser.";
  cwd = "/work";
  requested_model = "qwen-auditor";
  context = [];
  constraints = [];
  acceptance_criteria = [];
})

-- The identifier that the first draw gives.
abbrev pub w : String
w = "00000000000000000000000000"

unfoldable pub spawned : Sup
unfolding spawn create_worker validated_payload event_schemas insert_field one_of absolute_path
    runtime_path safe_runtime_version positive_integer canonical_workspace is_safe_metadata version
    fullmatch found is_alnum fold is_digit is_space append_row new_ulid project_event parse_state
    transition
spawned = (spawn env metadata none contract new_supervisor).1

started : Sup
unfolding spawned on_initialized bind_transport append_event
started = (on_initialized env w "Auto" (bind_transport w 1 spawned)).1

request : ApprovalRequest
request = ApprovalRequest.permission "Read" none "Read a file."

asked : Sup
unfolding started request request_approval new_request_id record_approval_request approval_display
    safe_display_text Payload.safe_display_text inline_credential keyed_credential approval_choices
    approval_request_shape tool_permission_shape
asked = (request_approval env w 1 request started).1

-- The identifier that the draw of the request gives.
abbrev request_id : String
request_id = "00000000050000000000000000"

allow : Object
allow = ("action", Json.str "allow") ∷ []

is_asked : view asked.db w ≡ some (1, requires_action)
unfolding asked
is_asked = refl

is_pending : map (λ e. e.0) asked.pending ≡ request_id ∷ []
unfolding asked
is_pending = refl

is_answered : respond env w request_id allow asked ≡ (
  returned (("request_id", Json.str request_id) ∷ ("status", Json.str "allowed") ∷ []),
  (respond env w request_id allow asked).1,
)
unfolding asked allow respond parse_approval_response record_approval_resolution approval_status
is_answered = refl

session : Session env new_supervisor asked
unfolding asked started spawned request
session =
    next
      (next (next (next here (spawns metadata none contract (λ f e. cc))) (binds w 1))
        (initializes w "Auto"))
      (requests w 1 request)

answered : Sup
answered = (respond env w request_id allow asked).1

respond-answers_example :
    (p : PendingApproval) × (row : WorkerRecord) × (d : ApprovalDecision) × (lookup request_id
        asked.pending
      ≡ some p)
    × (p.worker_id ≡ w)
    × (find_worker w asked.db ≡ some row)
    × (row.attempt ≡ p.attempt)
    × (row.state ≡ requires_action)
    × (parse_approval_response (env.matches p.schema_snapshot) p.request allow ≡ some d)
    × (lookup request_id answered.pending ≡ none)
    × (lookup request_id asked.futures ≡ some waiting
        → lookup request_id answered.futures ≡ some (decided d))
    × ((v : String) (again : Object)
        → respond env v request_id again answered ≡ (
          raised (supervisor_error "approval_not_pending" "Approval request is not pending." []),
          answered,
        ))
unfolding answered
respond-answers_example =
    respond-answers env w request_id allow asked
      (("request_id", Json.str request_id) ∷ ("status", Json.str "allowed") ∷ []) answered
      is_answered

-- The identifier of a steering message.
abbrev uuid : String
uuid = "12345678-1234-4234-8234-123456789abc"

-- A transport that takes every message.
abbrev takes : ℕ → M (Unit {0})
takes n = return tt

abbrev steered : Object
steered =
    ("message_id", Json.str uuid) ∷ ("priority", Json.str "now") ∷ ("accepted", Json.bool true) ∷ []

is_steered :
    steer env uuid takes w "Look again." SteeringPriority.now none started
    ≡ (returned steered, (steer env uuid takes w "Look again." SteeringPriority.now none started).1)
unfolding steer started
is_steered = refl

steer-delivers_example :
    (row : WorkerRecord) × (e e' : EventRecord) × (u v : Sup) × (("Look again." == "") ≡ false)
    × (◌≡◌ {A = Option String} none none)
    × (started.closed ≡ false)
    × (find_worker w started.db ≡ some row)
    × (lookup w started.live_attempts ≡ some row.attempt)
    × ((row.state ≡ WorkerState.running) ⊎ (row.state ≡ requires_action))
    × Messages.Says w "steer.queued" uuid e started u
    × (takes row.attempt u ≡ (returned tt, v))
    × Messages.Says w "steer.delivered" uuid e' v
        (steer env uuid takes w "Look again." SteeringPriority.now none started).1
    × (lookup "message_id" steered ≡ some (Json.str uuid))
steer-delivers_example =
    steer-delivers env uuid takes w "Look again." SteeringPriority.now none started steered
      (steer env uuid takes w "Look again." SteeringPriority.now none started).1 is_steered

-- The session breaks while the worker runs.
broken : Sup
unfolding started
broken = (end_worker env w 1 contract true false Ended.disconnected started).1

is_lost : view broken.db w ≡ some (1, WorkerState.lost)
unfolding broken started end_worker complete_live_attempt
is_lost = refl

-- A watcher that reads the store when the worker runs, and again when it asks.
abbrev readings : List Reading
readings = record { db = started.db; closed = false } ∷ record { db = asked.db; closed = true } ∷ []

started-Session : Session env new_supervisor started
unfolding started spawned
started-Session =
    next (next (next here (spawns metadata none contract (λ f e. cc))) (binds w 1))
      (initializes w "Auto")

asking : Session env started asked
unfolding asked request
asking = next here (requests w 1 request)

readings-Growing : Growing bare_host disk [] readings
readings-Growing = (
  Session-Reaches env started-Session,
  (started.db.events, refl),
  (
    Session-Reaches env session,
    (Session-Extends env (Session-Extends env empty_db-IsSound started-Session).0 asking).1,
    tt,
  ),
)

follow-exact_example :
    Consecutive 3 (follow w 2 readings).0
    × (es : List EventRecord) × ((follow w 2 readings).0 ≡ drop 2 (keep (is_own w) es))
    × Explains w [] readings (follow w 2 readings).1 es
follow-exact_example = follow-exact bare_host disk w 2 readings readings-Growing
