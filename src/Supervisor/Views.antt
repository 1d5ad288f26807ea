-- ===== src/Supervisor/Views.antt =====
-- The JSON views of src/qworker/supervisor.py.
use Prim.Native.String.{String}
use dogqoder.Prelude.{ℕ, Option, none, some, List, [], ◌∷◌, map}
use dogqoder.Json.{Json, Object, null, str, arr, obj, from_items, from_fields, str_list}
use dogqoder.Lifecycle.{
  WorkerState, starting, running, requires_action, completed, failed, cancelled, lost, WorkerHealth,
  NestedState,
}
use dogqoder.Domain.{AuditContract, AuditFinding, AuditResult, Outcome, outcome_text}
use dogqoder.Coder.{CoderContract, CoderResult}
use dogqoder.Store.{WorkerRecord, EventRecord}
use dogqoder.Store.Operations.{number, role_text, capability_text}
use dogqoder.Store.Queries.{ListedWorker}

abbrev pub state_text : WorkerState → String
state_text starting = "starting"
state_text running = "running"
state_text requires_action = "requires_action"
state_text completed = "completed"
state_text failed = "failed"
state_text cancelled = "cancelled"
state_text lost = "lost"

abbrev pub health_text : WorkerHealth → String
health_text WorkerHealth.unknown = "unknown"
health_text WorkerHealth.healthy = "healthy"
health_text WorkerHealth.quiet = "quiet"
health_text WorkerHealth.stalled = "stalled"
health_text WorkerHealth.exited = "exited"

abbrev pub nested_text : NestedState → String
nested_text NestedState.nothing = "none"
nested_text NestedState.active = "active"
nested_text NestedState.settled = "settled"
nested_text NestedState.unknown = "unknown"

abbrev pub optional_text : Option String → Json
optional_text none = null
optional_text (some s) = str s

abbrev pub texts : List String → Json
texts ss = arr (from_items (str_list ss))

abbrev pub optional_object : Option Object → Json
optional_object none = null
optional_object (some o) = obj (from_fields o)

module _ (isoformat : ℕ → String) where
  abbrev pub optional_time : Option ℕ → Json
  optional_time none = null
  optional_time (some t) = str (isoformat t)

  -- `_worker_json`
  unfoldable pub worker_json : WorkerRecord → ℕ → Object
  worker_json w event_cursor =
      ("worker_id", str w.worker_id)
      ∷ ("role", str (role_text w.role))
      ∷ ("cwd", str w.cwd)
      ∷ ("state", str (state_text w.state))
      ∷ ("health", str (health_text w.health))
      ∷ ("write_capability", str (capability_text w.write_capability))
      ∷ ("requested_model", str w.requested_model)
      ∷ ("resolved_model", optional_text w.resolved_model)
      ∷ ("actual_models", texts w.actual_models)
      ∷ ("session_id", optional_text w.session_id)
      ∷ ("attempt", number w.attempt)
      ∷ ("runtime_path", str w.runtime_path)
      ∷ ("runtime_version", optional_text w.runtime_version)
      ∷ ("sdk_version", str w.sdk_version)
      ∷ ("created_at", str (isoformat w.created_at))
      ∷ ("started_at", optional_time w.started_at)
      ∷ ("last_event_at", optional_time w.last_event_at)
      ∷ ("ended_at", optional_time w.ended_at)
      ∷ ("result_summary", optional_object w.result_summary)
      ∷ ("nested_state", str (nested_text w.nested_state))
      ∷ ("warnings", texts w.warnings)
      ∷ ("event_cursor", number event_cursor)
      ∷ []

  -- `_listed_worker_json`
  unfoldable pub listed_worker_json : ListedWorker → Object
  listed_worker_json item =
      let w = item.worker in
      ("worker_id", str w.worker_id)
      ∷ ("role", str (role_text w.role))
      ∷ ("cwd", str w.cwd)
      ∷ ("state", str (state_text w.state))
      ∷ ("health", str (health_text w.health))
      ∷ ("attempt", number w.attempt)
      ∷ ("write_capability", str (capability_text w.write_capability))
      ∷ ("requested_model", str w.requested_model)
      ∷ ("resolved_model", optional_text w.resolved_model)
      ∷ ("created_at", str (isoformat w.created_at))
      ∷ ("ended_at", optional_time w.ended_at)
      ∷ ("warnings", texts w.warnings)
      ∷ ("event_cursor", number item.event_cursor)
      ∷ []

  -- `_event_json`
  unfoldable pub event_json : EventRecord → Object
  event_json e =
      ("sequence", number e.sequence)
      ∷ ("event_id", str e.event_id)
      ∷ ("worker_id", str e.worker_id)
      ∷ ("attempt", number e.attempt)
      ∷ ("timestamp", str (isoformat e.timestamp))
      ∷ ("type", str e.event_type)
      ∷ ("payload", obj (from_fields e.payload))
      ∷ []

-- `WorkerContract` and `WorkerResult`
pub data WorkerContract : Type 0 where
  audit : AuditContract → WorkerContract
  coder : CoderContract → WorkerContract

pub data WorkerResult : Type 0 where
  audit : AuditResult → WorkerResult
  coder : CoderResult → WorkerResult

abbrev pub finding_json : AuditFinding → Json
finding_json f = obj (
    from_fields (
      ("severity", str f.severity)
      ∷ ("evidence", str f.evidence)
      ∷ ("affected_requirement_or_location", optional_text f.affected_requirement_or_location)
      ∷ []))

-- `_result_json`
unfoldable pub result_json : WorkerResult → Object
result_json (WorkerResult.coder r) =
    ("outcome", str (outcome_text r.outcome))
    ∷ ("summary", str r.summary)
    ∷ ("files", texts r.files)
    ∷ ("validation", texts r.validation)
    ∷ ("risks", texts r.risks)
    ∷ ("requested_model", str r.requested_model)
    ∷ ("resolved_model", optional_text r.resolved_model)
    ∷ ("actual_models", texts r.actual_models)
    ∷ ("session_id", optional_text r.session_id)
    ∷ ("nested_state", str (nested_text r.nested_state))
    ∷ ("warnings", texts r.warnings)
    ∷ ("errors", texts r.errors)
    ∷ []
result_json (WorkerResult.audit r) =
    ("outcome", str (outcome_text r.outcome))
    ∷ ("summary", str r.summary)
    ∷ ("files", texts r.files)
    ∷ ("validation", texts r.validation)
    ∷ ("risks", texts r.risks)
    ∷ ("requested_model", str r.requested_model)
    ∷ ("resolved_model", optional_text r.resolved_model)
    ∷ ("actual_models", texts r.actual_models)
    ∷ ("session_id", optional_text r.session_id)
    ∷ ("nested_state", str (nested_text r.nested_state))
    ∷ ("warnings", texts r.warnings)
    ∷ ("errors", texts r.errors)
    ∷ ("verdict", optional_text r.verdict)
    ∷ ("confirmed", texts r.confirmed)
    ∷ ("findings", arr (from_items (map finding_json r.findings)))
    ∷ ("required_changes", texts r.required_changes)
    ∷ []

-- `_execution_failure`
unfoldable pub execution_failure : WorkerContract → WorkerResult
execution_failure (WorkerContract.coder c) = WorkerResult.coder (record {
  outcome = Outcome.failed;
  summary = "Worker execution failed.";
  files = [];
  validation = [];
  risks = [];
  requested_model = c.requested_model;
  resolved_model = none;
  actual_models = [];
  session_id = none;
  nested_state = NestedState.nothing;
  warnings = [];
  errors = "sdk_protocol_error" ∷ [];
})
execution_failure (WorkerContract.audit c) = WorkerResult.audit (record {
  outcome = Outcome.failed;
  summary = "Worker execution failed.";
  files = [];
  validation = [];
  risks = [];
  requested_model = c.requested_model;
  resolved_model = none;
  verdict = none;
  confirmed = [];
  findings = [];
  required_changes = [];
  actual_models = [];
  session_id = none;
  nested_state = NestedState.nothing;
  warnings = [];
  errors = "sdk_protocol_error" ∷ [];
})
