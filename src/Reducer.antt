-- ===== src/Reducer.antt =====
-- src/qworker/reducer.py: `ResultReducer`, which folds transport events into one audit result.
pub mod Telemetry
pub mod Settlement
pub mod Finish
use dogqoder.Prelude.{
  ℕ, String, Bool, not, ◌&&◌, Option, none, some, List, [], ◌∷◌, ◌++◌, ◌==◌, length, keep, contains,
  is_some, nat_eq, map, if◌then◌else◌,
}
use dogqoder.Lifecycle.{NestedState}
use dogqoder.Domain.{Outcome, AuditResult, ResultEvent, AdapterEvent, SemanticKind}
use mathlib.Core.Option
use dogqoder.Chars.{codes}
use dogqoder.Json.{Json}
use dogqoder.AuditReport.{ParsedAuditReport}
use dogqoder.AuditReport.Fence.{parse_audit_report_text}

-- `_MAX_SEMANTIC_EVENTS`
abbrev pub max_semantic_events : ℕ
max_semantic_events = 128

pub record ResultReducer : Type 0 where
  pub requested_model : String
  pub resolved_model : Option String
  pub active_task_ids : List String
  pub actual_models : List String
  pub result : Option ResultEvent
  pub semantic_events : List SemanticKind

unfoldable pub init : String → Option String → ResultReducer
init requested resolved = record {
  requested_model = requested;
  resolved_model = resolved;
  active_task_ids = [];
  actual_models = [];
  result = none;
  semantic_events = [];
}

unfoldable pub needs_settlement : ResultReducer → Bool
needs_settlement r = is_some r.result && not (nat_eq (length r.active_task_ids) 0)

-- `_semantic_kinds`
unfoldable pub semantic_kinds : AdapterEvent → List SemanticKind
semantic_kinds (AdapterEvent.assistant text tools model) =
    SemanticKind.assistant ∷ map (λ _. SemanticKind.tool) tools
semantic_kinds (AdapterEvent.task_started id description) = SemanticKind.task_started ∷ []
semantic_kinds (AdapterEvent.task_progress id description tool) = SemanticKind.task_progress ∷ []
semantic_kinds (AdapterEvent.task_terminal id status) = SemanticKind.task_terminal ∷ []
semantic_kinds (AdapterEvent.system subtype message) = SemanticKind.system ∷ []
semantic_kinds (AdapterEvent.result event) = SemanticKind.result ∷ []

-- `pop(0)`
abbrev pub pop_front {ℓ} : {A : Type ℓ} → List A → List A
pop_front [] = []
pop_front (x ∷ xs) = xs

-- The loop of `_record`, over the bounded buffer.
unfoldable pub record_kinds : List SemanticKind → List SemanticKind → List SemanticKind
record_kinds buffer [] = buffer
record_kinds buffer (kind ∷ rest) =
    record_kinds
      ((if nat_eq (length buffer) max_semantic_events then pop_front buffer else buffer)
        ++ kind ∷ [])
      rest

-- `set.add` and the guarded append of `_record_model`.
unfoldable pub add_once : List String → String → List String
add_once xs x = if contains xs x then xs else xs ++ x ∷ []

-- `set.discard`
unfoldable pub discard : String → List String → List String
discard x xs = keep (λ y. not (y == x)) xs

-- `_record_model`
unfoldable pub record_model : List String → Option String → List String
unfolding add_once
record_model models none = models
record_model models (some m) = add_once models m

unfoldable pub record_models : List String → List String → List String
unfolding record_model
record_models models [] = models
record_models models (m ∷ rest) = record_models (record_model models (some m)) rest

-- The branches of `apply` after the telemetry is recorded.
unfoldable pub update : ResultReducer → AdapterEvent → ResultReducer
unfolding record_models discard
update r (AdapterEvent.assistant text tools model) = record r {
  actual_models = record_model r.actual_models model;
}
update r (AdapterEvent.task_started id description) = record r {
  active_task_ids = add_once r.active_task_ids id;
}
update r (AdapterEvent.task_progress id description tool) = r
update r (AdapterEvent.task_terminal id status) = record r {
  active_task_ids = discard id r.active_task_ids;
}
update r (AdapterEvent.system subtype message) = r
update r (AdapterEvent.result event) = record r {
  result = some event;
  actual_models = record_models r.actual_models event.model_usage;
}

unfoldable pub apply : ResultReducer → AdapterEvent → ResultReducer
unfolding update record_kinds semantic_kinds
apply r event =
    update (record r { semantic_events = record_kinds r.semantic_events (semantic_kinds event) })
      event

unfoldable pub apply_all : ResultReducer → List AdapterEvent → ResultReducer
unfolding apply
apply_all r [] = r
apply_all r (event ∷ rest) = apply_all (apply r event) rest

-- `_nested_state`
unfoldable pub nested_state : ResultReducer → Bool → NestedState
nested_state r expired =
    if is_some r.result
    then if nat_eq (length r.active_task_ids) 0
      then NestedState.settled
      else if expired
      then NestedState.unknown
      else NestedState.active
    else if nat_eq (length r.active_task_ids) 0
    then NestedState.nothing
    else NestedState.active

-- The warning of `finish` about a missing terminal event.
abbrev pub nested_warning : NestedState → List String
nested_warning NestedState.unknown = "nested_terminal_event_missing" ∷ []
nested_warning _ = []

-- `result_event.result or ""`
abbrev pub or_empty : Option String → String
or_empty none = ""
or_empty (some s) = s

-- `finish`, once the result event's report is parsed.
unfoldable pub finish_report :
    ResultReducer → NestedState → ResultEvent → Option ParsedAuditReport → AuditResult
finish_report r nested event none = record {
  outcome = if event.is_error then Outcome.failed else Outcome.partial;
  summary = or_empty event.result;
  files = [];
  validation = [];
  risks = [];
  requested_model = r.requested_model;
  resolved_model = r.resolved_model;
  verdict = none;
  confirmed = [];
  findings = [];
  required_changes = [];
  actual_models = r.actual_models;
  session_id = some event.session_id;
  nested_state = nested;
  warnings = "report_contract_unparseable" ∷ nested_warning nested;
  errors = event.errors ++ event.permission_denials;
}
finish_report r nested event (some report) = record {
  outcome = if event.is_error then Outcome.failed else report.outcome;
  summary = report.summary;
  files = report.files;
  validation = report.validation;
  risks = report.risks;
  requested_model = r.requested_model;
  resolved_model = r.resolved_model;
  verdict = some report.verdict;
  confirmed = report.confirmed;
  findings = report.findings;
  required_changes = report.required_changes;
  actual_models = r.actual_models;
  session_id = some event.session_id;
  nested_state = nested;
  warnings = nested_warning nested;
  errors = event.errors ++ event.permission_denials;
}

-- `finish`; `loads` stands for `json.loads`, as in `parse_audit_report_text`.
unfoldable pub finish_event :
    (List ℕ → Option Json) → ResultReducer → Bool → Option ResultEvent → AuditResult
unfolding finish_report nested_state
finish_event loads r expired none = record {
  outcome = Outcome.failed;
  summary = "No result was received.";
  files = [];
  validation = [];
  risks = [];
  requested_model = r.requested_model;
  resolved_model = r.resolved_model;
  verdict = none;
  confirmed = [];
  findings = [];
  required_changes = [];
  actual_models = r.actual_models;
  session_id = none;
  nested_state = nested_state r expired;
  warnings = [];
  errors = "result_missing" ∷ [];
}
finish_event loads r expired (some event) =
    finish_report r (nested_state r expired) event
      (parse_audit_report_text loads (Option.map codes event.result))

unfoldable pub finish : (List ℕ → Option Json) → ResultReducer → Bool → AuditResult
unfolding finish_event
finish loads r expired = finish_event loads r expired r.result
