-- ===== src/Coder.antt =====
-- src/qworker/coder.py: the coder's contract and result, the parser of its report, and
-- `_CoderResultReducer`, which folds transport events into the result.
use mathlib.Core.List.{reverse}
use dogqoder.Prelude.{
  String, Bool, not, ◌&&◌, Option, none, some, List, [], ◌∷◌, ◌++◌, ◌==◌, length, keep, contains,
  is_some, nat_eq, lookup, keys, same_set, guard, ◌>>=◌, ◌>>◌, if◌then◌else◌,
}
use dogqoder.Lifecycle.{NestedState}
use dogqoder.Domain.{Outcome, ResultEvent, AdapterEvent}
use dogqoder.Json.{Json, Object, obj, fields, as_str, as_list, strings}

-- `CoderContract`
pub record CoderContract : Type 0 where
  pub objective : String
  pub cwd : String
  pub requested_model : String
  pub context : List String
  pub constraints : List String
  pub acceptance_criteria : List String

-- `CoderResult`; a `CoderOutcome` is one of the same four words as an audit's.
pub record CoderResult : Type 0 where
  pub outcome : Outcome
  pub summary : String
  pub files : List String
  pub validation : List String
  pub risks : List String
  pub requested_model : String
  pub resolved_model : Option String
  pub actual_models : List String
  pub session_id : Option String
  pub nested_state : NestedState
  pub warnings : List String
  pub errors : List String

-- The tuple that `_parse_report` returns.
pub record Report : Type 0 where
  pub outcome : Outcome
  pub summary : String
  pub files : List String
  pub validation : List String
  pub risks : List String

-- `_REPORT_KEYS`
abbrev pub report_keys : List String
report_keys = "outcome" ∷ "summary" ∷ "files" ∷ "validation" ∷ "risks" ∷ []

-- `_REPORT_OUTCOMES`
unfoldable pub reported_outcome : String → Option Outcome
reported_outcome s =
    if s == "completed"
    then some Outcome.completed
    else if s == "partial"
    then some Outcome.partial
    else if s == "blocked"
    then some Outcome.blocked
    else none

-- The item at a key where `_is_string_list` holds of it.
unfoldable pub string_list : String → Object → Option (List String)
string_list key payload = lookup key payload >>= as_list >>= strings

abbrev pub string_at : String → Object → Option String
string_at key payload = lookup key payload >>= as_str

-- `_parse_report`, once the text is decoded.
unfoldable pub report_of : Json → Option Report
unfolding reported_outcome string_list
report_of (obj fs) = do
  let payload = fields fs
  guard (same_set (keys payload) report_keys)
  outcome ← string_at "outcome" payload >>= reported_outcome
  summary ← string_at "summary" payload
  files ← string_list "files" payload
  validation ← string_list "validation" payload
  risks ← string_list "risks" payload
  some (record {
    outcome = outcome;
    summary = summary;
    files = files;
    validation = validation;
    risks = risks;
  })
report_of _ = none

-- `_parse_report`; `loads` stands for `json.loads`, with `none` for its `JSONDecodeError`.
unfoldable pub parse_report : (String → Option Json) → Option String → Option Report
parse_report loads text = text >>= loads >>= report_of

-- `_CoderResultReducer`
pub record CoderReducer : Type 0 where
  pub requested_model : String
  pub resolved_model : String
  pub active_task_ids : List String
  pub actual_models : List String
  pub assistant_text : List String
  pub result : Option ResultEvent

unfoldable pub init : String → String → CoderReducer
init requested resolved = record {
  requested_model = requested;
  resolved_model = resolved;
  active_task_ids = [];
  actual_models = [];
  assistant_text = [];
  result = none;
}

unfoldable pub needs_settlement : CoderReducer → Bool
needs_settlement r = is_some r.result && not (nat_eq (length r.active_task_ids) 0)

abbrev pub append_once : List String → String → List String
append_once xs x = if contains xs x then xs else xs ++ x ∷ []

-- `_record_model`
unfoldable pub record_model : List String → Option String → List String
record_model models none = models
record_model models (some m) = append_once models m

unfoldable pub record_models : List String → List String → List String
unfolding record_model
record_models models [] = models
record_models models (m ∷ rest) = record_models (record_model models (some m)) rest

unfoldable pub apply : CoderReducer → AdapterEvent → CoderReducer
unfolding record_model record_models
apply r (AdapterEvent.assistant text tools model) = record r {
  actual_models = record_model r.actual_models model;
  assistant_text = r.assistant_text ++ text;
}
apply r (AdapterEvent.task_started id description) = record r {
  active_task_ids = append_once r.active_task_ids id;
}
apply r (AdapterEvent.task_progress id description tool) = r
apply r (AdapterEvent.task_terminal id status) = record r {
  active_task_ids = keep (λ y. not (y == id)) r.active_task_ids;
}
apply r (AdapterEvent.system subtype message) = r
apply r (AdapterEvent.result event) = record r {
  result = some event;
  actual_models = record_models r.actual_models event.model_usage;
}

-- `_nested_state`
unfoldable pub nested_state : CoderReducer → Bool → NestedState
nested_state r expired =
    if is_some r.result
    then if nat_eq (length r.active_task_ids) 0
      then NestedState.settled
      else if expired
      then NestedState.unknown
      else NestedState.active
    else if nat_eq (length r.active_task_ids) 0
    then NestedState.nothing
    else NestedState.active

-- The first report among texts, as `next(…)` finds it.
unfoldable pub first_report : (String → Option Json) → List String → Option Report
unfolding parse_report
first_report loads [] = none
first_report loads (text ∷ rest) = elim (parse_report loads (some text)) [
  | none ↦ first_report loads rest
  | some report ↦ some report
]

abbrev pub or_else {ℓ} : {A : Type ℓ} → Option A → Option A → Option A
or_else none later = later
or_else (some a) later = some a

-- The report of `finish`: from the result's text, or else from the latest assistant text that holds
-- one.
unfoldable pub chosen_report : (String → Option Json) → CoderReducer → ResultEvent → Option Report
unfolding first_report
chosen_report loads r event =
    or_else (parse_report loads event.result) (first_report loads (reverse r.assistant_text))

-- `nested_terminal_event_missing`, where the state is unknown.
abbrev pub nested_warning : NestedState → List String
nested_warning NestedState.unknown = "nested_terminal_event_missing" ∷ []
nested_warning _ = []

-- `event.result or ""`
abbrev pub or_empty : Option String → String
or_empty none = ""
or_empty (some s) = s

-- `finish`, once the report is chosen.
unfoldable pub finish_report :
    CoderReducer → NestedState → ResultEvent → Option Report → CoderResult
finish_report r nested event none = record {
  outcome = if event.is_error then Outcome.failed else Outcome.partial;
  summary = or_empty event.result;
  files = [];
  validation = [];
  risks = [];
  requested_model = r.requested_model;
  resolved_model = some r.resolved_model;
  actual_models = r.actual_models;
  session_id = some event.session_id;
  nested_state = nested;
  warnings = "report_contract_unparseable" ∷ nested_warning nested;
  errors = event.errors ++ event.permission_denials;
}
finish_report r nested event (some report) = record {
  outcome = if event.is_error then Outcome.failed else report.outcome;
  summary = report.summary;
  files = report.files;
  validation = report.validation;
  risks = report.risks;
  requested_model = r.requested_model;
  resolved_model = some r.resolved_model;
  actual_models = r.actual_models;
  session_id = some event.session_id;
  nested_state = nested;
  warnings = nested_warning nested;
  errors = event.errors ++ event.permission_denials;
}

-- `finish`
unfoldable pub finish_event :
    (String → Option Json) → CoderReducer → Bool → Option ResultEvent → CoderResult
unfolding nested_state chosen_report finish_report
finish_event loads r expired none = record {
  outcome = Outcome.failed;
  summary = "No result was received.";
  files = [];
  validation = [];
  risks = [];
  requested_model = r.requested_model;
  resolved_model = some r.resolved_model;
  actual_models = r.actual_models;
  session_id = none;
  nested_state = nested_state r expired;
  warnings = [];
  errors = "result_missing" ∷ [];
}
finish_event loads r expired (some event) =
    finish_report r (nested_state r expired) event (chosen_report loads r event)

unfoldable pub finish : (String → Option Json) → CoderReducer → Bool → CoderResult
unfolding finish_event
finish loads r expired = finish_event loads r expired r.result

-- `_failure_result`
unfoldable pub failure_result : CoderContract → String → String → Option String → CoderResult
failure_result contract summary error_code resolved = record {
  outcome = Outcome.failed;
  summary = summary;
  files = [];
  validation = [];
  risks = [];
  requested_model = contract.requested_model;
  resolved_model = resolved;
  actual_models = [];
  session_id = none;
  nested_state = NestedState.nothing;
  warnings = [];
  errors = error_code ∷ [];
}
