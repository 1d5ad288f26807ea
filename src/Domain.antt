-- ===== src/Domain.antt =====
-- src/qworker/domain.py and src/qworker/events.py: the audit contract and result, and the events
-- that a transport emits.
use dogqoder.Prelude.{String, Bool, Option, List}
use dogqoder.Lifecycle.{NestedState}

pub data Outcome : Type 0 where
  completed partial blocked failed : Outcome

abbrev pub outcome_text : Outcome → String
outcome_text Outcome.completed = "completed"
outcome_text Outcome.partial = "partial"
outcome_text Outcome.blocked = "blocked"
outcome_text Outcome.failed = "failed"

pub record AuditContract : Type 0 where
  pub objective : String
  pub cwd : String
  pub requested_model : String
  pub context : List String
  pub constraints : List String
  pub acceptance_criteria : List String

pub record AuditFinding : Type 0 where
  pub severity : String
  pub evidence : String
  pub affected_requirement_or_location : Option String

pub record AuditResult : Type 0 where
  pub outcome : Outcome
  pub summary : String
  pub files : List String
  pub validation : List String
  pub risks : List String
  pub requested_model : String
  pub resolved_model : Option String
  pub verdict : Option String
  pub confirmed : List String
  pub findings : List AuditFinding
  pub required_changes : List String
  pub actual_models : List String
  pub session_id : Option String
  pub nested_state : NestedState
  pub warnings : List String
  pub errors : List String

pub record ResultEvent : Type 0 where
  pub session_id : String
  pub is_error : Bool
  pub result : Option String
  pub model_usage : List String
  pub permission_denials : List String
  pub errors : List String

pub data TaskStatus : Type 0 where
  completed failed stopped : TaskStatus

-- `AdapterEvent`, with a constructor for each event class.
pub data AdapterEvent : Type 0 where
  assistant : List String → List String → Option String → AdapterEvent
  task_started : String → String → AdapterEvent
  task_progress : String → String → Option String → AdapterEvent
  task_terminal : String → TaskStatus → AdapterEvent
  system : String → String → AdapterEvent
  result : ResultEvent → AdapterEvent

-- `SemanticEventKind`; a `SemanticEvent` holds just its kind.
pub data SemanticKind : Type 0 where
  assistant tool task_started task_progress task_terminal system result : SemanticKind
