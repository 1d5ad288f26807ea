-- ===== src/Examples/AuditRuns.antt =====
-- Runs of the audit side: src/qworker/lifecycle.py, model_policy.py, auditor_policy.py,
-- audit_report.py and reducer.py.
use dogqoder.Prelude.{
  AllDistinct, ℕ, ◌≡◌, refl, ◌↔◌, true, false, Option, none, some, String, List, [], ◌∷◌, contains,
  lookup, ◌&&◌,
}
use dogqoder.Lifecycle.{starting, failed, transition, NestedState}
use dogqoder.Lifecycle.Reach.{◌⟶◌, transition_iff}
use dogqoder.ModelPolicy.{AvailableModel, model_aliases, resolve_model}
use dogqoder.ModelPolicy.Preference.{Says, offers, candidates, resolve_model-Says}
use dogqoder.AuditorPolicy.{decide, IsPermitted, decide_iff}
use dogqoder.Json.{Json, from_fields, from_items}
use dogqoder.Domain.{Outcome, ResultEvent, AdapterEvent, TaskStatus}
use dogqoder.AuditReport.{ParsedAuditReport, parse_audit_report_payload}
use dogqoder.AuditReport.Describe.{IsReport}
use dogqoder.AuditReport.Exact.{parse_iff}
use dogqoder.Reducer.{ResultReducer, init, apply_all, finish, needs_settlement}
use dogqoder.Reducer.Telemetry.{IsTail, history, telemetry-IsTail}
use dogqoder.Reducer.Settlement.{task_open, mentions, active_iff_open, models_exact}
use dogqoder.Reducer.Finish.{finish_completed, finish_unknown}
use dogqoder.AuditReport.Fence.{parse_audit_report_text}
use dogqoder.Chars.{codes}
use mathlib.Core.Option

transition_iff_example :
    (transition failed starting ≡ some starting) ↔ ((starting ≡ starting) × (failed ⟶ starting))
transition_iff_example = transition_iff failed starting starting

abbrev catalog : List AvailableModel
catalog =
    record { value = "Qwen3.8-Max"; enabled = false }
    ∷ record { value = "Auto"; enabled = true }
    ∷ []

resolve_model-Says_example :
    Says
      (offers catalog)
      "qwen-auditor"
      (candidates (lookup "qwen-auditor" model_aliases) "qwen-auditor")
      false
      (resolve_model "qwen-auditor" catalog)
resolve_model-Says_example = resolve_model-Says "qwen-auditor" catalog

abbrev unlisted : String
unlisted = "mcp__filesystem__write_file"

decide_iff_example :
    (((decide unlisted none).allowed ≡ true) ↔ IsPermitted unlisted none)
    × (((decide unlisted none).reason ≡ "auditor_tool_allowed") ↔ IsPermitted unlisted none)
decide_iff_example = decide_iff unlisted none

abbrev pub report_json : Json
report_json = Json.obj (
    from_fields (
      ("outcome", Json.str "completed")
      ∷ ("summary", Json.str "All criteria hold.")
      ∷ ("files", Json.arr (from_items (Json.str "a.py" ∷ [])))
      ∷ ("validation", Json.arr (from_items []))
      ∷ ("risks", Json.arr (from_items []))
      ∷ ("verdict", Json.str "approve")
      ∷ ("confirmed", Json.arr (from_items (Json.str "criterion 1" ∷ [])))
      ∷ (
        "findings",
        Json.arr (
            from_items (
              Json.obj (
                from_fields (
                  ("severity", Json.str "low")
                  ∷ ("evidence", Json.str "line 3")
                  ∷ ("affected_requirement_or_location", Json.null)
                  ∷ []))
              ∷ [])),
      )
      ∷ ("required_changes", Json.arr (from_items []))
      ∷ []))

abbrev report : ParsedAuditReport
report = record {
  outcome = Outcome.completed;
  summary = "All criteria hold.";
  files = "a.py" ∷ [];
  validation = [];
  risks = [];
  verdict = "approve";
  confirmed = "criterion 1" ∷ [];
  findings =
      record { severity = "low"; evidence = "line 3"; affected_requirement_or_location = none }
      ∷ [];
  required_changes = [];
}

report_parses : parse_audit_report_payload report_json ≡ some report
unfolding parse_audit_report_payload
report_parses = refl

parse_iff_example :
    (parse_audit_report_payload report_json ≡ some report) ↔ IsReport report report_json
parse_iff_example = parse_iff report_json report

abbrev main_result : ResultEvent
main_result = record {
  session_id = "session-1";
  is_error = false;
  result = some "{}";
  model_usage = "Auto" ∷ [];
  permission_denials = [];
  errors = [];
}

-- A task that is still open when the main result arrives.
abbrev events : List AdapterEvent
events =
    AdapterEvent.assistant ("text" ∷ []) ("Read" ∷ "Grep" ∷ []) (some "Auto")
    ∷ AdapterEvent.task_started "t1" "look"
    ∷ AdapterEvent.task_started "t2" "look"
    ∷ AdapterEvent.task_terminal "t1" TaskStatus.completed
    ∷ AdapterEvent.result main_result
    ∷ []

abbrev after : ResultReducer
unfolding init apply_all
after = apply_all (init "qwen-auditor" (some "Auto")) events

telemetry-IsTail_example : IsTail after.semantic_events (history events)
unfolding after
telemetry-IsTail_example = telemetry-IsTail "qwen-auditor" (some "Auto") events

active_iff_open_example : contains after.active_task_ids "t2" ≡ task_open "t2" false events
unfolding after
active_iff_open_example = active_iff_open "qwen-auditor" (some "Auto") events "t2"

models_exact_example :
    AllDistinct after.actual_models × (contains after.actual_models "Auto" ≡ mentions "Auto" events)
unfolding after
models_exact_example = models_exact "qwen-auditor" (some "Auto") events "Auto"

-- A decoder that knows one document.
abbrev loads : List ℕ → Option Json
loads _ = some report_json

finish_completed_example :
    (event : ResultEvent) × (read : ParsedAuditReport) × (after.result ≡ some event)
    × (event.is_error ≡ false)
    × (parse_audit_report_text loads (Option.map codes event.result) ≡ some read)
    × (read.outcome ≡ Outcome.completed)
unfolding finish after parse_audit_report_text parse_audit_report_payload
finish_completed_example = finish_completed loads after true refl

finish_unknown_example :
    (((finish loads after true).nested_state ≡ NestedState.unknown)
      ↔ ((needs_settlement after ≡ true) × (true ≡ true)))
    × (contains (finish loads after true).warnings "nested_terminal_event_missing"
        ≡ (needs_settlement after && true))
finish_unknown_example = finish_unknown loads after true
