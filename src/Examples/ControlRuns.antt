-- ===== src/Examples/ControlRuns.antt =====
-- Runs of src/qworker/control.py.
use dogqoder.Prelude.{◌≤◌, ◌≡◌, ◌↔◌, refl, Bool, true, none, some, [], ◌∷◌}
use dogqoder.Json.{from_items, insert_field, Json, Fields, Object, from_fields, obj, fields}
use dogqoder.Chars.{is_alnum, fold, is_space}
use dogqoder.Regex.{substitute, fullmatch, found}
use dogqoder.Result.{ok}
use dogqoder.Events.{approval_request_shape}
use dogqoder.Store.Operations.{number}
use dogqoder.Control.Display.{texts, approval_display, approval_request_shape-approval_display}
use dogqoder.Patterns.{safe_metadata, inline_credential, keyed_credential}
use dogqoder.PatternTests.{bare_host}
use dogqoder.Control.{
  Mode, ElicitationAction, ApprovalRequest, ApprovalDecision, parse_approval_response,
  safe_display_text, bounded_json_schema, max_schema_nodes,
}
use dogqoder.Control.Responses.{Answers, parse_approval_response_iff}
use dogqoder.Control.Schema.{IsWithin, nodes, bounded_json_schema_iff}

abbrev any_content : Object → Bool
any_content _ = true

abbrev question : ApprovalRequest
question = ApprovalRequest.elicitation "server" Mode.form "Which branch?" none

abbrev content : Object
content = ("branch", Json.str "main") ∷ []

abbrev response : Object
response = ("action", Json.str "accept") ∷ ("content", Json.obj (from_fields content)) ∷ []

abbrev accepted : ApprovalDecision
accepted = ApprovalDecision.elicitation ElicitationAction.accept (some content)

takes_form : parse_approval_response any_content question response ≡ some accepted
unfolding parse_approval_response
takes_form = refl

parse_approval_response_iff_example :
    (parse_approval_response any_content question response ≡ some accepted)
    ↔ Answers any_content question response accepted
parse_approval_response_iff_example =
    parse_approval_response_iff any_content question response accepted

displays : safe_display_text bare_host "  use\tsk-abc123  now\n" ≡ "use [REDACTED] now"
unfolding safe_display_text substitute inline_credential keyed_credential fold is_alnum is_space
displays = refl

abbrev schema : Json
schema = Json.obj (from_fields (("type", Json.str "object") ∷ []))

bounded_json_schema_iff_example :
    (bounded_json_schema schema ≡ some (("type", Json.str "object") ∷ [])) ↔ (
      (fs : Fields) × (schema ≡ obj fs)
      × (fields fs ≡ ("type", Json.str "object") ∷ [])
      × IsWithin 0 schema
      × (nodes schema ≤ max_schema_nodes))
bounded_json_schema_iff_example = bounded_json_schema_iff schema (("type", Json.str "object") ∷ [])

abbrev decoded : Object
decoded =
    (
      "properties",
      Json.obj (
          from_fields (("branch", Json.obj (from_fields (("type", Json.str "string") ∷ []))) ∷ [])),
    )
    ∷ ("required", Json.arr (from_items (Json.str "branch" ∷ [])))
    ∷ []

abbrev shown : Object
shown =
    ("request_id", Json.str "r1")
    ∷ ("attempt", number 1)
    ∷ ("kind", Json.str "elicitation")
    ∷ ("server_name", Json.str "server")
    ∷ ("mode", Json.str "form")
    ∷ ("prompt", Json.str "Which branch?")
    ∷ ("choices", texts ("accept" ∷ "decline" ∷ "cancel" ∷ []))
    ∷ ("fields", texts ("branch:string" ∷ []))
    ∷ ("required_fields", texts ("branch" ∷ []))
    ∷ []

shows_fields : approval_display bare_host "r1" 1 question (some decoded) ≡ some shown
unfolding approval_display safe_display_text substitute inline_credential keyed_credential fold
    is_alnum is_space safe_metadata fullmatch found insert_field
shows_fields = refl

approval_request_shape-approval_display_example : approval_request_shape shown ≡ ok tt
approval_request_shape-approval_display_example =
    approval_request_shape-approval_display bare_host "r1" 1 question (some decoded) shown
      shows_fields
