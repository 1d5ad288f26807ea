-- ===== src/Events.antt =====
-- The event schemas of src/qworker/store.py and the validation of a payload against them.
pub mod Copy
pub mod Validation
use dogqoder.Prelude.{
  Bool, true, false, not, Option, none, some, String, List, [], ◌∷◌, ◌++◌, ◌&&◌, ◌||◌, ◌==◌, nat_eq,
  lookup, has, keys, contains, keep, if◌then◌else◌,
}
use dogqoder.Json.{Json, Object, ℤ, fields, from_fields, sorted_fields}
use dogqoder.Patterns.{Host, is_safe_metadata}
use dogqoder.Payload.{
  Validator, positive_integer, non_negative_integer, boolean, safe_display_text, is_texts,
  approval_choices, display_fields, required_display_fields, one_of, safe_runtime_version,
  absolute_path,
}
use dogqoder.Result.{
  unsupported_type, schema_version, unexpected_field, missing_field, invalid_field, display_shape,
  Result, ok, err, ◌>>◌, require,
}

-- `_EventSchema`
pub record EventSchema : Type 0 where
  pub required : List (String × Validator)
  pub optional : List (String × Validator)

abbrev pub schema : List (String × Validator) → List (String × Validator) → EventSchema
schema required optional = record { required = required; optional = optional }

abbrev states : List String
states =
    "starting" ∷ "running" ∷ "requires_action" ∷ "completed" ∷ "failed" ∷ "cancelled" ∷ "lost" ∷ []

-- `_EVENT_SCHEMAS`
unfoldable pub event_schemas : Host → List (String × EventSchema)
event_schemas host =
    (
      "worker.created",
      schema
          (("attempt", positive_integer)
            ∷ ("cwd", absolute_path)
            ∷ ("role", one_of ("coder" ∷ "auditor" ∷ []))
            ∷ [])
          [],
    )
    ∷ (
      "worker.state_changed",
      schema (("state", one_of states) ∷ []) (("attempt", positive_integer) ∷ []),
    )
    ∷ (
      "worker.health_changed",
      schema (("health", one_of ("unknown" ∷ "healthy" ∷ "quiet" ∷ "stalled" ∷ "exited" ∷ [])) ∷ [])
          [],
    )
    ∷ ("runtime.started", schema [] (("pid", positive_integer) ∷ []))
    ∷ (
      "runtime.initialized",
      schema []
          (("runtime_version", safe_runtime_version host) ∷ ("session_id", is_safe_metadata) ∷ []),
    )
    ∷ ("model.resolved", schema (("model", is_safe_metadata) ∷ []) [])
    ∷ ("assistant.message", schema [] (("model", is_safe_metadata) ∷ []))
    ∷ ("tool.started", schema (("tool_name", is_safe_metadata) ∷ []) [])
    ∷ (
      "tool.finished",
      schema (("tool_name", is_safe_metadata) ∷ [])
          (("duration_ms", non_negative_integer) ∷ ("succeeded", boolean) ∷ []),
    )
    ∷ ("nested.started", schema (("task_id", is_safe_metadata) ∷ []) [])
    ∷ (
      "nested.progress",
      schema (("task_id", is_safe_metadata) ∷ []) (("tool_name", is_safe_metadata) ∷ []),
    )
    ∷ (
      "nested.terminal",
      schema
          (("task_id", is_safe_metadata)
            ∷ ("status", one_of ("completed" ∷ "failed" ∷ "stopped" ∷ []))
            ∷ [])
          [],
    )
    ∷ (
      "approval.requested",
      schema
          (("request_id", is_safe_metadata)
            ∷ ("kind", one_of ("tool_permission" ∷ "elicitation" ∷ "mcp_oauth" ∷ []))
            ∷ ("prompt", safe_display_text host)
            ∷ ("choices", approval_choices)
            ∷ [])
          (("agent_id", is_safe_metadata)
            ∷ ("tool_name", is_safe_metadata)
            ∷ ("server_name", is_safe_metadata)
            ∷ ("mode", one_of ("form" ∷ "url" ∷ []))
            ∷ ("fields", display_fields)
            ∷ ("required_fields", required_display_fields)
            ∷ []),
    )
    ∷ (
      "approval.resolved",
      schema
          (("request_id", is_safe_metadata)
            ∷ ("status", one_of ("allowed" ∷ "denied" ∷ "answered" ∷ "expired" ∷ []))
            ∷ [])
          [],
    )
    ∷ (
      "steer.queued",
      schema
          (("message_id", is_safe_metadata)
            ∷ ("priority", one_of ("now" ∷ "next" ∷ "later" ∷ []))
            ∷ [])
          [],
    )
    ∷ ("steer.delivered", schema (("message_id", is_safe_metadata) ∷ []) [])
    ∷ (
      "steer.cancelled",
      schema (("message_id", is_safe_metadata) ∷ []) (("cancelled", boolean) ∷ []),
    )
    ∷ (
      "result.received",
      schema (("outcome", one_of ("completed" ∷ "partial" ∷ "blocked" ∷ "failed" ∷ [])) ∷ [])
          (("model", is_safe_metadata) ∷ []),
    )
    ∷ (
      "worker.warning",
      schema (("code", is_safe_metadata) ∷ []) (
          ("worker_id", is_safe_metadata)
          ∷ ("cwd", absolute_path)
          ∷ ("relation", one_of ("same" ∷ "ancestor" ∷ "descendant" ∷ []))
          ∷ []),
    )
    ∷ ("runtime.exited", schema [] (("exit_code", non_negative_integer) ∷ []))
    ∷ []

-- `_copy_json_object` of a payload.
unfoldable pub copy_json_object : Object → Object
unfolding sorted_fields
copy_json_object payload = fields (sorted_fields (from_fields payload))

-- The test of `schema_version`; a Boolean or a float is not the integer 1.
unfoldable pub is_version : Option Json → Bool
is_version (some (Json.int (ℤ.pos n))) = nat_eq n 1
is_version _ = false

-- `set(xs).difference(ys)`
abbrev pub without : List String → List String → List String
without ys xs = keep (λ x. not (contains ys x)) xs

abbrev pub is_empty {ℓ} : {A : Type ℓ} → List A → Bool
is_empty [] = true
is_empty (x ∷ xs) = false

abbrev pub passes : Validator → Option Json → Bool
passes validator none = true
passes validator (some v) = validator v

-- The loop over the validators.
unfoldable pub check_fields : Object → List (String × Validator) → Result (Unit {0})
check_fields copied [] = ok tt
check_fields copied ((field, validator) ∷ rest) =
    let later = check_fields copied rest in
    if passes validator (lookup field copied) then later else err (invalid_field field)

abbrev pub is_text : String → Option Json → Bool
is_text s (some (Json.str t)) = t == s
is_text s _ = false

-- `payload["choices"] == [...]`
abbrev pub has_texts : List String → Option Json → Bool
has_texts ts none = false
has_texts ts (some v) = is_texts ts v

-- The branch of `_validate_approval_request_shape` for a tool permission.
unfoldable pub tool_permission_shape : Object → Result (Unit {0})
tool_permission_shape payload = do
  require (has_texts ("allow" ∷ "deny" ∷ []) (lookup "choices" payload) && has "tool_name" payload)
      (display_shape "tool permission")
  require
      (not (
        has "server_name" payload
        || has "mode" payload
        || has "fields" payload
        || has "required_fields" payload))
      (display_shape "tool permission")

-- Its branch for an elicitation.
unfoldable pub elicitation_shape : Object → Result (Unit {0})
elicitation_shape payload = do
  require
      (has_texts ("accept" ∷ "decline" ∷ "cancel" ∷ []) (lookup "choices" payload)
        && has "server_name" payload
        && has "mode" payload
        && not (has "tool_name" payload))
      (display_shape "elicitation")
  require
      (not (
        is_text "url" (lookup "mode" payload)
        && (has "fields" payload || has "required_fields" payload)))
      (display_shape "URL elicitation")

-- `_validate_approval_request_shape`
unfoldable pub approval_request_shape : Object → Result (Unit {0})
unfolding tool_permission_shape elicitation_shape
approval_request_shape payload =
    if is_text "tool_permission" (lookup "kind" payload)
    then tool_permission_shape payload
    else if is_text "elicitation" (lookup "kind" payload)
    then elicitation_shape payload
    else err (display_shape "MCP OAuth")

-- The tests of `_validated_payload` on the copy, once the schema is found.
unfoldable pub check_payload : String → EventSchema → Object → Result Object
unfolding is_version check_fields
check_payload event_type s copied = do
  require (is_version (lookup "schema_version" copied)) schema_version
  let unexpected = without ("schema_version" ∷ (keys s.required ++ keys s.optional)) (keys copied)
  require (is_empty unexpected) (unexpected_field unexpected)
  let missing = without (keys copied) (keys s.required)
  require (is_empty missing) (missing_field missing)
  check_fields copied (s.required ++ s.optional)
  if event_type == "approval.requested" then approval_request_shape copied else ok tt
  ok copied

-- `_validated_payload`
unfoldable pub validated_payload : Host → String → Object → Result Object
unfolding check_payload copy_json_object
validated_payload host event_type payload = elim (lookup event_type (event_schemas host)) [
  | none ↦ err (unsupported_type event_type)
  | some s ↦ check_payload event_type s (copy_json_object payload)
]
