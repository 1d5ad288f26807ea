-- ===== src/Control.antt =====
-- src/qworker/control.py: what a live approval request shows, which responses it takes, and the copy of
-- an elicitation's schema.
pub mod Responses
pub mod Schema
pub mod Display
use Prim.Native.Char.{Char, code}
use Prim.Native.String.{String, count, ◌++◌}
use dogqoder.Prelude.{
  ℕ, zero, suc, ◌-◌, Bool, true, false, not, Option, none, some, List, [], ◌∷◌, ◌&&◌, ◌||◌, ◌==◌,
  nat_eq, ltb, leb, contains, same_set, lookup, keys, guard, ◌>>=◌, ◌>>◌, if◌then◌else◌,
}
use dogqoder.Chars.{is_space}
use dogqoder.Json.{
  Json, Items, Fields, Object, null, bool, int, float, str, arr, obj, nil, item, end, field, fields,
  as_str,
}
use dogqoder.Patterns.{Host}
use dogqoder.Redaction.{redact_result_text, cut}

pub data PermissionAction : Type 0 where
  allow deny : PermissionAction

pub data ElicitationAction : Type 0 where
  accept decline cancel : ElicitationAction

pub data Mode : Type 0 where
  form url : Mode

-- `PermissionRequest | ElicitationRequest`: the tool, the agent and the message; the server, the mode,
-- the message and the schema.
pub data ApprovalRequest : Type 0 where
  permission : String → Option String → String → ApprovalRequest
  elicitation : String → Mode → String → Option Json → ApprovalRequest

-- `PermissionDecision | ElicitationDecision`
pub data ApprovalDecision : Type 0 where
  permission : PermissionAction → ApprovalDecision
  elicitation : ElicitationAction → Option Object → ApprovalDecision

abbrev pub parse_permission : Option String → Option PermissionAction
parse_permission none = none
parse_permission (some s) =
    if s == "allow"
    then some PermissionAction.allow
    else if s == "deny"
    then some PermissionAction.deny
    else none

abbrev pub parse_elicitation : Option String → Option ElicitationAction
parse_elicitation none = none
parse_elicitation (some s) =
    if s == "accept"
    then some ElicitationAction.accept
    else if s == "decline"
    then some ElicitationAction.decline
    else if s == "cancel"
    then some ElicitationAction.cancel
    else none

abbrev pub object_of : Option Json → Option Object
object_of (some (obj fs)) = some (fields fs)
object_of _ = none

-- `response.get("action")`, where it is a text.
abbrev pub action_of : Object → Option String
action_of response = lookup "action" response >>= as_str

-- An elicitation's response, once its action is read. `matches` stands for the validation of content
-- against the snapshot, by the package jsonschema.
unfoldable pub elicitation_response :
    (Object → Bool) → Mode → ElicitationAction → Object → Option ApprovalDecision
elicitation_response matches mode ElicitationAction.accept response = elim mode [
  | Mode.url ↦
      guard (same_set (keys response) ("action" ∷ []))
      >> some (ApprovalDecision.elicitation ElicitationAction.accept none)
  | Mode.form ↦
      guard (same_set (keys response) ("action" ∷ "content" ∷ []))
      >> (object_of (lookup "content" response) >>= λ content.
          guard (matches content)
          >> some (ApprovalDecision.elicitation ElicitationAction.accept (some content)))
]
elicitation_response matches mode action response =
    guard (same_set (keys response) ("action" ∷ []))
    >> some (ApprovalDecision.elicitation action none)

-- `parse_approval_response`; `none` is its `ValueError` or `TypeError`.
unfoldable pub parse_approval_response :
    (Object → Bool) → ApprovalRequest → Object → Option ApprovalDecision
unfolding elicitation_response
parse_approval_response matches (ApprovalRequest.permission tool agent message) response =
    guard (same_set (keys response) ("action" ∷ []))
    >> (parse_permission (action_of response) >>= λ action.
        some (ApprovalDecision.permission action))
parse_approval_response matches (ApprovalRequest.elicitation server mode message schema) response =
    parse_elicitation (action_of response) >>= λ action.
    elicitation_response matches mode action response

-- The text of the error of `parse_approval_response`, where it raises one: that of the first check
-- that fails, read as the tests for errors stand in the source.
abbrev pub is_dict : Option Json → Bool
is_dict (some (obj fs)) = true
is_dict _ = false

unfoldable pub response_error : ApprovalRequest → Object → String
response_error (ApprovalRequest.permission tool agent message) response =
    "Permission response must contain only action=allow|deny."
response_error (ApprovalRequest.elicitation server mode message schema) response =
    elim (parse_elicitation (action_of response)) [
      | none ↦ "Elicitation response action must be accept, decline, or cancel."
      | some ElicitationAction.accept ↦ elim mode [
        | Mode.url ↦ "Accepted URL elicitation must contain only action."
        | Mode.form ↦
            if not (same_set (keys response) ("action" ∷ "content" ∷ []))
            then "Accepted form elicitation must contain action and object content."
            else if not (is_dict (lookup "content" response))
            then "Accepted elicitation content must be an object."
            else "Elicitation content does not match the requested form schema."
      ]
      | some _ ↦ "Declined or cancelled elicitation must contain only action."
    ]

abbrev pub max_prompt_chars : ℕ
max_prompt_chars = 256

-- The control characters of a text: NUL is removed, a line break is a blank.
abbrev pub blanked : String → String
blanked String.[] = ""
blanked (String.◌∷◌ c s) =
    let rest = blanked s in
    if nat_eq (code c) 0
    then rest
    else if nat_eq (code c) 10 || nat_eq (code c) 13
    then String.◌∷◌ " " rest
    else String.◌∷◌ c rest

-- `" ".join(s.split())`; `pending` tells that a blank is due before the next word.
unfoldable pub join_words : Bool → Bool → String → String
unfolding is_space
join_words started pending String.[] = ""
join_words started pending (String.◌∷◌ c s) =
    let skipped = join_words started started s in
    let word = String.◌∷◌ c (join_words true false s) in
    if is_space (code c) then skipped else if pending then String.◌∷◌ " " word else word

-- `safe_display_text`
unfoldable pub safe_display_text : Host → String → String
unfolding redact_result_text join_words cut
safe_display_text host value =
    let safe = join_words false false (redact_result_text host (blanked value)) in
    if leb (count safe) max_prompt_chars then safe else cut (max_prompt_chars - 3) safe ++ "..."

abbrev pub max_schema_depth : ℕ
max_schema_depth = 16

abbrev pub max_schema_nodes : ℕ
max_schema_nodes = 1024

abbrev pub max_schema_string_chars : ℕ
max_schema_string_chars = 4096

abbrev pub reference_keys : List String
reference_keys = "$ref" ∷ "$dynamicRef" ∷ "$recursiveRef" ∷ []

abbrev pub is_schema_key : String → Bool
is_schema_key k = leb (count k) max_schema_string_chars && not (contains reference_keys k)

-- The budget and the depth on entry to a node; `budget` counts the nodes that may still come.
abbrev pub enter : ℕ → ℕ → Option ℕ
enter depth budget =
    if nat_eq budget 0 || ltb max_schema_depth depth then none else some (budget - 1)

-- `copy_json`, with its two loops.
unfoldable mutual
  pub copy_json : ℕ → Json → ℕ → Option (Json × ℕ)
  copy_json depth (str s) budget = enter depth budget >>= λ left.
      guard (leb (count s) max_schema_string_chars) >> some (str s, left)
  copy_json depth (float finite s) budget =
      enter depth budget >>= λ left. guard finite >> some (float finite s, left)
  copy_json depth (arr xs) budget =
      enter depth budget >>= λ left. copy_items (suc depth) xs left >>= λ r. some (arr r.0, r.1)
  copy_json depth (obj fs) budget =
      enter depth budget >>= λ left. copy_fields (suc depth) fs left >>= λ r. some (obj r.0, r.1)
  copy_json depth null budget = enter depth budget >>= λ left. some (null, left)
  copy_json depth (bool b) budget = enter depth budget >>= λ left. some (bool b, left)
  copy_json depth (int n) budget = enter depth budget >>= λ left. some (int n, left)

  pub copy_items : ℕ → Items → ℕ → Option (Items × ℕ)
  copy_items depth nil budget = some (nil, budget)
  copy_items depth (item x xs) budget = copy_json depth x budget >>= λ one.
      copy_items depth xs one.1 >>= λ more. some (item one.0 more.0, more.1)

  pub copy_fields : ℕ → Fields → ℕ → Option (Fields × ℕ)
  copy_fields depth end budget = some (end, budget)
  copy_fields depth (field k v fs) budget =
      guard (is_schema_key k)
      >> (copy_json depth v budget >>= λ one.
          copy_fields depth fs one.1 >>= λ more. some (field k one.0 more.0, more.1))

-- `_bounded_json_schema`
unfoldable pub bounded_json_schema : Json → Option Object
unfolding copy_json
bounded_json_schema value = copy_json 0 value max_schema_nodes >>= λ r. object_of (some r.0)
