-- ===== src/Control/Display.antt =====
-- `approval_display` of src/qworker/control.py, over the decoded schema snapshot, and its agreement with
-- the shape that src/qworker/store.py asks of a persisted request.
use mathlib.Core.Path.{subst}
use Prim.Native.String.{String, ◌++◌ as append}
use dogqoder.Prelude.{
  ℕ, ◌-◌, ◌≡◌, refl, Bool, true, false, not, Option, none, some, List, [], ◌∷◌, ◌++◌, ◌&&◌, ◌||◌,
  ◌==◌, map, nat_eq, take, contains, lookup, Bool-cases, inl, inr, if◌then◌else◌,
}
use dogqoder.Chars.{codes}
use dogqoder.Json.{
  Json, Fields, Object, str, arr, obj, items, end, field, fields, from_items, str_list,
  insert_field,
}
use dogqoder.Patterns.{Host, safe_metadata}
use dogqoder.Config.{sorted_set}
use dogqoder.Result.{ok}
use dogqoder.Payload.{is_texts}
use dogqoder.Events.{approval_request_shape}
use dogqoder.Store.Operations.{number}
use dogqoder.Control.{Mode, ApprovalRequest, safe_display_text}

abbrev pub max_display_fields : ℕ
max_display_fields = 32

-- `safe_identifier`
abbrev pub safe_identifier : String → Bool
safe_identifier s = safe_metadata (codes s)

abbrev pub field_types : List String
field_types = "array" ∷ "boolean" ∷ "integer" ∷ "null" ∷ "number" ∷ "object" ∷ "string" ∷ []

abbrev pub type_name : Option Json → String
type_name (some (str t)) = if contains field_types t then t else "value"
type_name _ = "value"

-- `sorted(properties.items())`
unfoldable pub sorted_properties : Fields → Fields
unfolding insert_field
sorted_properties end = end
sorted_properties (field k v fs) = insert_field k v (sorted_properties fs)

-- The loop over the properties, with the fields that may still come: each name with its entry.
unfoldable pub display_entries : ℕ → Fields → List (String × String)
display_entries left end = []
display_entries left (field name (obj fs) rest) =
    let kept =
      (name, append name (append ":" (type_name (lookup "type" (fields fs)))))
      ∷ display_entries (left - 1) rest in
    let skipped = display_entries left rest in
    if nat_eq left 0 || not (safe_identifier name) then skipped else kept
display_entries left (field name v rest) = display_entries left rest

-- The items of `required` that are texts among the names.
unfoldable pub named_items : List String → List Json → List String
named_items names [] = []
named_items names (str s ∷ rest) =
    let later = named_items names rest in if contains names s then s ∷ later else later
named_items names (_ ∷ rest) = named_items names rest

abbrev pub required_names : List String → Option Json → List String
unfolding named_items sorted_set
required_names names (some (arr xs)) =
    take max_display_fields (sorted_set (named_items names (items xs)))
required_names names _ = []

abbrev pub display_of : Option Json → Option Json → List String × List String
unfolding display_entries sorted_properties required_names
display_of (some (obj properties)) required =
    let entries = display_entries max_display_fields (sorted_properties properties) in
    (map (λ e. e.1) entries, required_names (map (λ e. e.0) entries) required)
display_of _ required = ([], [])

-- `_schema_display`, of the decoded snapshot.
unfoldable pub schema_display : Option Object → List String × List String
unfolding display_of
schema_display none = ([], [])
schema_display (some schema) = display_of (lookup "properties" schema) (lookup "required" schema)

abbrev pub texts : List String → Json
texts ss = arr (from_items (str_list ss))

abbrev pub mode_text : Mode → String
mode_text Mode.form = "form"
mode_text Mode.url = "url"

abbrev pub is_form : Mode → Bool
is_form Mode.form = true
is_form Mode.url = false

abbrev pub is_some_names : List String → Bool
is_some_names [] = false
is_some_names (n ∷ ns) = true

-- `display[key] = value`, where the test holds.
abbrev pub field_if : Bool → String → Json → Object
field_if true key value = (key, value) ∷ []
field_if false key value = []

abbrev pub safe_agent : Option String → Bool
safe_agent none = false
safe_agent (some agent) = safe_identifier agent

abbrev pub agent_text : Option String → String
agent_text none = ""
agent_text (some agent) = agent

abbrev pub prompt_or : String → String → String
prompt_or server prompt =
    if prompt == "" then append "Input requested by " (append server ".") else prompt

abbrev pub permission_display : String → ℕ → String → Bool → String → Object
permission_display request_id attempt tool safe agent =
    ("request_id", str request_id)
    ∷ ("attempt", number attempt)
    ∷ ("kind", str "tool_permission")
    ∷ ("tool_name", str tool)
    ∷ ("prompt", str (append "Allow tool " (append tool " for this turn?")))
    ∷ ("choices", texts ("allow" ∷ "deny" ∷ []))
    ∷ field_if safe "agent_id" (str agent)

abbrev pub elicitation_display :
    String → ℕ → String → Mode → String → List String × List String → Object
elicitation_display request_id attempt server mode prompt shown =
    ("request_id", str request_id)
    ∷ ("attempt", number attempt)
    ∷ ("kind", str "elicitation")
    ∷ ("server_name", str server)
    ∷ ("mode", str (mode_text mode))
    ∷ ("prompt", str prompt)
    ∷ ("choices", texts ("accept" ∷ "decline" ∷ "cancel" ∷ []))
    ∷ (field_if (is_form mode && is_some_names shown.0) "fields" (texts shown.0)
        ++ field_if (is_form mode && is_some_names shown.1) "required_fields" (texts shown.1))

-- `approval_display`
unfoldable pub approval_display :
    Host → String → ℕ → ApprovalRequest → Option Object → Option Object
unfolding safe_display_text schema_display
approval_display host request_id attempt (ApprovalRequest.permission tool agent message) schema =
    if safe_identifier tool
    then some (permission_display request_id attempt tool (safe_agent agent) (agent_text agent))
    else none
approval_display host request_id attempt (ApprovalRequest.elicitation server mode message live)
      schema =
    let server_name = if safe_identifier server then server else "unknown" in
    some (
      elicitation_display request_id attempt server_name mode
        (prompt_or server_name (safe_display_text host message)) (schema_display schema))

approval_request_shape-permission_display :
    (request_id : String) (attempt : ℕ) (tool : String) (safe : Bool) (agent : String)
    → approval_request_shape (permission_display request_id attempt tool safe agent) ≡ ok tt
unfolding approval_request_shape is_texts
approval_request_shape-permission_display request_id attempt tool true agent = refl
approval_request_shape-permission_display request_id attempt tool false agent = refl

approval_request_shape-elicitation_display :
    (request_id : String) (attempt : ℕ) (server : String) (mode : Mode) (prompt : String)
    (names required : List String)
    → approval_request_shape
        (elicitation_display request_id attempt server mode prompt (names, required))
      ≡ ok tt
unfolding approval_request_shape is_texts
approval_request_shape-elicitation_display request_id attempt server Mode.url prompt names
      required =
    refl
approval_request_shape-elicitation_display request_id attempt server Mode.form prompt [] [] = refl
approval_request_shape-elicitation_display request_id attempt server Mode.form prompt (n ∷ ns) [] =
    refl
approval_request_shape-elicitation_display request_id attempt server Mode.form prompt [] (r ∷ rs) =
    refl
approval_request_shape-elicitation_display request_id attempt server Mode.form prompt (n ∷ ns)
      (r ∷ rs) =
    refl

-- Whatever is asked, a display that is built has the shape that the store asks of a persisted request.
pub approval_request_shape-approval_display :
    (host : Host) (request_id : String) (attempt : ℕ) (request : ApprovalRequest)
    (schema : Option Object) (display : Object)
    → approval_display host request_id attempt request schema ≡ some display
    → approval_request_shape display ≡ ok tt
unfolding approval_display
approval_request_shape-approval_display host request_id attempt
      (ApprovalRequest.permission tool agent message) schema display h =
    elim (Bool-cases (safe_identifier tool)) [
      | inl safe ↦
          let same : permission_display request_id attempt tool (safe_agent agent)
                (agent_text agent)
              ≡ display =
            injective (rw safe at h) in
          subst (λ d. approval_request_shape d ≡ ok tt) same
            (approval_request_shape-permission_display request_id attempt tool (safe_agent agent)
              (agent_text agent))
      | inr unsafe ↦ none_shown (rw unsafe at h)
    ]
  where
    injective : {a b : Object} → some a ≡ some b → a ≡ b
    injective e = cc

    none_shown : none ≡ some display → approval_request_shape display ≡ ok tt
    none_shown e = cc
approval_request_shape-approval_display host request_id attempt
      (ApprovalRequest.elicitation server mode message live) schema display h =
    let name : String = if safe_identifier server then server else "unknown" in
    let prompt = prompt_or name (safe_display_text host message) in
    let shown = schema_display schema in
    let same : elicitation_display request_id attempt name mode prompt shown ≡ display =
      injective h in
    subst (λ d. approval_request_shape d ≡ ok tt) same
      (approval_request_shape-elicitation_display request_id attempt name mode prompt shown.0
        shown.1)
  where
    injective : {a b : Object} → some a ≡ some b → a ≡ b
    injective e = cc
