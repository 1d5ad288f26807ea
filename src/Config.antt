-- ===== src/Config.antt =====
-- src/qworker/config.py: the user's configuration and a project's overlay on its policy. A TOML document
-- is given decoded; its numbers and dates, which no field accepts, are any values that are neither
-- texts, truth values, arrays nor tables.
pub mod Narrowing
pub mod Loading
use Prim.Native.String.{String, count, ◌++◌}
use dogqoder.Prelude.{
  ℕ, Bool, true, false, not, Option, none, some, List, [], ◌∷◌, ◌&&◌, ◌||◌, ◌==◌, all, leb, nat_eq,
  contains, subset, lookup, has, keys, is_some, if◌then◌else◌,
}
use dogqoder.Chars.{codes, is_alnum, is_upper, is_lower}
use dogqoder.Regex.{Regex, set, seq, repeat, fullmatch}
use dogqoder.Json.{Json, Object, bool, str, arr, obj, items, fields, text_le, strings}
use dogqoder.Result.{Error, config_error, Result, ok, err, ◌>>=◌, ◌>>◌, require}

pub data PermissionMode : Type 0 where
  dont_ask default accept_edits : PermissionMode

-- `_PERMISSION_RANK`
abbrev pub permission_rank : PermissionMode → ℕ
permission_rank PermissionMode.dont_ask = 0
permission_rank PermissionMode.default = 1
permission_rank PermissionMode.accept_edits = 2

abbrev pub parse_mode : String → Option PermissionMode
parse_mode s =
    if s == "dontAsk"
    then some PermissionMode.dont_ask
    else if s == "default"
    then some PermissionMode.default
    else if s == "acceptEdits"
    then some PermissionMode.accept_edits
    else none

-- `_USER_TABLES`
abbrev pub user_tables : List String
user_tables = "project" ∷ "runtime" ∷ "auth" ∷ "policy" ∷ []

-- `_POLICY_FIELDS`
abbrev pub policy_fields : List String
policy_fields =
    "proactive_auditor" ∷ "proactive_coder" ∷ "coder_permission_mode" ∷ "coder_denied_tools"
    ∷ "auditor_web_access" ∷ []

pub record PolicyConfig : Type 0 where
  pub proactive_auditor : Bool
  pub proactive_coder : Bool
  pub coder_permission_mode : PermissionMode
  pub coder_denied_tools : List String
  pub auditor_web_access : Bool

-- The defaults of `PolicyConfig`.
abbrev pub default_policy : PolicyConfig
default_policy = record {
  proactive_auditor = true;
  proactive_coder = false;
  coder_permission_mode = PermissionMode.accept_edits;
  coder_denied_tools = [];
  auditor_web_access = true;
}

pub record EffectiveConfig : Type 0 where
  pub runtime_path : Option String
  pub service_account_env : Option String
  pub reuse_qodercli_auth : Bool
  pub allow_project_expansion : Bool
  pub policy : PolicyConfig

-- `Path.expanduser`, with `none` for its `RuntimeError`, and `Path.is_absolute`.
pub record Paths : Type 0 where
  pub expanduser : String → Option String
  pub is_absolute : String → Bool

abbrev is_underscore : ℕ → Bool
is_underscore c = nat_eq c b'_'

-- `_ENVIRONMENT_NAME`
abbrev pub environment_name : Regex
environment_name =
    seq (set (λ c. is_upper c || is_lower c || is_underscore c))
      (repeat 0 none (set (λ c. is_alnum c || is_underscore c)))

abbrev refuse_unknown : Object → List String → String → Result (Unit {0})
refuse_unknown table allowed message = require (subset (keys table) allowed) (config_error message)

abbrev pub table_of : String → String → Option Json → Result Object
table_of name label none = ok []
table_of name label (some (obj fs)) = ok (fields fs)
table_of name label (some _) = err (config_error (label ++ " [" ++ name ++ "] must be a table."))

-- `_table`
unfoldable pub table : Object → String → String → Result Object
table document name label = table_of name label (lookup name document)

abbrev pub boolean_of : Bool → String → Option Json → Result Bool
boolean_of fallback qualified none = ok fallback
boolean_of fallback qualified (some (bool b)) = ok b
boolean_of fallback qualified (some _) = err (config_error (qualified ++ " must be a boolean."))

-- `_optional_boolean`
unfoldable pub optional_boolean : Object → String → Bool → String → Result Bool
optional_boolean values key fallback qualified = boolean_of fallback qualified (lookup key values)

-- `_string`
unfoldable pub nonempty_string : Json → String → Result String
nonempty_string (str s) qualified =
    if s == "" then err (config_error (qualified ++ " must be a non-empty string.")) else ok s
nonempty_string _ qualified = err (config_error (qualified ++ " must be a non-empty string."))

-- An item of `sorted(set(…))`.
unfoldable pub insert_name : String → List String → List String
insert_name x [] = x ∷ []
insert_name x (y ∷ ys) =
    let later = y ∷ insert_name x ys in
    if x == y then y ∷ ys else if text_le x y then x ∷ y ∷ ys else later

unfoldable pub sorted_set : List String → List String
unfolding insert_name
sorted_set [] = []
sorted_set (x ∷ xs) = insert_name x (sorted_set xs)

abbrev pub is_tool_name : String → Bool
is_tool_name s = not (s == "") && leb (count s) 128

abbrev pub names_of : Option (List String) → Result (List String)
unfolding sorted_set
names_of none =
    err (config_error "policy.coder_denied_tools must be an array of non-empty tool names.")
names_of (some names) =
    if all (λ s. is_tool_name s) names
    then ok (sorted_set names)
    else err (config_error "policy.coder_denied_tools must be an array of non-empty tool names.")

-- `_tool_names`
unfoldable pub tool_names : Json → Result (List String)
unfolding names_of
tool_names (arr xs) = names_of (strings (items xs))
tool_names _ =
    err (config_error "policy.coder_denied_tools must be an array of non-empty tool names.")

abbrev pub mode_named : Option PermissionMode → Result PermissionMode
mode_named none =
    err (config_error "policy.coder_permission_mode must be dontAsk, default, or acceptEdits.")
mode_named (some mode) = ok mode

abbrev pub mode_of : PermissionMode → Option Json → Result PermissionMode
unfolding nonempty_string
mode_of base none = ok base
mode_of base (some value) =
    nonempty_string value "policy.coder_permission_mode" >>= λ s. mode_named (parse_mode s)

abbrev pub denied_of : List String → Option Json → Result (List String)
unfolding tool_names
denied_of base none = ok base
denied_of base (some value) = tool_names value

-- `_apply_policy`
unfoldable pub apply_policy : PolicyConfig → Object → Result PolicyConfig
unfolding mode_of denied_of optional_boolean
apply_policy base values = do
  mode ← mode_of base.coder_permission_mode (lookup "coder_permission_mode" values)
  denied ← denied_of base.coder_denied_tools (lookup "coder_denied_tools" values)
  auditor ←
      optional_boolean values "proactive_auditor" base.proactive_auditor "policy.proactive_auditor"
  coder ← optional_boolean values "proactive_coder" base.proactive_coder "policy.proactive_coder"
  web ←
      optional_boolean values "auditor_web_access" base.auditor_web_access
        "policy.auditor_web_access"
  ok (record {
    proactive_auditor = auditor;
    proactive_coder = coder;
    coder_permission_mode = mode;
    coder_denied_tools = denied;
    auditor_web_access = web;
  })
