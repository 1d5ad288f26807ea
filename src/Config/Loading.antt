-- ===== src/Config/Loading.antt =====
-- `load_config` of src/qworker/config.py: the user's document and the overlay of a project on its policy.
use Prim.Native.String.{String, ◌++◌}
use dogqoder.Prelude.{
  false, not, Option, none, some, [], ◌∷◌, ◌&&◌, leb, subset, lookup, if◌then◌else◌,
}
use dogqoder.Chars.{codes, is_alnum, is_upper, is_lower}
use dogqoder.Regex.{fullmatch}
use dogqoder.Json.{Json, Object}
use dogqoder.Result.{config_error, runtime_error, Result, ok, err, ◌>>=◌, ◌>>◌, require}
use dogqoder.Config.{
  EffectiveConfig, Paths, PolicyConfig, apply_policy, default_policy, environment_name,
  nonempty_string, optional_boolean, permission_rank, policy_fields, refuse_unknown, table,
  user_tables,
}

-- `_expanded_policy_field`
unfoldable pub expanded_policy_field : PolicyConfig → PolicyConfig → Option String
expanded_policy_field current candidate =
    if not current.proactive_auditor && candidate.proactive_auditor
    then some "proactive_auditor"
    else if not current.proactive_coder && candidate.proactive_coder
    then some "proactive_coder"
    else if not current.auditor_web_access && candidate.auditor_web_access
    then some "auditor_web_access"
    else if not (
        leb (permission_rank candidate.coder_permission_mode)
          (permission_rank current.coder_permission_mode))
    then some "coder_permission_mode"
    else if not (subset current.coder_denied_tools candidate.coder_denied_tools)
    then some "coder_denied_tools"
    else none

abbrev pub unless_expanded : PolicyConfig → Option String → Result PolicyConfig
unless_expanded candidate none = ok candidate
unless_expanded candidate (some changed) = err (
    config_error (
      "Project configuration expands policy field '" ++ changed
      ++ "'; user configuration must set project.allow_expansion = true."))

-- `_apply_project_policy`
unfoldable pub apply_project_policy : EffectiveConfig → Object → Result PolicyConfig
unfolding apply_policy expanded_policy_field
apply_project_policy config values = do
  candidate ← apply_policy config.policy values
  if config.allow_project_expansion
      then ok candidate
      else unless_expanded candidate (expanded_policy_field config.policy candidate)

-- A home directory that cannot be determined is no `ConfigError`.
abbrev pub expanded : Paths → String → Result String
expanded paths raw = elim (paths.expanduser raw) [
  | none ↦ err (runtime_error "Could not determine home directory.")
  | some path ↦ ok path
]

abbrev pub runtime_path_of : Paths → Option Json → Result (Option String)
unfolding nonempty_string
runtime_path_of paths none = ok none
runtime_path_of paths (some value) = do
  raw ← nonempty_string value "runtime.path"
  path ← expanded paths raw
  require (paths.is_absolute path) (config_error "runtime.path must be absolute.")
  ok (some path)

abbrev pub account_env_of : Option Json → Result (Option String)
unfolding nonempty_string fullmatch is_alnum is_upper is_lower
account_env_of none = ok none
account_env_of (some value) = do
  name ← nonempty_string value "auth.service_account_env"
  require (fullmatch environment_name (codes name))
      (config_error "auth.service_account_env must be an environment name.")
  ok (some name)

-- `_parse_user_config`
unfoldable pub parse_user_config : Paths → Object → Result EffectiveConfig
unfolding table runtime_path_of account_env_of optional_boolean apply_policy
parse_user_config paths document = do
  refuse_unknown document user_tables "User configuration contains an unknown table."
  project ← table document "project" "User"
  runtime ← table document "runtime" "User"
  auth ← table document "auth" "User"
  policy ← table document "policy" "User"
  refuse_unknown project ("allow_expansion" ∷ []) "User [project] contains an unknown field."
  refuse_unknown runtime ("path" ∷ []) "User [runtime] contains an unknown field."
  refuse_unknown auth ("service_account_env" ∷ "reuse_qodercli" ∷ [])
      "User [auth] contains an unknown field."
  refuse_unknown policy policy_fields "User [policy] contains an unknown field."
  runtime_path ← runtime_path_of paths (lookup "path" runtime)
  account_env ← account_env_of (lookup "service_account_env" auth)
  reuse ← optional_boolean auth "reuse_qodercli" false "auth.reuse_qodercli"
  allow ← optional_boolean project "allow_expansion" false "project.allow_expansion"
  effective ← apply_policy default_policy policy
  ok (record {
    runtime_path = runtime_path;
    service_account_env = account_env;
    reuse_qodercli_auth = reuse;
    allow_project_expansion = allow;
    policy = effective;
  })

-- `load_config` over the project's document, once the user's is parsed.
unfoldable pub overlay : EffectiveConfig → Object → Result EffectiveConfig
unfolding table apply_project_policy
overlay config [] = ok config
overlay config (f ∷ fs) = do
  refuse_unknown (f ∷ fs) ("policy" ∷ []) "Project configuration may only contain [policy]."
  values ← table (f ∷ fs) "policy" "Project"
  refuse_unknown values policy_fields "Project [policy] contains an unknown field."
  narrowed ← apply_project_policy config values
  ok (record config { policy = narrowed })

-- `load_config`, over what `_read_toml` gives for the two files.
unfoldable pub load_config : Paths → Result Object → Result Object → Result EffectiveConfig
unfolding parse_user_config overlay
load_config paths user project = do
  user_data ← user
  config ← parse_user_config paths user_data
  project_data ← project
  overlay config project_data
