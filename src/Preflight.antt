-- ===== src/Preflight.antt =====
-- src/qworker/preflight.py: the ordered checks before a worker starts. The backend, which asks the SDK
-- and the runtime, is a parameter.
pub mod Verdict
pub mod Run
use Prim.Native.String.{String, count, ◌++◌}
use dogqoder.Prelude.{
  ℕ, ◌-◌, Bool, true, false, not, Option, none, some, List, [], ◌∷◌, ◌&&◌, ◌==◌, leb, contains,
  keep, lookup, if◌then◌else◌,
}
use dogqoder.Redaction.{cut}
use dogqoder.Result.{Error, config_error, Result, ok, err}
use dogqoder.Config.{EffectiveConfig, sorted_set}

-- `AuthSource`
pub data AuthSource : Type 0 where
  personal_access_token service_account qodercli : AuthSource

pub record AuthSelection : Type 0 where
  pub source : AuthSource
  pub env_var : Option String

pub record RuntimeInfo : Type 0 where
  pub recorded_path : String
  pub executable : String
  pub version : String

pub record PreflightDiagnostic : Type 0 where
  pub code : String
  pub message : String

pub record DoctorResult : Type 0 where
  pub ok : Bool
  pub sdk_version : Option String
  pub runtime_path : Option String
  pub runtime_version : Option String
  pub auth_source : Option AuthSource
  pub capabilities : List String
  pub warnings : List String
  pub error : Option PreflightDiagnostic

-- A call of the backend: its value, a `PreflightFailure` with its code, or any other exception.
pub data Attempt {ℓ} (A : Type ℓ) : Type ℓ where
  value : A → Attempt A
  failure : String → Attempt A
  crash : Attempt A

-- `PreflightBackend`; `none` is an exception.
pub record PreflightBackend : Type 0 where
  pub sdk_version : Option String
  pub resolve_runtime : Option String → Attempt RuntimeInfo
  pub initialize : String → RuntimeInfo → AuthSelection → Attempt (List String)
  pub local_login_status : RuntimeInfo → Option Bool

-- `_PERSONAL_ACCESS_TOKEN_ENV`
abbrev pub personal_access_token_env : String
personal_access_token_env = "QODER_PERSONAL_ACCESS_TOKEN"

-- `_MAX_DIAGNOSTIC_CHARS`
abbrev pub max_diagnostic_chars : ℕ
max_diagnostic_chars = 512

-- `_SAFE_SERVER_CAPABILITIES`
abbrev pub safe_server_capabilities : List String
safe_server_capabilities = "modelPolicy" ∷ []

-- `_PREFLIGHT_DIAGNOSTICS`
abbrev pub preflight_diagnostics : List (String × String)
preflight_diagnostics =
    ("auth_required", "Qoder authentication is required.")
    ∷ ("initialize_timeout", "Qoder control initialization timed out.")
    ∷ ("invalid_request", "Qoder preflight configuration is invalid.")
    ∷ ("runtime_not_found", "Qoder runtime was not found.")
    ∷ ("runtime_incompatible", "Qoder runtime is incompatible.")
    ∷ ("sdk_protocol_error", "Qoder control initialization failed.")
    ∷ []

abbrev pub is_set : Option String → Bool
is_set none = false
is_set (some s) = not (s == "")

-- `select_auth`; `none` is its `PreflightFailure`, whose code is `auth_required`.
unfoldable pub select_auth : EffectiveConfig → (String → Option String) → Option AuthSelection
select_auth config environ =
    if is_set (environ personal_access_token_env)
    then some (record {
      source = AuthSource.personal_access_token;
      env_var = some personal_access_token_env;
    })
    else elim config.service_account_env [
      | some env ↦ some (record { source = AuthSource.service_account; env_var = some env })
      | none ↦
          if config.reuse_qodercli_auth
          then some (record { source = AuthSource.qodercli; env_var = none })
          else none
    ]

-- `normalize_server_capabilities`
unfoldable pub normalize_server_capabilities : List String → List String
normalize_server_capabilities capabilities =
    sorted_set (keep (λ c. contains safe_server_capabilities c) capabilities)

abbrev pub diagnostic_or_default : String → Option String → PreflightDiagnostic
diagnostic_or_default code (some message) = record { code = code; message = message }
diagnostic_or_default code none = record {
  code = "sdk_protocol_error";
  message = "Qoder control initialization failed.";
}

-- `safe_preflight_failure`
unfoldable pub safe_preflight_failure : String → PreflightDiagnostic
safe_preflight_failure code = diagnostic_or_default code (lookup code preflight_diagnostics)

-- `normalize_preflight_warnings`
unfoldable pub normalize_preflight_warnings : List String → List String
normalize_preflight_warnings warnings =
    if contains warnings "qodercli_auth_reuse_failed" then "qodercli_auth_reuse_failed" ∷ [] else []

-- `_bounded`
unfoldable pub bounded : String → String
unfolding cut
bounded message =
    if leb (count message) max_diagnostic_chars
    then message
    else cut (max_diagnostic_chars - 3) message ++ "..."
