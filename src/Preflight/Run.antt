-- ===== src/Preflight/Run.antt =====
-- `RuntimePreflight.run` of src/qworker/preflight.py, one function for what follows each check.
use Prim.Native.String.{String}
use dogqoder.Prelude.{
  Bool, true, false, Option, none, some, List, [], ◌∷◌, ◌&&◌, ◌==◌, if◌then◌else◌,
}
use dogqoder.Result.{config_error, Result, ok, err}
use dogqoder.Config.{EffectiveConfig}
use dogqoder.Preflight.{
  Attempt, AuthSelection, AuthSource, DoctorResult, PreflightBackend, PreflightDiagnostic,
  RuntimeInfo, bounded, crash, failure, normalize_server_capabilities, safe_preflight_failure,
  select_auth, value,
}

abbrev pub recorded : Option RuntimeInfo → Option String
recorded none = none
recorded (some r) = some r.recorded_path

abbrev pub version_of : Option RuntimeInfo → Option String
version_of none = none
version_of (some r) = some r.version

abbrev pub source_of : Option AuthSelection → Option AuthSource
source_of none = none
source_of (some a) = some a.source

-- `_failed`
unfoldable pub failed :
    PreflightDiagnostic
    → Option String
    → Option RuntimeInfo
    → Option AuthSelection
    → List String
    → DoctorResult
unfolding bounded
failed d sdk runtime auth warnings = record {
  ok = false;
  sdk_version = sdk;
  runtime_path = recorded runtime;
  runtime_version = version_of runtime;
  auth_source = source_of auth;
  capabilities = [];
  warnings = warnings;
  error = some (record { code = d.code; message = bounded d.message });
}

abbrev pub protocol_error : String → PreflightDiagnostic
protocol_error message = record { code = "sdk_protocol_error"; message = message }

-- `ConfigError`, whose code is always `invalid_request`.
abbrev pub config_diagnostic : String → PreflightDiagnostic
config_diagnostic message = record { code = "invalid_request"; message = message }

abbrev pub is_cli : AuthSource → Bool
is_cli AuthSource.qodercli = true
is_cli _ = false

abbrev pub logged_in : Option Bool → Bool
logged_in none = false
logged_in (some b) = b

-- The warning of a timeout under local login: only where the login itself is in order.
unfoldable pub reuse_warning :
    PreflightBackend → RuntimeInfo → AuthSelection → PreflightDiagnostic → List String
reuse_warning b runtime auth d =
    if is_cli auth.source
      && (d.code == "initialize_timeout")
      && logged_in (b.local_login_status runtime)
    then "qodercli_auth_reuse_failed" ∷ []
    else []

-- `run`, once the control connection has been tried.
unfoldable pub after_initialize :
    PreflightBackend → String → RuntimeInfo → AuthSelection → Attempt (List String) → DoctorResult
unfolding reuse_warning failed safe_preflight_failure normalize_server_capabilities
after_initialize b sdk runtime auth (value capabilities) = record {
  ok = true;
  sdk_version = some sdk;
  runtime_path = some runtime.recorded_path;
  runtime_version = some runtime.version;
  auth_source = some auth.source;
  capabilities = normalize_server_capabilities capabilities;
  warnings = [];
  error = none;
}
after_initialize b sdk runtime auth (failure code) =
    let d = safe_preflight_failure code in
    failed d (some sdk) (some runtime) (some auth) (reuse_warning b runtime auth d)
after_initialize b sdk runtime auth crash =
    failed (protocol_error "Qoder control initialization failed.") (some sdk) (some runtime)
      (some auth) []

unfoldable pub after_auth :
    PreflightBackend → String → String → RuntimeInfo → Option AuthSelection → DoctorResult
unfolding after_initialize
after_auth b cwd sdk runtime none =
    failed (safe_preflight_failure "auth_required") (some sdk) (some runtime) none []
after_auth b cwd sdk runtime (some auth) =
    after_initialize b sdk runtime auth (b.initialize cwd runtime auth)

unfoldable pub after_runtime :
    PreflightBackend
    → (String → Option String)
    → String
    → String
    → EffectiveConfig
    → Attempt RuntimeInfo
    → DoctorResult
unfolding after_auth select_auth
after_runtime b environ cwd sdk config (value runtime) =
    after_auth b cwd sdk runtime (select_auth config environ)
after_runtime b environ cwd sdk config (failure code) =
    failed (safe_preflight_failure code) (some sdk) none none []
after_runtime b environ cwd sdk config crash =
    failed (protocol_error "Unable to resolve Qoder runtime.") (some sdk) none none []

-- `run` after `load_config`: only a `ConfigError` becomes a verdict, and any other exception leaves `run`.
unfoldable pub after_config :
    PreflightBackend
    → (String → Option String)
    → String
    → String
    → Result EffectiveConfig
    → Result DoctorResult
unfolding after_runtime
after_config b environ cwd sdk (err (config_error message)) =
    ok (failed (config_diagnostic message) (some sdk) none none [])
after_config b environ cwd sdk (err e) = err e
after_config b environ cwd sdk (ok config) =
    ok (after_runtime b environ cwd sdk config (b.resolve_runtime config.runtime_path))

unfoldable pub after_sdk :
    PreflightBackend
    → (String → Option String)
    → String
    → Result EffectiveConfig
    → Option String
    → Result DoctorResult
unfolding after_config
after_sdk b environ cwd config none =
    ok (failed (protocol_error "Unable to import Qoder SDK.") none none none [])
after_sdk b environ cwd config (some sdk) = after_config b environ cwd sdk config

-- `RuntimePreflight.run`, over what `load_config` gives.
unfoldable pub run :
    PreflightBackend
    → (String → Option String)
    → Result EffectiveConfig
    → String
    → Result DoctorResult
unfolding after_sdk
run b environ config cwd = after_sdk b environ cwd config b.sdk_version
