-- ===== src/Examples/PreflightRuns.antt =====
-- Runs of src/qworker/preflight.py: the local login passes, and times out.
use dogqoder.Prelude.{◌≡◌, ◌↔◌, refl, true, false, List, none, some, String, Option, [], ◌∷◌}
use dogqoder.Result.{runtime_error, Result, ok, err}
use dogqoder.Config.{EffectiveConfig, default_policy, sorted_set}
use dogqoder.Preflight.{DoctorResult, PreflightBackend, value, failure}
use dogqoder.Preflight.Run.{run}
use dogqoder.Preflight.Verdict.{IsPass, Passes, IsSafeRun, run-ok_iff, run-IsSafe}

abbrev local_login : EffectiveConfig
local_login = record {
  runtime_path = none;
  service_account_env = none;
  reuse_qodercli_auth = true;
  allow_project_expansion = false;
  policy = default_policy;
}

abbrev backend : PreflightBackend
backend = record {
  sdk_version = some "1.0.13";
  resolve_runtime = λ path.
      value (record { recorded_path = "bundled"; executable = "/opt/qoder"; version = "2.1.0" });
  initialize = λ cwd runtime auth. value ("modelPolicy" ∷ "secret" ∷ []);
  local_login_status = λ runtime. some true;
}

abbrev slow_backend : PreflightBackend
slow_backend = record backend { initialize = λ cwd runtime auth. failure "initialize_timeout" }

abbrev no_environment : String → Option String
no_environment name = none

abbrev shown : Result DoctorResult → List String × List String
shown (ok d) = (d.capabilities, d.warnings)
shown (err e) = ([], [])

shows_safe_capability :
    shown (run backend no_environment (ok local_login) "/work") ≡ ("modelPolicy" ∷ [], [])
unfolding run sorted_set
shows_safe_capability = refl

warns_of_reuse :
    shown (run slow_backend no_environment (ok local_login) "/work")
    ≡ ([], "qodercli_auth_reuse_failed" ∷ [])
unfolding run
warns_of_reuse = refl

leaves_run :
    run backend no_environment (err (runtime_error "home")) "/work" ≡ err (runtime_error "home")
unfolding run
leaves_run = refl

run-ok_iff_example :
    IsPass (run backend no_environment (ok local_login) "/work")
    ↔ Passes backend no_environment (ok local_login) "/work"
run-ok_iff_example = run-ok_iff backend no_environment "/work" (ok local_login)

run-IsSafe_example :
    IsSafeRun (ok local_login) (run slow_backend no_environment (ok local_login) "/work")
run-IsSafe_example = run-IsSafe slow_backend no_environment "/work" (ok local_login)
