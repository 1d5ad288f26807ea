-- ===== src/Preflight/Verdict.antt =====
-- When src/qworker/preflight.py passes, and what its verdict may show.
use Prim.Native.String.{String, count}
use text.Mathlib.TextLemmas.{length-append}
use dogqoder.Prelude.{
  ◌≤◌, ◌-◌, ◌≡◌, ◌⊎◌, ◌↔◌, refl, Bool, true, false, Option, none, some, List, [], ◌∷◌, arith, leb,
  contains, subset, all, keep, is_some, map, lookup, inl, inr, Bool-cases, Option-cases, ◌==◌,
}
use dogqoder.Redaction.{cut}
use dogqoder.Redaction.Budget.{count-cut_le}
use dogqoder.Result.{Error, config_error, Result, ok, err}
use dogqoder.Config.{EffectiveConfig, insert_name, sorted_set}
use dogqoder.Preflight.{
  AuthSelection, RuntimeInfo, PreflightDiagnostic, DoctorResult, Attempt, value, failure, crash,
  PreflightBackend, select_auth, bounded, safe_preflight_failure, preflight_diagnostics,
  max_diagnostic_chars, safe_server_capabilities, normalize_server_capabilities,
}
use dogqoder.Preflight.Run.{
  failed, reuse_warning, after_initialize, after_auth, after_runtime, after_config, after_sdk, run,
  config_diagnostic, protocol_error,
}

-- `run` returned a verdict that passes.
abbrev pub IsPass : Result DoctorResult → Type 0
IsPass (ok d) = d.ok ≡ true
IsPass (err e) = ⊥

-- All checks pass, in order.
abbrev pub Passes :
    PreflightBackend → (String → Option String) → Result EffectiveConfig → String → Type 0
Passes b environ config cwd =
    (sdk : String) × (b.sdk_version ≡ some sdk)
    × (c : EffectiveConfig) × (config ≡ ok c)
    × (runtime : RuntimeInfo) × (b.resolve_runtime c.runtime_path ≡ value runtime)
    × (auth : AuthSelection) × (select_auth c environ ≡ some auth)
    × (capabilities : List String) × (b.initialize cwd runtime auth ≡ value capabilities)

module _ (b : PreflightBackend) (environ : String → Option String) (cwd : String) where
  initialize-ok :
      (sdk : String) (runtime : RuntimeInfo) (auth : AuthSelection) (r : Attempt (List String))
      → (after_initialize b sdk runtime auth r).ok ≡ true
      → (capabilities : List String) × (r ≡ value capabilities)
  unfolding after_initialize
  initialize-ok sdk runtime auth (value capabilities) h = (capabilities, refl)
  initialize-ok sdk runtime auth (failure code) h = cc
  initialize-ok sdk runtime auth crash h = cc

  auth-ok :
      (sdk : String) (runtime : RuntimeInfo) (o : Option AuthSelection)
      → (after_auth b cwd sdk runtime o).ok ≡ true
      → (auth : AuthSelection) × (o ≡ some auth)
        × (capabilities : List String) × (b.initialize cwd runtime auth ≡ value capabilities)
  unfolding after_auth
  auth-ok sdk runtime none h = cc
  auth-ok sdk runtime (some auth) h =
      let (capabilities, e) = initialize-ok sdk runtime auth (b.initialize cwd runtime auth) h in
      (auth, refl, capabilities, e)

  runtime-ok :
      (sdk : String) (c : EffectiveConfig) (r : Attempt RuntimeInfo)
      → (after_runtime b environ cwd sdk c r).ok ≡ true
      → (runtime : RuntimeInfo) × (r ≡ value runtime)
        × (auth : AuthSelection) × (select_auth c environ ≡ some auth)
        × (capabilities : List String) × (b.initialize cwd runtime auth ≡ value capabilities)
  unfolding after_runtime
  runtime-ok sdk c (value runtime) h =
      let (auth, e, capabilities, e') = auth-ok sdk runtime (select_auth c environ) h in
      (runtime, refl, auth, e, capabilities, e')
  runtime-ok sdk c (failure code) h = cc
  runtime-ok sdk c crash h = cc

  passes :
      (o : Option String) (config : Result EffectiveConfig)
      → IsPass (after_sdk b environ cwd config o)
      → (sdk : String) × (o ≡ some sdk)
        × (c : EffectiveConfig) × (config ≡ ok c)
        × (runtime : RuntimeInfo) × (b.resolve_runtime c.runtime_path ≡ value runtime)
        × (auth : AuthSelection) × (select_auth c environ ≡ some auth)
        × (capabilities : List String) × (b.initialize cwd runtime auth ≡ value capabilities)
  unfolding after_sdk after_config
  passes none config h = cc
  passes (some sdk) (err (config_error message)) h = cc
  passes (some sdk) (err e) h = absurd h
  passes (some sdk) (ok c) h =
      let (runtime, e, auth, e', capabilities, e'') =
        runtime-ok sdk c (b.resolve_runtime c.runtime_path) h in
      (sdk, refl, c, refl, runtime, e, auth, e', capabilities, e'')

  run-IsPass :
      (config : Result EffectiveConfig)
      → Passes b environ config cwd
      → IsPass (run b environ config cwd)
  unfolding run after_sdk after_config after_runtime after_auth after_initialize
  run-IsPass config (sdk, p, c, q, runtime, r, auth, t, capabilities, u) = rw (p, q, r, t, u)

  -- The preflight passes exactly when the SDK has a version, the configuration loads, the runtime of the
  -- configured path is found, a credential is selected, and the control connection with that runtime
  -- and credential starts.
  pub run-ok_iff :
      (config : Result EffectiveConfig)
      → IsPass (run b environ config cwd) ↔ Passes b environ config cwd
  unfolding run
  run-ok_iff config = (passes b.sdk_version config, run-IsPass config)

-- The codes of the diagnostics.
abbrev pub diagnostic_codes : List String
diagnostic_codes = map (λ e. e.0) preflight_diagnostics

-- A verdict that shows nothing but what is fixed or bounded: a pass has the metadata that `spawn` needs,
-- no error, no warning and only capabilities that are safe to show; a failure has one diagnostic of a
-- known code with a bounded message, no capabilities, and at most the one known warning.
abbrev pub IsSafe : DoctorResult → Type 0
IsSafe d =
    ((d.ok ≡ true)
      × (d.error ≡ none)
      × (d.warnings ≡ [])
      × (is_some d.sdk_version ≡ true)
      × (is_some d.runtime_path ≡ true)
      × (subset d.capabilities safe_server_capabilities ≡ true))
    ⊎ ((d.ok ≡ false)
        × (d.capabilities ≡ [])
        × (subset d.warnings ("qodercli_auth_reuse_failed" ∷ []) ≡ true)
        × (e : PreflightDiagnostic) × (d.error ≡ some e)
        × (contains diagnostic_codes e.code ≡ true)
        × (count e.message ≤ max_diagnostic_chars))

abbrev pub is_config_error : Error → Bool
is_config_error (config_error message) = true
is_config_error _ = false

-- What `run` may end in, over what `load_config` gives.
abbrev pub IsSafeRun : Result EffectiveConfig → Result DoctorResult → Type 0
IsSafeRun config (ok d) = IsSafe d
IsSafeRun config (err e) = (config ≡ err e) × (is_config_error e ≡ false)

bounded-le : (message : String) → count (bounded message) ≤ max_diagnostic_chars
unfolding bounded
bounded-le message = elim (Bool-cases (leb (count message) max_diagnostic_chars)) [
  | inl short ↦ rw short (ground arith)
  | inr long ↦ rw long (
      omega (
        arith,
        length-append (cut (max_diagnostic_chars - 3) message) "...",
        count-cut_le (max_diagnostic_chars - 3) message,
      ))
]

failed-IsSafe :
    (d : PreflightDiagnostic) (sdk : Option String) (runtime : Option RuntimeInfo)
    (auth : Option AuthSelection) (warnings : List String)
    → contains diagnostic_codes d.code ≡ true
    → subset warnings ("qodercli_auth_reuse_failed" ∷ []) ≡ true
    → IsSafe (failed d sdk runtime auth warnings)
unfolding failed
failed-IsSafe d sdk runtime auth warnings known few =
    inr (refl, refl, few, _, refl, known, bounded-le d.message)

contains-of-lookup :
    (k : String) (table : List (String × String)) (v : String)
    → lookup k table ≡ some v
    → contains (map (λ e. e.0) table) k ≡ true
contains-of-lookup k [] v h = cc
contains-of-lookup k ((j, w) ∷ table) v h = elim (Bool-cases (j == k)) [
  | inl same ↦ rw same refl
  | inr other ↦ rw other (contains-of-lookup k table v (rw other at h))
]

safe_failure-known :
    (code : String) → contains diagnostic_codes (safe_preflight_failure code).code ≡ true
unfolding safe_preflight_failure
safe_failure-known code = elim (Option-cases (lookup code preflight_diagnostics)) [
  | inl unknown ↦ rw unknown refl
  | inr (message, known) ↦ rw known (contains-of-lookup code preflight_diagnostics message known)
]

all-insert_name :
    (p : String → Bool) (x : String) (ys : List String)
    → p x ≡ true
    → all p ys ≡ true
    → all p (insert_name x ys) ≡ true
unfolding insert_name
all-insert_name p x [] h k = ground arith
all-insert_name p x (y ∷ ys) h k = ground (arith, all-insert_name p x ys)

all-sorted_keep : (p : String → Bool) (xs : List String) → all p (sorted_set (keep p xs)) ≡ true
unfolding sorted_set
all-sorted_keep p [] = refl
all-sorted_keep p (x ∷ xs) = elim (Bool-cases (p x)) [
  | inl h ↦ rw h (all-insert_name p x (sorted_set (keep p xs)) h (all-sorted_keep p xs))
  | inr h ↦ rw h (all-sorted_keep p xs)
]

reuse_warning-few :
    (b : PreflightBackend) (runtime : RuntimeInfo) (auth : AuthSelection) (d : PreflightDiagnostic)
    → subset (reuse_warning b runtime auth d) ("qodercli_auth_reuse_failed" ∷ []) ≡ true
unfolding reuse_warning
reuse_warning-few b runtime auth d = ground arith

module _ (b : PreflightBackend) (environ : String → Option String) (cwd : String) where
  initialize-IsSafe :
      (sdk : String) (runtime : RuntimeInfo) (auth : AuthSelection) (r : Attempt (List String))
      → IsSafe (after_initialize b sdk runtime auth r)
  unfolding after_initialize normalize_server_capabilities
  initialize-IsSafe sdk runtime auth (value capabilities) = inl (
    refl,
    refl,
    refl,
    refl,
    refl,
    all-sorted_keep (λ c. contains safe_server_capabilities c) capabilities,
  )
  initialize-IsSafe sdk runtime auth (failure code) =
      failed-IsSafe (safe_preflight_failure code) (some sdk) (some runtime) (some auth) _
        (safe_failure-known code) (reuse_warning-few b runtime auth (safe_preflight_failure code))
  initialize-IsSafe sdk runtime auth crash =
      failed-IsSafe (protocol_error "Qoder control initialization failed.") (some sdk)
        (some runtime) (some auth) [] refl refl

  auth-IsSafe :
      (sdk : String) (runtime : RuntimeInfo) (o : Option AuthSelection)
      → IsSafe (after_auth b cwd sdk runtime o)
  unfolding after_auth
  auth-IsSafe sdk runtime none =
      failed-IsSafe (safe_preflight_failure "auth_required") (some sdk) (some runtime) none []
        (safe_failure-known "auth_required") refl
  auth-IsSafe sdk runtime (some auth) = initialize-IsSafe sdk runtime auth _

  runtime-IsSafe :
      (sdk : String) (c : EffectiveConfig) (r : Attempt RuntimeInfo)
      → IsSafe (after_runtime b environ cwd sdk c r)
  unfolding after_runtime
  runtime-IsSafe sdk c (value runtime) = auth-IsSafe sdk runtime (select_auth c environ)
  runtime-IsSafe sdk c (failure code) =
      failed-IsSafe (safe_preflight_failure code) (some sdk) none none [] (safe_failure-known code)
        refl
  runtime-IsSafe sdk c crash =
      failed-IsSafe (protocol_error "Unable to resolve Qoder runtime.") (some sdk) none none [] refl
        refl

  sdk-IsSafe :
      (o : Option String) (config : Result EffectiveConfig)
      → IsSafeRun config (after_sdk b environ cwd config o)
  unfolding after_sdk after_config
  sdk-IsSafe none config =
      failed-IsSafe (protocol_error "Unable to import Qoder SDK.") none none none [] refl refl
  sdk-IsSafe (some sdk) (err (config_error message)) =
      failed-IsSafe (config_diagnostic message) (some sdk) none none [] refl refl
  sdk-IsSafe (some sdk) (err e) = (refl, refl)
  sdk-IsSafe (some sdk) (ok c) = runtime-IsSafe sdk c (b.resolve_runtime c.runtime_path)

  -- Whatever the backend and the environment do: where `run` returns, its verdict is a pass with the
  -- metadata that a start needs, without error or warning and with safe capabilities only, or it is
  -- a failure with one diagnostic of a known code, whose message has at most 512 characters, without
  -- capabilities and with at most the one known warning; where it raises, the configuration raised
  -- that exception, and it is no `ConfigError`.
  pub run-IsSafe : (config : Result EffectiveConfig) → IsSafeRun config (run b environ config cwd)
  unfolding run
  run-IsSafe config = sdk-IsSafe b.sdk_version config
