-- ===== src/Examples/ConfigRuns.antt =====
-- A run of src/qworker/config.py: a project narrows the permission mode.
use dogqoder.Prelude.{◌≡◌, refl, ◌⊎◌, Bool, true, none, some, [], ◌∷◌}
use dogqoder.Json.{Json, Object, from_fields}
use dogqoder.Result.{ok, err, config_error}
use dogqoder.Config.{PermissionMode, EffectiveConfig, Paths, default_policy}
use dogqoder.Config.Loading.{parse_user_config, load_config}
use dogqoder.Config.Narrowing.{IsNarrower, load_config-IsNarrower}

abbrev paths : Paths
paths = record { expanduser = λ s. some s; is_absolute = λ _. true }

abbrev user_document : Object
user_document =
    ("policy", Json.obj (from_fields (("auditor_web_access", Json.bool true) ∷ []))) ∷ []

abbrev project_document : Object
project_document =
    ("policy", Json.obj (from_fields (("coder_permission_mode", Json.str "default") ∷ []))) ∷ []

abbrev narrowed : EffectiveConfig
narrowed = record {
  runtime_path = none;
  service_account_env = none;
  reuse_qodercli_auth = Bool.false;
  allow_project_expansion = Bool.false;
  policy = record default_policy { coder_permission_mode = PermissionMode.default };
}

loads_narrowed : load_config paths (ok user_document) (ok project_document) ≡ ok narrowed
unfolding load_config
loads_narrowed = refl

-- A project may not allow the coder to run by itself.
refuses_expansion :
    load_config paths
      (ok [])
      (ok (("policy", Json.obj (from_fields (("proactive_coder", Json.bool true) ∷ []))) ∷ []))
    ≡ err (
        config_error
          "Project configuration expands policy field 'proactive_coder'; user configuration must set project.allow_expansion = true.")
unfolding load_config
refuses_expansion = refl

load_config-IsNarrower_example :
    (document : Object) × (own : EffectiveConfig) × (ok user_document ≡ ok document)
    × (parse_user_config paths document ≡ ok own)
    × (narrowed ≡ record own { policy = narrowed.policy })
    × ((own.allow_project_expansion ≡ true) ⊎ IsNarrower narrowed.policy own.policy)
load_config-IsNarrower_example =
    load_config-IsNarrower paths (ok user_document) (ok project_document) narrowed loads_narrowed
