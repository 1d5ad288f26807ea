-- ===== src/ModelPolicy.antt =====
-- src/qworker/model_policy.py: resolution of a requested model against the catalog of models.
pub mod Preference
use dogqoder.Prelude.{
  ℕ, suc, String, Bool, true, false, Option, none, some, List, [], ◌∷◌, map, ◌==◌, contains, keep,
  lookup, ltb, if◌then◌else◌,
}
use Prim.Native.String.{◌++◌}

pub record AvailableModel : Type 0 where
  pub value : String
  pub enabled : Bool

pub record ModelResolution : Type 0 where
  pub requested : String
  pub resolved : String
  pub used_fallback : Bool

-- `unavailable` carries the message of the `ModelUnavailableError`.
pub data Resolved : Type 0 where
  model : ModelResolution → Resolved
  unavailable : String → Resolved

-- `MODEL_ALIASES`
abbrev pub model_aliases : List (String × List String)
model_aliases =
    ("qwen-auditor", "Qwen3.8-Max" ∷ "Qwen3.7-Max" ∷ "Auto" ∷ [])
    ∷ ("qwen-coder", "Qwen3.8-Max" ∷ "Qwen3.7-Max" ∷ "Auto" ∷ [])
    ∷ []

-- `{model.value for model in catalog if model.enabled}`
unfoldable pub enabled_models : List AvailableModel → List String
enabled_models catalog = map (λ m. m.value) (keep (λ m. m.enabled) catalog)

-- The loop over `enumerate(candidates)`, from `index`; then the final raise.
unfoldable pub resolve_candidates : String → List String → ℕ → List String → Resolved
resolve_candidates requested enabled index [] =
    unavailable ("No enabled model is available for: " ++ requested)
resolve_candidates requested enabled index (candidate ∷ rest) =
    let later = resolve_candidates requested enabled (suc index) rest in
    if contains enabled candidate
    then model (record { requested = requested; resolved = candidate; used_fallback = ltb 0 index })
    else later

-- The branch on `MODEL_ALIASES.get(requested)`.
unfoldable pub resolve_alias : String → List String → Option (List String) → Resolved
unfolding resolve_candidates
resolve_alias requested enabled none =
    if contains enabled requested
    then model (record { requested = requested; resolved = requested; used_fallback = false })
    else unavailable ("Model is unavailable: " ++ requested)
resolve_alias requested enabled (some candidates) =
    resolve_candidates requested enabled 0 candidates

unfoldable pub resolve_model : String → List AvailableModel → Resolved
unfolding enabled_models resolve_alias
resolve_model requested catalog =
    resolve_alias requested (enabled_models catalog) (lookup requested model_aliases)
