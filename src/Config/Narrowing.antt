-- ===== src/Config/Narrowing.antt =====
-- What a project's overlay can change in the configuration of src/qworker/config.py.
use mathlib.Core.Path.{subst}
use dogqoder.Prelude.{
  ◌≤◌, ◌≡◌, ◌⊎◌, refl, true, Option, none, some, String, List, [], ◌∷◌, arith, eq_iff, contains,
  subset, keys, Bool-cases, inl, inr,
}
use dogqoder.Json.{Object}
use dogqoder.Result.{Result, ok, >>=-eq-ok, require-eq-ok}
use dogqoder.Config.{
  PolicyConfig, EffectiveConfig, Paths, permission_rank, policy_fields, table, apply_policy,
}
use dogqoder.Config.Loading.{
  expanded_policy_field, unless_expanded, apply_project_policy, parse_user_config, overlay,
  load_config,
}

-- No field of the candidate allows more than that of the current policy.
pub record IsNarrower (candidate current : PolicyConfig) : Type 0 where
  pub auditor : candidate.proactive_auditor ≡ true → current.proactive_auditor ≡ true
  pub coder : candidate.proactive_coder ≡ true → current.proactive_coder ≡ true
  pub web : candidate.auditor_web_access ≡ true → current.auditor_web_access ≡ true
  pub mode :
      permission_rank candidate.coder_permission_mode
      ≤ permission_rank current.coder_permission_mode
  pub denied :
      (tool : String)
      → contains current.coder_denied_tools tool ≡ true
      → contains candidate.coder_denied_tools tool ≡ true

contains-subset :
    (xs ys : List String) (x : String)
    → subset xs ys ≡ true
    → contains xs x ≡ true
    → contains ys x ≡ true
contains-subset [] ys x h k = cc
contains-subset (z ∷ zs) ys x h k = ground (arith, eq_iff z x, contains-subset zs ys x)

expanded-IsNarrower :
    (current candidate : PolicyConfig)
    → expanded_policy_field current candidate ≡ none
    → IsNarrower candidate current
unfolding expanded_policy_field
expanded-IsNarrower current candidate h = record {
  auditor = λ k. ground arith;
  coder = λ k. ground arith;
  web = λ k. ground arith;
  mode = ground arith;
  denied = λ tool.
      contains-subset current.coder_denied_tools candidate.coder_denied_tools tool (ground arith);
}

-- Whether an expansion is allowed or there is none.
Kept : EffectiveConfig → PolicyConfig → Type 0
Kept config candidate = (config.allow_project_expansion ≡ true) ⊎ IsNarrower candidate config.policy

apply_project_policy-Kept :
    (config : EffectiveConfig) (values : Object) (p : PolicyConfig)
    → apply_project_policy config values ≡ ok p
    → Kept config p
unfolding apply_project_policy Kept
apply_project_policy-Kept config values p h =
    let (candidate, applied, h1) = >>=-eq-ok (apply_policy config.policy values) _ h in
    elim (Bool-cases config.allow_project_expansion) [
      | inl allowed ↦ inl allowed
      | inr closed ↦
          inr (
            checked candidate (expanded_policy_field config.policy candidate) refl
              (rw closed at h1))
    ]
  where
    checked :
        (candidate : PolicyConfig) (field : Option String)
        → expanded_policy_field config.policy candidate ≡ field
        → unless_expanded candidate field ≡ ok p
        → IsNarrower p config.policy
    checked candidate none e k =
        let same : candidate ≡ p = cc in
        subst (λ q. IsNarrower q config.policy) same (expanded-IsNarrower config.policy candidate e)
    checked candidate (some field) e k = cc

IsNarrower-refl : (p : PolicyConfig) → IsNarrower p p
IsNarrower-refl p = record {
  auditor = λ k. k;
  coder = λ k. k;
  web = λ k. k;
  mode = omega arith;
  denied = λ tool k. k;
}

overlay_inv :
    (config : EffectiveConfig) (document : Object) (c : EffectiveConfig)
    → overlay config document ≡ ok c
    → (p : PolicyConfig) × (c ≡ record config { policy = p }) × Kept config p
unfolding overlay Kept
overlay_inv config [] c h = (config.policy, cc, inr (IsNarrower-refl config.policy))
overlay_inv config (f ∷ fs) c h =
    let (only, h1) = require-eq-ok (subset (keys (f ∷ fs)) ("policy" ∷ [])) _ _ h in
    let (values, found, h2) = >>=-eq-ok (table (f ∷ fs) "policy" "Project") _ h1 in
    let (known, h3) = require-eq-ok (subset (keys values) policy_fields) _ _ h2 in
    let (p, applied, h4) = >>=-eq-ok (apply_project_policy config values) _ h3 in
    (p, cc, apply_project_policy-Kept config values p applied)

-- A configuration that loads is the user's own but for its policy, and the policy allows nothing that
-- the user's does not, unless the user's document allows projects to expand it.
pub load_config-IsNarrower :
    (paths : Paths) (user project : Result Object) (c : EffectiveConfig)
    → load_config paths user project ≡ ok c
    → (document : Object) × (own : EffectiveConfig) × (user ≡ ok document)
      × (parse_user_config paths document ≡ ok own)
      × (c ≡ record own { policy = c.policy })
      × ((own.allow_project_expansion ≡ true) ⊎ IsNarrower c.policy own.policy)
unfolding load_config Kept
load_config-IsNarrower paths user project c h =
    let (document, given, h1) = >>=-eq-ok user _ h in
    let (own, parsed, h2) = >>=-eq-ok (parse_user_config paths document) _ h1 in
    let (overlaid, given', h3) = >>=-eq-ok project _ h2 in
    let (p, same, kept) = overlay_inv own overlaid c h3 in
    (document, own, given, parsed, rw same refl, rw same kept)
