-- ===== src/Events/Validation.antt =====
-- What `_validated_payload` of store.py guarantees of the payload that it returns.
use mathlib.Core.Path.{subst}
use dogqoder.Prelude.{
  ◌≡◌, refl, sym, true, some, String, List, [], ◌∷◌, ◌++◌, ◌==◌, arith, lookup, keys, contains,
  subset, Option-cases, Bool-cases, inl, inr, if◌then◌else◌,
}
use dogqoder.Json.{Object}
use dogqoder.Patterns.{Host}
use dogqoder.Payload.{Validator}
use dogqoder.Result.{Error, ok, err, >>=-eq-ok, require-eq-ok}
use dogqoder.Events.{
  EventSchema, event_schemas, copy_json_object, is_version, without, is_empty, passes, check_fields,
  approval_request_shape, check_payload, validated_payload,
}

abbrev pub AllPass : Object → List (String × Validator) → Type 0
AllPass payload [] = Unit
AllPass payload ((name, validator) ∷ rest) =
    (passes validator (lookup name payload) ≡ true) × AllPass payload rest

-- The contract of a persisted payload.
pub record MeetsSchema (s : EventSchema) (event_type : String) (payload : Object) : Type 0 where
  pub versioned : is_version (lookup "schema_version" payload) ≡ true
  pub no_other_key :
      subset (keys payload) ("schema_version" ∷ (keys s.required ++ keys s.optional)) ≡ true
  pub none_missing : subset (keys s.required) (keys payload) ≡ true
  pub values_pass : AllPass payload (s.required ++ s.optional)
  pub shape : (event_type == "approval.requested") ≡ true → approval_request_shape payload ≡ ok tt

subset-of-without : (xs ys : List String) → is_empty (without ys xs) ≡ true → subset xs ys ≡ true
subset-of-without [] ys h = refl
subset-of-without (x ∷ xs) ys h = elim (Bool-cases (contains ys x)) [
  | inl e ↦ rw e (subset-of-without xs ys (rw e at h))
  | inr e ↦ absurd (ground arith)
]

check_fields-AllPass :
    (payload : Object) (vs : List (String × Validator))
    → check_fields payload vs ≡ ok tt
    → AllPass payload vs
unfolding check_fields
check_fields-AllPass payload [] h = tt
check_fields-AllPass payload ((name, validator) ∷ rest) h =
    elim (Bool-cases (passes validator (lookup name payload))) [
      | inl e ↦ (e, check_fields-AllPass payload rest (rw e at h))
      | inr e ↦ absurd (ground arith)
    ]

check_payload_inv :
    (event_type : String) (s : EventSchema) (copied r : Object)
    → check_payload event_type s copied ≡ ok r
    → MeetsSchema s event_type copied × (r ≡ copied)
unfolding check_payload
check_payload_inv event_type s copied r h =
    let allowed = "schema_version" ∷ (keys s.required ++ keys s.optional) in
    let (version, h1) = require-eq-ok (is_version (lookup "schema_version" copied)) _ _ h in
    let (known, h2) = require-eq-ok (is_empty (without allowed (keys copied))) _ _ h1 in
    let (complete, h3) =
      require-eq-ok (is_empty (without (keys copied) (keys s.required))) _ _ h2 in
    let (u, checked, h4) = >>=-eq-ok (check_fields copied (s.required ++ s.optional)) _ h3 in
    let (u', shaped, h5) =
      >>=-eq-ok
        (if event_type == "approval.requested" then approval_request_shape copied else ok tt) _
        h4 in
    (
      record {
        versioned = version;
        no_other_key = subset-of-without (keys copied) allowed known;
        none_missing = subset-of-without (keys s.required) (keys copied) complete;
        values_pass = check_fields-AllPass copied (s.required ++ s.optional) checked;
        shape = λ asks. rw asks at shaped;
      },
      ground arith,
    )

err-ne-ok {ℓ} : {P : Type ℓ} {x : Error} {r : Object} → err x ≡ ok r → P
err-ne-ok h = cc

-- A payload is accepted only as its sorted copy, under a known event type, with every required key,
-- no key that the schema does not name, every value passed by its validator, and, for an approval
-- request, the shape of its kind.
pub validated_payload-MeetsSchema :
    (host : Host) (event_type : String) (payload r : Object)
    → validated_payload host event_type payload ≡ ok r
    → (s : EventSchema) × (lookup event_type (event_schemas host) ≡ some s)
      × MeetsSchema s event_type r
      × (r ≡ copy_json_object payload)
unfolding validated_payload
validated_payload-MeetsSchema host event_type payload r h =
    elim (Option-cases (lookup event_type (event_schemas host))) [
      | inl unknown ↦ err-ne-ok (rw (unknown, validated_payload) at h)
      | inr (s, known) ↦
          let (meets, same) =
            check_payload_inv event_type s (copy_json_object payload) r
              (rw (known, validated_payload) at h) in
          (s, known, subst (MeetsSchema s event_type) (sym same) meets, same)
    ]
