-- ===== src/ModelPolicy/Preference.antt =====
-- A request of model_policy.py is resolved to its first enabled candidate, and refused only where
-- it has none.
use mathlib.Core.Path.{subst, fun_ext}
use dogqoder.Prelude.{
  ℕ, suc, String, ◌≡◌, refl, ◌⊎◌, inl, inr, Bool, true, false, Option, none, some, List, [], ◌∷◌,
  ◌==◌, ◌&&◌, arith, contains, lookup, ltb, any, if◌then◌else◌, Bool-cases,
}
use dogqoder.ModelPolicy.{
  AvailableModel, Resolved, model, unavailable, model_aliases, enabled_models, resolve_candidates,
  resolve_alias, resolve_model,
}

-- The candidates of a request, in order: those of its alias, or itself.
abbrev pub candidates : Option (List String) → String → List String
candidates none requested = requested ∷ []
candidates (some names) requested = names

-- The catalog has an enabled entry of that name.
abbrev pub offers : List AvailableModel → String → Bool
offers catalog x = any (λ m. m.enabled && (m.value == x)) catalog

contains-enabled_models :
    (catalog : List AvailableModel) (x : String)
    → contains (enabled_models catalog) x ≡ offers catalog x
unfolding enabled_models
contains-enabled_models [] x = refl
contains-enabled_models (m ∷ rest) x = ground (arith, contains-enabled_models rest x)

-- `x` is the first of the names that passes the test.
abbrev pub IsFirst : (String → Bool) → String → List String → Type 0
IsFirst ok x [] = ⊥
IsFirst ok x (c ∷ cs) = ((x ≡ c) × (ok c ≡ true)) ⊎ ((ok c ≡ false) × IsFirst ok x cs)

abbrev pub NonePasses : (String → Bool) → List String → Type 0
NonePasses ok [] = Unit
NonePasses ok (c ∷ cs) = (ok c ≡ false) × NonePasses ok cs

abbrev pub head_passes : (String → Bool) → List String → Bool
head_passes ok [] = false
head_passes ok (c ∷ cs) = ok c

-- What the result of a resolution says; `late` tells whether candidates were passed over before.
abbrev pub Says : (String → Bool) → String → List String → Bool → Resolved → Type 0
Says ok requested names late (model r) =
    (r.requested ≡ requested)
    × IsFirst ok r.resolved names
    × (r.used_fallback ≡ (if head_passes ok names then late else true))
Says ok requested names late (unavailable m) = NonePasses ok names

Says-cons :
    (ok : String → Bool) (requested c : String) (cs : List String) (late : Bool) (r : Resolved)
    → ok c ≡ false
    → Says ok requested cs true r
    → Says ok requested (c ∷ cs) late r
Says-cons ok requested c cs late (model r) e h = (h.0, inr (e, h.1), rw e (ground arith))
Says-cons ok requested c cs late (unavailable m) e h = (e, h)

positive : (n : ℕ) → ltb 0 (suc n) ≡ true
positive n = ground arith

resolve_candidates-Says :
    (requested : String) (enabled : List String) (index : ℕ) (names : List String)
    → Says
        (contains enabled)
        requested
        names
        (ltb 0 index)
        (resolve_candidates requested enabled index names)
unfolding resolve_candidates
resolve_candidates-Says requested enabled index [] = tt
resolve_candidates-Says requested enabled index (c ∷ cs) = elim (Bool-cases (contains enabled c)) [
  | inl e ↦ rw e (refl, inl (refl, e), rw e)
  | inr e ↦ rw e (
      Says-cons (contains enabled) requested c cs (ltb 0 index)
        (resolve_candidates requested enabled (suc index) cs) e
        (subst
          (λ late.
            Says (contains enabled) requested cs late
              (resolve_candidates requested enabled (suc index) cs))
          (positive index) (resolve_candidates-Says requested enabled (suc index) cs)))
]

resolve_alias-Says :
    (requested : String) (enabled : List String) (names : Option (List String))
    → Says
        (contains enabled)
        requested
        (candidates names requested)
        false
        (resolve_alias requested enabled names)
unfolding resolve_alias
resolve_alias-Says requested enabled none = elim (Bool-cases (contains enabled requested)) [
  | inl e ↦ rw e (refl, inl (refl, e), rw e)
  | inr e ↦ rw e (e, tt)
]
resolve_alias-Says requested enabled (some names) =
    resolve_candidates-Says requested enabled 0 names

-- A request for an alias or a model is resolved to the first of its candidates that an enabled
-- entry of the catalog offers, and marked as a fallback exactly when an earlier candidate was
-- passed over; it is refused only if the catalog offers none of them.
pub resolve_model-Says :
    (requested : String) (catalog : List AvailableModel)
    → Says
        (offers catalog)
        requested
        (candidates (lookup requested model_aliases) requested)
        false
        (resolve_model requested catalog)
unfolding resolve_model
resolve_model-Says requested catalog =
    subst
      (λ ok.
        Says ok requested (candidates (lookup requested model_aliases) requested) false
          (resolve_model requested catalog))
      (fun_ext (contains-enabled_models catalog))
      (resolve_alias-Says requested (enabled_models catalog) (lookup requested model_aliases))
