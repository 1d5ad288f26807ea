-- ===== src/Result.antt =====
-- The errors that the store and the configuration raise, and the results of functions that may raise.
use mathlib.Core.Path.{◌≡◌, refl}
use dogqoder.Prelude.{String, Bool, true, false, List}

pub data Error : Type 0 where
  unsupported_type : String → Error
  schema_version : Error
  unexpected_field : List String → Error
  missing_field : List String → Error
  invalid_field : String → Error
  display_shape : String → Error
  use_create_worker : Error
  use_start_attempt : Error
  unsafe_creation_field : String → Error
  unsafe_result_field : String → Error
  unknown_worker : String → Error
  invalid_transition : Error
  attempt_changed : Error
  integrity : String → Error
  invalid_value : String → Error
  assertion : String → Error
  config_error : String → Error
  runtime_error : String → Error

-- A call of a Python function: it raised, or it returned a value.
pub data Result {ℓ} (V : Type ℓ) : Type ℓ where
  err : Error → Result V
  ok : V → Result V

module _ {ℓ κ} {A : Type ℓ} {B : Type κ} where
  infixl 5 ◌>>=◌
  -- An exception passes through.
  abbrev pub ◌>>=◌ : Result A → (A → Result B) → Result B
  err raised >>= k = err raised
  ok v >>= k = k v

  pub >>=-eq-ok :
      (m : Result A) (k : A → Result B) {r : B}
      → (m >>= k) ≡ ok r
      → (v : A) × (m ≡ ok v) × (k v ≡ ok r)
  >>=-eq-ok (err raised) k returned = cc
  >>=-eq-ok (ok v) k returned = (v, refl, returned)

-- `if not test: raise`
abbrev pub require : Bool → Error → Result (Unit {0})
require false raised = err raised
require true raised = ok tt

infixl 5 ◌>>◌
abbrev pub ◌>>◌ {ℓ} : {B : Type ℓ} → Result (Unit {0}) → Result B → Result B
checked >> k = checked >>= λ _. k

pub require-eq-ok {ℓ} :
    (test : Bool) (raised : Error) {B : Type ℓ} (k : Result B) {r : B}
    → (require test raised >> k) ≡ ok r
    → (test ≡ true) × (k ≡ ok r)
require-eq-ok false raised k returned = cc
require-eq-ok true raised k returned = (refl, returned)
