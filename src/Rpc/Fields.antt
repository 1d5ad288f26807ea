-- ===== src/Rpc/Fields.antt =====
-- The field readers of src/qworker/rpc.py, and what they raise.
use Prim.Native.String.{String, ◌++◌}
use dogqoder.Prelude.{
  ◌≡◌, ◌⊎◌, inl, inr, refl, ℕ, Bool, true, false, not, ◌||◌, Option, none, some, List, [], ◌∷◌,
  ◌==◌, keep, has, keys, lookup, contains, if◌then◌else◌,
}
use dogqoder.Config.{sorted_set}
use dogqoder.Json.{ℤ, Json, Object, bool, int, arr, obj, items, fields, as_str, strings}

-- A reader returns, or it raises a `TypeError` or a `ValueError` with its message.
pub data Parsed {ℓ} (A : Type ℓ) : Type ℓ where
  rejected : String → Parsed A
  parsed : A → Parsed A

infixl 5 ◌>>=◌ ◌>>◌
abbrev pub ◌>>=◌ {ℓ κ} : {A : Type ℓ} {B : Type κ} → Parsed A → (A → Parsed B) → Parsed B
rejected message >>= f = rejected message
parsed a >>= f = f a

abbrev pub ◌>>◌ {ℓ} : {B : Type ℓ} → Parsed (Unit {0}) → Parsed B → Parsed B
m >> k = m >>= λ _. k

pub >>=-eq-parsed {ℓ κ} :
    {A : Type ℓ} {B : Type κ} (m : Parsed A) (f : A → Parsed B) {b : B}
    → (m >>= f) ≡ parsed b
    → (a : A) × (m ≡ parsed a) × (f a ≡ parsed b)
>>=-eq-parsed (rejected message) f h = cc
>>=-eq-parsed (parsed a) f h = (a, refl, h)

pub Parsed-cases {ℓ} :
    {A : Type ℓ} (p : Parsed A)
    → ((message : String) × (p ≡ rejected message)) ⊎ ((a : A) × (p ≡ parsed a))
Parsed-cases (rejected message) = inl (message, refl)
Parsed-cases (parsed a) = inr (a, refl)

pub parsed-injective {ℓ} : {A : Type ℓ} {a b : A} → parsed a ≡ parsed b → a ≡ b
parsed-injective h = cc

-- `if not test: raise ValueError(message)`
abbrev pub require : Bool → String → Parsed (Unit {0})
require true message = parsed tt
require false message = rejected message

abbrev pub or_reject {ℓ} : {A : Type ℓ} → String → Option A → Parsed A
or_reject message none = rejected message
or_reject message (some a) = parsed a

-- `", ".join(names)`
abbrev pub comma_separated : List String → String
comma_separated [] = ""
comma_separated (s ∷ []) = s
comma_separated (s ∷ t ∷ ss) = s ++ ", " ++ comma_separated (t ∷ ss)

abbrev pub refuse_names : String → List String → Parsed (Unit {0})
refuse_names what [] = parsed tt
refuse_names what (s ∷ ss) = rejected (what ++ " field: " ++ comma_separated (s ∷ ss))

-- `set(required).difference(value)`, sorted.
abbrev pub missing : List String → Object → List String
unfolding sorted_set
missing required value = sorted_set (keep (λ k. not (has k value)) required)

-- `set(value).difference((*required, *optional))`, sorted.
abbrev pub unexpected : List String → List String → Object → List String
unfolding sorted_set
unexpected required optional value =
    sorted_set (keep (λ k. not (contains required k || contains optional k)) (keys value))

-- `_validate_fields`
unfoldable pub validate_fields : List String → List String → Object → Parsed (Unit {0})
validate_fields required optional value =
    refuse_names "Missing" (missing required value)
    >> refuse_names "Unexpected" (unexpected required optional value)

abbrev pub non_empty : Option String → Option String
non_empty none = none
non_empty (some s) = if s == "" then none else some s

abbrev pub text_of : Option Json → Option String
text_of none = none
text_of (some v) = as_str v

-- `_string`; a key that is not there is a `KeyError` that no caller of it meets.
unfoldable pub string : String → Object → Parsed String
string key value =
    or_reject (key ++ " must be a non-empty string.") (non_empty (text_of (lookup key value)))

-- `_optional_string`
unfoldable pub optional_string : String → String → Object → Parsed String
unfolding string
optional_string key default value = if has key value then string key value else parsed default

-- `_string(params, key) if key in params else None`
unfoldable pub string_or_none : String → Object → Parsed (Option String)
unfolding string
string_or_none key value =
    if has key value then string key value >>= (λ s. parsed (some s)) else parsed none

abbrev pub texts_of : Json → Option (List String)
texts_of (arr xs) = strings (items xs)
texts_of _ = none

-- `_string_tuple`
unfoldable pub string_tuple : String → Object → Parsed (List String)
string_tuple key value = elim (lookup key value) [
  | none ↦ parsed []
  | some v ↦ or_reject (key ++ " must be an array of strings.") (texts_of v)
]

abbrev pub natural_of : Json → Option ℕ
natural_of (int (ℤ.pos n)) = some n
natural_of _ = none

-- `_non_negative_integer`
unfoldable pub non_negative_integer : String → ℕ → Object → Parsed ℕ
non_negative_integer key default value = elim (lookup key value) [
  | none ↦ parsed default
  | some v ↦ or_reject (key ++ " must be a non-negative integer.") (natural_of v)
]

abbrev pub bool_of : Json → Option Bool
bool_of (bool b) = some b
bool_of _ = none

-- `_boolean`
unfoldable pub boolean : String → Bool → Object → Parsed Bool
boolean key default value = elim (lookup key value) [
  | none ↦ parsed default
  | some v ↦ or_reject (key ++ " must be a boolean.") (bool_of v)
]

abbrev pub object_of : Json → Option Object
object_of (obj fs) = some (fields fs)
object_of _ = none
