-- ===== src/Payload.antt =====
-- The event contract of src/qworker/store.py: the validators, the schemas and the validation of a
-- payload. A payload is the list of its items.
use Prim.Native.String.{◌++◌ as str_append}
use dogqoder.Prelude.{
  ℕ, ◌-◌, Bool, true, false, not, Option, none, some, String, List, [], ◌∷◌, ◌++◌, ◌&&◌, ◌||◌, ◌==◌,
  nat_eq, leb, ltb, any, all, length, take, contains, if◌then◌else◌,
}
use dogqoder.Chars.{codes, mem}
use dogqoder.Regex.{Cursor, matches, fullmatch, found}
use dogqoder.Json.{Json, ℤ, items, strings}
use dogqoder.Patterns.{
  Host, credential_env_vars, metadata, version, credential_marker, inline_credential,
  keyed_credential, contains_sensitive_marker, safe_metadata, is_safe_metadata, literal,
}

abbrev pub Validator : Type 0
Validator = Json → Bool

-- `_positive_integer`
unfoldable pub positive_integer : Validator
positive_integer (Json.int (ℤ.pos n)) = ltb 0 n
positive_integer _ = false

-- `_non_negative_integer`
unfoldable pub non_negative_integer : Validator
non_negative_integer (Json.int (ℤ.pos n)) = true
non_negative_integer _ = false

-- `_boolean`
unfoldable pub boolean : Validator
boolean (Json.bool b) = true
boolean _ = false

abbrev pub starts : List ℕ → List ℕ → Bool
starts [] s = true
starts (d ∷ p) [] = false
starts (d ∷ p) (c ∷ s) = nat_eq c d && starts p s

-- `part in s`
unfoldable pub occurs : List ℕ → List ℕ → Bool
occurs part [] = starts part []
occurs part (c ∷ s) = starts part (c ∷ s) || occurs part s

-- `secret and secret in value`, for a variable that may be unset.
unfoldable pub leaks : List ℕ → Option String → Bool
unfolding occurs
leaks value none = false
leaks value (some secret) = not (nat_eq (length (codes secret)) 0) && occurs (codes secret) value

-- `_safe_display_text` of a string.
unfoldable pub safe_display : Host → List ℕ → Bool
unfolding leaks
safe_display host value =
    not (nat_eq (length value) 0)
    && leb (length value) 256
    && not (mem 0 value)
    && not (mem 10 value)
    && not (mem 13 value)
    && not (found inline_credential value)
    && not (found (keyed_credential host) value)
    && all (λ name. not (leaks value (host.environ name))) credential_env_vars

-- `_safe_display_text`
unfoldable pub safe_display_text : Host → Validator
unfolding safe_display
safe_display_text host (Json.str s) = safe_display host (codes s)
safe_display_text host _ = false

abbrev pub texts_eq : List String → List String → Bool
texts_eq [] [] = true
texts_eq (s ∷ ss) (t ∷ ts) = (s == t) && texts_eq ss ts
texts_eq _ _ = false

-- `value == [texts]`
unfoldable pub is_texts : List String → Validator
is_texts ts (Json.arr xs) = elim (strings (items xs)) [ none ↦ false | some ss ↦ texts_eq ss ts ]
is_texts ts _ = false

-- `_approval_choices`
unfoldable pub approval_choices : Validator
unfolding is_texts
approval_choices value =
    is_texts ("allow" ∷ "deny" ∷ []) value || is_texts ("accept" ∷ "decline" ∷ "cancel" ∷ []) value

abbrev pub display_types : List String
display_types =
    "array" ∷ "boolean" ∷ "integer" ∷ "null" ∷ "number" ∷ "object" ∷ "string" ∷ "value" ∷ []

-- A cursor behind the name stands before `:` and one of the types, at the text's end.
abbrev pub typed : Cursor → Bool
typed at = any (λ t. fullmatch (literal (codes (str_append ":" t))) at.rest) display_types

abbrev pub first_typed : List Cursor → Option Cursor
first_typed [] = none
first_typed (at ∷ rest) = let later = first_typed rest in if typed at then some at else later

-- One round of `_display_fields`: the `fullmatch` and the test of the name that it captures.
unfoldable pub display_field : List ℕ → Bool
display_field s = elim (first_typed (matches metadata (record { before = none; rest = s }))) [
  | none ↦ false
  | some at ↦ safe_metadata (take (length s - length at.rest) s)
]

abbrev pub display_field_item : Json → Bool
display_field_item (Json.str s) = display_field (codes s)
display_field_item _ = false

-- `_display_fields`
unfoldable pub display_fields : Validator
display_fields (Json.arr xs) =
    leb (length (items xs)) 32 && all (λ item. display_field_item item) (items xs)
display_fields _ = false

-- `_required_display_fields`
unfoldable pub required_display_fields : Validator
required_display_fields (Json.arr xs) =
    leb (length (items xs)) 32 && all is_safe_metadata (items xs)
required_display_fields _ = false

-- `_one_of`
unfoldable pub one_of : List String → Validator
one_of allowed (Json.str s) = contains allowed s
one_of allowed _ = false

-- `_safe_runtime_version`
unfoldable pub safe_runtime_version : Host → Validator
safe_runtime_version host (Json.str s) =
    fullmatch (version host) (codes s) && not (found credential_marker (codes s))
safe_runtime_version host _ = false

-- `value.split("/")`, with `part` read since the last slash.
unfoldable pub split_slash : List ℕ → List ℕ → List (List ℕ)
split_slash part [] = part ∷ []
split_slash part (c ∷ s) =
    let ends = part ∷ split_slash [] s in
    let goes_on = split_slash (part ++ c ∷ []) s in if nat_eq c b'/' then ends else goes_on

-- `_absolute_path` of a string.
unfoldable pub absolute : List ℕ → Bool
unfolding split_slash
absolute s =
    starts (b'/' ∷ []) s
    && leb (length s) 4096
    && not (mem 0 s)
    && not (mem 10 s)
    && not (mem 13 s)
    && all (λ part. nat_eq (length part) 0 || not (contains_sensitive_marker part))
        (split_slash [] s)

-- `_absolute_path`
unfoldable pub absolute_path : Validator
unfolding absolute
absolute_path (Json.str s) = absolute (codes s)
absolute_path _ = false

abbrev pub is_bundled : Json → Bool
is_bundled (Json.str s) = s == "bundled"
is_bundled _ = false

-- `_runtime_path`
unfoldable pub runtime_path : Validator
runtime_path value = is_bundled value || absolute_path value
