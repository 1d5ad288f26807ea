-- ===== src/Patterns.antt =====
-- The regular expressions of src/qworker/store.py, and the tests on metadata that go by them.
-- What the process takes from its surroundings is a `Host`.
use dogqoder.Prelude.{
  ℕ, Bool, false, not, Option, none, some, String, List, [], ◌∷◌, ◌&&◌, ◌||◌, nat_eq,
}
use dogqoder.Chars.{codes, is_space, is_alnum, is_upper, is_digit, fold, mem}
use dogqoder.Regex.{
  Regex, empty, set, seq, alt, repeat, start, boundary, not_after, not_before, fullmatch, found,
}
use dogqoder.Json.{Json}

-- The environment variables, and the interpreter's tables of decimal digits and word characters.
pub record Host : Type 0 where
  pub environ : String → Option String
  pub is_decimal : ℕ → Bool
  pub is_word : ℕ → Bool

-- `_CREDENTIAL_ENV_VARS`
abbrev pub credential_env_vars : List String
credential_env_vars =
    "QODER_PERSONAL_ACCESS_TOKEN" ∷ "QODER_SERVICE_ACCOUNT_KEY" ∷ "QODERCN_PERSONAL_ACCESS_TOKEN"
    ∷ "QODERCN_SERVICE_ACCOUNT_KEY" ∷ []

abbrev pub among : String → ℕ → Bool
among s c = mem c (codes s)

abbrev pub literal : List ℕ → Regex
literal [] = empty
literal (d ∷ ds) = seq (set (λ c. nat_eq c d)) (literal ds)

-- A text in lower case, read without regard to case.
abbrev pub folded : List ℕ → Regex
folded [] = empty
folded (d ∷ ds) = seq (set (λ c. nat_eq (fold c) d)) (folded ds)

abbrev pub text : String → Regex
text s = folded (codes s)

abbrev pub maybe : Regex → Regex
maybe r = repeat 0 (some 1) r

abbrev pub one_of : Regex → List Regex → Regex
one_of r [] = r
one_of r (t ∷ ts) = alt r (one_of t ts)

abbrev pub class : (ℕ → Bool) → String → ℕ → Bool
class p s c = p c || among s c

abbrev pub alnum_ci : ℕ → Bool
alnum_ci c = is_alnum (fold c)

-- `_METADATA`, up to its end.
unfoldable pub metadata : Regex
metadata = seq (set is_alnum) (repeat 0 (some 127) (set (class is_alnum "._:-")))

-- `_VERSION`
unfoldable pub version : Host → Regex
version host = seq (maybe (text "v")) (
    seq (repeat 1 none (set host.is_decimal)) (
      seq (repeat 1 (some 3) (seq (literal (codes ".")) (repeat 1 none (set host.is_decimal))))
        (maybe (seq (set (among "-+")) (repeat 1 (some 64) (set (class alnum_ci "._-")))))))

-- `_CREDENTIAL_KEY_PATTERN`
unfoldable pub credential_key : Regex
credential_key = one_of (seq (text "api") (seq (maybe (set (among "_ -"))) (text "key"))) (
    text "token"
    ∷ text "secret"
    ∷ text "credential"
    ∷ text "password"
    ∷ text "authorization"
    ∷ seq (text "private") (seq (maybe (set (among "_ -"))) (text "key"))
    ∷ seq (text "service") (
        seq (maybe (set (among "_ -")))
          (seq (text "account") (seq (maybe (set (among "_ -"))) (text "key"))))
    ∷ [])

-- `_CREDENTIAL_MARKER`
unfoldable pub credential_marker : Regex
unfolding credential_key
credential_marker = one_of (seq start (seq (text "sk") (set (among "-_")))) (
    seq start (seq (text "pk") (set (among "-_")))
    ∷ seq start (seq (text "bearer") (set (among "._ -")))
    ∷ credential_key
    ∷ [])

abbrev jwt_part : Regex
jwt_part = repeat 1 none (set (class is_alnum "_-"))

-- `_JWT`
unfoldable pub jwt : Regex
jwt = seq jwt_part (seq (literal (codes ".")) (seq jwt_part (seq (literal (codes ".")) jwt_part)))

-- `_AWS_ACCESS_KEY`
unfoldable pub aws_access_key : Regex
aws_access_key =
    seq (literal (codes "AKIA")) (repeat 16 (some 16) (set (λ c. is_upper c || is_digit c)))

abbrev inline_part : Regex
inline_part = repeat 4 none (set (class alnum_ci "_-"))

-- `_INLINE_CREDENTIAL`
unfoldable pub inline_credential : Regex
inline_credential = seq (not_after alnum_ci) (
    seq
      (one_of
        (seq (alt (text "sk") (text "pk")) (
          seq (set (among "-_")) (seq (set alnum_ci) (repeat 2 none (set (class alnum_ci "._-"))))))
        (seq (text "bearer") (
            seq (repeat 1 none (set (among " ._-")))
              (repeat 4 none (set (class alnum_ci "._~+/=-"))))
          ∷ seq (text "akia") (repeat 16 (some 16) (set alnum_ci))
          ∷ seq inline_part
              (seq (literal (codes ".")) (seq inline_part (seq (literal (codes ".")) inline_part)))
          ∷ []))
      (not_before alnum_ci))

-- `_KEYED_CREDENTIAL`
unfoldable pub keyed_credential : Host → Regex
keyed_credential host = seq (boundary host.is_word) (
    seq
      (one_of (seq (text "api") (seq (maybe (set (among "_ -"))) (text "key"))) (
        seq (text "access") (seq (maybe (set (among "_ -"))) (text "token"))
        ∷ text "token"
        ∷ text "secret"
        ∷ text "credential"
        ∷ text "password"
        ∷ text "authorization"
        ∷ []))
      (seq (boundary host.is_word) (
        seq
          (alt
            (seq (repeat 0 none (set is_space))
              (seq (set (among ":=")) (repeat 0 none (set is_space))))
            (repeat 1 none (set is_space)))
          (repeat 1 none (set (λ c. not (is_space c || among ",;" c)))))))

-- `_contains_sensitive_marker`
unfoldable pub contains_sensitive_marker : List ℕ → Bool
unfolding credential_marker jwt aws_access_key
contains_sensitive_marker s =
    found credential_marker s || fullmatch jwt s || fullmatch aws_access_key s

-- `is_safe_metadata` of a string.
unfoldable pub safe_metadata : List ℕ → Bool
unfolding metadata contains_sensitive_marker
safe_metadata s = fullmatch metadata s && not (contains_sensitive_marker s)

-- `is_safe_metadata`
unfoldable pub is_safe_metadata : Json → Bool
unfolding safe_metadata
is_safe_metadata (Json.str s) = safe_metadata (codes s)
is_safe_metadata _ = false
