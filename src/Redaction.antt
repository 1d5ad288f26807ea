-- ===== src/Redaction.antt =====
-- `_safe_result_summary` of src/qworker/store.py with what it calls: a result summary is cut to a
-- budget of nodes and characters, and credentials in it are redacted.
pub mod Keys
pub mod Budget
pub mod Summary
use Prim.Native.Char.{Char}
use Prim.Native.String.{String, count, char_at, ◌++◌}
use dogqoder.Prelude.{
  ℕ, zero, suc, ◌-◌, ◌*◌, ◌/◌, ◌%◌, Bool, true, false, Option, none, some, List, [], ◌∷◌, ◌&&◌,
  ◌||◌, ◌==◌, nat_eq, ltb, leb, contains, has, keys, length, if◌then◌else◌,
}
use dogqoder.Chars.{codes}
use dogqoder.Regex.{substitute, found}
use dogqoder.Json.{
  Json, Items, Fields, Object, null, bool, int, float, str, arr, obj, nil, item, end, field, fields,
}
use dogqoder.Patterns.{
  Host, credential_env_vars, literal, credential_key, contains_sensitive_marker, inline_credential,
  keyed_credential,
}

abbrev pub max_string_chars : ℕ
max_string_chars = 4096

abbrev pub max_key_chars : ℕ
max_key_chars = 256

abbrev pub max_collection_items : ℕ
max_collection_items = 128

abbrev pub max_depth : ℕ
max_depth = 6

abbrev pub max_nodes : ℕ
max_nodes = 2048

abbrev pub max_text_chars : ℕ
max_text_chars = 262144

-- `_ResultBudget`; `text_chars` never falls below zero, since no text is longer than what is left.
pub record ResultBudget : Type 0 where
  pub nodes : ℕ
  pub text_chars : ℕ

abbrev pub redacted : String
redacted = "[REDACTED]"

-- `text[:n]`
unfoldable pub cut : ℕ → String → String
cut zero s = ""
cut (suc n) String.[] = ""
cut (suc n) (String.◌∷◌ c s) = String.◌∷◌ c (cut n s)

-- `safe.replace(secret, "[REDACTED]")`, for a secret that is set and not empty.
abbrev pub replace_secret : Option String → String → String
replace_secret none s = s
replace_secret (some secret) s =
    let replaced = substitute (literal (codes secret)) redacted s in
    if secret == "" then s else replaced

abbrev pub replace_secrets : Host → List String → String → String
replace_secrets host [] s = s
replace_secrets host (variable ∷ rest) s =
    replace_secrets host rest (replace_secret (host.environ variable) s)

-- `_redact_result_text`
unfoldable pub redact_result_text : Host → String → String
redact_result_text host s =
    substitute (keyed_credential host) redacted
      (substitute inline_credential redacted (replace_secrets host credential_env_vars s))

-- `safe` within a limit.
abbrev pub shorten : ℕ → String → String
unfolding cut
shorten limit safe =
    if leb (count safe) limit
    then safe
    else cut (limit - 3) safe ++ (if leb 3 limit then "..." else "")

abbrev pub least : ℕ → ℕ → ℕ
least a b = if leb a b then a else b

-- `_safe_result_text`
unfoldable pub safe_result_text : Host → String → ResultBudget → Json × ResultBudget
unfolding redact_result_text shorten
safe_result_text host value budget =
    let text = shorten (least max_string_chars budget.text_chars) (redact_result_text host value) in
    (str text, record budget { text_chars = budget.text_chars - count text })

abbrev pub holds_secret : Option String → String → Bool
holds_secret none key = false
holds_secret (some secret) key =
    if secret == "" then false else found (literal (codes secret)) (codes key)

abbrev pub holds_any_secret : Host → List String → String → Bool
holds_any_secret host [] key = false
holds_any_secret host (variable ∷ rest) key =
    holds_secret (host.environ variable) key || holds_any_secret host rest key

-- `_credential_result_key`
unfoldable pub credential_result_key : Host → String → Bool
credential_result_key host key =
    found credential_key (codes key)
    || contains_sensitive_marker (codes key)
    || holds_any_secret host credential_env_vars key

-- `_safe_result_key`
unfoldable pub safe_result_key : Host → String → String
unfolding redact_result_text cut
safe_result_key host key = cut max_key_chars (redact_result_text host key)

-- The digit of a number below 10.
abbrev pub digit : ℕ → Char
digit n = char_at "0123456789" n

-- The decimal digits of `n`, before `rest`; `n + 1` rounds are enough.
unfoldable pub decimal : ℕ → ℕ → String → String
decimal zero n rest = rest
decimal (suc fuel) n rest =
    let longer = decimal fuel (n / 10) (String.◌∷◌ (digit (n % 10)) rest) in
    if ltb n 10 then String.◌∷◌ (digit n) rest else longer

-- `f"#{index}"`
unfoldable pub suffix : ℕ → String
unfolding decimal
suffix index = String.◌∷◌ "#" (decimal (suc index) index "")

-- `candidate[: _MAX_RESULT_KEY_CHARS - len(suffix)] + suffix`
unfoldable pub suffixed : String → ℕ → String
unfolding cut suffix
suffixed candidate index = cut (max_key_chars - count (suffix index)) candidate ++ suffix index

-- The loop of `_unique_result_key`.
unfoldable pub next_key : ℕ → ℕ → String → List String → String
unfolding suffixed
next_key zero index candidate existing = suffixed candidate index
next_key (suc fuel) index candidate existing =
    let later = next_key fuel (suc index) candidate existing in
    if contains existing (suffixed candidate index) then later else suffixed candidate index

-- `_unique_result_key`: among the first rounds, one for each key, one finds a free key.
unfoldable pub unique_result_key : String → List String → String
unfolding next_key
unique_result_key candidate existing =
    if contains existing candidate
    then next_key (length existing) 2 candidate existing
    else candidate

abbrev pub spend : ResultBudget → ResultBudget
spend budget = record budget { nodes = budget.nodes - 1 }

-- The guards of `_sanitize_result_value`, around what its branches give.
unfoldable pub visit : Host → ℕ → Bool → ResultBudget → Json × ResultBudget → Json × ResultBudget
unfolding safe_result_text
visit host depth secret_context budget inner =
    if nat_eq budget.nodes 0 || ltb max_depth depth
    then (null, budget)
    else if secret_context
    then safe_result_text host redacted (spend budget)
    else inner

-- `_sanitize_result_value` and its two loops, with the items that may still come and the keys so far.
unfoldable mutual
  unfolding visit safe_result_text safe_result_key credential_result_key unique_result_key

  pub sanitize : Host → ℕ → Bool → Json → ResultBudget → Json × ResultBudget
  sanitize host depth secret (str s) b =
      visit host depth secret b (safe_result_text host s (spend b))
  sanitize host depth secret (arr xs) b =
      let inner = sanitize_items host (suc depth) max_collection_items xs (spend b) in
      visit host depth secret b (arr inner.0, inner.1)
  sanitize host depth secret (obj fs) b =
      let inner = sanitize_fields host (suc depth) max_collection_items [] fs (spend b) in
      visit host depth secret b (obj inner.0, inner.1)
  sanitize host depth secret null b = visit host depth secret b (null, spend b)
  sanitize host depth secret (bool t) b = visit host depth secret b (bool t, spend b)
  sanitize host depth secret (int n) b = visit host depth secret b (int n, spend b)
  sanitize host depth secret (float f s) b = visit host depth secret b (float f s, spend b)

  pub sanitize_items : Host → ℕ → ℕ → Items → ResultBudget → Items × ResultBudget
  sanitize_items host depth left nil b = (nil, b)
  sanitize_items host depth left (item x xs) b =
      let first = sanitize host depth false x b in
      let rest = sanitize_items host depth (left - 1) xs first.1 in
      if nat_eq left 0 || nat_eq b.nodes 0 then (nil, b) else (item first.0 rest.0, rest.1)

  pub sanitize_fields : Host → ℕ → ℕ → List String → Fields → ResultBudget → Fields × ResultBudget
  sanitize_fields host depth left existing end b = (end, b)
  sanitize_fields host depth left existing (field k v fs) b =
      let key = unique_result_key (safe_result_key host k) existing in
      let first = sanitize host depth (credential_result_key host k) v b in
      let rest = sanitize_fields host depth (left - 1) (key ∷ existing) fs first.1 in
      if nat_eq left 0 || nat_eq b.nodes 0 then (end, b) else (field key first.0 rest.0, rest.1)

-- `sanitized.pop(next(reversed(sanitized)))`
abbrev pub pop_last : Object → Object
pop_last [] = []
pop_last (f ∷ []) = []
pop_last (f ∷ g ∷ fs) = f ∷ pop_last (g ∷ fs)

-- `sanitized[key] = value`
abbrev pub assign : String → Json → Object → Object
assign key value [] = (key, value) ∷ []
assign key value ((k, v) ∷ fs) =
    let rest = assign key value fs in if k == key then (key, value) ∷ fs else (k, v) ∷ rest

-- `_safe_result_summary`, after the sanitisation.
unfoldable pub with_outcome : String → Object → Object
with_outcome outcome sanitized = assign "outcome" (str outcome) (
    if has "outcome" sanitized
    then sanitized
    else if nat_eq (length sanitized) max_collection_items
    then pop_last sanitized
    else sanitized)

-- What the top object's values may take, once the object itself is counted.
abbrev pub full_budget : String → ResultBudget
full_budget outcome = record { nodes = max_nodes - 1; text_chars = max_text_chars - count outcome }

-- `_safe_result_summary`
unfoldable pub safe_result_summary : Host → String → Fields → Object
unfolding sanitize with_outcome
safe_result_summary host outcome summary =
    with_outcome outcome
      (fields (sanitize_fields host 1 max_collection_items [] summary (full_budget outcome)).0)
