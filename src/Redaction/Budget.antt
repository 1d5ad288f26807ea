-- ===== src/Redaction/Budget.antt =====
-- The characters of a sanitised result in src/qworker/store.py against `_ResultBudget`.
use Prim.Native.String.{String, count}
use Prim.Native.String.count
use text.Mathlib.TextLemmas.{length-append}
use dogqoder.Prelude.{
  ℕ, zero, suc, ◌+◌, ◌-◌, ◌≤◌, ◌≡◌, Bool, false, List, [], ◌∷◌, ◌||◌, arith, nat_eq, ltb, leb,
  Bool-cases, inl, inr,
}
use dogqoder.Json.{
  Json, Items, Fields, null, bool, int, float, str, arr, obj, nil, item, end, field,
}
use dogqoder.Patterns.{Host}
use dogqoder.Redaction.{
  cut, shorten, least, ResultBudget, redacted, redact_result_text, safe_result_text, spend, visit,
  max_string_chars, max_depth, max_collection_items, sanitize, sanitize_items, sanitize_fields,
  safe_result_key, credential_result_key, unique_result_key,
}

pub count-cut_le : (n : ℕ) (s : String) → count (cut n s) ≤ n
unfolding cut
count-cut_le zero s = omega arith
count-cut_le (suc n) String.[] = omega arith
count-cut_le (suc n) (String.◌∷◌ c s) = omega (arith, count.cons c (cut n s), count-cut_le n s)

pub count-shorten_le : (limit : ℕ) (s : String) → count (shorten limit s) ≤ limit
unfolding shorten
count-shorten_le limit s = elim (Bool-cases (leb (count s) limit)) [
  | inl fits ↦ rw fits (ground arith)
  | inr long ↦ rw long (elim (Bool-cases (leb 3 limit)) [
    | inl room ↦ rw room (
        let three : 3 ≤ limit = ground arith in
        omega (arith, three, length-append (cut (limit - 3) s) "...", count-cut_le (limit - 3) s))
    | inr tight ↦ rw tight (
        let few : limit ≤ 2 = ground arith in
        omega (arith, few, length-append (cut (limit - 3) s) "", count-cut_le (limit - 3) s))
  ])
]

-- The characters of the texts in a value, keys apart.
unfoldable mutual
  pub text_size : Json → ℕ
  text_size (str s) = count s
  text_size (arr xs) = items_size xs
  text_size (obj fs) = fields_size fs
  text_size _ = 0

  pub items_size : Items → ℕ
  items_size nil = 0
  items_size (item x xs) = text_size x + items_size xs

  pub fields_size : Fields → ℕ
  fields_size end = 0
  fields_size (field k v fs) = text_size v + fields_size fs

-- What was put out and what is left of the budget make up what was there.
abbrev Paid : ResultBudget → ℕ → ResultBudget → Type 0
Paid before size after = size + after.text_chars ≡ before.text_chars

Paid-text :
    (host : Host) (s : String) (b : ResultBudget)
    → let r = safe_result_text host s b in Paid b (text_size r.0) r.1
unfolding safe_result_text text_size
Paid-text host s b =
    let limit = least max_string_chars b.text_chars in
    let short = count-shorten_le limit (redact_result_text host s) in
    let low : limit ≤ b.text_chars = ground arith in omega (arith, short, low)

Paid-visit :
    (host : Host) (depth : ℕ) (secret : Bool) (b : ResultBudget) (inner : Json × ResultBudget)
    → Paid b (text_size inner.0) inner.1
    → let r = visit host depth secret b inner in Paid b (text_size r.0) r.1
unfolding visit text_size
Paid-visit host depth secret b inner paid =
    elim (Bool-cases (nat_eq b.nodes 0 || ltb max_depth depth)) [
      | inl out ↦ rw out (omega arith)
      | inr within ↦ rw within (elim (Bool-cases secret) [
        | inl hidden ↦ rw hidden (Paid-text host redacted (spend b))
        | inr shown ↦ rw shown paid
      ])
    ]

mutual
  unfolding sanitize text_size

  Paid-sanitize :
      (host : Host) (depth : ℕ) (secret : Bool) (v : Json) (b : ResultBudget)
      → let r = sanitize host depth secret v b in Paid b (text_size r.0) r.1
  Paid-sanitize host depth secret (str s) b =
      Paid-visit host depth secret b _ (Paid-text host s (spend b))
  Paid-sanitize host depth secret (arr xs) b =
      Paid-visit host depth secret b _
        (Paid-items host (suc depth) max_collection_items xs (spend b))
  Paid-sanitize host depth secret (obj fs) b =
      Paid-visit host depth secret b _
        (Paid-fields host (suc depth) max_collection_items [] fs (spend b))
  Paid-sanitize host depth secret null b = Paid-visit host depth secret b _ (omega arith)
  Paid-sanitize host depth secret (bool t) b = Paid-visit host depth secret b _ (omega arith)
  Paid-sanitize host depth secret (int n) b = Paid-visit host depth secret b _ (omega arith)
  Paid-sanitize host depth secret (float f s) b = Paid-visit host depth secret b _ (omega arith)

  Paid-items :
      (host : Host) (depth left : ℕ) (xs : Items) (b : ResultBudget)
      → let r = sanitize_items host depth left xs b in Paid b (items_size r.0) r.1
  Paid-items host depth left nil b = omega arith
  Paid-items host depth left (item x xs) b = elim (Bool-cases (nat_eq left 0 || nat_eq b.nodes 0)) [
    | inl stop ↦ rw stop (omega arith)
    | inr go ↦ rw go (
        let first = Paid-sanitize host depth false x b in
        let later = Paid-items host depth (left - 1) xs (sanitize host depth false x b).1 in
        omega (arith, first, later))
  ]

  pub Paid-fields :
      (host : Host) (depth left : ℕ) (existing : List String) (fs : Fields) (b : ResultBudget)
      → let r = sanitize_fields host depth left existing fs b in Paid b (fields_size r.0) r.1
  Paid-fields host depth left existing end b = omega arith
  Paid-fields host depth left existing (field k v fs) b =
      elim (Bool-cases (nat_eq left 0 || nat_eq b.nodes 0)) [
        | inl stop ↦ rw stop (omega arith)
        | inr go ↦ rw go (
            let first = Paid-sanitize host depth (credential_result_key host k) v b in
            let later =
              Paid-fields host depth (left - 1)
                (unique_result_key (safe_result_key host k) existing ∷ existing) fs
                (sanitize host depth (credential_result_key host k) v b).1 in
            omega (arith, first, later))
      ]
