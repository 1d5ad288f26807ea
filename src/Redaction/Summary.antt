-- ===== src/Redaction/Summary.antt =====
-- The summary that `_safe_result_summary` of src/qworker/store.py returns.
use Prim.Native.String.{String, count}
use dogqoder.Prelude.{
  ℕ, suc, ◌+◌, ◌-◌, ◌≤◌, ◌≡◌, refl, ap, true, false, some, List, [], ◌∷◌, ◌||◌, ◌==◌, arith, eq_iff,
  eq_refl, nat_eq, nat_eq_iff, contains, lookup, has, keys, length, AllDistinct, Bool-cases, inl,
  inr,
}
use dogqoder.Json.{Json, Fields, Object, str, end, field, fields}
use dogqoder.Patterns.{Host}
use dogqoder.Redaction.{
  ResultBudget, full_budget, max_collection_items, max_text_chars, sanitize, sanitize_fields,
  unique_result_key, safe_result_key, credential_result_key, pop_last, assign, with_outcome,
  safe_result_summary,
}
use dogqoder.Redaction.Keys.{contains-unique_result_key}
use dogqoder.Redaction.Budget.{text_size, fields_size, Paid-fields}

-- None of the keys is among those that are there already.
abbrev AllNew : List String → List String → Type 0
AllNew existing [] = Unit
AllNew existing (k ∷ ks) = (contains existing k ≡ false) × AllNew existing ks

AllNew-tail :
    (k : String) (existing ks : List String)
    → AllNew (k ∷ existing) ks
    → AllNew existing ks × (contains ks k ≡ false)
AllNew-tail k existing [] h = (tt, refl)
AllNew-tail k existing (j ∷ js) h =
    let (later, free) = AllNew-tail k existing js h.1 in
    ((ground arith, later), ground (arith, eq_iff k j, eq_iff j k))

sanitized_keys :
    (host : Host) (depth left : ℕ) (existing : List String) (fs : Fields) (b : ResultBudget)
    → let r = keys (fields (sanitize_fields host depth left existing fs b).0) in
      AllNew existing r
      × AllDistinct r
      × (length (fields (sanitize_fields host depth left existing fs b).0) ≤ left)
unfolding sanitize
sanitized_keys host depth left existing end b = (tt, tt, omega arith)
sanitized_keys host depth left existing (field k v fs) b =
    elim (Bool-cases (nat_eq left 0 || nat_eq b.nodes 0)) [
      | inl stop ↦ rw stop (tt, tt, omega arith)
      | inr go ↦ rw go (
          let key = unique_result_key (safe_result_key host k) existing in
          let (new, distinct, few) =
            sanitized_keys host depth (left - 1) (key ∷ existing) fs
              (sanitize host depth (credential_result_key host k) v b).1 in
          let (later, free) = AllNew-tail key existing _ new in
          (
            (contains-unique_result_key (safe_result_key host k) existing, later),
            (free, distinct),
            ground (arith, few),
          ))
    ]

-- The characters of the texts in an object.
abbrev pub object_size : Object → ℕ
unfolding text_size
object_size [] = 0
object_size ((k, v) ∷ fs) = text_size v + object_size fs

object_size-fields : (fs : Fields) → object_size (fields fs) ≡ fields_size fs
unfolding text_size object_size
object_size-fields end = refl
object_size-fields (field k v fs) = ap (λ n. text_size v + n) (object_size-fields fs)

lookup-assign : (k : String) (v : Json) (fs : Object) → lookup k (assign k v fs) ≡ some v
lookup-assign k v [] = ground (arith, eq_refl k)
lookup-assign k v ((j, w) ∷ fs) =
    ground (arith, eq_refl k, eq_iff j k, eq_iff k j, lookup-assign k v fs)

contains-assign :
    (k : String) (v : Json) (fs : Object) (x : String)
    → contains (keys (assign k v fs)) x ≡ (contains (keys fs) x || (k == x))
contains-assign k v [] x = ground arith
contains-assign k v ((j, w) ∷ fs) x =
    ground (arith, eq_iff j k, eq_iff j x, eq_iff k x, contains-assign k v fs x)

AllDistinct-assign :
    (k : String) (v : Json) (fs : Object)
    → AllDistinct (keys fs)
    → AllDistinct (keys (assign k v fs))
AllDistinct-assign k v [] d = (refl, tt)
AllDistinct-assign k v ((j, w) ∷ fs) d = elim (Bool-cases (j == k)) [
  | inl same ↦ rw same (ground (arith, eq_iff j k, d.0), d.1)
  | inr other ↦ rw other (
    ground (arith, contains-assign k v fs j, eq_iff j k, eq_iff k j, d.0),
    AllDistinct-assign k v fs d.1,
  )
]

length-assign_le : (k : String) (v : Json) (fs : Object) → length (assign k v fs) ≤ suc (length fs)
length-assign_le k v [] = omega arith
length-assign_le k v ((j, w) ∷ fs) = ground (arith, length-assign_le k v fs)

length-assign-has :
    (k : String) (v : Json) (fs : Object) → has k fs ≡ true → length (assign k v fs) ≡ length fs
length-assign-has k v [] h = cc
length-assign-has k v ((j, w) ∷ fs) h =
    ground (arith, eq_iff j k, eq_iff k j, length-assign-has k v fs)

object_size-assign_le :
    (k : String) (v : Json) (fs : Object)
    → object_size (assign k v fs) ≤ text_size v + object_size fs
unfolding object_size
object_size-assign_le k v [] = omega arith
object_size-assign_le k v ((j, w) ∷ fs) = ground (arith, object_size-assign_le k v fs)

contains-pop_last :
    (fs : Object) (x : String)
    → contains (keys fs) x ≡ false
    → contains (keys (pop_last fs)) x ≡ false
contains-pop_last [] x h = h
contains-pop_last (f ∷ []) x h = refl
contains-pop_last (f ∷ g ∷ fs) x h = ground (arith, contains-pop_last (g ∷ fs) x)

AllDistinct-pop_last : (fs : Object) → AllDistinct (keys fs) → AllDistinct (keys (pop_last fs))
AllDistinct-pop_last [] d = tt
AllDistinct-pop_last (f ∷ []) d = tt
AllDistinct-pop_last (f ∷ g ∷ fs) d =
    (contains-pop_last (g ∷ fs) f.0 d.0, AllDistinct-pop_last (g ∷ fs) d.1)

length-pop_last : (fs : Object) → length (pop_last fs) ≡ length fs - 1
length-pop_last [] = omega arith
length-pop_last (f ∷ []) = omega arith
length-pop_last (f ∷ g ∷ fs) = omega (arith, length-pop_last (g ∷ fs))

object_size-pop_last_le : (fs : Object) → object_size (pop_last fs) ≤ object_size fs
unfolding object_size
object_size-pop_last_le [] = omega arith
object_size-pop_last_le (f ∷ []) = omega arith
object_size-pop_last_le (f ∷ g ∷ fs) = omega (arith, object_size-pop_last_le (g ∷ fs))

-- A summary that may be persisted with that outcome.
pub record IsBounded (outcome : String) (summary : Object) : Type 0 where
  pub named : lookup "outcome" summary ≡ some (str outcome)
  pub distinct : AllDistinct (keys summary)
  pub few : length summary ≤ max_collection_items
  pub short : object_size summary ≤ max_text_chars

IsBounded-assign :
    (outcome : String) (fs : Object)
    → AllDistinct (keys fs)
    → length (assign "outcome" (str outcome) fs) ≤ max_collection_items
    → count outcome + object_size fs ≤ max_text_chars
    → IsBounded outcome (assign "outcome" (str outcome) fs)
unfolding text_size
IsBounded-assign outcome fs distinct few short = record {
  named = lookup-assign "outcome" (str outcome) fs;
  distinct = AllDistinct-assign "outcome" (str outcome) fs distinct;
  few = few;
  short = omega (arith, short, object_size-assign_le "outcome" (str outcome) fs);
}

with_outcome-IsBounded :
    (outcome : String) (fs : Object)
    → AllDistinct (keys fs)
    → length fs ≤ max_collection_items
    → count outcome + object_size fs ≤ max_text_chars
    → IsBounded outcome (with_outcome outcome fs)
unfolding with_outcome
with_outcome-IsBounded outcome fs distinct few short = elim (Bool-cases (has "outcome" fs)) [
  | inl named ↦ rw named (
      IsBounded-assign outcome fs distinct
        (omega (arith, few, length-assign-has "outcome" (str outcome) fs named)) short)
  | inr unnamed ↦ rw unnamed (elim (Bool-cases (nat_eq (length fs) max_collection_items)) [
    | inl full ↦ rw full (
        IsBounded-assign outcome (pop_last fs) (AllDistinct-pop_last fs distinct)
          (omega (
            arith,
            few,
            length-pop_last fs,
            (nat_eq_iff (length fs) 128).0 full,
            length-assign_le "outcome" (str outcome) (pop_last fs),
          ))
          (omega (arith, short, object_size-pop_last_le fs)))
    | inr room ↦ rw room (IsBounded-assign outcome fs distinct (fits room) short)
  ])
]
  where
    fits :
        nat_eq (length fs) max_collection_items ≡ false
        → length (assign "outcome" (str outcome) fs) ≤ max_collection_items
    fits room = ground (arith, few, length-assign_le "outcome" (str outcome) fs)

-- Whatever the summary, what is persisted names the given outcome, has at most 128 keys, all of them
-- distinct, and its texts together have at most 262144 characters.
pub safe_result_summary-IsBounded :
    (host : Host) (outcome : String) (summary : Fields)
    → count outcome ≤ max_text_chars
    → IsBounded outcome (safe_result_summary host outcome summary)
unfolding safe_result_summary
safe_result_summary-IsBounded host outcome summary fits =
    let kept = (sanitize_fields host 1 max_collection_items [] summary (full_budget outcome)).0 in
    let (new, distinct, few) =
      sanitized_keys host 1 max_collection_items [] summary (full_budget outcome) in
    let paid = Paid-fields host 1 max_collection_items [] summary (full_budget outcome) in
    with_outcome-IsBounded outcome (fields kept) distinct few
      (omega (arith, fits, paid, object_size-fields kept))
