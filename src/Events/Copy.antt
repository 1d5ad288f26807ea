-- ===== src/Events/Copy.antt =====
-- The sorted copy of a payload that store.py persists holds the same values at the same keys.
use mathlib.Core.Option
use text.Mathlib.TextPositions.{compare_refl}
use dogqoder.Prelude.{
  ◌≡◌, refl, ap, ◌∙◌, true, Option, none, some, String, [], ◌∷◌, ◌==◌, arith, eq_iff, lookup,
  Bool-cases, inl, inr, if◌then◌else◌,
}
use dogqoder.Json.{
  Json, Fields, end, field, Object, fields, from_fields, as_str, text_le, insert_field, sorted,
  sorted_fields,
}
use dogqoder.Events.{copy_json_object}
use dogqoder.Store.Project.{text_at}

text_le_refl : (s : String) → text_le s s ≡ true
text_le_refl s = rw (compare_refl s, text_le)

lookup-insert_field :
    (k j : String) (v : Json) (fs : Fields)
    → lookup k (fields (insert_field j v fs)) ≡ (if j == k then some v else lookup k (fields fs))
unfolding insert_field
lookup-insert_field k j v end = refl
lookup-insert_field k j v (field i w fs) = elim (Bool-cases (text_le j i)) [
  | inl e ↦ rw e
  | inr e ↦
      rw (e, lookup-insert_field k j v fs)
        (ground (arith, eq_iff j k, eq_iff i k, eq_iff j i, text_le_refl i))
]

lookup-sorted_fields :
    (k : String) (fs : Fields)
    → lookup k (fields (sorted_fields fs)) ≡ Option.map sorted (lookup k (fields fs))
unfolding sorted_fields
lookup-sorted_fields k end = refl
lookup-sorted_fields k (field j v fs) =
    lookup-insert_field k j (sorted v) (sorted_fields fs)
    ∙ (elim (Bool-cases (j == k)) [ inl e ↦ rw e | inr e ↦ rw e (lookup-sorted_fields k fs) ])

pub fields-from_fields : (o : Object) → fields (from_fields o) ≡ o
fields-from_fields [] = refl
fields-from_fields ((k, v) ∷ o) = ap (λ r. (k, v) ∷ r) (fields-from_fields o)

-- What the copy holds at a key.
pub lookup-copy :
    (k : String) (o : Object) → lookup k (copy_json_object o) ≡ Option.map sorted (lookup k o)
unfolding copy_json_object
lookup-copy k o =
    lookup-sorted_fields k (from_fields o)
    ∙ ap (λ r. Option.map sorted (lookup k r)) (fields-from_fields o)

as_str-sorted : (v : Json) → as_str (sorted v) ≡ as_str v
unfolding sorted
as_str-sorted (Json.str s) = refl
as_str-sorted _ = refl

pub text_at-copy : (k : String) (o : Object) → text_at k (copy_json_object o) ≡ text_at k o
text_at-copy k o = rw (lookup-copy k o, text_at) (same (lookup k o))
  where
    same :
        (r : Option Json)
        → (elim (Option.map sorted r) [ none ↦ none | some v ↦ as_str v ])
          ≡ (elim r [ none ↦ none | some v ↦ as_str v ])
    same none = refl
    same (some v) = as_str-sorted v
