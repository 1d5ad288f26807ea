-- ===== src/Rpc/Readers.antt =====
-- What the field readers of src/qworker/rpc.py accept, in terms of the keys of the parameters.
use Prim.Native.String.{◌++◌}
use mathlib.Core.Path.{subst}
use dogqoder.Prelude.{
  ◌≡◌, ◌⊎◌, inl, inr, refl, sym, ap, ◌∙◌, Bool, true, false, not, ◌||◌, Option, none, some, String,
  List, [], ◌∷◌, ◌==◌, keep, has, keys, lookup, contains, all, Option-cases, if◌then◌else◌, arith,
}
use dogqoder.Config.{insert_name, sorted_set}
use dogqoder.Json.{Json, Items, Object, bool, str, arr, items, strings}
use dogqoder.Rpc.Fields.{
  Parsed, parsed, ◌>>=◌, ◌>>◌, >>=-eq-parsed, parsed-injective, or_reject, refuse_names,
  validate_fields, non_empty, text_of, texts_of, bool_of, string, optional_string, string_or_none,
  string_tuple, boolean, missing, unexpected,
}

-- The key holds the text, which is not empty.
abbrev pub Holds : String → String → Object → Type 0
Holds key s o = (lookup key o ≡ some (str s)) × ((s == "") ≡ false)

-- The same, or the key is not there and the text is the default.
abbrev pub HoldsOr : String → String → String → Object → Type 0
HoldsOr key default s o = Holds key s o ⊎ ((lookup key o ≡ none) × (s ≡ default))

abbrev pub MayHold : String → Option String → Object → Type 0
MayHold key none o = lookup key o ≡ none
MayHold key (some s) o = Holds key s o

abbrev pub HoldsTexts : String → List String → Object → Type 0
HoldsTexts key ss o =
    ((xs : Items) × (lookup key o ≡ some (arr xs)) × (strings (items xs) ≡ some ss))
    ⊎ ((lookup key o ≡ none) × (ss ≡ []))

abbrev pub HoldsFlag : String → Bool → Object → Type 0
HoldsFlag key b o = (lookup key o ≡ some (bool b)) ⊎ ((lookup key o ≡ none) × (b ≡ false))

no : {A : Type 0} → ◌≡◌ {A = Bool} false true → A
no h = cc

pub string-Holds :
    (key : String) (o : Object) (s : String) → string key o ≡ parsed s → Holds key s o
unfolding string
string-Holds key o s h = of_value (lookup key o) h
  where
    filled :
        (t : String) (b : Bool)
        → or_reject (key ++ " must be a non-empty string.") (if b then none else some t) ≡ parsed s
        → (t ≡ s) × (b ≡ false)
    filled t true h = cc
    filled t false h = (parsed-injective h, refl)

    of_value :
        (q : Option Json)
        → or_reject (key ++ " must be a non-empty string.") (non_empty (text_of q)) ≡ parsed s
        → (q ≡ some (str s)) × ((s == "") ≡ false)
    of_value none h = cc
    of_value (some (str t)) h =
        let (same, full) = filled t (t == "") h in (rw same refl, rw (sym same) full)
    of_value (some _) h = cc

pub Holds-string :
    (key : String) (o : Object) (s : String) → Holds key s o → string key o ≡ parsed s
unfolding string
Holds-string key o s (there, full) = rw (there, full) refl

pub if-cases {ℓ} :
    {A : Type ℓ} (b : Bool) (m n : Parsed A) (a : A)
    → (if b then m else n) ≡ parsed a
    → ((b ≡ true) × (m ≡ parsed a)) ⊎ ((b ≡ false) × (n ≡ parsed a))
if-cases true m n a h = inl (refl, h)
if-cases false m n a h = inr (refl, h)

if-true {ℓ} :
    {A : Type ℓ} (b : Bool) (m n : Parsed A) (a : A)
    → b ≡ true
    → m ≡ parsed a
    → (if b then m else n) ≡ parsed a
if-true b m n a e h = rw e h

lookup-of-has : (key : String) (o : Object) → has key o ≡ false → lookup key o ≡ none
lookup-of-has key o h = elim (Option-cases (lookup key o)) [
  | inl gone ↦ gone
  | inr (v, there) ↦ absurd (no (sym h ∙ rw there refl))
]

pub optional_string-HoldsOr :
    (key default : String) (o : Object) (s : String)
    → optional_string key default o ≡ parsed s
    → HoldsOr key default s o
unfolding optional_string
optional_string-HoldsOr key default o s h =
    elim (if-cases (has key o) (string key o) (parsed default) s h) [
      | inl (there, read) ↦ inl (string-Holds key o s read)
      | inr (gone, same) ↦ inr (lookup-of-has key o gone, sym (parsed-injective same))
    ]

pub HoldsOr-optional_string :
    (key default : String) (o : Object) (s : String)
    → HoldsOr key default s o
    → optional_string key default o ≡ parsed s
unfolding optional_string
HoldsOr-optional_string key default o s (inl (there, full)) =
    if-true (has key o) (string key o) (parsed default) s (rw there refl)
      (Holds-string key o s (there, full))
HoldsOr-optional_string key default o s (inr (gone, same)) = rw (gone, same) refl

pub string_or_none-MayHold :
    (key : String) (o : Object) (a : Option String)
    → string_or_none key o ≡ parsed a
    → MayHold key a o
unfolding string_or_none
string_or_none-MayHold key o a h =
    elim (if-cases (has key o) (string key o >>= (λ s. parsed (some s))) (parsed none) a h) [
      | inl (there, read) ↦
          let (s, first, same) = >>=-eq-parsed (string key o) (λ s. parsed (some s)) read in
          present s (string-Holds key o s first) (parsed-injective same)
      | inr (gone, same) ↦ absent (lookup-of-has key o gone) (parsed-injective same)
    ]
  where
    absent : lookup key o ≡ none → none ≡ a → MayHold key a o
    absent gone h = subst (λ b. MayHold key b o) h gone

    present : (s : String) → Holds key s o → some s ≡ a → MayHold key a o
    present s held h = subst (λ b. MayHold key b o) h held

pub MayHold-string_or_none :
    (key : String) (o : Object) (a : Option String)
    → MayHold key a o
    → string_or_none key o ≡ parsed a
unfolding string_or_none
MayHold-string_or_none key o none gone = rw gone refl
MayHold-string_or_none key o (some s) (there, full) =
    if-true (has key o) (string key o >>= (λ s. parsed (some s))) (parsed none) (some s)
      (rw there refl) (ap (λ p. p >>= (λ s. parsed (some s))) (Holds-string key o s (there, full)))

pub string_tuple-HoldsTexts :
    (key : String) (o : Object) (ss : List String)
    → string_tuple key o ≡ parsed ss
    → HoldsTexts key ss o
unfolding string_tuple
string_tuple-HoldsTexts key o ss h = of_value (lookup key o) refl h
  where
    texts :
        (r : Option (List String))
        → or_reject (key ++ " must be an array of strings.") r ≡ parsed ss
        → r ≡ some ss
    texts none h = cc
    texts (some ts) h = rw (parsed-injective h) refl

    of_value :
        (q : Option Json)
        → lookup key o ≡ q
        → (elim q [
          | none ↦ parsed []
          | some v ↦ or_reject (key ++ " must be an array of strings.") (texts_of v)
        ])
          ≡ parsed ss
        → HoldsTexts key ss o
    of_value none e h = inr (e, sym (parsed-injective h))
    of_value (some (arr xs)) e h = inl (xs, e, texts (strings (items xs)) h)
    of_value (some _) e h = cc

pub HoldsTexts-string_tuple :
    (key : String) (o : Object) (ss : List String)
    → HoldsTexts key ss o
    → string_tuple key o ≡ parsed ss
unfolding string_tuple
HoldsTexts-string_tuple key o ss (inl (xs, there, read)) = rw (there, string_tuple, read) refl
HoldsTexts-string_tuple key o ss (inr (gone, same)) = rw (gone, string_tuple, same) refl

pub boolean-HoldsFlag :
    (key : String) (o : Object) (b : Bool) → boolean key false o ≡ parsed b → HoldsFlag key b o
unfolding boolean
boolean-HoldsFlag key o b h = of_value (lookup key o) refl h
  where
    of_value :
        (q : Option Json)
        → lookup key o ≡ q
        → (elim q [
          | none ↦ parsed false
          | some v ↦ or_reject (key ++ " must be a boolean.") (bool_of v)
        ])
          ≡ parsed b
        → HoldsFlag key b o
    of_value none e h = inr (e, sym (parsed-injective h))
    of_value (some (bool c)) e h = inl (rw (sym (parsed-injective h)) e)
    of_value (some _) e h = cc

pub HoldsFlag-boolean :
    (key : String) (o : Object) (b : Bool) → HoldsFlag key b o → boolean key false o ≡ parsed b
unfolding boolean
HoldsFlag-boolean key o b (inl there) = rw (there, boolean) refl
HoldsFlag-boolean key o b (inr (gone, same)) = rw (gone, boolean, same) refl

-- All required keys are there, and no key that is neither required nor optional.
abbrev pub HasFields : List String → List String → Object → Type 0
HasFields required optional o =
    (all (λ k. has k o) required ≡ true)
    × (all (λ k. contains required k || contains optional k) (keys o) ≡ true)

insert_name-filled : (x : String) (ys : List String) {A : Type 0} → insert_name x ys ≡ [] → A
unfolding insert_name
insert_name-filled x [] h = cc
insert_name-filled x (y ∷ ys) h = ground arith

sorted_set-empty : (xs : List String) → sorted_set xs ≡ [] → xs ≡ []
unfolding sorted_set
sorted_set-empty [] h = refl
sorted_set-empty (x ∷ xs) h = insert_name-filled x (sorted_set xs) h

all-of-keep :
    (p : String → Bool) (xs : List String) → keep (λ k. not (p k)) xs ≡ [] → all p xs ≡ true
all-of-keep p [] h = refl
all-of-keep p (x ∷ xs) h = ground (arith, all-of-keep p xs)

keep-of-all :
    (p : String → Bool) (xs : List String) → all p xs ≡ true → keep (λ k. not (p k)) xs ≡ []
keep-of-all p [] h = refl
keep-of-all p (x ∷ xs) h = ground (arith, keep-of-all p xs)

refuse_names-empty : (what : String) (ss : List String) → refuse_names what ss ≡ parsed tt → ss ≡ []
refuse_names-empty what [] h = refl
refuse_names-empty what (s ∷ ss) h = cc

pub validate_fields-HasFields {ℓ} :
    (required optional : List String) (o : Object) {A : Type ℓ} (k : Parsed A) {a : A}
    → (validate_fields required optional o >> k) ≡ parsed a
    → HasFields required optional o × (k ≡ parsed a)
unfolding validate_fields sorted_set
validate_fields-HasFields required optional o k h =
    let (u, whole, rest) = >>=-eq-parsed _ (λ _. k) h in
    let (v, first, second) =
      >>=-eq-parsed (refuse_names "Missing" (missing required o))
        (λ _. refuse_names "Unexpected" (unexpected required optional o)) whole in
    (
      (
        all-of-keep (λ k. has k o) required
            (sorted_set-empty _ (refuse_names-empty "Missing" _ first)),
        all-of-keep (λ k. contains required k || contains optional k) (keys o)
            (sorted_set-empty _ (refuse_names-empty "Unexpected" _ second)),
      ),
      rest,
    )

pub HasFields-validate_fields :
    (required optional : List String) (o : Object)
    → HasFields required optional o
    → validate_fields required optional o ≡ parsed tt
unfolding validate_fields sorted_set
HasFields-validate_fields required optional o (there, known) =
    rw
      (
        keep-of-all (λ k. has k o) required there,
        keep-of-all (λ k. contains required k || contains optional k) (keys o) known,
      )
      refl
