-- ===== src/Json.antt =====
-- JSON values as the program handles them: a `dict` is the list of its items in order.
use Prim.Native.Nat.{Ordering}
use Prim.Native.String.{compare}
use dogqoder.Prelude.{
  if◌then◌else◌, true, false, ℕ, String, Bool, Option, none, some, List, [], ◌∷◌,
}

-- `negsuc n` is -(n + 1).
pub data ℤ : Type 0 where
  pos : ℕ → ℤ
  negsuc : ℕ → ℤ

-- A float is known by its text and by whether it is finite; the program computes with none.
mutual
  pub data Json : Type 0 where
    null : Json
    bool : Bool → Json
    int : ℤ → Json
    float : Bool → String → Json
    str : String → Json
    arr : Items → Json
    obj : Fields → Json

  pub data Items : Type 0 where
    nil : Items
    item : Json → Items → Items

  pub data Fields : Type 0 where
    end : Fields
    field : String → Json → Fields → Fields

abbrev pub items : Items → List Json
items nil = []
items (item x xs) = x ∷ items xs

abbrev pub fields : Fields → List (String × Json)
fields end = []
fields (field k v fs) = (k, v) ∷ fields fs

abbrev pub from_items : List Json → Items
from_items [] = nil
from_items (x ∷ xs) = item x (from_items xs)

abbrev pub from_fields : List (String × Json) → Fields
from_fields [] = end
from_fields ((k, v) ∷ fs) = field k v (from_fields fs)

abbrev pub Object : Type 0
Object = List (String × Json)

-- `isinstance(value, str)` with its value.
abbrev pub as_str : Json → Option String
as_str (str s) = some s
as_str _ = none

abbrev pub as_object : Json → Option Object
as_object (obj fs) = some (fields fs)
as_object _ = none

abbrev pub as_list : Json → Option (List Json)
as_list (arr xs) = some (items xs)
as_list _ = none

-- All items are strings: `all(isinstance(item, str) for item in value)`.
abbrev pub strings : List Json → Option (List String)
strings [] = some []
strings (str s ∷ xs) = elim (strings xs) [ none ↦ none | some ss ↦ some (s ∷ ss) ]
strings (null ∷ xs) = none
strings (bool b ∷ xs) = none
strings (int n ∷ xs) = none
strings (float f s ∷ xs) = none
strings (arr ys ∷ xs) = none
strings (obj fs ∷ xs) = none

abbrev pub str_list : List String → List Json
str_list [] = []
str_list (s ∷ ss) = str s ∷ str_list ss

-- Texts in Python's order, by code points.
abbrev pub text_le : String → String → Bool
text_le s t = elim (compare s t) [ Ordering.gt ↦ false | _ ↦ true ]

unfoldable pub insert_field : String → Json → Fields → Fields
insert_field k v end = field k v end
insert_field k v (field j w fs) =
    let later = field j w (insert_field k v fs) in
    if text_le k j then field k v (field j w fs) else later

-- `json.loads(json.dumps(value, sort_keys=True))`: the same value, each object's items by key.
unfoldable mutual
  pub sorted : Json → Json
  sorted null = null
  sorted (bool b) = bool b
  sorted (int n) = int n
  sorted (float f s) = float f s
  sorted (str s) = str s
  sorted (arr xs) = arr (sorted_items xs)
  sorted (obj fs) = obj (sorted_fields fs)

  pub sorted_items : Items → Items
  sorted_items nil = nil
  sorted_items (item x xs) = item (sorted x) (sorted_items xs)

  pub sorted_fields : Fields → Fields
  sorted_fields end = end
  sorted_fields (field k v fs) = insert_field k (sorted v) (sorted_fields fs)
