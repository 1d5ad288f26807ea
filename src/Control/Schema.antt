-- ===== src/Control/Schema.antt =====
-- `_bounded_json_schema` of src/qworker/control.py takes exactly the objects within its bounds, and its
-- copy is the same object.
use dogqoder.Prelude.{
  ℕ, suc, ◌+◌, ◌-◌, ◌≤◌, ◌≡◌, ◌↔◌, refl, ap, sym, ◌∙◌, true, some, arith, leb, ◌>>=◌, >>=-eq-some,
  guard-eq-some,
}
use Prim.Native.String.{count}
use dogqoder.Json.{
  Json, Items, Fields, Object, null, bool, int, float, str, arr, obj, nil, item, end, field, fields,
}
use dogqoder.Control.{
  object_of, max_schema_depth, max_schema_nodes, max_schema_string_chars, is_schema_key, enter,
  copy_json, copy_items, copy_fields, bounded_json_schema,
}

-- The nodes of a value, itself included.
unfoldable mutual
  pub nodes : Json → ℕ
  nodes (arr xs) = suc (item_nodes xs)
  nodes (obj fs) = suc (field_nodes fs)
  nodes _ = 1

  pub item_nodes : Items → ℕ
  item_nodes nil = 0
  item_nodes (item x xs) = nodes x + item_nodes xs

  pub field_nodes : Fields → ℕ
  field_nodes end = 0
  field_nodes (field k v fs) = nodes v + field_nodes fs

-- A value at that depth, with everything in it, is within the bounds of depth and text, has only finite
-- numbers and no reference among its keys.
unfoldable mutual
  pub IsWithin : ℕ → Json → Type 0
  IsWithin depth (str s) =
      (depth ≤ max_schema_depth) × (leb (count s) max_schema_string_chars ≡ true)
  IsWithin depth (float finite s) = (depth ≤ max_schema_depth) × (finite ≡ true)
  IsWithin depth (arr xs) = (depth ≤ max_schema_depth) × AreWithin (suc depth) xs
  IsWithin depth (obj fs) = (depth ≤ max_schema_depth) × FieldsWithin (suc depth) fs
  IsWithin depth _ = depth ≤ max_schema_depth

  pub AreWithin : ℕ → Items → Type 0
  AreWithin depth nil = Unit
  AreWithin depth (item x xs) = IsWithin depth x × AreWithin depth xs

  pub FieldsWithin : ℕ → Fields → Type 0
  FieldsWithin depth end = Unit
  FieldsWithin depth (field k v fs) =
      (is_schema_key k ≡ true) × IsWithin depth v × FieldsWithin depth fs

enter_iff :
    (depth budget left : ℕ)
    → (enter depth budget ≡ some left) ↔ ((depth ≤ max_schema_depth) × (suc left ≡ budget))
enter_iff depth budget left = (λ h. ground arith, λ h. ground arith)

leaf :
    (depth b : ℕ) (v w : Json) (left : ℕ)
    → ◌>>=◌ {B = Json × ℕ} (enter depth b) (λ l. some (v, l)) ≡ some (w, left)
    → (w ≡ v) × (left + 1 ≡ b) × (depth ≤ max_schema_depth)
leaf depth b v w left h =
    let (l, entered, h1) = >>=-eq-some (enter depth b) _ h in
    let (deep, paid) = (enter_iff depth b l).0 entered in
    let last : l ≡ left = cc in (cc, omega (arith, paid, last), deep)

mutual
  unfolding copy_json nodes IsWithin

  copy_json_inv :
      (depth : ℕ) (v w : Json) (b left : ℕ)
      → copy_json depth v b ≡ some (w, left)
      → (w ≡ v) × (left + nodes v ≡ b) × IsWithin depth v
  copy_json_inv depth (str s) w b left h =
      let (l, entered, h1) = >>=-eq-some (enter depth b) _ h in
      let (fits, h2) = guard-eq-some (leb (count s) max_schema_string_chars) _ h1 in
      let (deep, paid) = (enter_iff depth b l).0 entered in
      let last : l ≡ left = cc in (cc, omega (arith, paid, last), (deep, fits))
  copy_json_inv depth (float finite s) w b left h =
      let (l, entered, h1) = >>=-eq-some (enter depth b) _ h in
      let (fits, h2) = guard-eq-some finite _ h1 in
      let (deep, paid) = (enter_iff depth b l).0 entered in
      let last : l ≡ left = cc in (cc, omega (arith, paid, last), (deep, fits))
  copy_json_inv depth (arr xs) w b left h =
      let (l, entered, h1) = >>=-eq-some (enter depth b) _ h in
      let (r, copied, h2) = >>=-eq-some (copy_items (suc depth) xs l) _ h1 in
      let (deep, paid) = (enter_iff depth b l).0 entered in
      let (same, spent, within) = copy_items_inv (suc depth) xs r.0 l r.1 copied in
      let last : r.1 ≡ left = cc in
      let same' : arr r.0 ≡ w = cc in
      (sym same' ∙ ap arr same, omega (arith, paid, spent, last), (deep, within))
  copy_json_inv depth (obj fs) w b left h =
      let (l, entered, h1) = >>=-eq-some (enter depth b) _ h in
      let (r, copied, h2) = >>=-eq-some (copy_fields (suc depth) fs l) _ h1 in
      let (deep, paid) = (enter_iff depth b l).0 entered in
      let (same, spent, within) = copy_fields_inv (suc depth) fs r.0 l r.1 copied in
      let last : r.1 ≡ left = cc in
      let same' : obj r.0 ≡ w = cc in
      (sym same' ∙ ap obj same, omega (arith, paid, spent, last), (deep, within))
  copy_json_inv depth null w b left h = leaf depth b null w left h
  copy_json_inv depth (bool t) w b left h = leaf depth b (bool t) w left h
  copy_json_inv depth (int n) w b left h = leaf depth b (int n) w left h

  copy_items_inv :
      (depth : ℕ) (xs ys : Items) (b left : ℕ)
      → copy_items depth xs b ≡ some (ys, left)
      → (ys ≡ xs) × (left + item_nodes xs ≡ b) × AreWithin depth xs
  copy_items_inv depth nil ys b left h = let last : b ≡ left = cc in (cc, omega (arith, last), tt)
  copy_items_inv depth (item x xs) ys b left h =
      let (one, first, h1) = >>=-eq-some (copy_json depth x b) _ h in
      let (more, rest, h2) = >>=-eq-some (copy_items depth xs one.1) _ h1 in
      let (same, spent, within) = copy_json_inv depth x one.0 b one.1 first in
      let (same', spent', within') = copy_items_inv depth xs more.0 one.1 more.1 rest in
      let last : more.1 ≡ left = cc in
      let all : item one.0 more.0 ≡ ys = cc in
      (cc, omega (arith, spent, spent', last), (within, within'))

  copy_fields_inv :
      (depth : ℕ) (fs gs : Fields) (b left : ℕ)
      → copy_fields depth fs b ≡ some (gs, left)
      → (gs ≡ fs) × (left + field_nodes fs ≡ b) × FieldsWithin depth fs
  copy_fields_inv depth end gs b left h = let last : b ≡ left = cc in (cc, omega (arith, last), tt)
  copy_fields_inv depth (field k v fs) gs b left h =
      let (key, h0) = guard-eq-some (is_schema_key k) _ h in
      let (one, first, h1) = >>=-eq-some (copy_json depth v b) _ h0 in
      let (more, rest, h2) = >>=-eq-some (copy_fields depth fs one.1) _ h1 in
      let (same, spent, within) = copy_json_inv depth v one.0 b one.1 first in
      let (same', spent', within') = copy_fields_inv depth fs more.0 one.1 more.1 rest in
      let last : more.1 ≡ left = cc in
      let all : field k one.0 more.0 ≡ gs = cc in
      (cc, omega (arith, spent, spent', last), (key, within, within'))

mutual
  unfolding copy_json nodes IsWithin

  copy_json_of :
      (depth : ℕ) (v : Json) (b left : ℕ)
      → IsWithin depth v
      → left + nodes v ≡ b
      → copy_json depth v b ≡ some (v, left)
  copy_json_of depth (str s) b left within paid =
      rw ((enter_iff depth b left).1 (within.0, omega (arith, paid))) (rw within.1 refl)
  copy_json_of depth (float finite s) b left within paid =
      rw ((enter_iff depth b left).1 (within.0, omega (arith, paid))) (rw within.1 refl)
  copy_json_of depth (arr xs) b left within paid =
      rw ((enter_iff depth b (left + item_nodes xs)).1 (within.0, omega (arith, paid)))
        (rw (copy_items_of (suc depth) xs (left + item_nodes xs) left within.1 refl) refl)
  copy_json_of depth (obj fs) b left within paid =
      rw ((enter_iff depth b (left + field_nodes fs)).1 (within.0, omega (arith, paid)))
        (rw (copy_fields_of (suc depth) fs (left + field_nodes fs) left within.1 refl) refl)
  copy_json_of depth null b left within paid =
      rw ((enter_iff depth b left).1 (within, omega (arith, paid))) refl
  copy_json_of depth (bool t) b left within paid =
      rw ((enter_iff depth b left).1 (within, omega (arith, paid))) refl
  copy_json_of depth (int n) b left within paid =
      rw ((enter_iff depth b left).1 (within, omega (arith, paid))) refl

  copy_items_of :
      (depth : ℕ) (xs : Items) (b left : ℕ)
      → AreWithin depth xs
      → left + item_nodes xs ≡ b
      → copy_items depth xs b ≡ some (xs, left)
  copy_items_of depth nil b left within paid =
      let same : b ≡ left = omega (arith, paid) in rw same refl
  copy_items_of depth (item x xs) b left within paid =
      rw (copy_json_of depth x b (left + item_nodes xs) within.0 (omega (arith, paid)))
        (rw (copy_items_of depth xs (left + item_nodes xs) left within.1 refl) refl)

  copy_fields_of :
      (depth : ℕ) (fs : Fields) (b left : ℕ)
      → FieldsWithin depth fs
      → left + field_nodes fs ≡ b
      → copy_fields depth fs b ≡ some (fs, left)
  copy_fields_of depth end b left within paid =
      let same : b ≡ left = omega (arith, paid) in rw same refl
  copy_fields_of depth (field k v fs) b left (key, within, within') paid = rw key (
      rw (copy_json_of depth v b (left + field_nodes fs) within (omega (arith, paid)))
        (rw (copy_fields_of depth fs (left + field_nodes fs) left within' refl) refl))

-- A value is taken as a schema exactly when it is an object of at most 1024 nodes, at most 16 deep, with
-- short texts and keys, finite numbers and no reference; the copy that is validated has its fields.
pub bounded_json_schema_iff :
    (v : Json) (copied : Object)
    → (bounded_json_schema v ≡ some copied) ↔ (
        (fs : Fields) × (v ≡ obj fs)
        × (fields fs ≡ copied)
        × IsWithin 0 v
        × (nodes v ≤ max_schema_nodes))
unfolding bounded_json_schema
bounded_json_schema_iff v copied = (to, from)
  where
    shape :
        (w : Json)
        → object_of (some w) ≡ some copied
        → (fs : Fields) × (w ≡ obj fs) × (fields fs ≡ copied)
    shape (obj fs) h = (fs, refl, cc)
    shape _ h = cc

    to :
        (copy_json 0 v max_schema_nodes >>= λ r. object_of (some r.0)) ≡ some copied
        → (fs : Fields) × (v ≡ obj fs)
          × (fields fs ≡ copied)
          × IsWithin 0 v
          × (nodes v ≤ max_schema_nodes)
    to h =
        let (r, made, h1) = >>=-eq-some (copy_json 0 v max_schema_nodes) _ h in
        let (same, paid, within) = copy_json_inv 0 v r.0 max_schema_nodes r.1 made in
        let (fs, is_object, held) = shape r.0 h1 in
        (fs, sym same ∙ is_object, held, within, omega (arith, paid))

    from :
        (fs : Fields) × (v ≡ obj fs)
          × (fields fs ≡ copied)
          × IsWithin 0 v
          × (nodes v ≤ max_schema_nodes)
        → (copy_json 0 v max_schema_nodes >>= λ r. object_of (some r.0)) ≡ some copied
    from (fs, is_object, held, within, few) =
        rw
          (copy_json_of 0 v max_schema_nodes (max_schema_nodes - nodes v) within
            (omega (arith, few)))
          (rw is_object (ap some held))
