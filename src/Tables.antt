-- ===== src/Tables.antt =====
-- The statements of SQL that the store runs on its tables, over lists of rows in insertion order.
use dogqoder.Prelude.{
  ◌≡◌, refl, Bool, true, false, Option, none, some, List, [], ◌∷◌, ◌++◌, any, arith, if◌then◌else◌,
}
use mathlib.Core.Option

module _ {ℓ} {A : Type ℓ} where
  -- `SELECT … WHERE p`, for a `p` that at most one row meets.
  abbrev pub select : (A → Bool) → List A → Option A
  select p [] = none
  select p (x ∷ xs) = let rest = select p xs in if p x then some x else rest

  -- `UPDATE … WHERE p`
  abbrev pub update_where : (A → Bool) → (A → A) → List A → List A
  update_where p f [] = []
  update_where p f (x ∷ xs) = (if p x then f x else x) ∷ update_where p f xs

  -- `COALESCE(new, old)`
  abbrev pub coalesce : Option A → Option A → Option A
  coalesce none old = old
  coalesce (some new) old = some new

  -- The rows that an update leaves where another test looks.
  pub select-update_where :
      (p q : A → Bool) (f : A → A) (xs : List A)
      → ((x : A) → q (f x) ≡ q x)
      → ((x : A) → q x ≡ true → p x ≡ true)
      → select q (update_where p f xs) ≡ Option.map f (select q xs)
  select-update_where p q f [] keeps inside = refl
  select-update_where p q f (x ∷ xs) keeps inside =
      ground (arith, select-update_where p q f xs keeps inside, keeps x, inside x)

  pub select-update_where_other :
      (p q : A → Bool) (f : A → A) (xs : List A)
      → ((x : A) → q (f x) ≡ q x)
      → ((x : A) → q x ≡ true → p x ≡ false)
      → select q (update_where p f xs) ≡ select q xs
  select-update_where_other p q f [] keeps outside = refl
  select-update_where_other p q f (x ∷ xs) keeps outside =
      ground (arith, select-update_where_other p q f xs keeps outside, keeps x, outside x)

  pub select-snoc :
      (q : A → Bool) (xs : List A) (y : A)
      → select q (xs ++ y ∷ [])
        ≡ (elim (select q xs) [ some x ↦ some x | none ↦ if q y then some y else none ])
  select-snoc q [] y = ground arith
  select-snoc q (x ∷ xs) y = ground (arith, select-snoc q xs y)

  pub any-select : (p : A → Bool) (xs : List A) → select p xs ≡ none → any p xs ≡ false
  any-select p [] h = refl
  any-select p (x ∷ xs) h = ground (arith, any-select p xs)
