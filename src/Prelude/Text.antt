-- ===== src/Prelude/Text.antt =====
-- Sets and mappings with text keys, as the program's `set`, `frozenset` and `dict` values.
use Prim.Native.String.{String}
use mathlib.Core.Path.{◌≡◌}
use mathlib.Core.Logic.{◌⊎◌, inl, inr}
use mathlib.Core.Bool.{Bool, true, false, ◌&&◌}
use mathlib.Core.Option.{Option, none, some}
use mathlib.Core.List.{List, [], ◌∷◌, map}
use native.Mathlib.Omega.{arith}
use text.Mathlib.Text.{◌==◌}
use text.Mathlib.TextEquality.{eq_iff}
use dogqoder.Prelude.Tests.{if◌then◌else◌, is_some, Bool-cases}
use dogqoder.Prelude.Lists.{all, any}

-- `x in xs`
abbrev pub contains : List String → String → Bool
contains xs x = any (λ y. y == x) xs

-- No text is listed twice.
abbrev pub AllDistinct : List String → Type 0
AllDistinct [] = Unit
AllDistinct (x ∷ xs) = (contains xs x ≡ false) × AllDistinct xs

-- `set(xs) <= set(ys)`
abbrev pub subset : List String → List String → Bool
subset xs ys = all (λ x. contains ys x) xs

-- `set(xs) == set(ys)`
abbrev pub same_set : List String → List String → Bool
same_set xs ys = subset xs ys && subset ys xs

module _ {ℓ} {V : Type ℓ} where
  -- `d.get(k)`
  abbrev pub lookup : String → List (String × V) → Option V
  lookup k [] = none
  lookup k ((j, v) ∷ m) = if j == k then some v else lookup k m

  -- `k in d`
  abbrev pub has : String → List (String × V) → Bool
  has k m = is_some (lookup k m)

  -- `set(d)`
  abbrev pub keys : List (String × V) → List String
  keys = map (λ e. e.0)

-- Membership as a proposition by recursion.
abbrev pub Contains : String → List String → Type 0
Contains x [] = ⊥
Contains x (y ∷ ys) = (y ≡ x) ⊎ Contains x ys

pub Contains-of-contains : (x : String) (xs : List String) → contains xs x ≡ true → Contains x xs
Contains-of-contains x [] h = ground arith
Contains-of-contains x (y ∷ ys) h = elim (Bool-cases (y == x)) [
  | inl e ↦ inl ((eq_iff y x).0 e)
  | inr e ↦ inr (Contains-of-contains x ys (rw e at h))
]

pub contains-of-Contains : (x : String) (xs : List String) → Contains x xs → contains xs x ≡ true
contains-of-Contains x [] h = absurd h
contains-of-Contains x (y ∷ ys) (inl e) = rw ((eq_iff y x).1 e)
contains-of-Contains x (y ∷ ys) (inr h) = ground (arith, contains-of-Contains x ys h)
