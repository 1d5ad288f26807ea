-- ===== src/Regex.antt =====
-- The regular expressions of the program: the constructs of Python's `re` that its patterns use,
-- and a backtracking matcher that finds matches in `re`'s order of preference.
use Prim.Native.Char.{code}
use Prim.Native.String.{String, ◌++◌ as append}
use dogqoder.Chars.{codes}
use dogqoder.Prelude.{
  ℕ, zero, suc, ◌-◌, Bool, true, false, not, Option, none, some, List, [], ◌∷◌, ◌++◌, ◌||◌, nat_eq,
  any, length,
}

pub data Regex : Type 0 where
  empty : Regex
  set : (ℕ → Bool) → Regex
  seq : Regex → Regex → Regex
  alt : Regex → Regex → Regex
  repeat : ℕ → Option ℕ → Regex → Regex
  start : Regex
  boundary : (ℕ → Bool) → Regex
  not_after : (ℕ → Bool) → Regex
  not_before : (ℕ → Bool) → Regex

-- Where a match stands: the character before, and the text that is left.
pub record Cursor : Type 0 where
  pub before : Option ℕ
  pub rest : List ℕ

abbrev pub holds : (ℕ → Bool) → Option ℕ → Bool
holds p none = false
holds p (some c) = p c

abbrev pub first : List ℕ → Option ℕ
first [] = none
first (c ∷ s) = some c

abbrev pub bind {ℓ κ} : {A : Type ℓ} {B : Type κ} → List A → (A → List B) → List B
bind [] f = []
bind (x ∷ xs) f = f x ++ bind xs f

abbrev pub when : Bool → Cursor → List Cursor
when true at = at ∷ []
when false at = []

-- One character of a class.
unfoldable pub step : (ℕ → Bool) → Option ℕ → List ℕ → List Cursor
step p before [] = []
step p before (c ∷ s) = when (p c) (record { before = some c; rest = s })

-- Greedy repetition: at most `k` rounds more, of which `least` must still come.
unfoldable pub greedy : (Cursor → List Cursor) → ℕ → ℕ → Cursor → List Cursor
greedy once zero least at = when (nat_eq least 0) at
greedy once (suc k) least at =
    bind (once at) (greedy once k (least - 1)) ++ when (nat_eq least 0) at

abbrev pub xor_bool : Bool → Bool → Bool
xor_bool true b = not b
xor_bool false b = b

-- The ends of the matches from a cursor, the preferred one first. Every repeated part takes at least
-- one character, so no more rounds than characters are left can follow.
unfoldable pub matches : Regex → Cursor → List Cursor
unfolding step greedy
matches empty at = at ∷ []
matches (set p) at = step p at.before at.rest
matches (seq r t) at = bind (matches r at) (matches t)
matches (alt r t) at = matches r at ++ matches t at
matches (repeat least none r) at = greedy (matches r) (length at.rest) least at
matches (repeat least (some most) r) at = greedy (matches r) most least at
matches start at = elim at.before [ none ↦ at ∷ [] | some c ↦ [] ]
matches (boundary word) at = when (xor_bool (holds word at.before) (holds word (first at.rest))) at
matches (not_after p) at = when (not (holds p at.before)) at
matches (not_before p) at = when (not (holds p (first at.rest))) at

abbrev pub is_end : Cursor → Bool
is_end at = nat_eq (length at.rest) 0

-- `fullmatch`
unfoldable pub fullmatch : Regex → List ℕ → Bool
unfolding matches
fullmatch r s = any is_end (matches r (record { before = none; rest = s }))

unfoldable pub search_from : Regex → Option ℕ → List ℕ → Bool
unfolding matches
search_from r before [] = any (λ _. true) (matches r (record { before = before; rest = [] }))
search_from r before (c ∷ s) =
    let later = search_from r (some c) s in
    any (λ _. true) (matches r (record { before = before; rest = c ∷ s })) || later

-- `search`, as a truth value.
unfoldable pub found : Regex → List ℕ → Bool
unfolding search_from
found r s = search_from r none s

-- `sub` with a constant replacement: the matches from left to right, each the preferred one; `skip`
-- characters of the last match are still to be passed over. No pattern matches the empty text.
unfoldable pub substitute_from : Regex → String → ℕ → Option ℕ → String → String
unfolding matches
substitute_from r replacement skip before String.[] = ""
substitute_from r replacement (suc n) before (String.◌∷◌ c s) =
    substitute_from r replacement n (some (code c)) s
substitute_from r replacement zero before (String.◌∷◌ c s) =
    elim (matches r (record { before = before; rest = code c ∷ codes s })) [
      | [] ↦ String.◌∷◌ c (substitute_from r replacement zero (some (code c)) s)
      | end ∷ _ ↦
          append replacement
            (substitute_from r replacement (length (codes s) - length end.rest) (some (code c)) s)
    ]

unfoldable pub substitute : Regex → String → String → String
unfolding substitute_from
substitute r replacement s = substitute_from r replacement 0 none s
