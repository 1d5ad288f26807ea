-- ===== src/Redaction/Keys.antt =====
-- The search of `_unique_result_key` in src/qworker/store.py ends: the numbered keys differ from each
-- other, so that a set of keys does not hold as many of them as it has keys and one more.
use mathlib.Core.Path.{subst}
use Prim.Native.Char.{code}
use Prim.Native.String.{String, ◌++◌}
use text.Mathlib.TextLemmas.{nil-append, cons-append}
use dogqoder.Prelude.{
  ℕ, zero, suc, ◌+◌, ◌-◌, ◌*◌, ◌/◌, ◌%◌, ◌<◌, ◌≤◌, ◌≡◌, refl, sym, ap, ◌∙◌, Bool, true, false, not,
  List, [], ◌∷◌, ◌&&◌, ◌==◌, arith, eq_iff, nat_eq, ltb, contains, keep, length, Bool-cases, inl,
  inr, if◌then◌else◌,
}
use dogqoder.Redaction.{digit, decimal, suffix, suffixed, next_key, unique_result_key}

-- The number behind the last `#` of a text, read after `n`.
read_number : ℕ → String → ℕ
read_number n String.[] = n
read_number n (String.◌∷◌ c s) =
    if nat_eq (code c) 35 then read_number 0 s else read_number (n * 10 + (code c - 48)) s

code-digit : (d : ℕ) → d < 10 → code (digit d) ≡ 48 + d
code-digit zero h = refl
code-digit (suc zero) h = refl
code-digit (suc (suc zero)) h = refl
code-digit (suc (suc (suc zero))) h = refl
code-digit (suc (suc (suc (suc zero)))) h = refl
code-digit (suc (suc (suc (suc (suc zero))))) h = refl
code-digit (suc (suc (suc (suc (suc (suc zero)))))) h = refl
code-digit (suc (suc (suc (suc (suc (suc (suc zero))))))) h = refl
code-digit (suc (suc (suc (suc (suc (suc (suc (suc zero)))))))) h = refl
code-digit (suc (suc (suc (suc (suc (suc (suc (suc (suc zero))))))))) h = refl
code-digit (suc (suc (suc (suc (suc (suc (suc (suc (suc (suc d)))))))))) h =
    absurd (omega (arith, h))

read_digit :
    (n d : ℕ) (s : String)
    → d < 10
    → read_number n (String.◌∷◌ (digit d) s) ≡ read_number (n * 10 + d) s
unfolding read_number
read_digit n d s h = rw (code-digit d h, not_hash, taken_off) refl
  where
    not_hash : nat_eq (48 + d) 35 ≡ false
    not_hash = ground arith

    taken_off : 48 + d - 48 ≡ d
    taken_off = omega arith

read_decimal :
    (fuel n : ℕ) (s : String) → n < fuel → read_number 0 (decimal fuel n s) ≡ read_number n s
unfolding decimal
read_decimal zero n s h = absurd (omega (arith, h))
read_decimal (suc fuel) n s h = elim (Bool-cases (ltb n 10)) [
  | inl small ↦ rw small (read_digit 0 n s (ground arith) ∙ ap (λ m. read_number m s) (omega arith))
  | inr large ↦
      let ten : 10 ≤ n = ground arith in
      rw large (
        read_decimal fuel (n / 10) (String.◌∷◌ (digit (n % 10)) s) (omega (arith, h, ten))
        ∙ read_digit (n / 10) (n % 10) s (omega arith)
        ∙ ap (λ m. read_number m s) (omega arith))
]

-- Whatever stands before a suffix, its number is read.
read_suffix : (n : ℕ) (before : String) (index : ℕ) → read_number n (before ++ suffix index) ≡ index
unfolding read_number suffix
read_suffix n String.[] index =
    rw (nil-append (suffix index)) (read_decimal (suc index) index "" (omega arith))
read_suffix n (String.◌∷◌ c before) index =
    rw (cons-append c before (suffix index)) (elim (Bool-cases (nat_eq (code c) 35)) [
      | inl e ↦ rw e (read_suffix 0 before index)
      | inr e ↦ rw e (read_suffix (n * 10 + (code c - 48)) before index)
    ])

suffixed_injective :
    (candidate : String) (m n : ℕ) → suffixed candidate m ≡ suffixed candidate n → m ≡ n
unfolding suffixed
suffixed_injective candidate m n h =
    sym (read_suffix 0 _ m) ∙ ap (read_number 0) h ∙ read_suffix 0 _ n

and_not : {t : Bool} (b : Bool) → t ≡ false → (b && not t) ≡ b
and_not b h = ground arith

-- The other keys.
without : String → List String → List String
without key existing = keep (λ x. not (x == key)) existing

contains-without :
    (key : String) (existing : List String) (x : String)
    → contains (without key existing) x ≡ (contains existing x && not (x == key))
unfolding without
contains-without key [] x = refl
contains-without key (y ∷ ys) x =
    ground (arith, contains-without key ys x, eq_iff y key, eq_iff y x, eq_iff x key)

length-without_le :
    (key : String) (existing : List String) → length (without key existing) ≤ length existing
unfolding without
length-without_le key [] = omega arith
length-without_le key (y ∷ ys) = ground (arith, length-without_le key ys)

length-without :
    (key : String) (existing : List String)
    → contains existing key ≡ true
    → length (without key existing) < length existing
unfolding without
length-without key [] h = cc
length-without key (y ∷ ys) h = ground (arith, length-without key ys, length-without_le key ys)

-- The search looks only at the keys from its index on.
next_key-cong :
    (fuel index : ℕ) (candidate : String) (existing existing' : List String)
    → ((m : ℕ)
        → index ≤ m
        → contains existing (suffixed candidate m) ≡ contains existing' (suffixed candidate m))
    → next_key fuel index candidate existing ≡ next_key fuel index candidate existing'
unfolding next_key
next_key-cong zero index candidate existing existing' same = refl
next_key-cong (suc fuel) index candidate existing existing' same =
    rw
      (
        same index (omega arith),
        next_key-cong fuel (suc index) candidate existing existing'
            (λ m h. same m (omega (arith, h))),
      )
      refl

next_key_from :
    (fuel index : ℕ) (candidate : String) (existing : List String)
    → (m : ℕ) × (next_key fuel index candidate existing ≡ suffixed candidate m) × (index ≤ m)
unfolding next_key
next_key_from zero index candidate existing = (index, refl, omega arith)
next_key_from (suc fuel) index candidate existing =
    elim (Bool-cases (contains existing (suffixed candidate index))) [
      | inl e ↦
          let (m, at, le) = next_key_from fuel (suc index) candidate existing in
          rw e (m, at, omega (arith, le))
      | inr e ↦ rw e (index, refl, omega arith)
    ]

-- Numbered keys differ by their numbers.
suffixed-ne :
    (candidate : String) (m n : ℕ) → n < m → (suffixed candidate m == suffixed candidate n) ≡ false
suffixed-ne candidate m n h = elim (Bool-cases (suffixed candidate m == suffixed candidate n)) [
  | inl e ↦ absurd (
      omega (
        arith,
        h,
        suffixed_injective candidate m n
            ((eq_iff (suffixed candidate m) (suffixed candidate n)).0 e),
      ))
  | inr e ↦ e
]

-- Past a taken key, the search is that among the other keys.
after_taken :
    (fuel index : ℕ) (candidate : String) (existing : List String)
    → let others = without (suffixed candidate index) existing in
      contains others (next_key fuel (suc index) candidate others) ≡ false
      → contains existing (next_key fuel (suc index) candidate existing) ≡ false
after_taken fuel index candidate existing free =
    let others = without (suffixed candidate index) existing in
    let unchanged : (m : ℕ)
        → suc index ≤ m
        → contains existing (suffixed candidate m) ≡ contains others (suffixed candidate m) =
      λ m after. sym (
        contains-without (suffixed candidate index) existing (suffixed candidate m)
        ∙ and_not (contains existing (suffixed candidate m))
            (suffixed-ne candidate m index (omega (arith, after)))) in
    let (m, found, le) = next_key_from fuel (suc index) candidate existing in
    let same = next_key-cong fuel (suc index) candidate existing others unchanged in
    rw found (unchanged m le ∙ subst (λ x. contains others x ≡ false) (sym same ∙ found) free)

next_key_free :
    (fuel index : ℕ) (candidate : String) (existing : List String)
    → length existing ≤ fuel
    → contains existing (next_key fuel index candidate existing) ≡ false
unfolding next_key
next_key_free zero index candidate [] h = refl
next_key_free zero index candidate (x ∷ xs) h = absurd (omega (arith, h))
next_key_free (suc fuel) index candidate existing h =
    elim (Bool-cases (contains existing (suffixed candidate index))) [
      | inl e ↦ rw e (
          after_taken fuel index candidate existing (
            next_key_free fuel (suc index) candidate (without (suffixed candidate index) existing)
              (omega (arith, h, length-without (suffixed candidate index) existing e))))
      | inr e ↦ rw e e
    ]

-- A chosen key is new: it is never among the keys that are there already, however many they are.
pub contains-unique_result_key :
    (candidate : String) (existing : List String)
    → contains existing (unique_result_key candidate existing) ≡ false
unfolding unique_result_key
contains-unique_result_key candidate existing = elim (Bool-cases (contains existing candidate)) [
  | inl e ↦ rw e (next_key_free (length existing) 2 candidate existing (omega arith))
  | inr e ↦ rw e e
]
