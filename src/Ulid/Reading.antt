-- ===== src/Ulid/Reading.antt =====
-- The identifiers of `_new_ulid` in src/qworker/store.py are read back to the clock and the random bits
-- that they were made of.
use Prim.Native.Char.{Char, code}
use Prim.Native.String.{String, char_at}
use dogqoder.Prelude.{
  ℕ, zero, suc, ◌+◌, ◌*◌, ◌/◌, ◌%◌, ◌^◌, ◌<◌, ◌≡◌, refl, ap, ◌∙◌, Bool, true, ◌&&◌, arith, nat_eq,
  nat_eq_iff, ◌⊎◌, inl, inr, if◌then◌else◌,
}
use dogqoder.Ulid.{crockford_base32, ulid_digits, new_ulid}

-- Where a character stands in a text, counted from `n` on.
abbrev place : ℕ → ℕ → String → ℕ
place c n String.[] = n
place c n (String.◌∷◌ d s) = let later = place c (suc n) s in if nat_eq c (code d) then n else later

abbrev pub digit_value : Char → ℕ
digit_value c = place (code c) 0 crockford_base32

-- The number that a text of digits stands for, read after `n`.
pub read_ulid : ℕ → String → ℕ
read_ulid n String.[] = n
read_ulid n (String.◌∷◌ c s) = read_ulid (n * 32 + digit_value c) s

abbrev all_below : (ℕ → Bool) → ℕ → Bool
all_below p zero = true
all_below p (suc n) = p n && all_below p n

all_below_inv : (p : ℕ → Bool) (n d : ℕ) → all_below p n ≡ true → d < n → p d ≡ true
all_below_inv p zero d h lt = absurd (omega (arith, lt))
all_below_inv p (suc n) d h lt = elim (nat_cases d n lt) [
  | inl e ↦ rw e (ground arith)
  | inr below ↦ all_below_inv p n d (ground arith) below
]
  where
    nat_cases : (a b : ℕ) → a < suc b → (a ≡ b) ⊎ (a < b)
    nat_cases a b le = ground arith

digit_value-char_at : (d : ℕ) → d < 32 → digit_value (char_at crockford_base32 d) ≡ d
digit_value-char_at d h =
    (nat_eq_iff (digit_value (char_at crockford_base32 d)) d).0
      (all_below_inv (λ k. nat_eq (digit_value (char_at crockford_base32 k)) k) 32 d refl h)

abbrev power : ℕ → ℕ
power zero = 1
power (suc k) = power k * 32

read_ulid-ulid_digits :
    (k value : ℕ) (s : String)
    → value < power k
    → read_ulid 0 (ulid_digits k value s) ≡ read_ulid value s
unfolding ulid_digits read_ulid
read_ulid-ulid_digits zero value s h = ap (λ n. read_ulid n s) (omega (arith, h))
read_ulid-ulid_digits (suc k) value s h =
    read_ulid-ulid_digits k (value / 32) (String.◌∷◌ (char_at crockford_base32 (value % 32)) s)
      (omega (arith, h))
    ∙ ap (λ d. read_ulid (value / 32 * 32 + d) s) (digit_value-char_at (value % 32) (omega arith))
    ∙ ap (λ n. read_ulid n s) (omega arith)

in_range : (time bits : ℕ) → time < 2 ^ 48 → bits < 2 ^ 80 → time * 2 ^ 80 + bits < power 26
in_range time bits soon few = omega (arith, soon, few)

split_value :
    (time bits value : ℕ)
    → value ≡ time * 2 ^ 80 + bits
    → bits < 2 ^ 80
    → (value / 2 ^ 80 ≡ time) × (value % 2 ^ 80 ≡ bits)
split_value time bits value h few = (omega (arith, h, few), omega (arith, h, few))

value_of :
    (time_ns bits : ℕ)
    → time_ns / 1000000 < 2 ^ 48
    → bits < 2 ^ 80
    → read_ulid 0 (new_ulid time_ns bits) ≡ time_ns / 1000000 * 2 ^ 80 + bits
unfolding new_ulid read_ulid
value_of time_ns bits soon few =
    read_ulid-ulid_digits 26 (time_ns / 1000000 * 2 ^ 80 + bits) ""
      (in_range (time_ns / 1000000) bits soon few)

-- Until the clock needs more than 48 bits, an identifier read as a number in base 32 is the time in
-- milliseconds before the 80 random bits, so that equal identifiers have equal times and bits.
pub read_ulid-new_ulid :
    (time_ns bits : ℕ)
    → time_ns / 1000000 < 2 ^ 48
    → bits < 2 ^ 80
    → let read = read_ulid 0 (new_ulid time_ns bits) in
      (read / 2 ^ 80 ≡ time_ns / 1000000) × (read % 2 ^ 80 ≡ bits)
read_ulid-new_ulid time_ns bits soon few =
    split_value (time_ns / 1000000) bits (read_ulid 0 (new_ulid time_ns bits))
      (value_of time_ns bits soon few) few
