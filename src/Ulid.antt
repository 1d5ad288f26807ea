-- ===== src/Ulid.antt =====
-- `_new_ulid` of src/qworker/store.py and `new_request_id` of src/qworker/control.py, which are the
-- same function of the clock and of eighty random bits.
pub mod Reading
use Prim.Native.String.{String, char_at}
use dogqoder.Prelude.{ℕ, zero, suc, ◌+◌, ◌*◌, ◌/◌, ◌%◌, ◌^◌}

-- `_CROCKFORD_BASE32`
abbrev pub crockford_base32 : String
crockford_base32 = "0123456789ABCDEFGHJKMNPQRSTVWXYZ"

-- The rounds of the loop, with the characters so far in front order.
unfoldable pub ulid_digits : ℕ → ℕ → String → String
ulid_digits zero value characters = characters
ulid_digits (suc n) value characters =
    ulid_digits n (value / 32) (String.◌∷◌ (char_at crockford_base32 (value % 32)) characters)

-- `time.time_ns()` and `secrets.randbits(80)`; the bits lie below 2 ^ 80, so `|` is `+`.
unfoldable pub new_ulid : ℕ → ℕ → String
unfolding ulid_digits
new_ulid time_ns bits = ulid_digits 26 (time_ns / 1000000 * 2 ^ 80 + bits) ""
