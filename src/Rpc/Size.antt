-- ===== src/Rpc/Size.antt =====
-- The length of a frame on the wire: `json.dumps` with the separators "," and ":" writes ASCII only, so
-- the bytes of `_write_frame` in src/qworker/rpc.py are counted character by character.
use Prim.Native.String.{count}
use dogqoder.Prelude.{
  ℕ, zero, suc, ◌+◌, ◌/◌, Bool, true, false, String, List, [], ◌∷◌, ◌&&◌, ◌||◌, leb, ltb, nat_eq,
  if◌then◌else◌,
}
use dogqoder.Chars.{codes}
use dogqoder.Json.{
  ℤ, Json, Items, Fields, Object, null, bool, int, float, str, arr, obj, nil, item, end, field,
  from_fields,
}

-- The characters of one code point: itself, an escape of two, one `\u` escape, or a surrogate pair.
abbrev pub escape_size : ℕ → ℕ
escape_size c =
    if nat_eq c b'"'
      || nat_eq c 0x5c
      || nat_eq c 8
      || nat_eq c 9
      || nat_eq c 10
      || nat_eq c 12
      || nat_eq c 13
    then 2
    else if leb 32 c && leb c 126
    then 1
    else if leb c 0xffff
    then 6
    else 12

abbrev pub escaped_size : List ℕ → ℕ
escaped_size [] = 0
escaped_size (c ∷ cs) = escape_size c + escaped_size cs

abbrev pub text_size : String → ℕ
text_size s = escaped_size (codes s) + 2

-- The decimal digits of a number; every step divides it by ten, so it has fewer steps than itself.
abbrev pub digits : ℕ → ℕ → ℕ
digits zero n = 1
digits (suc fuel) n = let more = suc (digits fuel (n / 10)) in if ltb n 10 then 1 else more

abbrev pub int_size : ℤ → ℕ
int_size (ℤ.pos n) = digits n n
int_size (ℤ.negsuc n) = suc (digits (suc n) (suc n))

unfoldable mutual
  pub size : Json → ℕ
  size null = 4
  size (bool true) = 4
  size (bool false) = 5
  size (int n) = int_size n
  size (float finite s) = count s
  size (str s) = text_size s
  size (arr nil) = 2
  size (arr (item x xs)) = 2 + size x + more_items xs
  size (obj end) = 2
  size (obj (field k v fs)) = 3 + text_size k + size v + more_fields fs

  pub more_items : Items → ℕ
  more_items nil = 0
  more_items (item x xs) = 1 + size x + more_items xs

  pub more_fields : Fields → ℕ
  more_fields end = 0
  more_fields (field k v fs) = 2 + text_size k + size v + more_fields fs

-- `_MAX_FRAME_BYTES`
abbrev pub max_frame_bytes : ℕ
max_frame_bytes = 4194304

-- `len(encoded) <= _MAX_FRAME_BYTES` in `_write_frame`, the newline counted.
unfoldable pub fits : Object → Bool
unfolding size
fits frame = leb (size (obj (from_fields frame)) + 1) max_frame_bytes
