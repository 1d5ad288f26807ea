-- ===== src/Chars.antt =====
-- Texts as the lists of their code points, and the character classes of Python's `str` and `re`
-- that the program goes by.
use Prim.Native.Char.{code}
use Prim.Native.String.{String}
use dogqoder.Prelude.{ℕ, ◌+◌, Bool, false, List, [], ◌∷◌, ◌&&◌, ◌||◌, leb, nat_eq, if◌then◌else◌}

abbrev pub codes : String → List ℕ
codes String.[] = []
codes (String.◌∷◌ c s) = code c ∷ codes s

-- `str.isspace` of one character, by which `str.strip` and `\s` go.
unfoldable pub is_space : ℕ → Bool
is_space c =
    (leb 9 c && leb c 13)
    || (leb 28 c && leb c 32)
    || nat_eq c 0x85
    || nat_eq c 0xa0
    || nat_eq c 0x1680
    || (leb 0x2000 c && leb c 0x200a)
    || nat_eq c 0x2028
    || nat_eq c 0x2029
    || nat_eq c 0x202f
    || nat_eq c 0x205f
    || nat_eq c 0x3000

unfoldable pub is_digit : ℕ → Bool
is_digit c = leb b'0' c && leb c b'9'

unfoldable pub is_upper : ℕ → Bool
is_upper c = leb b'A' c && leb c b'Z'

unfoldable pub is_lower : ℕ → Bool
is_lower c = leb b'a' c && leb c b'z'

-- `[A-Za-z0-9]`
unfoldable pub is_alnum : ℕ → Bool
unfolding is_digit is_upper is_lower
is_alnum c = is_upper c || is_lower c || is_digit c

-- How `re.IGNORECASE` folds a character onto an ASCII letter: the capitals, and the four
-- characters outside ASCII whose case mappings lead to one.
unfoldable pub fold : ℕ → ℕ
unfolding is_upper
fold c =
    if is_upper c
    then c + 32
    else if nat_eq c 0x130
    then b'i'
    else if nat_eq c 0x131
    then b'i'
    else if nat_eq c 0x17f
    then b's'
    else if nat_eq c 0x212a
    then b'k'
    else c

abbrev pub mem : ℕ → List ℕ → Bool
mem c [] = false
mem c (d ∷ ds) = nat_eq c d || mem c ds
