-- ===== src/PatternTests.antt =====
-- Runs of the patterns of store.py at texts that can be followed by hand.
use dogqoder.Prelude.{◌≡◌, refl, true, false, none}
use dogqoder.Chars.{codes, is_digit, is_alnum, is_space, fold}
use dogqoder.Regex.{fullmatch, found, substitute}
use dogqoder.Patterns.{Host, version, safe_metadata, inline_credential, keyed_credential}

-- A process without credentials, on ASCII.
abbrev pub bare_host : Host
bare_host = record { environ = λ _. none; is_decimal = is_digit; is_word = λ c. is_alnum c }

safe_worker : safe_metadata (codes "worker-01") ≡ true
unfolding safe_metadata fullmatch found fold is_alnum is_space
safe_worker = refl

unsafe_token : safe_metadata (codes "my-TOKEN") ≡ false
unfolding safe_metadata fullmatch found fold is_alnum is_space
unsafe_token = refl

version_ok : fullmatch (version bare_host) (codes "v1.0.13-rc.1") ≡ true
unfolding version fullmatch is_digit fold is_alnum is_space
version_ok = refl

version_short : fullmatch (version bare_host) (codes "1") ≡ false
unfolding version fullmatch is_digit fold is_alnum is_space
version_short = refl

redacts_inline : substitute inline_credential "[R]" "use sk-abc123, ok" ≡ "use [R], ok"
unfolding inline_credential substitute fold is_alnum is_space
redacts_inline = refl

redacts_keyed : substitute (keyed_credential bare_host) "[R]" "the token: abc; x" ≡ "the [R]; x"
unfolding keyed_credential substitute is_digit fold is_alnum is_space
redacts_keyed = refl
