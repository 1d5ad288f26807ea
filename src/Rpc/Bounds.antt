-- ===== src/Rpc/Bounds.antt =====
-- The limits of src/qworker/rpc.py fit together: the answer to a result beyond the limit is within it.
use Prim.Native.Char.{code}
use Prim.Native.String.{String, count}
use Prim.Native.String.count
use dogqoder.Prelude.{ℕ, suc, ◌+◌, ◌*◌, ◌≤◌, ◌≡◌, true, [], arith, leb}
use dogqoder.Chars.{codes}
use dogqoder.Json.{str}
use dogqoder.Rpc.Size.{size, fits, escape_size, escaped_size, text_size, max_frame_bytes}
use dogqoder.Rpc.Requests.{failure, frame_limit_message, valid_request_id}

escape_size_bound : (c : ℕ) → escape_size c ≤ 12
escape_size_bound c = ground arith

one_more : (a b n m : ℕ) → a ≤ 12 → b + 2 ≤ 12 * n + 2 → m ≡ suc n → (a + b) + 2 ≤ 12 * m + 2
one_more a b n m h k e = omega arith

-- No character takes more than twelve on the wire.
pub text_size_bound : (s : String) → text_size s ≤ 12 * count s + 2
text_size_bound String.[] = omega arith
text_size_bound (String.◌∷◌ c s) =
    one_more (escape_size (code c)) (escaped_size (codes s)) (count s) (count (String.◌∷◌ c s))
      (escape_size_bound (code c)) (text_size_bound s) (count.cons c s)

within :
    (n t m : ℕ)
    → m ≤ 1000
    → t ≤ 12 * n + 2
    → leb n 128 ≡ true
    → leb (15 + t + m + 1) max_frame_bytes ≡ true
within n t m few h k = ground arith

valid-short : (id : String) → valid_request_id id ≡ true → leb (count id) 128 ≡ true
unfolding valid_request_id
valid-short id h = ground arith

pub fits-oversized :
    (id : String)
    → valid_request_id id ≡ true
    → fits (failure (str id) "frame_too_large" frame_limit_message []) ≡ true
unfolding fits failure size
fits-oversized id h =
    within (count id) (text_size id) 100 (omega arith) (text_size_bound id) (valid-short id h)

pub fits-not_live :
    (id : String)
    → valid_request_id id ≡ true
    → fits (failure (str id) "worker_not_live" "Follow watch ended before worker termination." [])
      ≡ true
unfolding fits failure size
fits-not_live id h =
    within (count id) (text_size id) 104 (omega arith) (text_size_bound id) (valid-short id h)
