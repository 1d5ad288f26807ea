-- ===== src/Rpc/Requests.antt =====
-- The requests and the responses of src/qworker/rpc.py.
use Prim.Native.String.{count}
use dogqoder.Prelude.{
  ℕ, Bool, true, false, Option, none, some, String, List, [], ◌∷◌, ◌&&◌, lookup, leb,
}
use dogqoder.Json.{Json, Object, bool, str, arr, obj, fields, from_items, from_fields, str_list}
use dogqoder.Rpc.Fields.{
  Parsed, parsed, rejected, ◌>>=◌, ◌>>◌, or_reject, non_empty, text_of, object_of, validate_fields,
}

-- `_MAX_REQUEST_ID_CHARS`
abbrev pub max_request_id_chars : ℕ
max_request_id_chars = 128

-- `_request_id_validation_message`
abbrev pub request_id_validation_message : String
request_id_validation_message = "request_id must be a non-empty string of at most 128 characters."

-- `_frame_limit_message`
abbrev pub frame_limit_message : String
frame_limit_message = "RPC frame exceeds the 4194304-byte limit."

-- `_valid_request_id`, of a text; no other value is valid.
unfoldable pub valid_request_id : String → Bool
valid_request_id s = leb 1 (count s) && leb (count s) max_request_id_chars

-- What `_decode_request` returns.
pub record Request : Type 0 where
  pub request_id : String
  pub method : String
  pub params : Object

unfoldable pub valid_id : Option String → Option String
valid_id none = none
valid_id (some s) = elim (valid_request_id s) [ true ↦ some s | false ↦ none ]

abbrev pub object_at : String → Object → Option Object
object_at key value = elim (lookup key value) [ none ↦ none | some v ↦ object_of v ]

-- `_decode_request`, once the line is an object.
unfoldable pub read_request : Object → Parsed Request
unfolding validate_fields valid_id
read_request value = do
  validate_fields ("request_id" ∷ "method" ∷ "params" ∷ []) [] value
  request_id ←
      or_reject request_id_validation_message (valid_id (text_of (lookup "request_id" value)))
  method ←
      or_reject "method must be a non-empty string." (non_empty (text_of (lookup "method" value)))
  params ← or_reject "params must be a JSON object." (object_at "params" value)
  parsed (record { request_id = request_id; method = method; params = params })

-- `_decode_request`; `none` is a line that is not UTF-8 JSON.
unfoldable pub decode_request : Option Json → Parsed Request
unfolding read_request
decode_request none = rejected "Request must be one UTF-8 JSON object."
decode_request (some (obj fs)) = read_request (fields fs)
decode_request (some _) = rejected "Request must be a JSON object."

-- The frame that `call` and `watch` write.
unfoldable pub request_frame : Request → Object
request_frame r =
    ("request_id", str r.request_id)
    ∷ ("method", str r.method)
    ∷ ("params", obj (from_fields r.params))
    ∷ []

-- `_success`
unfoldable pub success : Json → Json → Object
success request_id result = ("request_id", request_id) ∷ ("ok", bool true) ∷ ("result", result) ∷ []

abbrev pub warning_field : List String → Object
warning_field [] = []
warning_field (w ∷ ws) = ("warnings", arr (from_items (str_list (w ∷ ws)))) ∷ []

-- `_failure`
unfoldable pub failure : Json → String → String → List String → Object
failure request_id code message warnings =
    ("request_id", request_id)
    ∷ ("ok", bool false)
    ∷ (
      "error",
      obj (from_fields (("code", str code) ∷ ("message", str message) ∷ warning_field warnings)),
    )
    ∷ []
