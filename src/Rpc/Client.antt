-- ===== src/Rpc/Client.antt =====
-- The client's side of src/qworker/rpc.py: `call`, `watch`, and how they read a response.
use dogqoder.Prelude.{
  ℕ, Bool, true, false, not, Option, none, some, String, List, [], ◌∷◌, ◌&&◌, ◌||◌, ◌==◌, lookup,
  keys, same_set, contains, map, if◌then◌else◌,
}
use dogqoder.Json.{Json, Object, obj, from_fields, fields}
use dogqoder.Preflight.{normalize_preflight_warnings}
use dogqoder.Rpc.Size.{fits}
use dogqoder.Rpc.Fields.{text_of, texts_of, bool_of, natural_of, object_of}
use dogqoder.Rpc.Requests.{
  Request, valid_request_id, request_frame, request_id_validation_message, frame_limit_message,
}
use dogqoder.Rpc.Report.{Line, line, oversized, interrupted}
use dogqoder.Rpc.Stream.{terminal_states, reason_of}

-- What a call returns, or its `RPCClientError`: code, message and warnings.
pub data Called {ℓ} (A : Type ℓ) : Type ℓ where
  got : A → Called A
  client_error : String → String → List String → Called A

abbrev pub protocol_error {ℓ} : {A : Type ℓ} → String → Called A
protocol_error message = client_error "sdk_protocol_error" message []

abbrev pub too_large {ℓ} : {A : Type ℓ} → Called A
too_large = client_error "frame_too_large" frame_limit_message []

abbrev pub same_texts : List String → List String → Bool
same_texts [] [] = true
same_texts [] (t ∷ ts) = false
same_texts (s ∷ ss) [] = false
same_texts (s ∷ ss) (t ∷ ts) = (s == t) && same_texts ss ts

abbrev pub is_text : Option String → String → Bool
is_text none s = false
is_text (some t) s = t == s

-- The warnings of an error: none if there is no such field.
abbrev pub raw_warnings : Option Json → Option (List String)
raw_warnings none = some []
raw_warnings (some v) = texts_of v

abbrev pub remote_error {ℓ} :
    {A : Type ℓ} → Option String → Option String → Option (List String) → Called A
remote_error none message warnings = protocol_error "Supervisor returned an invalid error."
remote_error (some code) none warnings = protocol_error "Supervisor returned an invalid error."
remote_error (some code) (some message) none =
    protocol_error "Supervisor returned an invalid error."
remote_error (some code) (some message) (some warnings) =
    if same_texts warnings (normalize_preflight_warnings warnings)
    then client_error code message warnings
    else protocol_error "Supervisor returned an invalid error."

-- The error of a response that is not ok.
unfoldable pub read_error {ℓ} : {A : Type ℓ} → Option Object → Called A
unfolding normalize_preflight_warnings
read_error none = protocol_error "Supervisor returned an invalid error."
read_error (some error) =
    remote_error (text_of (lookup "code" error)) (text_of (lookup "message" error))
      (raw_warnings (lookup "warnings" error))

abbrev pub object_in : Option Json → Option Object
object_in none = none
object_in (some v) = object_of v

abbrev pub bool_in : Option Json → Option Bool
bool_in none = none
bool_in (some v) = bool_of v

abbrev pub result_of : Option Json → Called Json
result_of none = protocol_error "Supervisor response omitted its result."
result_of (some v) = got v

abbrev pub by_ok : Option Bool → Object → Called Json
unfolding read_error
by_ok none response = protocol_error "Supervisor response correlation failed."
by_ok (some false) response = read_error (object_in (lookup "error" response))
by_ok (some true) response = result_of (lookup "result" response)

unfoldable pub checked_response : String → Object → Called Json
checked_response id response =
    if is_text (text_of (lookup "request_id" response)) id
    then by_ok (bool_in (lookup "ok" response)) response
    else protocol_error "Supervisor response correlation failed."

-- `_validated_response`, with the result that its callers read.
unfoldable pub validated_response : String → Option Json → Called Json
unfolding checked_response
validated_response id none = protocol_error "Supervisor returned invalid JSON."
validated_response id (some (obj fs)) = checked_response id (fields fs)
validated_response id (some _) = protocol_error "Supervisor returned an invalid response."

-- `_read_response`; the list is what the connection still holds.
unfoldable pub read_response : String → List Line → Called Json
unfolding validated_response
read_response id [] = protocol_error "Supervisor closed without a response."
read_response id (interrupted ∷ ls) =
    client_error "supervisor_unavailable" "Supervisor connection was interrupted." []
read_response id (oversized found ∷ ls) = too_large
read_response id (line v ∷ ls) = validated_response id v

-- The frames as the other side reads them.
abbrev pub received : List Object → List Line
received = map (λ f. line (some (obj (from_fields f))))

-- `call` on an open connection, where `server` answers the line that is written.
unfoldable pub call {ℓ} : {S : Type ℓ} → (Line → S → List Line × S) → Request → S → Called Json × S
unfolding valid_request_id fits read_response request_frame
call server r s =
    if valid_request_id r.request_id
    then if fits (request_frame r)
      then (
        read_response r.request_id (server (line (some (obj (from_fields (request_frame r))))) s).0,
        (server (line (some (obj (from_fields (request_frame r))))) s).1,
      )
      else (too_large, s)
    else (client_error "invalid_request" request_id_validation_message [], s)

-- A watch yields events, and then it returns or raises.
abbrev pub Yielded : Type 0
Yielded = List Object × Called (Unit {0})

abbrev pub ends_watch : Called (Unit {0}) → Yielded
ends_watch e = ([], e)

-- The checks of the last frame.
abbrev pub is_end : Bool → Option String → Option ℕ → Option String → Bool
is_end follow (some reason) (some cursor) (some state) =
    (reason == reason_of follow) && (not follow || contains terminal_states state)
is_end follow _ _ _ = false

abbrev pub natural_in : Option Json → Option ℕ
natural_in none = none
natural_in (some v) = natural_of v

unfoldable pub read_end : Bool → Option Object → Called (Unit {0})
read_end follow none = protocol_error "Supervisor returned an invalid watch frame."
read_end follow (some end) =
    if same_set (keys end) ("reason" ∷ "cursor" ∷ "state" ∷ [])
      && is_end follow (text_of (lookup "reason" end)) (natural_in (lookup "cursor" end))
          (text_of (lookup "state" end))
    then got tt
    else protocol_error "Supervisor returned an invalid watch end."

-- A result of the stream: an event, or its end.
pub data Frame : Type 0 where
  event : Object → Frame
  over : Called (Unit {0}) → Frame

abbrev pub event_or_error : Option Object → Frame
event_or_error none = over (protocol_error "Supervisor returned an invalid event.")
event_or_error (some e) = event e

unfoldable pub read_frame : Bool → Called Json → Frame
unfolding read_end
read_frame follow (client_error code message warnings) = over (client_error code message warnings)
read_frame follow (got (obj fs)) =
    let result = fields fs in
    if same_set (keys result) ("event" ∷ [])
    then event_or_error (object_in (lookup "event" result))
    else if same_set (keys result) ("end" ∷ [])
    then over (read_end follow (object_in (lookup "end" result)))
    else over (protocol_error "Supervisor returned an invalid watch frame.")
read_frame follow (got _) = over (protocol_error "Supervisor returned an invalid watch frame.")

abbrev pub yield : Frame → Yielded → Yielded
yield (event e) rest = (e ∷ rest.0, rest.1)
yield (over c) rest = ([], c)

-- The loop of `watch`.
unfoldable pub read_stream : String → Bool → List Line → Yielded
unfolding validated_response read_frame
read_stream id follow [] = ends_watch (
    client_error "supervisor_unavailable" "qworker watch connection ended before a terminal frame."
      [])
read_stream id follow (interrupted ∷ ls) = ends_watch (
    client_error "supervisor_unavailable" "qworker watch connection ended before a terminal frame."
      [])
read_stream id follow (oversized found ∷ ls) = ends_watch too_large
read_stream id follow (line v ∷ ls) =
    yield (read_frame follow (validated_response id v)) (read_stream id follow ls)

-- `params.get("follow") is True`
abbrev pub follows : Object → Bool
follows params = elim (bool_in (lookup "follow" params)) [ some b ↦ b | none ↦ false ]

abbrev pub rest_of : List Line → List Line
rest_of [] = []
rest_of (l ∷ ls) = ls

abbrev pub after_header : String → Bool → Called Json → List Line → Yielded
unfolding read_stream
after_header id follow (client_error code message warnings) ls =
    ends_watch (client_error code message warnings)
after_header id follow (got v) ls = read_stream id follow ls

-- `watch` on what the server answers to its request.
unfoldable pub watch : Request → List Line → Yielded
unfolding valid_request_id fits request_frame read_response
watch r answer =
    if valid_request_id r.request_id
    then if fits (request_frame r)
      then after_header r.request_id (follows r.params) (read_response r.request_id answer)
          (rest_of answer)
      else ends_watch too_large
    else ends_watch (client_error "invalid_request" request_id_validation_message [])
