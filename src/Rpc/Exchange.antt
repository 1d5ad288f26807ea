-- ===== src/Rpc/Exchange.antt =====
-- A call of src/qworker/rpc.py from end to end: the client's `call` against the server's connection.
use dogqoder.Prelude.{
  ◌≡◌, refl, ap, inl, inr, true, false, some, String, List, [], ◌∷◌, ◌==◌, eq_refl, if◌then◌else◌,
  Bool-cases,
}
use dogqoder.Json.{Json, obj, str, fields, from_fields, str_list, from_items, items, strings}
use dogqoder.Config.{sorted_set}
use dogqoder.Events.Copy.{fields-from_fields}
use dogqoder.Preflight.{normalize_preflight_warnings}
use dogqoder.Supervisor.{Sup}
use dogqoder.Rpc.Size.{fits}
use dogqoder.Rpc.Fields.{validate_fields, non_empty, parsed}
use dogqoder.Rpc.Requests.{
  Request, valid_request_id, valid_id, request_frame, read_request, decode_request, success,
  failure,
}
use dogqoder.Rpc.Bounds.{fits-oversized}
use dogqoder.Rpc.Dispatch.{Service, Answer, answered, faulted, dispatch}
use dogqoder.Rpc.Report.{
  Line, line, code_of, text_of_fault, warnings_of, write_failure, report, report_oversized,
  write_answer,
}
use dogqoder.Rpc.Stream.{Watched, WatchRequest}
use dogqoder.Rpc.Server.{serve, handle_line}
use dogqoder.Rpc.Client.{
  Called, got, client_error, protocol_error, too_large, same_texts, received, read_response, call,
  validated_response, checked_response, read_error,
}

valid_id-some : (s : String) → valid_request_id s ≡ true → valid_id (some s) ≡ some s
unfolding valid_id
valid_id-some s h = rw (h, valid_id) refl

non_empty-some : (s : String) → (s == "") ≡ false → non_empty (some s) ≡ some s
non_empty-some s h = rw h refl

-- The server takes the client's frame as the request that it was written for.
pub decode-request_frame :
    (r : Request)
    → valid_request_id r.request_id ≡ true
    → (r.method == "") ≡ false
    → decode_request (some (obj (from_fields (request_frame r)))) ≡ parsed r
unfolding decode_request read_request request_frame validate_fields sorted_set
decode-request_frame r valid named =
    rw (valid_id-some r.request_id valid, decode_request)
      (rw (non_empty-some r.method named, fields-from_fields r.params) refl)

same_texts_refl : (ss : List String) → same_texts ss ss ≡ true
same_texts_refl [] = refl
same_texts_refl (s ∷ ss) = rw (eq_refl s, same_texts_refl ss) refl

-- The warnings of an error are those that `normalize_preflight_warnings` gives.
unfoldable pub IsNormal : Answer → Type 0
unfolding normalize_preflight_warnings
IsNormal (answered v) = Unit
IsNormal (faulted f) = normalize_preflight_warnings (warnings_of f) ≡ warnings_of f

-- What the client is to see of an answer.
unfoldable pub expected : String → Answer → Called Json
unfolding fits success failure
expected id (answered v) = if fits (success (str id) v) then got v else too_large
expected id (faulted f) =
    if fits (failure (str id) (code_of f) (text_of_fault f) (warnings_of f))
    then client_error (code_of f) (text_of_fault f) (warnings_of f)
    else protocol_error "Supervisor closed without a response."

strings-texts : (ss : List String) → strings (items (from_items (str_list ss))) ≡ some ss
strings-texts [] = refl
strings-texts (s ∷ ss) = rw (strings-texts ss) refl

pub read-success :
    (id : String) (v : Json)
    → checked_response id (fields (from_fields (success (str id) v))) ≡ got v
unfolding checked_response success read_error
read-success id v = rw (eq_refl id) refl

pub read-failure :
    (id code message : String) (ws : List String)
    → normalize_preflight_warnings ws ≡ ws
    → checked_response id (fields (from_fields (failure (str id) code message ws)))
      ≡ client_error code message ws
unfolding checked_response failure read_error
read-failure id code message [] h = rw (eq_refl id) refl
read-failure id code message (w ∷ ws) h =
    rw (eq_refl id, strings-texts ws, h, same_texts_refl (w ∷ ws)) refl

module _ (service : Service) (watched : WatchRequest → Sup → Watched) where
  -- The server as the client meets it.
  unfoldable pub server : Line → Sup → List Line × Sup
  unfolding handle_line
  server l s =
      (received (handle_line service watched l s).0.written, (handle_line service watched l s).1)

  read-write_answer :
      (id : String) (a : Answer)
      → valid_request_id id ≡ true
      → IsNormal a
      → read_response id (received (write_answer (str id) a).written) ≡ expected id a
  unfolding write_answer report report_oversized write_failure expected read_response
      validated_response IsNormal normalize_preflight_warnings
  read-write_answer id (answered v) valid normal = elim (Bool-cases (fits (success (str id) v))) [
    | inl small ↦ rw small (read-success id v)
    | inr large ↦ rw (large, fits-oversized id valid) (read-failure id _ _ [] refl)
  ]
  read-write_answer id (faulted f) valid normal =
      elim (Bool-cases (fits (failure (str id) (code_of f) (text_of_fault f) (warnings_of f)))) [
        | inl small ↦ rw small (read-failure id _ _ (warnings_of f) normal)
        | inr large ↦ rw large refl
      ]

  pub handle-request_frame :
      (r : Request) (s : Sup)
      → valid_request_id r.request_id ≡ true
      → (r.method == "") ≡ false
      → handle_line service watched (line (some (obj (from_fields (request_frame r))))) s
        ≡ serve service watched r s
  unfolding handle_line
  handle-request_frame r s valid named = rw (decode-request_frame r valid named, handle_line) refl

  server-request_frame :
      (r : Request) (s : Sup)
      → valid_request_id r.request_id ≡ true
      → (r.method == "") ≡ false
      → (r.method == "watch") ≡ false
      → server (line (some (obj (from_fields (request_frame r))))) s ≡ (
        received (write_answer (str r.request_id) (dispatch service r.method r.params s).0).written,
        (dispatch service r.method r.params s).1,
      )
  unfolding server serve
  server-request_frame r s valid named other =
      rw (handle-request_frame r s valid named) (rw other refl)

  -- A client's call with a valid identifier and a method other than watch, within the limit on
  -- frames, sees exactly what the supervisor did: it returns the result of the supervisor's
  -- method, or raises its error with the same code, message and warnings, or invalid_request
  -- with the message for what is refused before; where the result is longer than a frame it
  -- raises frame_too_large, and where the error is, that the connection closed without a
  -- response. The supervisor's state is the one that the method leaves. The warnings of an error
  -- are to be normalised ones.
  pub call-dispatch :
      (r : Request) (s : Sup)
      → valid_request_id r.request_id ≡ true
      → (r.method == "") ≡ false
      → (r.method == "watch") ≡ false
      → fits (request_frame r) ≡ true
      → IsNormal (dispatch service r.method r.params s).0
      → call server r s ≡ (
        expected r.request_id (dispatch service r.method r.params s).0,
        (dispatch service r.method r.params s).1,
      )
  unfolding call
  call-dispatch r s valid named other small normal =
      rw (valid, small, server-request_frame r s valid named other)
        (ap (λ c. (c, (dispatch service r.method r.params s).1))
          (read-write_answer r.request_id (dispatch service r.method r.params s).0 valid normal))
