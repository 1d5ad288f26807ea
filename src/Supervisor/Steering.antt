-- ===== src/Supervisor/Steering.antt =====
-- `steer` and `cancel_message` of src/qworker/supervisor.py. A call of the transport is an argument: it
-- runs while others may act, so it is any computation on the state; an exception of it is any
-- exception.
use dogqoder.Prelude.{ℕ, Bool, true, false, not, Option, String, [], ◌∷◌, ◌==◌, is_some}
use dogqoder.Json.{Json, Object}
use dogqoder.Supervisor.{
  Reply, returned, raised, supervisor_error, Sup, Env, M, ◌>>=◌, ◌>>◌, return, ensure, append,
  require_live_attempt, versioned,
}

-- `SteeringPriority`
pub data SteeringPriority : Type 0 where
  now next later : SteeringPriority

abbrev pub priority_text : SteeringPriority → String
priority_text now = "now"
priority_text next = "next"
priority_text later = "later"

-- `except Exception: raise SupervisorError("sdk_protocol_error", message)`
abbrev pub protocol_failure {ℓ} : {A : Type ℓ} → String → Reply A × Sup → Reply A × Sup
protocol_failure message (returned a, s) = (returned a, s)
protocol_failure message (raised e, s) =
    (raised (supervisor_error "sdk_protocol_error" message []), s)

abbrev pub guarded {ℓ} : {A : Type ℓ} → String → M A → M A
guarded message m s = protocol_failure message (m s)

-- `steer`, with the identifier that `uuid4` gives and the transport's call on the live attempt.
unfoldable pub steer :
    Env
    → String
    → (ℕ → M (Unit {0}))
    → String
    → String
    → SteeringPriority
    → Option String
    → M Object
unfolding append require_live_attempt
steer env message_id deliver worker_id message priority agent_id = do
  ensure (not (message == "")) "invalid_request" "Steering message must not be empty."
  ensure (not (is_some agent_id)) "unsupported_operation"
      "Selected nested-agent steering is not supported."
  live ← require_live_attempt worker_id
  append env worker_id "steer.queued" (
      versioned (
        ("message_id", Json.str message_id) ∷ ("priority", Json.str (priority_text priority)) ∷ []))
  guarded "Unable to deliver steering message." (deliver live)
  append env worker_id "steer.delivered" (versioned (("message_id", Json.str message_id) ∷ []))
  return (
      ("message_id", Json.str message_id)
      ∷ ("priority", Json.str (priority_text priority))
      ∷ ("accepted", Json.bool true)
      ∷ [])

abbrev pub not_cancellable : Bool → Object
not_cancellable true = []
not_cancellable false = ("code", Json.str "message_not_cancellable") ∷ []

-- `cancel_message`; `canonical` stands for `_validated_message_id`, by the standard library's `UUID`.
unfoldable pub cancel_message : Env → (String → Bool) → (ℕ → M Bool) → String → String → M Object
unfolding append require_live_attempt
cancel_message env canonical cancel worker_id message_id = do
  ensure (canonical message_id) "invalid_request" "message_id must be a canonical UUID."
  live ← require_live_attempt worker_id
  cancelled ← guarded "Unable to cancel steering message." (cancel live)
  append env worker_id "steer.cancelled"
      (versioned (("message_id", Json.str message_id) ∷ ("cancelled", Json.bool cancelled) ∷ []))
  return (
      ("message_id", Json.str message_id)
      ∷ ("cancelled", Json.bool cancelled)
      ∷ not_cancellable cancelled)
