-- ===== src/Supervisor.antt =====
-- src/qworker/supervisor.py: the state of a `Supervisor`, its failures, and what its methods share.
-- A method is a function from the state to its reply, or its exception, with the state that it
-- leaves behind. Its calls of the store, of the clock and of random sources read the environment at
-- a counter that every such call advances.
pub mod Approvals
pub mod Steering
pub mod Views
pub mod Finish
pub mod Spawn
pub mod Stop
pub mod Watch
pub mod Refinement
pub mod Calls
pub mod Ending
pub mod Starting
pub mod Stopping
pub mod Sessions
pub mod Following
pub mod Answers
pub mod Messages
pub mod Ends
pub mod Resume
pub mod Responding
use Prim.Native.String.{◌++◌ as ◌++ₛ◌}
use dogqoder.Prelude.{
  ℕ, ◌+◌, Bool, true, false, not, Option, none, some, String, List, [], ◌∷◌, ◌++◌, ◌&&◌, ◌==◌,
  nat_eq, keep, any, lookup, if◌then◌else◌,
}
use dogqoder.Json.{Json, Object}
use dogqoder.Patterns.{Host}
use dogqoder.Workspace.{FileSystem}
use dogqoder.Control.{ApprovalRequest, ApprovalDecision}
use dogqoder.Result.{Error, attempt_changed, invalid_value, Result, ok, err}
use dogqoder.Store.{WorkerRecord, EventRecord, Db, Draw, find_worker}
use dogqoder.Store.Operations.{append_event, number}
use dogqoder.Lifecycle.{WorkerState, running, requires_action}

-- What a method raises: a `SupervisorError` with its code, message and warnings, or any other exception.
pub data Failure : Type 0 where
  supervisor_error : String → String → List String → Failure
  exception : Error → Failure

pub data Reply {ℓ} (A : Type ℓ) : Type ℓ where
  returned : A → Reply A
  raised : Failure → Reply A

-- `asyncio.Future` of one approval request.
pub data FutureState : Type 0 where
  waiting : FutureState
  decided : ApprovalDecision → FutureState
  cancelled : FutureState

-- `PendingApproval`; its future is in the state's `futures` under the identifier of the request, and
-- its kind is that of the request.
pub record PendingApproval : Type 0 where
  pub request_id : String
  pub worker_id : String
  pub attempt : ℕ
  pub request : ApprovalRequest
  pub schema_snapshot : Option Object
  pub display : Object

-- The fields of a `Supervisor` that its methods change. A task is known by its attempt; dictionaries
-- are lists without double keys. A stop operation holds its attempt and whether it is to escalate.
pub record Sup : Type 0 where
  pub db : Db
  pub closed : Bool
  pub tasks : List (String × ℕ)
  pub live_attempts : List (String × ℕ)
  pub stop_requests : List (String × ℕ)
  pub stop_operations : List (String × ℕ × Bool)
  pub pending : List (String × PendingApproval)
  pub futures : List (String × FutureState)
  pub tick : ℕ

-- The surroundings: clock and random sources at each tick, and the functions that the supervisor is
-- given or imports.
pub record Env : Type 0 where
  pub host : Host
  pub fs : FileSystem
  pub clock : ℕ → ℕ
  pub draw : ℕ → Draw
  pub isoformat : ℕ → String
  pub snapshot : Json → Option Object
  pub matches : Option Object → Object → Bool
  pub auditor_resumes : Bool
  pub coder_resumes : Bool

abbrev pub M {ℓ} : Type ℓ → Type ℓ
M A = Sup → Reply A × Sup

-- What follows a value; an exception passes through.
abbrev pub resume_with {ℓ κ} : {A : Type ℓ} {B : Type κ} → (A → M B) → Reply A × Sup → Reply B × Sup
resume_with f (returned a, s) = f a s
resume_with f (raised e, s) = (raised e, s)

infixl 5 ◌>>=◌ ◌>>◌
abbrev pub ◌>>=◌ {ℓ κ} : {A : Type ℓ} {B : Type κ} → M A → (A → M B) → M B
◌>>=◌ m f s = resume_with f (m s)

abbrev pub ◌>>◌ {ℓ κ} : {A : Type ℓ} {B : Type κ} → M A → M B → M B
m >> k = m >>= λ _. k

abbrev pub return {ℓ} : {A : Type ℓ} → A → M A
return a s = (returned a, s)

abbrev pub raise {ℓ} : {A : Type ℓ} → String → String → M A
raise code message s = (raised (supervisor_error code message []), s)

-- `if not test: raise SupervisorError(code, message)`
abbrev pub ensure : Bool → String → String → M (Unit {0})
ensure true code message = return tt
ensure false code message = raise code message

abbrev pub gets {ℓ} : {A : Type ℓ} → (Sup → A) → M A
gets f s = (returned (f s), s)

abbrev pub modify : (Sup → Sup) → M (Unit {0})
modify f s = (returned tt, f s)

-- The reply of the store, with its tables in place and `n` ticks passed.
abbrev pub settle {ℓ} : {A : Type ℓ} → Sup → ℕ → Result A × Db → Reply A × Sup
settle s n (ok a, db) = (returned a, record s { db = db; tick = n + s.tick })
settle s n (err e, db) = (raised (exception e), record s { db = db; tick = n + s.tick })

-- `try: … except AttemptChangedError`, with `none` for that exception.
abbrev pub catch_changed {ℓ} : {A : Type ℓ} → Reply A × Sup → Reply (Option A) × Sup
catch_changed (returned a, s) = (returned (some a), s)
catch_changed (raised (exception attempt_changed), s) = (returned none, s)
catch_changed (raised e, s) = (raised e, s)

abbrev pub unless_changed {ℓ} : {A : Type ℓ} → M A → M (Option A)
unless_changed m s = catch_changed (m s)

-- `dict.pop(key, None)`
abbrev pub pop {ℓ} : {V : Type ℓ} → String → List (String × V) → List (String × V)
pop key = keep (λ e. not (e.0 == key))

-- `dict[key] = value`
abbrev pub put {ℓ} : {V : Type ℓ} → String → V → List (String × V) → List (String × V)
put key value [] = (key, value) ∷ []
put key value ((k, v) ∷ d) =
    let rest = put key value d in if k == key then (key, value) ∷ d else (k, v) ∷ rest

abbrev pub is_key : String → ℕ → String × ℕ → Bool
is_key worker_id attempt e = (e.0 == worker_id) && nat_eq e.1 attempt

-- `(worker_id, attempt) in self._stop_requests`
abbrev pub stop_requested : String → ℕ → Sup → Bool
stop_requested worker_id attempt s = any (is_key worker_id attempt) s.stop_requests

-- `self._stop_requests.add` and `discard`.
abbrev pub add_stop : String → ℕ → Sup → Sup
add_stop worker_id attempt s = record s {
  stop_requests =
      if stop_requested worker_id attempt s
      then s.stop_requests
      else s.stop_requests ++ (worker_id, attempt) ∷ [];
}

abbrev pub discard_stop : String → ℕ → Sup → Sup
discard_stop worker_id attempt s = record s {
  stop_requests = keep (λ e. not (is_key worker_id attempt e)) s.stop_requests;
}

abbrev pub found_worker : String → Option WorkerRecord → M WorkerRecord
found_worker worker_id none = raise "worker_not_found" ("Unknown worker: " ++ₛ worker_id)
found_worker worker_id (some worker) = return worker

-- `_require_worker`
unfoldable pub require_worker : String → M WorkerRecord
require_worker worker_id s = found_worker worker_id (find_worker worker_id s.db) s

abbrev pub is_active : WorkerState → Bool
is_active running = true
is_active requires_action = true
is_active _ = false

-- `live is None or live.attempt != attempt`, negated.
abbrev pub is_attempt_live : ℕ → Option ℕ → Bool
is_attempt_live attempt none = false
is_attempt_live attempt (some n) = nat_eq n attempt

-- `_require_live_attempt`, with the attempt that is live.
unfoldable pub require_live_attempt : String → M ℕ
unfolding require_worker
require_live_attempt worker_id = do
  closed ← gets (λ s. s.closed)
  ensure (not closed) "supervisor_unavailable" "Supervisor is closed."
  worker ← require_worker worker_id
  live ← gets (λ s. lookup worker_id s.live_attempts)
  ensure (is_attempt_live worker.attempt live && is_active worker.state) "worker_not_live"
      "Worker has no live attempt."
  return worker.attempt

-- `_append_event`; waking the watchers changes no state.
unfoldable pub append : Env → String → String → Object → M EventRecord
append env worker_id event_type payload s =
    settle s 1
      (append_event env.host (env.draw s.tick) (env.clock s.tick) worker_id event_type payload s.db)

-- The name of an exception that the model distinguishes no further.
abbrev pub raise_value {ℓ} : {A : Type ℓ} → String → M A
raise_value what s = (raised (exception (invalid_value what)), s)

abbrev pub versioned : Object → Object
versioned rest = ("schema_version", number 1) ∷ rest
