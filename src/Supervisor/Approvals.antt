-- ===== src/Supervisor/Approvals.antt =====
-- The approval bridge of src/qworker/supervisor.py: a callback asks for a decision.
use Prim.Native.String.{String}
use dogqoder.Prelude.{
  ℕ, suc, Bool, false, not, Option, none, some, List, ◌&&◌, nat_eq, lookup, if◌then◌else◌,
}
use dogqoder.Json.{Json, Object}
use dogqoder.Control.{PermissionAction, ElicitationAction, ApprovalRequest, ApprovalDecision}
use dogqoder.Control.Display.{approval_display}
use dogqoder.Ulid.{new_ulid}
use dogqoder.Store.{WorkerRecord, EventRecord, find_worker}
use dogqoder.Store.Approvals.{record_approval_request}
use dogqoder.Supervisor.{
  Reply, returned, raised, FutureState, waiting, PendingApproval, Sup, Env, M, ◌>>=◌, return,
  settle, unless_changed, pop, put, is_active, is_attempt_live, versioned,
}

-- What `_request_approval` comes to under the lock: a decision at once, or a future to wait for.
pub data Requested : Type 0 where
  settled : ApprovalDecision → Requested
  awaiting : String → Requested

-- The decision that fails closed.
unfoldable pub default_decision : ApprovalRequest → ApprovalDecision
default_decision (ApprovalRequest.permission tool agent message) =
    ApprovalDecision.permission PermissionAction.deny
default_decision (ApprovalRequest.elicitation server mode message schema) =
    ApprovalDecision.elicitation ElicitationAction.cancel none

-- `_approval_status`
unfoldable pub approval_status : ApprovalDecision → String
approval_status (ApprovalDecision.permission PermissionAction.allow) = "allowed"
approval_status (ApprovalDecision.permission PermissionAction.deny) = "denied"
approval_status (ApprovalDecision.elicitation ElicitationAction.accept content) = "answered"
approval_status (ApprovalDecision.elicitation ElicitationAction.decline content) = "denied"
approval_status (ApprovalDecision.elicitation ElicitationAction.cancel content) = "denied"

-- The first test of `_request_approval`, negated.
abbrev pub accepts_requests : ℕ → Bool → Option ℕ → Option WorkerRecord → Bool
accepts_requests attempt closed live none = false
accepts_requests attempt closed live (some worker) =
    not closed
    && nat_eq worker.attempt attempt
    && is_active worker.state
    && is_attempt_live attempt live

-- The schema snapshot of a request, and the request without its schema; `none` is the `TypeError` or
-- `ValueError` of `snapshot_elicitation_schema`.
abbrev pub take_snapshot :
    (Json → Option Object) → ApprovalRequest → Option (ApprovalRequest × Option Object)
take_snapshot snapshot (ApprovalRequest.permission tool agent message) =
    some (ApprovalRequest.permission tool agent message, none)
take_snapshot snapshot (ApprovalRequest.elicitation server mode message none) =
    some (ApprovalRequest.elicitation server mode message none, none)
take_snapshot snapshot (ApprovalRequest.elicitation server mode message (some schema)) =
    elim (snapshot schema) [
      | none ↦ none
      | some copy ↦ some (ApprovalRequest.elicitation server mode message none, some copy)
    ]

abbrev pub forget : String → Sup → Sup
forget request_id s = record s { pending = pop request_id s.pending }

-- The handlers around `record_approval_request`.
abbrev pub after_record {ℓ} :
    {A : Type ℓ} → String → ApprovalDecision → Reply (Option A) × Sup → Reply Requested × Sup
after_record request_id default (returned (some events), s) = (returned (awaiting request_id), s)
after_record request_id default (returned none, s) =
    (returned (settled default), forget request_id s)
after_record request_id default (raised e, s) = (raised e, forget request_id s)

abbrev pub store_request : Env → String → ℕ → Object → M (List EventRecord)
store_request env worker_id attempt payload s = settle s 2 (
    record_approval_request env.host (env.draw s.tick) (env.draw (suc s.tick)) (env.clock s.tick)
      worker_id attempt payload s.db)

abbrev pub enter_pending : PendingApproval → Sup → Sup
enter_pending p s = record s {
  pending = put p.request_id p s.pending;
  futures = put p.request_id waiting s.futures;
}

-- From the display on: the request is entered, and then recorded.
unfoldable pub enter_request :
    Env
    → String
    → ℕ
    → ApprovalDecision
    → String
    → ApprovalRequest
    → Option Object
    → Option Object
    → M Requested
enter_request env worker_id attempt default request_id request schema none s =
    (returned (settled default), s)
enter_request env worker_id attempt default request_id request schema (some display) s =
    after_record request_id default (
      unless_changed (store_request env worker_id attempt (versioned (pop "attempt" display))) (
        enter_pending
          (record {
            request_id = request_id;
            worker_id = worker_id;
            attempt = attempt;
            request = request;
            schema_snapshot = schema;
            display = display;
          })
          s))

-- `new_request_id`
unfoldable pub new_request_id : Env → M String
unfolding new_ulid
new_request_id env s = (
  returned (new_ulid (env.draw s.tick).time_ns (env.draw s.tick).bits),
  record s { tick = suc s.tick },
)

unfoldable pub request_with :
    Env → String → ℕ → ApprovalDecision → Option (ApprovalRequest × Option Object) → M Requested
unfolding enter_request
request_with env worker_id attempt default none = return (settled default)
request_with env worker_id attempt default (some (request, schema)) =
    new_request_id env >>= λ request_id.
    enter_request env worker_id attempt default request_id request schema
      (approval_display env.host request_id attempt request schema)

-- `_request_approval` under the control lock.
unfoldable pub request_approval : Env → String → ℕ → ApprovalRequest → M Requested
unfolding request_with default_decision
request_approval env worker_id attempt request s =
    if accepts_requests attempt s.closed (lookup worker_id s.live_attempts)
      (find_worker worker_id s.db)
    then request_with env worker_id attempt (default_decision request)
        (take_snapshot env.snapshot request) s
    else (returned (settled (default_decision request)), s)

-- Its end, where the future was cancelled.
unfoldable pub abandon_request : String → Sup → Sup
abandon_request request_id s = record s {
  pending = pop request_id s.pending;
  futures = put request_id FutureState.cancelled s.futures;
}
