-- ===== src/Supervisor/Responding.antt =====
-- `respond` of src/qworker/supervisor.py, and the end of an attempt, which settles what is left.
use Prim.Native.String.{String}
use dogqoder.Prelude.{
  ℕ, ◌+◌, suc, Bool, true, false, not, Option, none, some, List, [], ◌∷◌, ◌&&◌, ◌==◌, nat_eq, keep,
  any, map, lookup, length, if◌then◌else◌,
}
use dogqoder.Json.{Json, Object}
use dogqoder.Control.{ApprovalDecision, parse_approval_response, response_error}
use dogqoder.Lifecycle.{WorkerState, requires_action}
use dogqoder.Store.{EventRecord}
use dogqoder.Store.Approvals.{record_approval_resolution, expire_approval_requests}
use dogqoder.Supervisor.{
  returned, FutureState, waiting, decided, PendingApproval, Sup, Env, M, resume_with, ◌>>=◌, ◌>>◌,
  return, raise, ensure, gets, modify, settle, unless_changed, pop, put, is_attempt_live,
  require_worker, versioned,
}
use dogqoder.Supervisor.Approvals.{approval_status, default_decision, forget}

-- The future's state after `set_result`, where it is not done.
abbrev pub settle_future : String → ApprovalDecision → Option FutureState → Sup → Sup
settle_future request_id decision (some waiting) s = record s {
  futures = put request_id (decided decision) s.futures;
}
settle_future request_id decision (some (decided earlier)) s = s
settle_future request_id decision (some FutureState.cancelled) s = s
settle_future request_id decision none s = s

-- `if not future.done(): future.set_result(decision)`
unfoldable pub set_result : String → ApprovalDecision → Sup → Sup
set_result request_id decision s = settle_future request_id decision (lookup request_id s.futures) s

abbrev pub belongs : String → ℕ → PendingApproval → Bool
belongs worker_id attempt p = (p.worker_id == worker_id) && nat_eq p.attempt attempt

abbrev pub other_pending : String → String → ℕ → Sup → Bool
other_pending request_id worker_id attempt s =
    any (λ e. not (e.1.request_id == request_id) && belongs worker_id attempt e.1) s.pending

abbrev pub own_pending : String → Option PendingApproval → M PendingApproval
own_pending worker_id none = raise "approval_not_pending" "Approval request is not pending."
own_pending worker_id (some p) =
    if p.worker_id == worker_id
    then return p
    else raise "approval_not_pending" "Approval request is not pending."

abbrev pub waits : WorkerState → Bool
waits requires_action = true
waits _ = false

-- `message` is the text of the `TypeError` or `ValueError`.
abbrev pub decision_or_invalid : String → Option ApprovalDecision → M ApprovalDecision
decision_or_invalid message none = raise "invalid_request" message
decision_or_invalid message (some decision) = return decision

abbrev pub no_longer_live : String
no_longer_live = "Approval belongs to an attempt that is no longer live."

abbrev pub store_resolution : Env → String → ℕ → Object → Bool → M (List EventRecord)
store_resolution env worker_id attempt payload restore s = settle s 2 (
    record_approval_resolution env.host (env.draw s.tick) (env.draw (suc s.tick)) (env.clock s.tick)
      worker_id attempt payload restore s.db)

-- `respond` after `record_approval_resolution`; `none` is its `AttemptChangedError`.
unfoldable pub conclude : String → ApprovalDecision → Option (List EventRecord) → M Object
unfolding set_result
conclude request_id decision none s = raise "worker_not_live" no_longer_live s
conclude request_id decision (some events) s = (
  returned
      (("request_id", Json.str request_id) ∷ ("status", Json.str (approval_status decision)) ∷ []),
  set_result request_id decision (forget request_id s),
)

abbrev pub resolved_payload : String → ApprovalDecision → Object
resolved_payload request_id decision =
    versioned
      (("request_id", Json.str request_id) ∷ ("status", Json.str (approval_status decision)) ∷ [])

-- `respond`, once the decision is read.
unfoldable pub resolve : Env → String → PendingApproval → String → ApprovalDecision → M Object
unfolding conclude
resolve env worker_id p request_id decision s = resume_with (conclude request_id decision) (
    unless_changed
      (store_resolution env worker_id p.attempt (resolved_payload request_id decision)
        (not (other_pending request_id worker_id p.attempt s)))
      s)

unfoldable pub respond : Env → String → String → Object → M Object
unfolding resolve require_worker response_error
respond env worker_id request_id response = do
  found ← gets (λ s. lookup request_id s.pending)
  p ← own_pending worker_id found
  worker ← require_worker worker_id
  live ← gets (λ s. lookup worker_id s.live_attempts)
  ensure (nat_eq worker.attempt p.attempt && waits worker.state && is_attempt_live p.attempt live)
      "worker_not_live" no_longer_live
  decision ←
      decision_or_invalid (response_error p.request response)
        (parse_approval_response (env.matches p.schema_snapshot) p.request response)
  resolve env worker_id p request_id decision

-- The loop of `_complete_live_attempt` over what was pending.
unfoldable pub deny_all : List PendingApproval → Sup → Sup
unfolding set_result default_decision
deny_all [] s = s
deny_all (p ∷ ps) s =
    deny_all ps (set_result p.request_id (default_decision p.request) (forget p.request_id s))

abbrev pub pending_of : String → ℕ → List (String × PendingApproval) → List PendingApproval
pending_of worker_id attempt entries = keep (belongs worker_id attempt) (map (λ e. e.1) entries)

abbrev pub store_expiry : Env → String → ℕ → List String → M (List EventRecord)
store_expiry env worker_id attempt ids s = settle s (suc (length ids)) (
    expire_approval_requests env.host (λ i. env.draw (i + s.tick)) (env.clock s.tick) worker_id
      attempt ids s.db)

unfoldable pub settle_pending : Env → String → ℕ → List PendingApproval → M (Unit {0})
unfolding deny_all
settle_pending env worker_id attempt [] = return tt
settle_pending env worker_id attempt (p ∷ ps) = do
  unless_changed (store_expiry env worker_id attempt (map (λ q. q.request_id) (p ∷ ps)))
  modify (deny_all (p ∷ ps))

-- `_complete_live_attempt`
unfoldable pub complete_live_attempt : Env → String → ℕ → M (Unit {0})
unfolding settle_pending
complete_live_attempt env worker_id attempt s =
    if is_attempt_live attempt (lookup worker_id s.live_attempts)
    then (settle_pending env worker_id attempt (pending_of worker_id attempt s.pending)
          >> modify (λ t. record t { live_attempts = pop worker_id t.live_attempts }))
        s
    else (returned tt, s)

-- `_detach_live_attempt`
unfoldable pub detach_live_attempt : String → ℕ → Sup → Sup
detach_live_attempt worker_id attempt s =
    if is_attempt_live attempt (lookup worker_id s.live_attempts)
    then record s { live_attempts = pop worker_id s.live_attempts }
    else s
