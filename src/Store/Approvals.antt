-- ===== src/Store/Approvals.antt =====
-- `record_approval_request`, `record_approval_resolution` and `expire_approval_requests` of
-- src/qworker/store.py.
use dogqoder.Prelude.{
  ℕ, suc, Bool, true, false, String, List, [], ◌∷◌, ◌++◌, ◌&&◌, nat_eq, if◌then◌else◌,
}
use dogqoder.Lifecycle.{WorkerState, running, requires_action, state_eq}
use dogqoder.Json.{Json, Object}
use dogqoder.Patterns.{Host}
use dogqoder.Events.{validated_payload}
use dogqoder.Result.{unknown_worker, attempt_changed, Result, ok, ◌>>=◌, ◌>>◌, require}
use dogqoder.Store.{EventRecord, Db, Draw, find_worker, or_raise, commit, append_row}
use dogqoder.Store.Project.{project_event}
use dogqoder.Store.Operations.{number}

-- A state change that a transaction appends and projects itself.
unfoldable pub append_state : Host → Draw → String → ℕ → String → ℕ → Db → Result (EventRecord × Db)
append_state host draw worker_id attempt state now db = do
  appended ←
      append_row host draw worker_id attempt "worker.state_changed"
        (("schema_version", number 1) ∷ ("state", Json.str state) ∷ []) now db
  db' ← project_event appended.0 appended.1
  ok (appended.0, db')

abbrev pub is_live : WorkerState → Bool
is_live running = true
is_live requires_action = true
is_live _ = false

-- The transaction of `record_approval_request`.
unfoldable pub request_rows :
    Host → Draw → Draw → ℕ → String → ℕ → Object → Db → Result (List EventRecord × Db)
unfolding append_state
request_rows host draw draw' now worker_id expected_attempt payload db = do
  safe_payload ← validated_payload host "approval.requested" payload
  row ← or_raise (find_worker worker_id db) (unknown_worker worker_id)
  require (nat_eq row.attempt expected_attempt && is_live row.state) attempt_changed
  requested ←
      append_row host draw worker_id expected_attempt "approval.requested" safe_payload now db
  let alone : Result (List EventRecord × Db) = ok (requested.0 ∷ [], requested.1)
  let moved : Result (List EventRecord × Db) =
      append_state host draw' worker_id expected_attempt "requires_action" now requested.1 >>= λ m.
      ok (requested.0 ∷ m.0 ∷ [], m.1)
  if state_eq row.state running then moved else alone

unfoldable pub record_approval_request :
    Host → Draw → Draw → ℕ → String → ℕ → Object → Db → Result (List EventRecord) × Db
unfolding request_rows
record_approval_request host draw draw' now worker_id expected_attempt payload db =
    commit db (request_rows host draw draw' now worker_id expected_attempt payload db)

-- The guard of a resolution: the attempt is current and waits for an action.
unfoldable pub require_waiting : String → ℕ → Db → Result (Unit {0})
require_waiting worker_id expected_attempt db = do
  row ← or_raise (find_worker worker_id db) (unknown_worker worker_id)
  require (nat_eq row.attempt expected_attempt && state_eq row.state requires_action)
      attempt_changed

-- The transaction of `record_approval_resolution`.
unfoldable pub resolution_rows :
    Host → Draw → Draw → ℕ → String → ℕ → Object → Bool → Db → Result (List EventRecord × Db)
unfolding append_state require_waiting
resolution_rows host draw draw' now worker_id expected_attempt payload restore_running db = do
  safe_payload ← validated_payload host "approval.resolved" payload
  require_waiting worker_id expected_attempt db
  resolved ← append_row host draw worker_id expected_attempt "approval.resolved" safe_payload now db
  let alone : Result (List EventRecord × Db) = ok (resolved.0 ∷ [], resolved.1)
  let moved : Result (List EventRecord × Db) =
      append_state host draw' worker_id expected_attempt "running" now resolved.1 >>= λ m.
      ok (resolved.0 ∷ m.0 ∷ [], m.1)
  if restore_running then moved else alone

unfoldable pub record_approval_resolution :
    Host → Draw → Draw → ℕ → String → ℕ → Object → Bool → Db → Result (List EventRecord) × Db
unfolding resolution_rows
record_approval_resolution host draw draw' now worker_id expected_attempt payload restore_running
      db =
    commit db
      (resolution_rows host draw draw' now worker_id expected_attempt payload restore_running db)

-- The payload of an expired request.
abbrev pub expired_payload : String → Object
expired_payload request_id =
    ("schema_version", number 1)
    ∷ ("request_id", Json.str request_id)
    ∷ ("status", Json.str "expired")
    ∷ []

unfoldable pub validate_expired : Host → List String → Result (List Object)
validate_expired host [] = ok []
validate_expired host (id ∷ ids) =
    let rest = validate_expired host ids in
    do
      payload ← validated_payload host "approval.resolved" (expired_payload id)
      payloads ← rest
      ok (payload ∷ payloads)

-- One event for each payload, with a draw for each.
unfoldable pub append_all :
    Host → String → ℕ → ℕ → List (Object × Draw) → Db → Result (List EventRecord × Db)
append_all host worker_id attempt now [] db = ok ([], db)
append_all host worker_id attempt now ((payload, draw) ∷ rest) db =
    append_row host draw worker_id attempt "approval.resolved" payload now db >>= λ one.
    append_all host worker_id attempt now rest one.1 >>= λ more. ok (one.0 ∷ more.0, more.1)

abbrev pub pair_up : List Object → (ℕ → Draw) → ℕ → List (Object × Draw)
pair_up [] draws n = []
pair_up (p ∷ ps) draws n = (p, draws n) ∷ pair_up ps draws (suc n)

-- The transaction of `expire_approval_requests`, for at least one request; draw 0 is for the change
-- of state.
unfoldable pub expire_rows :
    Host → (ℕ → Draw) → ℕ → String → ℕ → List String → Db → Result (List EventRecord × Db)
unfolding validate_expired append_all append_state require_waiting
expire_rows host draws now worker_id expected_attempt request_ids db = do
  payloads ← validate_expired host request_ids
  require_waiting worker_id expected_attempt db
  expired ← append_all host worker_id expected_attempt now (pair_up payloads draws 1) db
  moved ← append_state host (draws 0) worker_id expected_attempt "running" now expired.1
  ok (expired.0 ++ moved.0 ∷ [], moved.1)

unfoldable pub expire_approval_requests :
    Host → (ℕ → Draw) → ℕ → String → ℕ → List String → Db → Result (List EventRecord) × Db
unfolding expire_rows
expire_approval_requests host draws now worker_id expected_attempt [] db = (ok [], db)
expire_approval_requests host draws now worker_id expected_attempt (id ∷ ids) db =
    commit db (expire_rows host draws now worker_id expected_attempt (id ∷ ids) db)
