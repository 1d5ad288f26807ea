-- ===== src/Store.antt =====
-- src/qworker/store.py: the tables behind `WorkerStore`, and the steps that its transactions share.
-- A transaction is a function of the tables; `commit` says what is left of it. Times are counted in
-- microseconds, and a JSON column is held decoded.
pub mod Project
pub mod Operations
pub mod Approvals
pub mod Queries
pub mod Effects
pub mod Sequence
pub mod Consistency
pub mod Invariant
pub mod StateChange
pub mod Projection
pub mod Soundness
pub mod Insertion
pub mod Results
pub mod ApprovalSoundness
pub mod History
pub mod Logging
pub mod Lifetimes
pub mod Replay
use dogqoder.Prelude.{
  ℕ, ◌+◌, Bool, not, Option, none, some, String, List, [], ◌∷◌, ◌++◌, ◌&&◌, ◌==◌, nat_eq, ltb, any,
  contains, lookup, is_some, if◌then◌else◌,
}
use dogqoder.Lifecycle.{
  WorkerRole, WorkerState, starting, running, requires_action, completed, failed, cancelled, lost,
  WorkerHealth, WriteCapability, NestedState, transition, is_terminal,
}
use dogqoder.Json.{Object, as_str}
use dogqoder.Patterns.{Host}
use dogqoder.Events.{validated_payload}
use dogqoder.Tables.{select, update_where, coalesce}
use dogqoder.Ulid.{new_ulid}
use dogqoder.Result.{
  Error, invalid_transition, integrity, assertion, Result, ok, err, ◌>>=◌, ◌>>◌, require,
}

-- `WorkerRecord`, which is also a row of the table `workers`.
pub record WorkerRecord : Type 0 where
  pub worker_id : String
  pub role : WorkerRole
  pub cwd : String
  pub state : WorkerState
  pub health : WorkerHealth
  pub write_capability : WriteCapability
  pub requested_model : String
  pub resolved_model : Option String
  pub actual_models : List String
  pub session_id : Option String
  pub attempt : ℕ
  pub runtime_path : String
  pub runtime_version : Option String
  pub sdk_version : String
  pub created_at : ℕ
  pub started_at : Option ℕ
  pub last_event_at : Option ℕ
  pub ended_at : Option ℕ
  pub result_summary : Option Object
  pub nested_state : NestedState
  pub warnings : List String

-- `AttemptRecord`, a row of the table `attempts`.
pub record AttemptRecord : Type 0 where
  pub worker_id : String
  pub attempt : ℕ
  pub state : WorkerState
  pub created_at : ℕ
  pub started_at : Option ℕ
  pub ended_at : Option ℕ

-- `EventRecord`, a row of the table `events`; the field `type` is `event_type` here.
pub record EventRecord : Type 0 where
  pub sequence : ℕ
  pub event_id : String
  pub worker_id : String
  pub attempt : ℕ
  pub timestamp : ℕ
  pub event_type : String
  pub payload : Object

pub record Db : Type 0 where
  pub workers : List WorkerRecord
  pub attempts : List AttemptRecord
  pub events : List EventRecord

abbrev pub empty_db : Db
empty_db = record { workers = []; attempts = []; events = [] }

-- What one event draws from the clock and from `secrets` for its identifier.
pub record Draw : Type 0 where
  pub time_ns : ℕ
  pub bits : ℕ

abbrev pub is_worker : String → WorkerRecord → Bool
is_worker id w = w.worker_id == id

abbrev pub is_attempt : String → ℕ → AttemptRecord → Bool
is_attempt id n a = (a.worker_id == id) && nat_eq a.attempt n

abbrev pub find_worker : String → Db → Option WorkerRecord
find_worker id db = select (is_worker id) db.workers

abbrev pub find_attempt : String → ℕ → Db → Option AttemptRecord
find_attempt id n db = select (is_attempt id n) db.attempts

abbrev pub or_raise {ℓ} : {A : Type ℓ} → Option A → Error → Result A
or_raise none e = err e
or_raise (some a) e = ok a

-- `COMMIT`, or `ROLLBACK` and the exception.
abbrev pub commit {ℓ} : {A : Type ℓ} → Db → Result (A × Db) → Result A × Db
commit db (ok (a, db')) = (ok a, db')
commit db (err e) = (err e, db)

-- `SELECT COALESCE(MAX(sequence), 0) FROM events WHERE worker_id = ?`
unfoldable pub last_sequence : String → List EventRecord → ℕ
last_sequence id [] = 0
last_sequence id (e ∷ es) =
    let rest = last_sequence id es in
    if e.worker_id == id then if ltb rest e.sequence then e.sequence else rest else rest

-- `INSERT INTO events`, under the table's constraints.
unfoldable pub insert_event : EventRecord → Db → Result Db
insert_event e db = do
  require (is_some (find_worker e.worker_id db)) (integrity "events.worker_id")
  require (ltb 0 e.sequence && ltb 0 e.attempt) (integrity "events.check")
  require (not (any (λ o. o.event_id == e.event_id) db.events)) (integrity "events.event_id")
  require (not (any (λ o. (o.worker_id == e.worker_id) && nat_eq o.sequence e.sequence) db.events))
      (integrity "events.sequence")
  ok (record db { events = db.events ++ e ∷ [] })

-- `UPDATE workers SET last_event_at = ?`
abbrev pub touch : String → ℕ → Db → Db
touch id timestamp db = record db {
  workers =
      update_where (is_worker id) (λ w. record w { last_event_at = some timestamp }) db.workers;
}

-- `_append_event`
unfoldable pub append_row :
    Host → Draw → String → ℕ → String → Object → ℕ → Db → Result (EventRecord × Db)
unfolding last_sequence insert_event
append_row host draw id attempt event_type payload timestamp db = do
  safe_payload ← validated_payload host event_type payload
  let event : EventRecord = record {
    sequence = last_sequence id db.events + 1;
    event_id = new_ulid draw.time_ns draw.bits;
    worker_id = id;
    attempt = attempt;
    timestamp = timestamp;
    event_type = event_type;
    payload = safe_payload;
  }
  db' ← insert_event event db
  ok (event, touch id timestamp db')
