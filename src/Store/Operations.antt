-- ===== src/Store/Operations.antt =====
-- `create_worker`, `start_attempt` and `append_event` of src/qworker/store.py.
use dogqoder.Prelude.{
  ℕ, ◌+◌, Bool, true, not, Option, none, some, String, List, [], ◌∷◌, ◌++◌, ◌&&◌, ◌==◌, ltb, any,
  is_some, if◌then◌else◌,
}
use dogqoder.Lifecycle.{
  WorkerRole, coder, auditor, starting, WorkerHealth, WriteCapability, NestedState, transition,
}
use dogqoder.Json.{Json, Object, ℤ}
use dogqoder.Patterns.{Host, is_safe_metadata}
use dogqoder.Payload.{Validator, one_of, absolute_path, runtime_path, safe_runtime_version}
use dogqoder.Events.{validated_payload}
use dogqoder.Workspace.{FileSystem, canonical_workspace}
use dogqoder.Tables.{update_where}
use dogqoder.Ulid.{new_ulid}
use dogqoder.Result.{
  use_create_worker, use_start_attempt, unsafe_creation_field, invalid_transition, unknown_worker,
  integrity, assertion, Result, ok, err, ◌>>=◌, ◌>>◌, require,
}
use dogqoder.Store.{
  WorkerRecord, AttemptRecord, EventRecord, Db, Draw, is_worker, is_attempt, find_worker, or_raise,
  commit, append_row,
}
use dogqoder.Store.Project.{text_at, names_starting, project_event}

abbrev pub role_text : WorkerRole → String
role_text coder = "coder"
role_text auditor = "auditor"

abbrev pub capability_text : WriteCapability → String
capability_text WriteCapability.shared_workspace = "shared_workspace"
capability_text WriteCapability.read_only = "read_only"

-- The keyword arguments of `create_worker`.
pub record NewWorker : Type 0 where
  pub role : WorkerRole
  pub cwd : String
  pub write_capability : WriteCapability
  pub requested_model : String
  pub runtime_path : String
  pub sdk_version : String
  pub worker_id : Option String
  pub runtime_version : Option String

-- The loop of `_validate_worker_creation`.
abbrev pub check_values : List (String × Json × Validator) → Result (Unit {0})
check_values [] = ok tt
check_values ((field, value, validator) ∷ rest) =
    require (validator value) (unsafe_creation_field field) >> check_values rest

abbrev pub passes_version : Host → Option String → Bool
passes_version host none = true
passes_version host (some v) = safe_runtime_version host (Json.str v)

-- `_validate_worker_creation`
unfoldable pub validate_worker_creation : Host → String → String → NewWorker → Result (Unit {0})
validate_worker_creation host worker_id cwd n = do
  check_values (
      ("worker_id", Json.str worker_id, is_safe_metadata)
      ∷ ("role", Json.str (role_text n.role), one_of ("coder" ∷ "auditor" ∷ []))
      ∷ ("cwd", Json.str cwd, absolute_path)
      ∷ (
        "write_capability",
        Json.str (capability_text n.write_capability),
        one_of ("shared_workspace" ∷ "read_only" ∷ []),
      )
      ∷ ("requested_model", Json.str n.requested_model, is_safe_metadata)
      ∷ ("runtime_path", Json.str n.runtime_path, runtime_path)
      ∷ ("sdk_version", Json.str n.sdk_version, safe_runtime_version host)
      ∷ [])
  require (passes_version host n.runtime_version) (unsafe_creation_field "runtime_version")

-- `worker_id or _new_ulid()`
abbrev pub chosen_id : Option String → Draw → String
chosen_id none draw = new_ulid draw.time_ns draw.bits
chosen_id (some id) draw = if id == "" then new_ulid draw.time_ns draw.bits else id

abbrev pub number : ℕ → Json
number n = Json.int (ℤ.pos n)

-- The row that `create_worker` inserts.
abbrev pub new_row : String → String → ℕ → NewWorker → WorkerRecord
new_row worker_id cwd now n = record {
  worker_id = worker_id;
  role = n.role;
  cwd = cwd;
  state = starting;
  health = WorkerHealth.unknown;
  write_capability = n.write_capability;
  requested_model = n.requested_model;
  resolved_model = none;
  actual_models = [];
  session_id = none;
  attempt = 1;
  runtime_path = n.runtime_path;
  runtime_version = n.runtime_version;
  sdk_version = n.sdk_version;
  created_at = now;
  started_at = none;
  last_event_at = none;
  ended_at = none;
  result_summary = none;
  nested_state = NestedState.nothing;
  warnings = [];
}

abbrev pub new_attempt : String → ℕ → ℕ → AttemptRecord
new_attempt worker_id attempt now = record {
  worker_id = worker_id;
  attempt = attempt;
  state = starting;
  created_at = now;
  started_at = none;
  ended_at = none;
}

-- `INSERT INTO workers`, under its primary key.
unfoldable pub insert_worker : WorkerRecord → Db → Result Db
insert_worker w db = do
  require (not (any (is_worker w.worker_id) db.workers)) (integrity "workers.worker_id")
  ok (record db { workers = db.workers ++ w ∷ [] })

-- `INSERT INTO attempts`, under its constraints.
unfoldable pub insert_attempt : AttemptRecord → Db → Result Db
insert_attempt a db = do
  require (is_some (find_worker a.worker_id db)) (integrity "attempts.worker_id")
  require (ltb 0 a.attempt) (integrity "attempts.check")
  require (not (any (is_attempt a.worker_id a.attempt) db.attempts)) (integrity "attempts.attempt")
  ok (record db { attempts = db.attempts ++ a ∷ [] })

-- The transaction of `create_worker`.
unfoldable pub create_rows :
    Host → Draw → ℕ → String → String → NewWorker → Db → Result (String × Db)
unfolding insert_worker insert_attempt
create_rows host draw now worker_id cwd n db = do
  db1 ← insert_worker (new_row worker_id cwd now n) db
  db2 ← insert_attempt (new_attempt worker_id 1 now) db1
  created ←
      append_row host draw worker_id 1 "worker.created"
        (("schema_version", number 1)
          ∷ ("attempt", number 1)
          ∷ ("cwd", Json.str cwd)
          ∷ ("role", Json.str (role_text n.role))
          ∷ [])
        now db2
  ok (worker_id, created.1)

-- `create_worker` up to its commit; the first draw serves an identifier that is not given, the second
-- the event.
unfoldable pub creation :
    Host → FileSystem → Draw → Draw → ℕ → NewWorker → Db → Result (String × Db)
unfolding create_rows validate_worker_creation
creation host fs draw draw' now n db = do
  cwd ← or_raise (canonical_workspace fs n.cwd) (unsafe_creation_field "cwd")
  let worker_id = chosen_id n.worker_id draw
  validate_worker_creation host worker_id cwd n
  create_rows host draw' now worker_id cwd n db

-- `_get_worker`, after the commit.
abbrev pub read_back : Result String × Db → Result WorkerRecord × Db
read_back (ok worker_id, db) = (or_raise (find_worker worker_id db) (assertion "worker"), db)
read_back (err e, db) = (err e, db)

unfoldable pub create_worker :
    Host → FileSystem → Draw → Draw → ℕ → NewWorker → Db → Result WorkerRecord × Db
unfolding creation
create_worker host fs draw draw' now n db =
    read_back (commit db (creation host fs draw draw' now n db))

-- The update of `start_attempt`.
abbrev pub restart_row : ℕ → WorkerRecord → WorkerRecord
restart_row attempt w = record w {
  attempt = attempt;
  state = starting;
  health = WorkerHealth.unknown;
  session_id = none;
  started_at = none;
  last_event_at = none;
  ended_at = none;
  result_summary = none;
  nested_state = NestedState.nothing;
  warnings = [];
}

-- The transaction of `start_attempt`.
unfoldable pub start_rows : Host → Draw → ℕ → String → Db → Result (AttemptRecord × Db)
unfolding insert_attempt
start_rows host draw now worker_id db = do
  row ← or_raise (find_worker worker_id db) (unknown_worker worker_id)
  state ← or_raise (transition row.state starting) invalid_transition
  db1 ← insert_attempt (new_attempt worker_id (row.attempt + 1) now) db
  let db2 : Db = record db1 {
    workers = update_where (is_worker worker_id) (restart_row (row.attempt + 1)) db1.workers;
  }
  started ←
      append_row host draw worker_id (row.attempt + 1) "worker.state_changed"
        (("schema_version", number 1)
          ∷ ("attempt", number (row.attempt + 1))
          ∷ ("state", Json.str "starting")
          ∷ [])
        now db2
  ok (new_attempt worker_id (row.attempt + 1) now, started.1)

unfoldable pub start_attempt : Host → Draw → ℕ → String → Db → Result AttemptRecord × Db
unfolding start_rows
start_attempt host draw now worker_id db = commit db (start_rows host draw now worker_id db)

-- The transaction of `append_event`, with the tests before it.
unfoldable pub append_rows :
    Host → Draw → ℕ → String → String → Object → Db → Result (EventRecord × Db)
append_rows host draw now worker_id event_type payload db = do
  safe_payload ← validated_payload host event_type payload
  require (not (event_type == "worker.created")) use_create_worker
  require
      (not
        ((event_type == "worker.state_changed") && names_starting (text_at "state" safe_payload)))
      use_start_attempt
  row ← or_raise (find_worker worker_id db) (unknown_worker worker_id)
  appended ← append_row host draw worker_id row.attempt event_type safe_payload now db
  db' ← project_event appended.0 appended.1
  ok (appended.0, db')

unfoldable pub append_event :
    Host → Draw → ℕ → String → String → Object → Db → Result EventRecord × Db
unfolding append_rows
append_event host draw now worker_id event_type payload db =
    commit db (append_rows host draw now worker_id event_type payload db)
