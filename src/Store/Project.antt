-- ===== src/Store/Project.antt =====
-- `_project_event` of src/qworker/store.py: the lifecycle, health and warning events reflected in the
-- rows of a worker.
use dogqoder.Prelude.{
  Bool, false, ℕ, Option, none, some, String, [], ◌∷◌, ◌++◌, ◌==◌, contains, lookup, if◌then◌else◌,
}
use dogqoder.Lifecycle.{
  WorkerState, starting, running, requires_action, completed, failed, cancelled, lost, WorkerHealth,
  transition, is_terminal,
}
use dogqoder.Json.{Object, as_str}
use dogqoder.Tables.{update_where, coalesce}
use dogqoder.Result.{invalid_transition, invalid_value, assertion, Result, ok, err, ◌>>=◌}
use dogqoder.Store.{EventRecord, Db, is_worker, is_attempt, find_worker, or_raise}

unfoldable pub parse_state : String → Option WorkerState
parse_state s =
    if s == "starting"
    then some starting
    else if s == "running"
    then some running
    else if s == "requires_action"
    then some requires_action
    else if s == "completed"
    then some completed
    else if s == "failed"
    then some failed
    else if s == "cancelled"
    then some cancelled
    else if s == "lost"
    then some lost
    else none

unfoldable pub parse_health : String → Option WorkerHealth
parse_health s =
    if s == "unknown"
    then some WorkerHealth.unknown
    else if s == "healthy"
    then some WorkerHealth.healthy
    else if s == "quiet"
    then some WorkerHealth.quiet
    else if s == "stalled"
    then some WorkerHealth.stalled
    else if s == "exited"
    then some WorkerHealth.exited
    else none

-- `payload.get(key)`, where it is a string.
abbrev pub text_at : String → Object → Option String
text_at key payload = elim (lookup key payload) [ none ↦ none | some v ↦ as_str v ]

abbrev pub names_starting : Option String → Bool
names_starting none = false
names_starting (some s) = s == "starting"

abbrev pub start_time : WorkerState → ℕ → Option ℕ
start_time running now = some now
start_time _ now = none

abbrev pub end_time : WorkerState → ℕ → Option ℕ
end_time state now = if is_terminal state then some now else none

-- The two updates of a state change.
unfoldable pub set_state : EventRecord → WorkerState → Db → Db
set_state e state db = record db {
  workers =
      update_where (is_worker e.worker_id)
        (λ w. record w {
          state = state;
          started_at = coalesce (start_time state e.timestamp) w.started_at;
          ended_at = coalesce (end_time state e.timestamp) w.ended_at;
        })
        db.workers;
  attempts =
      update_where (is_attempt e.worker_id e.attempt)
        (λ a. record a {
          state = state;
          started_at = coalesce (start_time state e.timestamp) a.started_at;
          ended_at = coalesce (end_time state e.timestamp) a.ended_at;
        })
        db.attempts;
}

-- `WorkerStateReducer(state).transition(target)` on the text of a target.
abbrev pub move_to : WorkerState → Option WorkerState → Result WorkerState
move_to state none = err invalid_transition
move_to state (some target) = or_raise (transition state target) invalid_transition

-- The branches of `_project_event`.
unfoldable pub project_state : EventRecord → Db → Result Db
unfolding set_state parse_state
project_state e db = do
  target ← or_raise (text_at "state" e.payload) (invalid_value "state")
  row ← or_raise (find_worker e.worker_id db) (assertion "worker")
  state ← move_to row.state (parse_state target)
  ok (set_state e state db)

unfoldable pub project_health : EventRecord → Db → Result Db
unfolding parse_health
project_health e db = do
  text ← or_raise (text_at "health" e.payload) (invalid_value "health")
  health ← or_raise (parse_health text) (invalid_value "health")
  ok (record db {
    workers = update_where (is_worker e.worker_id) (λ w. record w { health = health }) db.workers;
  })

unfoldable pub project_warning : EventRecord → Db → Result Db
project_warning e db = do
  code ← or_raise (text_at "code" e.payload) (invalid_value "code")
  row ← or_raise (find_worker e.worker_id db) (assertion "worker")
  ok (
      if contains row.warnings code then db else record db {
        workers =
            update_where (is_worker e.worker_id)
              (λ w. record w { warnings = row.warnings ++ code ∷ [] }) db.workers;
      })

-- `_project_event`
unfoldable pub project_event : EventRecord → Db → Result Db
unfolding project_state project_health project_warning
project_event e db =
    if e.event_type == "worker.state_changed"
    then project_state e db
    else if e.event_type == "worker.health_changed"
    then project_health e db
    else if e.event_type == "worker.warning"
    then project_warning e db
    else ok db
