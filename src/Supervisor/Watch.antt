-- ===== src/Supervisor/Watch.antt =====
-- `watch` of src/qworker/supervisor.py. A watcher that follows reads the store again whenever it is woken;
-- the readings are a list, and the events that it yields are its result.
use dogqoder.Prelude.{
  ℕ, Bool, true, false, Option, none, some, String, List, [], ◌∷◌, ◌++◌, if◌then◌else◌,
}
use dogqoder.Lifecycle.{is_terminal}
use dogqoder.Store.{WorkerRecord, EventRecord, Db, find_worker}
use dogqoder.Store.Queries.{events_since}

-- What a watcher finds when it reads: the tables, and whether the supervisor is closed.
pub record Reading : Type 0 where
  pub db : Db
  pub closed : Bool

-- How a watch ends: it returns, it raises as its worker is gone, or it still waits.
pub data WatchEnd : Type 0 where
  finished unknown_worker waiting : WatchEnd

-- The cursor after a batch of events.
abbrev pub last_cursor : ℕ → List EventRecord → ℕ
last_cursor cursor [] = cursor
last_cursor cursor (e ∷ es) = last_cursor e.sequence es

abbrev pub is_over : Bool → Option WorkerRecord → Option WatchEnd
is_over true worker = some WatchEnd.finished
is_over false none = some WatchEnd.unknown_worker
is_over false (some worker) = if is_terminal worker.state then some WatchEnd.finished else none

-- The loop with `follow`: a reading without new events ends the watch, or is waited after.
unfoldable pub follow : String → ℕ → List Reading → List EventRecord × WatchEnd
unfolding events_since
follow worker_id cursor [] = ([], WatchEnd.waiting)
follow worker_id cursor (r ∷ rs) = elim (events_since worker_id cursor r.db) [
  | [] ↦ elim (is_over r.closed (find_worker worker_id r.db)) [
    | some end ↦ ([], end)
    | none ↦ follow worker_id cursor rs
  ]
  | e ∷ es ↦
      let rest = follow worker_id (last_cursor e.sequence es) rs in (e ∷ (es ++ rest.0), rest.1)
]

-- The loop without `follow`: one batch.
unfoldable pub replay : String → ℕ → Reading → List EventRecord
replay worker_id since r = events_since worker_id since r.db
