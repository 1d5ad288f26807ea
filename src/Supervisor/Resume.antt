-- ===== src/Supervisor/Resume.antt =====
-- `resume`, `status`, `list_workers` and `result` of src/qworker/supervisor.py.
use Prim.Native.String.{String}
use dogqoder.Prelude.{
  Bool, true, false, Option, none, some, List, [], ◌∷◌, ◌++◌, ◌&&◌, ◌==◌, nat_eq, length, keep, map,
  is_some,
}
use dogqoder.Json.{Json, Object, from_fields, from_items}
use dogqoder.Lifecycle.{WorkerRole, WorkerState, failed, cancelled, lost}
use dogqoder.Store.{WorkerRecord, AttemptRecord}
use dogqoder.Store.Operations.{start_attempt, number, role_text}
use dogqoder.Store.Queries.{latest_event_cursor, list_workers}
use dogqoder.Supervisor.{
  PendingApproval, Sup, Env, M, ◌>>=◌, ◌>>◌, return, raise, ensure, gets, modify, settle, put,
  require_worker,
}
use dogqoder.Supervisor.Responding.{waits}
use dogqoder.Supervisor.Views.{state_text, worker_json, listed_worker_json, optional_object}
use dogqoder.Supervisor.Spawn.{refuse_closed}

abbrev pub may_resume : WorkerState → Bool
may_resume lost = true
may_resume failed = true
may_resume cancelled = true
may_resume _ = false

abbrev pub resumes : Env → WorkerRole → Bool
resumes env WorkerRole.coder = env.coder_resumes
resumes env WorkerRole.auditor = env.auditor_resumes

abbrev pub found_cwd : Option String → M String
found_cwd none = raise "resume_not_possible" "Worker's original working directory is unavailable."
found_cwd (some cwd) = return cwd

abbrev pub store_attempt : Env → String → M AttemptRecord
store_attempt env worker_id s =
    settle s 1 (start_attempt env.host (env.draw s.tick) (env.clock s.tick) worker_id s.db)

-- The task of a resumed worker, and what `resume` returns.
unfoldable pub enter_resumed : String → WorkerRole → String → AttemptRecord → M Object
enter_resumed worker_id role cwd attempt = do
  modify (λ s. record s { tasks = put worker_id attempt.attempt s.tasks })
  cursor ← gets (λ s. latest_event_cursor worker_id s.db)
  return (
      ("worker_id", Json.str worker_id)
      ∷ ("state", Json.str (state_text attempt.state))
      ∷ ("role", Json.str (role_text role))
      ∷ ("cwd", Json.str cwd)
      ∷ ("attempt", number attempt.attempt)
      ∷ ("event_cursor", number cursor)
      ∷ [])

unfoldable pub resume : Env → String → M Object
unfolding require_worker enter_resumed
resume env worker_id = do
  refuse_closed
  worker ← require_worker worker_id
  ensure (may_resume worker.state) "resume_not_possible" "Worker state is not eligible for resume."
  ensure (is_some worker.session_id) "resume_not_possible" "Worker has no stored Qoder session."
  ensure (resumes env worker.role) "resume_not_possible" "Resume transport is unavailable."
  cwd ← found_cwd (env.fs.resolve worker.cwd)
  ensure ((cwd == worker.cwd) && env.fs.is_dir cwd) "resume_not_possible"
      "Worker's original working directory is invalid."
  attempt ← store_attempt env worker_id
  enter_resumed worker_id worker.role cwd attempt

-- The displays that `status` shows: a copy of an object is the object.
abbrev pub shown_approvals : WorkerRecord → List (String × PendingApproval) → List Json
shown_approvals worker entries =
    map (λ e. Json.obj (from_fields e.1.display))
      (keep
        (λ e.
          (e.1.worker_id == worker.worker_id)
          && nat_eq e.1.attempt worker.attempt
          && waits worker.state)
        entries)

unfoldable pub status : Env → String → M Object
unfolding require_worker worker_json
status env worker_id = do
  worker ← require_worker worker_id
  cursor ← gets (λ s. latest_event_cursor worker_id s.db)
  entries ← gets (λ s. s.pending)
  return (
      worker_json env.isoformat worker cursor
      ++ ("pending_approvals", Json.arr (from_items (shown_approvals worker entries))) ∷ [])

-- `list_workers`
unfoldable pub listing : Env → Sup → Object
unfolding listed_worker_json list_workers
listing env s =
    (
      "workers",
      Json.arr (
          from_items (
            map (λ w. Json.obj (from_fields (listed_worker_json env.isoformat w)))
              (list_workers s.db))),
    )
    ∷ ("count", number (length (list_workers s.db)))
    ∷ []

unfoldable pub result : String → M Json
unfolding require_worker
result worker_id =
    require_worker worker_id >>= λ worker. return (optional_object worker.result_summary)
