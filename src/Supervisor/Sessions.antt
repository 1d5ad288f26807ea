-- ===== src/Supervisor/Sessions.antt =====
-- Sequences of calls of src/qworker/supervisor.py, among other tasks that act in between.
use dogqoder.Prelude.{
  ℕ, ◌≡◌, sym, refl, Bool, true, false, if◌then◌else◌, Option, some, String, List, [],
}
use mathlib.Core.Path.{subst}
use dogqoder.Json.{Object}
use dogqoder.Preflight.{DoctorResult}
use dogqoder.Control.{ApprovalRequest}
use dogqoder.Store.{empty_db}
use dogqoder.Store.Invariant.{IsSound, Extends}
use dogqoder.Store.History.{Op, run, run-IsSound, run-Extends}
use dogqoder.Supervisor.{Sup, Env, M}
use dogqoder.Supervisor.Refinement.{Reaches, Reaches-refl, Reaches-trans, Keeps}
use dogqoder.Supervisor.Calls.{Keeps-request_approval, Keeps-respond}
use dogqoder.Supervisor.Approvals.{request_approval, abandon_request}
use dogqoder.Supervisor.Responding.{respond}
use dogqoder.Supervisor.Steering.{SteeringPriority, steer, cancel_message}
use dogqoder.Supervisor.Finish.{Ended, bind_transport, on_initialized, end_worker}
use dogqoder.Supervisor.Views.{WorkerContract}
use dogqoder.Supervisor.Spawn.{Metadata, spawn}
use dogqoder.Supervisor.Resume.{resume, status}
use dogqoder.Supervisor.Stop.{Waits, stop, stop_attempt, close, operation_finished, task_finished}
use dogqoder.Supervisor.Ending.{
  Keeps-steer, Keeps-cancel_message, Keeps-on_initialized, Keeps-end_worker,
}
use dogqoder.Supervisor.Starting.{Keeps-spawn, Keeps-resume, Keeps-status}
use dogqoder.Supervisor.Stopping.{KeepWaits, Keeps-stop_attempt, Keeps-stop, Keeps-close}

-- A step of the supervisor: one call, or one thing that its tasks and callbacks do. What a call waits
-- for is any computation that keeps to the calls of the store, such as other steps.
pub data Step (env : Env) (s : Sup) : Sup → Type 0 where
  spawns :
      (defaults : Metadata) (preflight : Option (String → M DoctorResult)) (c : WorkerContract)
      → ((f : String → M DoctorResult) → preflight ≡ some f → (cwd : String) → Keeps env (f cwd))
      → Step env s (spawn env defaults preflight c s).1
  resumes : (w : String) → Step env s (resume env w s).1
  reads_status : (w : String) → Step env s (status env w s).1
  steers :
      (uuid : String) (deliver : ℕ → M (Unit {0})) (w message : String)
      (priority : SteeringPriority) (agent : Option String)
      → ((n : ℕ) → Keeps env (deliver n))
      → Step env s (steer env uuid deliver w message priority agent s).1
  cancels :
      (canonical : String → Bool) (cancel : ℕ → M Bool) (w message : String)
      → ((n : ℕ) → Keeps env (cancel n))
      → Step env s (cancel_message env canonical cancel w message s).1
  requests :
      (w : String) (n : ℕ) (r : ApprovalRequest) → Step env s (request_approval env w n r s).1
  responds : (w id : String) (response : Object) → Step env s (respond env w id response s).1
  abandons : (id : String) → Step env s (abandon_request id s)
  binds : (w : String) (n : ℕ) → Step env s (bind_transport w n s)
  initializes : (w model : String) → Step env s (on_initialized env w model s).1
  ends :
      (w : String) (n : ℕ) (c : WorkerContract) (initialized preceded : Bool) (e : Ended)
      → Step env s (end_worker env w n c initialized preceded e s).1
  stops :
      (wait : ℕ → M (Unit {0})) (w : String) (force : Bool) (agent : Option String)
      → ((n : ℕ) → Keeps env (wait n))
      → Step env s (stop env wait w force agent s).1
  runs_stop :
      (waits : Waits) (w : String) (n : ℕ) (live : Bool)
      → KeepWaits env waits
      → Step env s (stop_attempt env waits w n live s).1
  closes :
      (wait : String → ℕ → M (Unit {0})) (settle_tasks : M (Unit {0}))
      → ((w : String) (n : ℕ) → Keeps env (wait w n))
      → Keeps env settle_tasks
      → Step env s (close env wait settle_tasks s).1
  leaves_stop : (w : String) (n : ℕ) → Step env s (operation_finished w n s)
  leaves_task : (w : String) (n : ℕ) → Step env s (task_finished w n s)

pub data Session (env : Env) (s : Sup) : Sup → Type 0 where
  here : Session env s s
  next : {t u : Sup} → Session env s t → Step env t u → Session env s u

-- A new supervisor on an empty store.
abbrev pub new_supervisor : Sup
new_supervisor = record {
  db = empty_db;
  closed = false;
  tasks = [];
  live_attempts = [];
  stop_requests = [];
  stop_operations = [];
  pending = [];
  futures = [];
  tick = 0;
}

same-Reaches : (env : Env) (s t : Sup) → t.db ≡ s.db → Reaches env s t
unfolding run
same-Reaches env s t p = ([], p)

choose-db : (test : Bool) (s t : Sup) → t.db ≡ s.db → (if test then t else s).db ≡ s.db
choose-db true s t p = p
choose-db false s t p = refl

Step-Reaches : (env : Env) {s t : Sup} → Step env s t → Reaches env s t
unfolding abandon_request bind_transport operation_finished task_finished
Step-Reaches env {s} (spawns d p c h) = (Keeps-spawn env d p c h).reaches s
Step-Reaches env {s} (resumes w) = (Keeps-resume env w).reaches s
Step-Reaches env {s} (reads_status w) = (Keeps-status env w).reaches s
Step-Reaches env {s} (steers u d w m p a h) = (Keeps-steer env u d w m p a h).reaches s
Step-Reaches env {s} (cancels c d w m h) = (Keeps-cancel_message env c d w m h).reaches s
Step-Reaches env {s} (requests w n r) = (Keeps-request_approval env w n r).reaches s
Step-Reaches env {s} (responds w id r) = (Keeps-respond env w id r).reaches s
Step-Reaches env {s} (abandons id) = same-Reaches env s (abandon_request id s) refl
Step-Reaches env {s} (binds w n) = same-Reaches env s (bind_transport w n s) refl
Step-Reaches env {s} (initializes w m) = (Keeps-on_initialized env w m).reaches s
Step-Reaches env {s} (ends w n c i p e) = (Keeps-end_worker env w n c i p e).reaches s
Step-Reaches env {s} (stops d w f a h) = (Keeps-stop env d w f a h).reaches s
Step-Reaches env {s} (runs_stop d w n l h) = (Keeps-stop_attempt env d w n l h).reaches s
Step-Reaches env {s} (closes d t h k) = (Keeps-close env d t h k).reaches s
Step-Reaches env {s} (leaves_stop w n) = same-Reaches env s (operation_finished w n s) refl
Step-Reaches env {s} (leaves_task w n) =
    same-Reaches env s (task_finished w n s) (choose-db _ s _ refl)

-- The tables of a session are those that a sequence of the store's own calls leaves.
pub Session-Reaches :
    (env : Env) {s t : Sup}
    → Session env s t
    → (ops : List Op) × (t.db ≡ run env.host env.fs ops s.db)
Session-Reaches env {s} here = Reaches-refl env s
Session-Reaches env {s} (next {t} {u} r st) =
    Reaches-trans env s t u (Session-Reaches env r) (Step-Reaches env st)

-- A session keeps the tables sound and loses no event.
pub Session-Extends :
    (env : Env) {s t : Sup}
    → IsSound s.db
    → Session env s t
    → IsSound t.db × Extends s.db.events t.db.events
Session-Extends env {s} {t} sound r =
    let (ops, same) = Session-Reaches env r in
    subst (λ db. IsSound db × Extends s.db.events db.events) (sym same)
      (run-IsSound env.host env.fs ops s.db sound, run-Extends env.host env.fs ops s.db sound)
