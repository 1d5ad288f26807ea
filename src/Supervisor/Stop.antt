-- ===== src/Supervisor/Stop.antt =====
-- `stop`, its single operation for an attempt, and `close` of src/qworker/supervisor.py. What waits on other
-- tasks is an argument: joining the phase of a result, the grace given to the transport, the ends of
-- transport and owner. They run while others may act, so each is any computation on the state.
use Prim.Native.String.{String}
use dogqoder.Prelude.{
  ℕ, Bool, true, false, not, Option, none, some, List, [], ◌∷◌, ◌++◌, ◌&&◌, ◌||◌, ◌==◌, nat_eq,
  keep, map, lookup, is_some, if◌then◌else◌,
}
use dogqoder.Json.{Json, Object, nil}
use dogqoder.Lifecycle.{cancelled, is_terminal}
use dogqoder.Store.{WorkerRecord}
use dogqoder.Store.Queries.{latest_event_cursor}
use dogqoder.Supervisor.{
  Reply, returned, raised, supervisor_error, Sup, Env, M, ◌>>=◌, ◌>>◌, return, ensure, gets, modify,
  pop, require_worker, is_attempt_live, add_stop, discard_stop,
}
use dogqoder.Supervisor.Finish.{finalize_without_result}
use dogqoder.Supervisor.Views.{worker_json}
use dogqoder.Supervisor.Resume.{status}

-- What a call of `stop` comes to under the lock: the worker is at its end, or there is an operation to
-- wait for on an attempt.
pub data Stopping : Type 0 where
  already_over : Object → Stopping
  operation : ℕ → Stopping

abbrev pub is_operation : String → ℕ → String × ℕ × Bool → Bool
is_operation worker_id attempt o = (o.0 == worker_id) && nat_eq o.1 attempt

abbrev pub find_operation : String → ℕ → List (String × ℕ × Bool) → Option Bool
find_operation worker_id attempt [] = none
find_operation worker_id attempt (o ∷ os) =
    if is_operation worker_id attempt o then some o.2 else find_operation worker_id attempt os

-- `escalation.set()`, if the stop is forced.
abbrev pub escalate : String → ℕ → Bool → Sup → Sup
escalate worker_id attempt force s = record s {
  stop_operations =
      map (λ o. if is_operation worker_id attempt o then (o.0, o.1, o.2 || force) else o)
        s.stop_operations;
}

-- A new operation, or the one that is there.
abbrev pub join_operation : String → ℕ → Bool → Option Bool → Sup → Sup
join_operation worker_id attempt force (some escalated) s = escalate worker_id attempt force s
join_operation worker_id attempt force none s = record (add_stop worker_id attempt s) {
  stop_operations = s.stop_operations ++ (worker_id, attempt, force) ∷ [];
}

abbrev pub with_force : Bool → Object → Object
with_force force o = o ++ ("force", Json.bool force) ∷ []

unfoldable pub over : Env → Bool → WorkerRecord → M Stopping
unfolding worker_json
over env force worker = gets (λ s. latest_event_cursor worker.worker_id s.db) >>= λ cursor. return (
    already_over (
      with_force force
        (worker_json env.isoformat worker cursor ++ ("pending_approvals", Json.arr nil) ∷ [])))

unfoldable pub request_stop : Env → String → Bool → Option String → M Stopping
unfolding require_worker over
request_stop env worker_id force agent_id = do
  ensure (not (is_some agent_id)) "unsupported_operation"
      "Selected nested-agent stop is not supported."
  worker ← require_worker worker_id
  if is_terminal worker.state then over env force worker else do
    task ← gets (λ s. lookup worker_id s.tasks)
    ensure (is_some task) "worker_not_live" "Worker has no live attempt."
    found ← gets (λ s. find_operation worker_id worker.attempt s.stop_operations)
    modify (join_operation worker_id worker.attempt force found)
    return (operation worker.attempt)

-- What `_wait_for_graceful_stop` observes: whether the first wait ended by an escalation, how the
-- interrupt ended if it did (true for no exception), whether an escalation is set then, and whether
-- the second wait saw the owner done or an escalation.
pub record Grace : Type 0 where
  pub escalated_first : Bool
  pub interrupt : Option Bool
  pub escalated_then : Bool
  pub owner_done : Bool
  pub escalated_last : Bool

abbrev pub after_interrupt : Grace → Option Bool → Bool
after_interrupt g none = true
after_interrupt g (some false) = true
after_interrupt g (some true) =
    if g.escalated_then then true else g.escalated_last || not g.owner_done

-- `_wait_for_graceful_stop`
unfoldable pub needs_teardown : Grace → Bool
needs_teardown g = if g.escalated_first then true else after_interrupt g g.interrupt

-- The waits of one stop operation: `_join_result_phase`, `sleep(0)`, the grace, `_disconnect_before` and
-- `_cancel_owner`.
pub record Waits : Type 0 where
  pub join_result_phase : M Bool
  pub pause : M (Unit {0})
  pub grace : M Grace
  pub disconnect : M (Unit {0})
  pub cancel_owner : M (Unit {0})

abbrev pub unless : Bool → M (Unit {0}) → M (Unit {0})
unless test m = elim test [ true ↦ return tt | false ↦ m ]

abbrev pub is_escalated : String → ℕ → Sup → Bool
is_escalated worker_id attempt s = elim (find_operation worker_id attempt s.stop_operations) [
  | none ↦ false
  | some b ↦ b
]

abbrev pub is_live : String → ℕ → Sup → Bool
is_live worker_id attempt s = is_attempt_live attempt (lookup worker_id s.live_attempts)

-- The live attempt may appear during one turn of the event loop.
unfoldable pub look_again : Waits → String → ℕ → Bool → M Bool
look_again w worker_id attempt live = gets (is_escalated worker_id attempt) >>= λ escalated.
    if live || escalated then return live else (w.pause >> gets (is_live worker_id attempt))

unfoldable pub must_terminate : Waits → String → ℕ → Bool → M Bool
unfolding needs_teardown
must_terminate w worker_id attempt live = gets (is_escalated worker_id attempt) >>= λ escalated.
    if escalated || not live then return true else (w.grace >>= λ g. return (needs_teardown g))

unfoldable pub tear_down : Waits → Bool → M (Unit {0})
tear_down w live =
    unless (not live) w.disconnect
    >> (w.join_result_phase >>= λ joined. unless joined w.cancel_owner)

-- The end of every stop operation.
unfoldable pub finish_stop : Env → String → ℕ → M (Unit {0})
unfolding finalize_without_result
finish_stop env worker_id attempt =
    finalize_without_result env worker_id attempt cancelled
    >> modify (discard_stop worker_id attempt)

unfoldable pub stop_owner : Env → Waits → String → ℕ → Bool → M (Unit {0})
unfolding look_again must_terminate tear_down finish_stop
stop_owner env w worker_id attempt live = look_again w worker_id attempt live >>= λ live'.
    must_terminate w worker_id attempt live' >>= λ terminate.
    unless (not terminate) (tear_down w live')
    >> (w.join_result_phase >> finish_stop env worker_id attempt)

-- `_stop_attempt`; `live` tells whether `stop` found the attempt live.
unfoldable pub stop_attempt : Env → Waits → String → ℕ → Bool → M (Unit {0})
unfolding finish_stop stop_owner
stop_attempt env w worker_id attempt live = w.join_result_phase >>= λ joined.
    if joined then finish_stop env worker_id attempt else stop_owner env w worker_id attempt live

-- `operation_finished`
unfoldable pub operation_finished : String → ℕ → Sup → Sup
operation_finished worker_id attempt s = record s {
  stop_operations = keep (λ o. not (is_operation worker_id attempt o)) s.stop_operations;
}

-- `stop`; `wait` is the wait for the operation's task, which all callers share.
unfoldable pub stop : Env → (ℕ → M (Unit {0})) → String → Bool → Option String → M Object
unfolding request_stop status
stop env wait worker_id force agent_id = request_stop env worker_id force agent_id >>= λ stopping.
    elim stopping [
      | already_over o ↦ return o
      | operation attempt ↦
          wait attempt >> (status env worker_id >>= λ o. return (with_force force o))
    ]

-- `suppress(SupervisorError)`
abbrev pub suppressed {ℓ} : {A : Type ℓ} → Reply A × Sup → Reply (Unit {0}) × Sup
suppressed (returned a, s) = (returned tt, s)
suppressed (raised (supervisor_error code message warnings), s) = (returned tt, s)
suppressed (raised e, s) = (raised e, s)

abbrev pub suppress {ℓ} : {A : Type ℓ} → M A → M (Unit {0})
suppress m s = suppressed (m s)

-- The loop of `close` over the workers with a task.
unfoldable pub stop_all : Env → (String → ℕ → M (Unit {0})) → List (String × ℕ) → M (Unit {0})
unfolding stop
stop_all env wait [] = return tt
stop_all env wait (task ∷ tasks) =
    suppress (stop env (wait task.0) task.0 true none) >> stop_all env wait tasks

-- `close`; `settle_tasks` is the wait for the cancelled tasks.
unfoldable pub close : Env → (String → ℕ → M (Unit {0})) → M (Unit {0}) → M (Unit {0})
unfolding stop_all
close env wait settle_tasks =
    modify (λ s. record s { closed = true })
    >> (gets (λ s. s.tasks) >>= λ tasks.
        stop_all env wait tasks >> (settle_tasks >> modify (λ s. record s { tasks = [] })))

-- `_task_finished`, for the task of an attempt.
unfoldable pub task_finished : String → ℕ → Sup → Sup
task_finished worker_id attempt s =
    if is_attempt_live attempt (lookup worker_id s.tasks)
    then record s { tasks = pop worker_id s.tasks }
    else s
