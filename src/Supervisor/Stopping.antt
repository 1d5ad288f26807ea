-- ===== src/Supervisor/Stopping.antt =====
-- `stop`, its operation and `close` in src/qworker/supervisor.py keep to the calls of the store.
use dogqoder.Prelude.{
  ℕ, refl, Bool, true, false, not, ◌||◌, Option, none, some, String, List, [], ◌∷◌,
}
use dogqoder.Json.{Object}
use dogqoder.Store.{WorkerRecord}
use dogqoder.Supervisor.{
  Sup, Env, M, Reply, returned, raised, supervisor_error, exception, ◌>>=◌, ◌>>◌, return, modify,
}
use dogqoder.Supervisor.Refinement.{
  Reaches, Keeps, Keeps-bind, Keeps-then, Keeps-return, Keeps-gets, Keeps-modify, Keeps-if,
  keeps_rules,
}
use dogqoder.Supervisor.Resume.{status}
use dogqoder.Supervisor.Stop.{
  with_force, is_escalated, is_live, needs_teardown, Stopping, already_over, operation, over,
  join_operation, request_stop, Waits, unless, look_again, must_terminate, tear_down, finish_stop,
  stop_owner, stop_attempt, stop, suppressed, suppress, stop_all, close,
}
use dogqoder.Supervisor.Ending.{Keeps-finalize, Keeps-discard_stop}
use dogqoder.Supervisor.Starting.{Keeps-status}

module _ (env : Env) where
  pub Keeps-unless : (test : Bool) (m : M (Unit {0})) → Keeps env m → Keeps env (unless test m)
  Keeps-unless true m h = Keeps-return env tt
  Keeps-unless false m h = h

  pub Keeps-finish_stop : (w : String) (n : ℕ) → Keeps env (finish_stop env w n)
  unfolding finish_stop
  Keeps-finish_stop w n = search (keeps_rules, Keeps-finalize, Keeps-discard_stop) depth 14

  -- What a stop operation waits for keeps to the calls of the store.
  pub record KeepWaits (w : Waits) : Type 0 where
    pub join_result_phase : Keeps env w.join_result_phase
    pub pause : Keeps env w.pause
    pub grace : Keeps env w.grace
    pub disconnect : Keeps env w.disconnect
    pub cancel_owner : Keeps env w.cancel_owner

  pub Keeps-look_again :
      (waits : Waits) (w : String) (n : ℕ) (live : Bool)
      → KeepWaits waits
      → Keeps env (look_again waits w n live)
  unfolding look_again
  Keeps-look_again waits w n live h =
      Keeps-bind env (Keeps-gets env (is_escalated w n)) (λ escalated.
        Keeps-if env (live || escalated) _ _ (Keeps-return env live)
          (Keeps-bind env h.pause (λ a. Keeps-gets env (is_live w n))))

  pub Keeps-must_terminate :
      (waits : Waits) (w : String) (n : ℕ) (live : Bool)
      → KeepWaits waits
      → Keeps env (must_terminate waits w n live)
  unfolding must_terminate
  Keeps-must_terminate waits w n live h =
      Keeps-bind env (Keeps-gets env (is_escalated w n)) (λ escalated.
        Keeps-if env (escalated || not live) _ _ (Keeps-return env true)
          (Keeps-bind env h.grace (λ g. Keeps-return env (needs_teardown g))))

  pub Keeps-tear_down :
      (waits : Waits) (live : Bool) → KeepWaits waits → Keeps env (tear_down waits live)
  unfolding tear_down
  Keeps-tear_down waits live h =
      Keeps-bind env (Keeps-unless (not live) waits.disconnect h.disconnect) (λ a.
        Keeps-bind env h.join_result_phase
          (λ joined. Keeps-unless joined waits.cancel_owner h.cancel_owner))

  pub Keeps-stop_owner :
      (waits : Waits) (w : String) (n : ℕ) (live : Bool)
      → KeepWaits waits
      → Keeps env (stop_owner env waits w n live)
  unfolding stop_owner
  Keeps-stop_owner waits w n live h = Keeps-bind env (Keeps-look_again waits w n live h) (λ live'.
      Keeps-bind env (Keeps-must_terminate waits w n live' h) (λ terminate.
        Keeps-bind env (Keeps-unless (not terminate) _ (Keeps-tear_down waits live' h))
          (λ a. Keeps-bind env h.join_result_phase (λ b. Keeps-finish_stop w n))))

  pub Keeps-stop_attempt :
      (waits : Waits) (w : String) (n : ℕ) (live : Bool)
      → KeepWaits waits
      → Keeps env (stop_attempt env waits w n live)
  unfolding stop_attempt
  Keeps-stop_attempt waits w n live h = Keeps-bind env h.join_result_phase (λ joined.
      Keeps-if env joined _ _ (Keeps-finish_stop w n) (Keeps-stop_owner waits w n live h))

  pub Keeps-over : (force : Bool) (row : WorkerRecord) → Keeps env (over env force row)
  unfolding over
  Keeps-over force row = search keeps_rules depth 14

  pub Keeps-join_operation :
      (w : String) (n : ℕ) (force : Bool) (o : Option Bool)
      → Keeps env (modify (join_operation w n force o))
  Keeps-join_operation w n force none = Keeps-modify env _ (λ s. refl)
  Keeps-join_operation w n force (some b) = Keeps-modify env _ (λ s. refl)

  pub Keeps-request_stop :
      (w : String) (force : Bool) (agent : Option String)
      → Keeps env (request_stop env w force agent)
  unfolding request_stop
  Keeps-request_stop w force agent = search (keeps_rules, Keeps-over, Keeps-join_operation) depth 30

  pub Keeps-stop :
      (wait : ℕ → M (Unit {0})) (w : String) (force : Bool) (agent : Option String)
      → ((n : ℕ) → Keeps env (wait n))
      → Keeps env (stop env wait w force agent)
  unfolding stop
  Keeps-stop wait w force agent h = Keeps-bind env (Keeps-request_stop w force agent) after
    where
      after :
          (stopping : Stopping)
          → Keeps env (elim stopping as (λ _. M Object) [
            | already_over o ↦ return o
            | operation attempt ↦
                wait attempt >> (status env w >>= λ o. return (with_force force o))
          ])
      after (already_over o) = Keeps-return env o
      after (operation n) = Keeps-bind env (h n) (λ a. search (keeps_rules, Keeps-status) depth 14)

  suppressed-Reaches :
      {A : Type 0} (s : Sup) (r : Reply A × Sup)
      → Reaches env s r.1
      → Reaches env s (suppressed r).1
  suppressed-Reaches s (returned a, t) h = h
  suppressed-Reaches s (raised (supervisor_error code message warnings), t) h = h
  suppressed-Reaches s (raised (exception e), t) h = h

  Keeps-suppress : {A : Type 0} (m : M A) → Keeps env m → Keeps env (suppress m)
  Keeps-suppress m h = record { reaches = λ s. suppressed-Reaches s (m s) (h.reaches s) }

  Keeps-stop_all :
      (wait : String → ℕ → M (Unit {0})) (tasks : List (String × ℕ))
      → ((w : String) (n : ℕ) → Keeps env (wait w n))
      → Keeps env (stop_all env wait tasks)
  unfolding stop_all
  Keeps-stop_all wait [] h = Keeps-return env tt
  Keeps-stop_all wait (task ∷ tasks) h =
      Keeps-then env
        (Keeps-suppress _ (Keeps-stop (wait task.0) task.0 true none (λ n. h task.0 n)))
        (Keeps-stop_all wait tasks h)

  pub Keeps-close :
      (wait : String → ℕ → M (Unit {0})) (settle_tasks : M (Unit {0}))
      → ((w : String) (n : ℕ) → Keeps env (wait w n))
      → Keeps env settle_tasks
      → Keeps env (close env wait settle_tasks)
  unfolding close
  Keeps-close wait settle_tasks h k = Keeps-then env (Keeps-modify env _ (λ s. refl)) (
      Keeps-bind env (Keeps-gets env (λ s. s.tasks)) (λ tasks.
        Keeps-then env (Keeps-stop_all wait tasks h)
          (Keeps-then env k (Keeps-modify env _ (λ s. refl)))))
