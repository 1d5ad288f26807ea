-- ===== src/Supervisor/Ending.antt =====
-- The ends of an attempt in src/qworker/supervisor.py, and the messages to one, keep to the calls of the store.
use dogqoder.Prelude.{ℕ, ◌≡◌, refl, ◌∙◌, Bool, true, false, Option, String, List, [], ◌∷◌}
use dogqoder.Lifecycle.{WorkerState}
use dogqoder.Store.{WorkerRecord, EventRecord}
use dogqoder.Store.Results.{record_result}
use dogqoder.Store.History.{result_op, perform}
use dogqoder.Supervisor.{Reply, returned, raised, Sup, Env, M, modify, discard_stop}
use dogqoder.Supervisor.Refinement.{
  Keeps, Keeps-bind, Keeps-return, Keeps-modify, Keeps-settle, Keeps-append, keeps_rules,
}
use dogqoder.Supervisor.Calls.{Keeps-complete_live_attempt}
use dogqoder.Supervisor.Steering.{
  SteeringPriority, guarded, protocol_failure, steer, cancel_message,
}
use dogqoder.Supervisor.Finish.{
  Ended, finished, interrupted, disconnected, crashed, when, on_initialized, finalize_worker,
  finalize_without_result, store_result, new_result, append_warnings, persist_result,
  persist_accepted_result, finalize_missing, accept_result, end_worker,
}
use dogqoder.Supervisor.Views.{WorkerContract, WorkerResult, execution_failure}

module _ (env : Env) where
  pub Keeps-guarded :
      {A : Type 0} (message : String) (m : M A) → Keeps env m → Keeps env (guarded message m)
  Keeps-guarded {A} message m h = record {
    reaches = λ s. let (ops, p) = h.reaches s in (ops, same (m s) ∙ p);
  }
    where
      same : (r : Reply A × Sup) → (protocol_failure message r).1.db ≡ r.1.db
      same (returned a, s) = refl
      same (raised e, s) = refl

  pub Keeps-steer :
      (uuid : String) (deliver : ℕ → M (Unit {0})) (w message : String)
      (priority : SteeringPriority) (agent : Option String)
      → ((n : ℕ) → Keeps env (deliver n))
      → Keeps env (steer env uuid deliver w message priority agent)
  unfolding steer
  Keeps-steer uuid deliver w message priority agent h = search (keeps_rules, Keeps-guarded) depth 24

  pub Keeps-cancel_message :
      (canonical : String → Bool) (cancel : ℕ → M Bool) (w message : String)
      → ((n : ℕ) → Keeps env (cancel n))
      → Keeps env (cancel_message env canonical cancel w message)
  unfolding cancel_message
  Keeps-cancel_message canonical cancel w message h = search (keeps_rules, Keeps-guarded) depth 24

  pub Keeps-when : (test : Bool) (m : M EventRecord) → Keeps env m → Keeps env (when test m)
  Keeps-when true m h = Keeps-bind env h (λ a. Keeps-return env tt)
  Keeps-when false m h = Keeps-return env tt

  pub Keeps-on_initialized : (w model : String) → Keeps env (on_initialized env w model)
  unfolding on_initialized
  Keeps-on_initialized w model = search keeps_rules depth 20

  pub Keeps-finalize_worker :
      (w : String) (n : ℕ) (missing : WorkerState) (row : WorkerRecord)
      → Keeps env (finalize_worker env w n missing row)
  unfolding finalize_worker
  Keeps-finalize_worker w n missing row = search (keeps_rules, Keeps-when) depth 20

  pub Keeps-finalize :
      (w : String) (n : ℕ) (missing : WorkerState)
      → Keeps env (finalize_without_result env w n missing)
  unfolding finalize_without_result
  Keeps-finalize w n missing =
      search (keeps_rules, Keeps-complete_live_attempt, Keeps-finalize_worker) depth 20

  pub Keeps-store_result : (w : String) (r : WorkerResult) → Keeps env (store_result env w r)
  unfolding perform
  Keeps-store_result w r =
      Keeps-settle env 1 (λ s. result_op (env.draw s.tick) (env.clock s.tick) w (new_result r))
        (λ s. record_result env.host (env.draw s.tick) (env.clock s.tick) w (new_result r) s.db)
        (λ s. refl)

  pub Keeps-append_warnings : (w : String) (ws : List String) → Keeps env (append_warnings env w ws)
  unfolding append_warnings
  Keeps-append_warnings w [] = Keeps-return env tt
  Keeps-append_warnings w (x ∷ ws) =
      Keeps-bind env (Keeps-append env w _ _) (λ a. Keeps-append_warnings w ws)

  pub Keeps-discard_stop : (w : String) (n : ℕ) → Keeps env (modify (discard_stop w n))
  Keeps-discard_stop w n = Keeps-modify env (discard_stop w n) (λ s. refl)

  pub Keeps-persist_result :
      (w : String) (n : ℕ) (r : WorkerResult) (initialized preceded : Bool) (row : WorkerRecord)
      → Keeps env (persist_result env w n r initialized preceded row)
  unfolding persist_result
  Keeps-persist_result w n r initialized preceded row =
      search
        (keeps_rules, Keeps-when, Keeps-store_result, Keeps-append_warnings, Keeps-discard_stop)
        depth 24

  pub Keeps-accept_result :
      (w : String) (n : ℕ) (r : WorkerResult) (initialized preceded : Bool)
      → Keeps env (accept_result env w n r initialized preceded)
  unfolding accept_result finalize_missing persist_accepted_result
  Keeps-accept_result w n r initialized preceded =
      search (keeps_rules, Keeps-complete_live_attempt, Keeps-finalize, Keeps-persist_result) depth
        24

  pub Keeps-end_worker :
      (w : String) (n : ℕ) (contract : WorkerContract) (initialized preceded : Bool) (e : Ended)
      → Keeps env (end_worker env w n contract initialized preceded e)
  unfolding end_worker finalize_missing
  Keeps-end_worker w n contract initialized preceded (finished r) =
      Keeps-accept_result w n r initialized preceded
  Keeps-end_worker w n contract initialized preceded crashed =
      Keeps-accept_result w n (execution_failure contract) initialized preceded
  Keeps-end_worker w n contract initialized preceded interrupted =
      search (keeps_rules, Keeps-finalize) depth 20
  Keeps-end_worker w n contract initialized preceded disconnected =
      search (keeps_rules, Keeps-finalize) depth 20
