-- ===== src/Supervisor/Finish.antt =====
-- The ends of an attempt in src/qworker/supervisor.py: what `_run_worker` does when a session starts and
-- when it is over. The session itself, a run of the foreground classes, is known by how it ended.
use Prim.Native.String.{String}
use dogqoder.Prelude.{
  ℕ, Bool, true, false, not, Option, none, some, List, [], ◌∷◌, ◌++◌, ◌&&◌, ◌==◌, nat_eq, keep,
  contains, lookup, if◌then◌else◌,
}
use dogqoder.Json.{Json, Object, as_str, from_fields}
use dogqoder.Lifecycle.{WorkerState, completed, failed, cancelled, lost, WorkerHealth, is_terminal}
use dogqoder.Domain.{Outcome}
use dogqoder.Store.{WorkerRecord, EventRecord}
use dogqoder.Store.Results.{NewResult, record_result}
use dogqoder.Supervisor.{
  Sup, Env, M, ◌>>=◌, ◌>>◌, return, gets, modify, settle, put, append, require_worker, versioned,
  stop_requested, discard_stop,
}
use dogqoder.Supervisor.Responding.{complete_live_attempt}
use dogqoder.Supervisor.Views.{
  WorkerContract, WorkerResult, state_text, result_json, execution_failure,
}

-- How the foreground session ended: with a result, cancelled, by a broken connection, or by any other
-- exception.
pub data Ended : Type 0 where
  finished : WorkerResult → Ended
  interrupted disconnected crashed : Ended

-- `self._live_attempts[worker_id] = _LiveAttempt(attempt, transport)`
unfoldable pub bind_transport : String → ℕ → Sup → Sup
bind_transport worker_id attempt s = record s {
  live_attempts = put worker_id attempt s.live_attempts;
}

abbrev pub append_state : Env → String → WorkerState → M EventRecord
append_state env worker_id state =
    append env worker_id "worker.state_changed"
      (versioned (("state", Json.str (state_text state)) ∷ []))

abbrev pub append_health : Env → String → String → M EventRecord
append_health env worker_id health =
    append env worker_id "worker.health_changed" (versioned (("health", Json.str health) ∷ []))

-- `on_initialized`
unfoldable pub on_initialized : Env → String → String → M (Unit {0})
unfolding append
on_initialized env worker_id resolved_model =
    append env worker_id "model.resolved" (versioned (("model", Json.str resolved_model) ∷ []))
    >> (append_state env worker_id WorkerState.running
        >> (append_health env worker_id "healthy" >> return tt))

-- `on_result`: whether the result came before a stop was asked for.
unfoldable pub on_result : String → ℕ → Sup → Bool
on_result worker_id attempt s = not (stop_requested worker_id attempt s)

abbrev pub is_exited : WorkerHealth → Bool
is_exited WorkerHealth.exited = true
is_exited _ = false

abbrev pub says_failed : Option Json → Bool
says_failed none = false
says_failed (some v) = elim (as_str v) [ none ↦ false | some s ↦ s == "failed" ]

-- The state that a stored result stands for.
abbrev pub target_state : WorkerState → Option Object → WorkerState
target_state missing none = missing
target_state missing (some summary) =
    if says_failed (lookup "outcome" summary) then failed else completed

abbrev pub is_open : ℕ → WorkerRecord → Bool
is_open attempt w = nat_eq w.attempt attempt && not (is_terminal w.state)

abbrev pub when : Bool → M EventRecord → M (Unit {0})
when test m = elim test [ true ↦ m >> return tt | false ↦ return tt ]

-- `_finalize_without_result`, from the worker's row on.
unfoldable pub finalize_worker : Env → String → ℕ → WorkerState → WorkerRecord → M (Unit {0})
unfolding append require_worker
finalize_worker env worker_id attempt missing worker =
    when (not (is_exited worker.health)) (append_health env worker_id "exited")
    >> (require_worker worker_id >>= λ current.
        when (is_open attempt current)
          (append_state env worker_id (target_state missing worker.result_summary)))

-- `_finalize_without_result`
unfoldable pub finalize_without_result : Env → String → ℕ → WorkerState → M (Unit {0})
unfolding finalize_worker require_worker
finalize_without_result env worker_id attempt missing =
    complete_live_attempt env worker_id attempt
    >> (require_worker worker_id >>= λ worker.
        if is_open attempt worker
        then finalize_worker env worker_id attempt missing worker
        else return tt)

abbrev pub missing_state : Bool → WorkerState
missing_state true = cancelled
missing_state false = lost

-- `tuple(dict.fromkeys(…))`: the first of each.
unfoldable pub without_repeats : List String → List String → List String
without_repeats seen [] = seen
without_repeats seen (x ∷ xs) =
    without_repeats (if contains seen x then seen else seen ++ x ∷ []) xs

abbrev pub warnings_of : WorkerResult → List String
warnings_of (WorkerResult.audit r) = r.warnings
warnings_of (WorkerResult.coder r) = r.warnings

abbrev pub errors_of : WorkerResult → List String
errors_of (WorkerResult.audit r) = r.errors
errors_of (WorkerResult.coder r) = r.errors

abbrev pub outcome_of : WorkerResult → Outcome
outcome_of (WorkerResult.audit r) = r.outcome
outcome_of (WorkerResult.coder r) = r.outcome

-- `replace(result, warnings=…)`
abbrev pub with_warnings : List String → WorkerResult → WorkerResult
with_warnings ws (WorkerResult.audit r) = WorkerResult.audit (record r { warnings = ws })
with_warnings ws (WorkerResult.coder r) = WorkerResult.coder (record r { warnings = ws })

-- The arguments of `record_result`.
abbrev pub new_result : WorkerResult → NewResult
unfolding result_json
new_result (WorkerResult.audit r) = record {
  outcome = r.outcome;
  result_summary = from_fields (result_json (WorkerResult.audit r));
  resolved_model = r.resolved_model;
  actual_models = r.actual_models;
  session_id = r.session_id;
  nested_state = r.nested_state;
  warnings = r.warnings;
}
new_result (WorkerResult.coder r) = record {
  outcome = r.outcome;
  result_summary = from_fields (result_json (WorkerResult.coder r));
  resolved_model = r.resolved_model;
  actual_models = r.actual_models;
  session_id = r.session_id;
  nested_state = r.nested_state;
  warnings = r.warnings;
}

abbrev pub store_result : Env → String → WorkerResult → M EventRecord
store_result env worker_id result s =
    settle s 1 (
      record_result env.host (env.draw s.tick) (env.clock s.tick) worker_id (new_result result)
        s.db)

-- The loop over the new warnings.
unfoldable pub append_warnings : Env → String → List String → M (Unit {0})
unfolding append
append_warnings env worker_id [] = return tt
append_warnings env worker_id (warning ∷ rest) =
    append env worker_id "worker.warning" (versioned (("code", Json.str warning) ∷ []))
    >> append_warnings env worker_id rest

abbrev pub is_failed : Outcome → Bool
is_failed Outcome.failed = true
is_failed _ = false

-- The terminal state of an accepted result.
abbrev pub terminal_state : Bool → Outcome → WorkerState
terminal_state stopped outcome =
    if stopped then cancelled else if is_failed outcome then failed else completed

-- `_persist_accepted_result`, from the worker's row on.
unfoldable pub persist_result :
    Env → String → ℕ → WorkerResult → Bool → Bool → WorkerRecord → M (Unit {0})
unfolding append append_warnings without_repeats
persist_result env worker_id attempt result initialized preceded worker =
    store_result env worker_id
      (with_warnings (without_repeats [] (worker.warnings ++ warnings_of result)) result)
    >> (append_warnings env worker_id
          (keep (λ x. not (contains worker.warnings x)) (warnings_of result))
        >> (gets (stop_requested worker_id attempt) >>= λ stopping.
            when initialized (append_health env worker_id "exited")
            >> (append_state env worker_id
                  (terminal_state (stopping && not preceded) (outcome_of result))
                >> modify (discard_stop worker_id attempt))))

-- `_persist_accepted_result`
unfoldable pub persist_accepted_result :
    Env → String → ℕ → WorkerResult → Bool → Bool → M (Unit {0})
unfolding persist_result require_worker
persist_accepted_result env worker_id attempt result initialized preceded =
    complete_live_attempt env worker_id attempt
    >> (require_worker worker_id >>= λ worker.
        persist_result env worker_id attempt result initialized preceded worker)

unfoldable pub finalize_missing : Env → String → ℕ → M (Unit {0})
unfolding finalize_without_result
finalize_missing env worker_id attempt = gets (stop_requested worker_id attempt) >>= λ stopping.
    finalize_without_result env worker_id attempt (missing_state stopping)

unfoldable pub accept_result : Env → String → ℕ → WorkerResult → Bool → Bool → M (Unit {0})
unfolding finalize_missing persist_accepted_result
accept_result env worker_id attempt result initialized preceded =
    if contains (errors_of result) "result_missing"
    then finalize_missing env worker_id attempt
    else persist_accepted_result env worker_id attempt result initialized preceded

-- `_run_worker` after the session; `initialized` and `preceded` are its two local flags.
unfoldable pub end_worker : Env → String → ℕ → WorkerContract → Bool → Bool → Ended → M (Unit {0})
unfolding accept_result execution_failure
end_worker env worker_id attempt contract initialized preceded (finished result) =
    accept_result env worker_id attempt result initialized preceded
end_worker env worker_id attempt contract initialized preceded crashed =
    accept_result env worker_id attempt (execution_failure contract) initialized preceded
end_worker env worker_id attempt contract initialized preceded interrupted =
    finalize_missing env worker_id attempt
end_worker env worker_id attempt contract initialized preceded disconnected =
    finalize_missing env worker_id attempt
