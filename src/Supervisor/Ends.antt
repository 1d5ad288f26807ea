-- ===== src/Supervisor/Ends.antt =====
-- The state in which src/qworker/supervisor.py leaves a worker whose session ended without an accepted
-- result.
use mathlib.Core.Option
use dogqoder.Prelude.{
  ℕ, ◌≡◌, ◌≢◌, ◌⊎◌, Bool, true, false, Option, none, some, String, lookup, contains,
}
use dogqoder.Json.{Json, Object, str, as_str}
use dogqoder.Lifecycle.{WorkerState, completed, failed, cancelled, lost, is_terminal}
use dogqoder.Store.{WorkerRecord, find_worker}
use dogqoder.Store.Consistency.{view}
use dogqoder.Supervisor.{returned, Sup, Env}
use dogqoder.Supervisor.Responding.{complete_live_attempt}
use dogqoder.Supervisor.Finish.{
  Ended, finished, interrupted, disconnected, crashed, is_open, errors_of,
}

-- What the state is to be: as the stored result says, or else by whether a stop was asked for.
abbrev pub EndState : Bool → Option Object → WorkerState → Type 0
EndState true none state = state ≡ cancelled
EndState false none state = state ≡ lost
EndState stopping (some summary) state =
    ((lookup "outcome" summary ≡ some (str "failed")) × (state ≡ failed))
    ⊎ ((lookup "outcome" summary ≢ some (str "failed")) × (state ≡ completed))

abbrev text_in : Option Json → Option String
text_in none = none
text_in (some v) = as_str v

module _ (env : Env) (w : String) (n : ℕ) where
  -- How `_finalize_without_result` leaves the worker: as it is where its attempt is over, and in a state
  -- that `P` holds of where it is not.
  abbrev pub Finalized : (Option Object → WorkerState → Type 0) → Sup → Sup → Type 0
  Finalized P s t =
      (u : Sup) × (worker : WorkerRecord) × (complete_live_attempt env w n s ≡ (returned tt, u))
      × (find_worker w u.db ≡ some worker)
      × (((is_open n worker ≡ false) × (t ≡ u))
          ⊎ ((worker.attempt ≡ n)
              × (is_terminal worker.state ≡ false)
              × ((state : WorkerState) × (view t.db w ≡ some (n, state))
                  × P worker.result_summary state)))

  -- The session gave no result.
  abbrev pub HasNoResult : Ended → Type 0
  HasNoResult (finished result) = contains (errors_of result) "result_missing" ≡ true
  HasNoResult interrupted = Unit
  HasNoResult disconnected = Unit
  HasNoResult crashed = ⊥
