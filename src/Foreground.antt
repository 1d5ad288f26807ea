-- ===== src/Foreground.antt =====
-- The sessions of src/qworker/auditor.py and src/qworker/coder.py. `ForegroundAuditor` and `ForegroundCoder`
-- run the same steps over different reducers, so the steps are written once, over an Engine. What
-- the transport does in a session is an argument, call by call.
pub mod Prompts
pub mod Engines
pub mod Reading
pub mod Closing
pub mod Outcome
use dogqoder.Prelude.{
  Bool, true, false, Option, none, some, String, List, [], ◌∷◌, ◌++◌, if◌then◌else◌,
}
use dogqoder.Domain.{AdapterEvent}
use dogqoder.ModelPolicy.{AvailableModel, Resolved, resolve_model}
use dogqoder.Patterns.{Host, credential_env_vars}
use dogqoder.Redaction.{replace_secrets, shorten}

-- `AdapterDiagnostic`
pub record Diagnostic : Type 0 where
  pub code : String
  pub message : String

-- `_safe_bounded_text` without further credential values, of src/qworker/qoder_sdk.py.
unfoldable pub safe_bounded_text : Host → String → String
safe_bounded_text host value = shorten 512 (replace_secrets host credential_env_vars value)

-- `classify_sdk_error` of a diagnostic.
unfoldable pub classify_sdk_error : Host → Diagnostic → Diagnostic
classify_sdk_error host d = record { code = d.code; message = safe_bounded_text host d.message }

-- A step returns, or it raises: a diagnostic, a `ModelUnavailableError` with its text, or another
-- exception, a cancellation included.
pub data Step {ℓ} (A : Type ℓ) : Type ℓ where
  done : A → Step A
  diagnosed : Diagnostic → Step A
  unavailable : String → Step A
  raised : String → Step A

-- What the iteration over `messages()` finds: an event, a broken connection, a timeout of the wait or
-- a cancellation, or another exception. It is over where the list ends.
pub data Signal : Type 0 where
  event : AdapterEvent → Signal
  broken expired cancelled : Signal
  fails : Diagnostic → Signal
  crashes : String → Signal

-- The reducer of a role, and what a session needs to know about contracts and results.
pub record Engine (C R A : Type 0) : Type 0 where
  pub requested_model : C → String
  pub prompt : C → String
  pub init : String → String → R
  pub apply : R → AdapterEvent → R
  pub needs_settlement : R → Bool
  pub finish : R → Bool → A
  pub failure_result : C → String → String → Option String → A
  pub mark_failed : String → A → A

-- The transport of a session, with what each call does; `observe` is `on_initialized`.
pub record Transport : Type 0 where
  pub connect : Step (Unit {0})
  pub available_models : Step (List AvailableModel)
  pub select_model : String → Step (Unit {0})
  pub observe : Option (String → Step (Unit {0}))
  pub send : String → Step (Unit {0})
  pub messages : List Signal
  pub disconnect : Step (Unit {0})

pub data TransportCall : Type 0 where
  connects lists_models reads disconnects : TransportCall
  selects observes sends : String → TransportCall

module _ {C R A : Type 0} (e : Engine C R A) where
  -- The second loop of `_consume_result`, which waits for the nested tasks.
  unfoldable pub settle : R → List Signal → Step A
  settle r [] = done (e.finish r (e.needs_settlement r))
  settle r (event x ∷ rest) =
      let later = settle (e.apply r x) rest in
      if e.needs_settlement (e.apply r x) then later else done (e.finish (e.apply r x) false)
  settle r (broken ∷ rest) = done (e.finish r true)
  settle r (expired ∷ rest) = done (e.finish r true)
  settle r (cancelled ∷ rest) = done (e.finish r true)
  settle r (fails d ∷ rest) = diagnosed d
  settle r (crashes what ∷ rest) = raised what

  abbrev pub after_result : R → List Signal → Step A
  after_result r rest = if e.needs_settlement r then settle r rest else done (e.finish r false)

  abbrev pub is_result : AdapterEvent → Bool
  is_result (AdapterEvent.result x) = true
  is_result _ = false

  -- `_consume_result`, from a state of the reducer.
  unfoldable pub consume : R → List Signal → Step A
  unfolding settle
  consume r [] = done (e.finish r false)
  consume r (event x ∷ rest) =
      let later = consume (e.apply r x) rest in
      if is_result x then after_result (e.apply r x) rest else later
  consume r (broken ∷ rest) = raised "BrokenPipeError"
  consume r (expired ∷ rest) = raised "TimeoutError"
  consume r (cancelled ∷ rest) = raised "CancelledError"
  consume r (fails d ∷ rest) = diagnosed d
  consume r (crashes what ∷ rest) = raised what

  -- The calls of a body, the model that was resolved, and how it ended.
  pub record Body : Type 0 where
    pub calls : List TransportCall
    pub resolved : Option String
    pub outcome : Step A

  -- A call of the transport, and what follows it.
  unfoldable pub step : {X : Type 0} → TransportCall → Option String → Step X → (X → Body) → Body
  step call resolved (done x) k = record {
    calls = call ∷ (k x).calls;
    resolved = (k x).resolved;
    outcome = (k x).outcome;
  }
  step call resolved (diagnosed d) k = record {
    calls = call ∷ [];
    resolved = resolved;
    outcome = diagnosed d;
  }
  step call resolved (unavailable text) k = record {
    calls = call ∷ [];
    resolved = resolved;
    outcome = unavailable text;
  }
  step call resolved (raised what) k = record {
    calls = call ∷ [];
    resolved = resolved;
    outcome = raised what;
  }

  unfoldable pub observed : String → Option (String → Step (Unit {0})) → Body → Body
  unfolding step
  observed model none rest = rest
  observed model (some observe) rest =
      step (observes model) (some model) (observe model) (λ _. rest)

  -- From the resolved model on.
  unfoldable pub converse : Transport → C → String → Body
  unfolding step observed consume
  converse t c model = step (selects model) (some model) (t.select_model model) λ _.
      observed model t.observe (
        step (sends (e.prompt c)) (some model) (t.send (e.prompt c)) λ _. record {
          calls = reads ∷ [];
          resolved = some model;
          outcome = consume (e.init (e.requested_model c) model) t.messages;
        })

  unfoldable pub resolved_body : Transport → C → Resolved → Body
  unfolding converse
  resolved_body t c (Resolved.unavailable text) = record {
    calls = [];
    resolved = none;
    outcome = unavailable text;
  }
  resolved_body t c (Resolved.model m) = converse t c m.resolved

  -- The body of `try` in `run`, once the transport is there.
  unfoldable pub body : Transport → C → Body
  unfolding step resolved_body resolve_model
  body t c = step connects none t.connect λ _.
      step lists_models none t.available_models
        λ catalog. resolved_body t c (resolve_model (e.requested_model c) catalog)

  -- The `except` clauses.
  unfoldable pub caught : Host → C → Option String → Step A → Step A
  unfolding classify_sdk_error
  caught host c resolved (diagnosed d) =
      done (e.failure_result c (classify_sdk_error host d).message d.code resolved)
  caught host c resolved (unavailable text) =
      done (e.failure_result c text "model_unavailable" resolved)
  caught host c resolved (done a) = done a
  caught host c resolved (raised what) = raised what

  -- The `finally` clause. A diagnostic of `disconnect` marks the result; an exception that passes
  -- through stays.
  unfoldable pub closed : Step (Unit {0}) → Step A → Step A
  closed (diagnosed d) (done a) = done (e.mark_failed d.code a)
  closed (diagnosed d) (diagnosed other) = diagnosed other
  closed (diagnosed d) (unavailable text) = unavailable text
  closed (diagnosed d) (raised what) = raised what
  closed (done x) outcome = outcome
  closed (unavailable text) outcome = unavailable text
  closed (raised what) outcome = raised what

  -- `run`, with the transport that the factory gives.
  unfoldable pub run : Host → Step Transport → C → List TransportCall × Step A
  unfolding body caught closed
  run host (done t) c = (
    (body t c).calls ++ disconnects ∷ [],
    closed t.disconnect (caught host c (body t c).resolved (body t c).outcome),
  )
  run host (diagnosed d) c = ([], caught host c none (diagnosed d))
  run host (unavailable text) c = ([], caught host c none (unavailable text))
  run host (raised what) c = ([], raised what)
