-- ===== src/Examples/ForegroundRuns.antt =====
-- A session of src/qworker/coder.py that ends with a report after its nested task, and one of
-- src/qworker/auditor.py whose connection breaks.
use dogqoder.Prelude.{◌≡◌, refl, Bool, true, false, Option, some, String, List, [], ◌∷◌, ◌++◌}
use dogqoder.Json.{Json, from_fields, from_items}
use dogqoder.PatternTests.{bare_host}
use dogqoder.Domain.{Outcome, AdapterEvent, TaskStatus}
use dogqoder.ModelPolicy.{
  AvailableModel, Resolved, ModelResolution, resolve_model, resolve_candidates, resolve_alias,
  enabled_models,
}
use dogqoder.Coder
use dogqoder.Coder.{CoderContract, CoderReducer, CoderResult}
use dogqoder.Foreground.{
  done, Signal, event, broken, Engine, Transport, TransportCall, disconnects, consume, run, body,
  caught, closed, step, observed, converse, resolved_body, settle,
}
use dogqoder.Foreground.Engines.{coder, coder_marked}
use dogqoder.Foreground.Reading.{Explains, consume-Explains}
use dogqoder.Foreground.Closing.{IsPrefix, script, run-closes}
use dogqoder.Foreground.Outcome.{TellsFailure, run-goes_through}

abbrev loads : String → Option Json
loads text = some (
    Json.obj (
      from_fields (
        ("outcome", Json.str "completed")
        ∷ ("summary", Json.str "Done.")
        ∷ ("files", Json.arr (from_items (Json.str "a.py" ∷ [])))
        ∷ ("validation", Json.arr (from_items []))
        ∷ ("risks", Json.arr (from_items []))
        ∷ [])))

abbrev contract : CoderContract
contract = record {
  objective = "Fix the parser.";
  cwd = "/work";
  requested_model = "qwen-coder";
  context = [];
  constraints = [];
  acceptance_criteria = [];
}

abbrev messages : List Signal
messages =
    event (AdapterEvent.task_started "t" "look")
    ∷ event (
        AdapterEvent.result (record {
          session_id = "s";
          is_error = false;
          result = some "{}";
          model_usage = "Auto" ∷ [];
          permission_denials = [];
          errors = [];
        }))
    ∷ event (AdapterEvent.task_terminal "t" TaskStatus.completed)
    ∷ broken
    ∷ []

abbrev transport : Transport
transport = record {
  connect = done tt;
  available_models = done (record { value = "Auto"; enabled = true } ∷ []);
  select_model = λ model. done tt;
  observe = some (λ model. done tt);
  send = λ prompt. done tt;
  messages = messages;
  disconnect = done tt;
}

abbrev is_failed : CoderResult → Bool
is_failed a = elim a.outcome [ Outcome.failed ↦ true | _ ↦ false ]

engine : Engine CoderContract CoderReducer CoderResult
engine = coder loads

tells : TellsFailure engine is_failed
unfolding engine coder Coder.failure_result coder_marked
tells = record { failure = λ c summary code resolved. refl; marked = λ code a. refl }

ended : CoderResult
unfolding engine coder
ended =
    engine.finish
      (engine.apply
        (engine.apply
          (engine.apply (engine.init "qwen-coder" "Auto") (AdapterEvent.task_started "t" "look"))
          (AdapterEvent.result (record {
            session_id = "s";
            is_error = false;
            result = some "{}";
            model_usage = "Auto" ∷ [];
            permission_denials = [];
            errors = [];
          })))
        (AdapterEvent.task_terminal "t" TaskStatus.completed))
      false

consume-Explains_example :
    Explains engine
      (engine.init "qwen-coder" "Auto")
      messages
      (consume engine (engine.init "qwen-coder" "Auto") messages)
consume-Explains_example = consume-Explains engine (engine.init "qwen-coder" "Auto") messages

run-closes_example :
    (calls : List TransportCall) × ((run engine bare_host (done transport) contract).0
      ≡ calls ++ disconnects ∷ [])
    × (model : String) × IsPrefix calls (script engine transport contract model)
run-closes_example = run-closes engine bare_host transport contract

run-goes_through_example :
    (transport.disconnect ≡ done tt)
    × (catalog : List AvailableModel) × (m : ModelResolution) × (transport.available_models
        ≡ done catalog)
    × (resolve_model (engine.requested_model contract) catalog ≡ Resolved.model m)
    × ((run engine bare_host (done transport) contract).0
        ≡ script engine transport contract m.resolved ++ disconnects ∷ [])
    × (consume engine (engine.init (engine.requested_model contract) m.resolved) transport.messages
        ≡ done ended)
unfolding ended engine coder run body caught closed step observed converse resolved_body settle
    consume resolve_model resolve_candidates resolve_alias enabled_models Coder.apply
    Coder.needs_settlement Coder.finish Coder.finish_event Coder.chosen_report Coder.parse_report
    Coder.report_of Coder.finish_report Coder.nested_state Coder.init
run-goes_through_example =
    run-goes_through engine is_failed tells bare_host transport contract ended refl refl
