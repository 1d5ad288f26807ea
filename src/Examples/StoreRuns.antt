-- ===== src/Examples/StoreRuns.antt =====
-- Runs of src/qworker/store.py: a worker is created, runs, fails and is started again.
use dogqoder.Prelude.{
  ◌/◌, ◌%◌, ◌^◌, arith, ◌++◌, ℕ, ◌+◌, ◌*◌, ◌≡◌, ◌≢◌, ◌⊎◌, refl, true, none, some, String, List, [],
  ◌∷◌, keep, drop, lookup,
}
use dogqoder.Json.{Json, Object, insert_field}
use dogqoder.Chars.{is_alnum, fold, is_digit, is_space}
use dogqoder.Regex.{fullmatch, found}
use dogqoder.Ulid.{new_ulid}
use dogqoder.Ulid.Reading.{read_ulid, read_ulid-new_ulid}
use dogqoder.Payload.{one_of, absolute_path, runtime_path, safe_runtime_version, positive_integer}
use dogqoder.Lifecycle.{
  WorkerRole, WorkerState, starting, running, failed, completed, WriteCapability, transition,
}
use dogqoder.Patterns.{is_safe_metadata, version}
use dogqoder.PatternTests.{bare_host}
use dogqoder.Workspace.{FileSystem, canonical_workspace}
use dogqoder.Result.{ok}
use dogqoder.Events.{EventSchema, event_schemas, copy_json_object, validated_payload}
use dogqoder.Events.Validation.{MeetsSchema, validated_payload-MeetsSchema}
use dogqoder.Store.Project.{project_event, parse_state}
use dogqoder.Store.{EventRecord, Db, empty_db, Draw, append_row, last_sequence}
use dogqoder.Store.Operations.{NewWorker, number, start_attempt}
use dogqoder.Store.Queries.{events_since}
use dogqoder.Store.Sequence.{IsNumbered, count_events}
use dogqoder.Store.Consistency.{view, attempt_state}
use dogqoder.Store.Invariant.{IsSound}
use dogqoder.Store.Soundness.{SoundStep}
use dogqoder.Store.History.{
  Op, create_worker_op, start_attempt_op, append_event_op, perform, run, run-IsSound, run-Extends,
  empty_db-IsSound, perform-SoundStep, run-invariant,
}
use dogqoder.Store.Lifetimes.{terminal_stays}
use dogqoder.Store.Replay.{is_own, Consecutive, events_since-drop}

abbrev disk : FileSystem
disk = record { resolve = some; is_dir = λ _. true; parents = λ _. [] }

abbrev draw : ℕ → Draw
draw n = record { time_ns = n * 1000000; bits = 0 }

abbrev auditor : NewWorker
auditor = record {
  role = WorkerRole.auditor;
  cwd = "/work";
  write_capability = WriteCapability.read_only;
  requested_model = "qwen-auditor";
  runtime_path = "/usr/bin/qodercli";
  sdk_version = "1.0.13";
  worker_id = some "w1";
  runtime_version = none;
}

abbrev to_state : ℕ → String → Op
to_state n state =
    append_event_op (draw n) n "w1" "worker.state_changed"
      (("schema_version", number 1) ∷ ("state", Json.str state) ∷ [])

abbrev failing : List Op
failing =
    create_worker_op (draw 0) (draw 1) 1 auditor ∷ to_state 2 "running" ∷ to_state 3 "failed" ∷ []

abbrev failed_db : Db
unfolding run
failed_db = run bare_host disk failing empty_db

is_failed : view failed_db "w1" ≡ some (1, failed)
unfolding failed_db validated_payload event_schemas insert_field one_of absolute_path runtime_path
    safe_runtime_version positive_integer canonical_workspace is_safe_metadata version fullmatch
    found is_alnum fold is_digit is_space append_row new_ulid project_event parse_state transition
is_failed = refl

failed_db-IsSound : IsSound failed_db
unfolding failed_db
failed_db-IsSound = run-IsSound bare_host disk failing empty_db empty_db-IsSound

abbrev retry : Op
retry = start_attempt_op (draw 4) 4 "w1"

-- The retry starts the second attempt, in which the worker runs.
retried :
    view (run bare_host disk (retry ∷ to_state 5 "running" ∷ []) failed_db) "w1" ≡ some (2, running)
unfolding failed_db run perform start_attempt validated_payload event_schemas insert_field one_of
    absolute_path runtime_path safe_runtime_version positive_integer canonical_workspace
    is_safe_metadata version fullmatch found is_alnum fold is_digit is_space append_row new_ulid
    project_event parse_state transition
retried = refl

perform-SoundStep_example : SoundStep failed_db (perform bare_host disk retry failed_db)
perform-SoundStep_example = perform-SoundStep bare_host disk retry failed_db failed_db-IsSound

run-invariant_example :
    IsNumbered "w1" 1 failed_db.events
    × (last_sequence "w1" failed_db.events ≡ count_events "w1" failed_db.events)
    × ((n : ℕ) (s : WorkerState)
        → view failed_db "w1" ≡ some (n, s)
        → (attempt_state failed_db "w1" n ≡ some s) × (attempt_state failed_db "w1" (n + 1) ≡ none))
unfolding failed_db
run-invariant_example = run-invariant bare_host disk failing "w1"

terminal_stays_example :
    (view (perform bare_host disk retry failed_db) "w1" ≡ some (1, failed))
    ⊎ ((view (perform bare_host disk retry failed_db) "w1" ≡ some (2, starting))
        × (failed ≢ completed))
terminal_stays_example =
    terminal_stays bare_host disk retry failed_db "w1" 1 failed failed_db-IsSound is_failed refl

events_since-drop_example :
    (events_since "w1" 1 failed_db ≡ drop 1 (keep (is_own "w1") failed_db.events))
    × Consecutive 2 (events_since "w1" 1 failed_db)
unfolding failed_db
events_since-drop_example = events_since-drop bare_host disk failing "w1" 1

abbrev state_payload : Object
state_payload = ("state", Json.str "running") ∷ ("schema_version", number 1) ∷ []

state_is_valid :
    validated_payload bare_host "worker.state_changed" state_payload
    ≡ ok (copy_json_object state_payload)
unfolding validated_payload event_schemas one_of insert_field
state_is_valid = refl

validated_payload-MeetsSchema_example :
    (s : EventSchema) × (lookup "worker.state_changed" (event_schemas bare_host) ≡ some s)
    × MeetsSchema s "worker.state_changed" (copy_json_object state_payload)
    × (copy_json_object state_payload ≡ copy_json_object state_payload)
validated_payload-MeetsSchema_example =
    validated_payload-MeetsSchema bare_host "worker.state_changed" state_payload
      (copy_json_object state_payload) state_is_valid

run-Extends_example :
    (more : List EventRecord) × ((run bare_host disk (retry ∷ []) failed_db).events
      ≡ failed_db.events ++ more)
run-Extends_example = run-Extends bare_host disk (retry ∷ []) failed_db failed_db-IsSound

read_ulid-new_ulid_example :
    let read = read_ulid 0 (new_ulid 1700000000000000000 12345) in
    (read / 2 ^ 80 ≡ 1700000000000) × (read % 2 ^ 80 ≡ 12345)
read_ulid-new_ulid_example =
    read_ulid-new_ulid 1700000000000000000 12345 (omega arith) (omega arith)
