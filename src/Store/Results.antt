-- ===== src/Store/Results.antt =====
-- `record_result` of src/qworker/store.py.
use dogqoder.Prelude.{ℕ, Bool, true, Option, none, some, String, List, [], ◌∷◌, all, ◌≡◌, refl}
use mathlib.Core.Path.{subst}
use dogqoder.Lifecycle.{NestedState}
use dogqoder.Chars.{codes}
use dogqoder.Json.{Json, Fields, Object}
use dogqoder.Patterns.{Host, safe_metadata}
use dogqoder.Domain.{Outcome, outcome_text}
use dogqoder.Redaction.{safe_result_summary}
use dogqoder.Tables.{update_where}
use dogqoder.Result.{
  Result, ok, ◌>>=◌, ◌>>◌, require, >>=-eq-ok, unsafe_result_field, unknown_worker,
}
use dogqoder.Store.{
  WorkerRecord, EventRecord, Db, Draw, is_worker, find_worker, or_raise, commit, append_row,
}
use dogqoder.Store.Operations.{number}
use dogqoder.Store.Effects.{append_row_inv}
use dogqoder.Store.Invariant.{
  IsSound, SameStates, SameStates-trans, SameStates-append, SameStates-update, IsSound-append,
  IsSound-same,
}
use dogqoder.Store.Soundness.{SoundStep, SoundStep-quiet}

-- The keyword arguments of `record_result`.
pub record NewResult : Type 0 where
  pub outcome : Outcome
  pub result_summary : Fields
  pub resolved_model : Option String
  pub actual_models : List String
  pub session_id : Option String
  pub nested_state : NestedState
  pub warnings : List String

abbrev pub is_identifier : String → Bool
is_identifier s = safe_metadata (codes s)

abbrev pub passes_identifier : Option String → Bool
passes_identifier none = true
passes_identifier (some s) = is_identifier s

-- The tests before the transaction.
unfoldable pub check_result : NewResult → Result (Unit {0})
check_result n = do
  require (passes_identifier n.resolved_model) (unsafe_result_field "resolved_model")
  require (all (λ m. is_identifier m) n.actual_models) (unsafe_result_field "actual_models")
  require (passes_identifier n.session_id) (unsafe_result_field "session_id")
  require (all (λ w. is_identifier w) n.warnings) (unsafe_result_field "warnings")

abbrev pub model_field : Option String → Object
model_field none = []
model_field (some m) = ("model", Json.str m) ∷ []

-- The update of the worker's row.
abbrev pub result_row : Object → NewResult → WorkerRecord → WorkerRecord
result_row safe n w = record w {
  result_summary = some safe;
  resolved_model = n.resolved_model;
  actual_models = n.actual_models;
  session_id = n.session_id;
  nested_state = n.nested_state;
  warnings = n.warnings;
}

abbrev pub update_result : String → Object → NewResult → Db → Db
update_result id safe n db = record db {
  workers = update_where (is_worker id) (result_row safe n) db.workers;
}

-- The transaction of `record_result`, with the tests before it.
unfoldable pub result_rows : Host → Draw → ℕ → String → NewResult → Db → Result (EventRecord × Db)
unfolding check_result
result_rows host draw now worker_id n db = do
  check_result n
  row ← or_raise (find_worker worker_id db) (unknown_worker worker_id)
  received ←
      append_row host draw worker_id row.attempt "result.received"
        (("schema_version", number 1)
          ∷ ("outcome", Json.str (outcome_text n.outcome))
          ∷ model_field n.resolved_model)
        now db
  ok (
    received.0,
    update_result worker_id (safe_result_summary host (outcome_text n.outcome) n.result_summary) n
        received.1,
  )

unfoldable pub record_result : Host → Draw → ℕ → String → NewResult → Db → Result EventRecord × Db
unfolding result_rows
record_result host draw now worker_id n db = commit db (result_rows host draw now worker_id n db)

SameStates-result :
    (id : String) (safe : Object) (n : NewResult) (db : Db)
    → SameStates db (update_result id safe n db)
SameStates-result id safe n db = SameStates-update id (result_row safe n) db (λ w. refl) (λ w. refl)

pub result_rows-SoundStep :
    (host : Host) (draw : Draw) (now : ℕ) (id : String) (n : NewResult) (db db' : Db)
    (e : EventRecord)
    → result_rows host draw now id n db ≡ ok (e, db')
    → IsSound db
    → SoundStep db db'
unfolding result_rows
result_rows-SoundStep host draw now id n db db' e h sound =
    let (_, checked, h1) = >>=-eq-ok (check_result n) _ h in
    let (row, found, h2) = >>=-eq-ok (or_raise (find_worker id db) (unknown_worker id)) _ h1 in
    let (received, h3, h4) =
      >>=-eq-ok (append_row host draw id row.attempt "result.received" _ now db) _ h2 in
    let safe = safe_result_summary host (outcome_text n.outcome) n.result_summary in
    let last : update_result id safe n received.1 ≡ db' = cc in
    let a =
      append_row_inv host draw id row.attempt "result.received" _ now db received.0 received.1 h3 in
    let sound1 = IsSound-append a sound in
    let updated = SameStates-result id safe n received.1 in
    subst (SoundStep db) last (
      SoundStep-quiet (SameStates-trans (SameStates-append a) updated)
        (IsSound-same updated (λ i. sound1.numbered i) sound1))
