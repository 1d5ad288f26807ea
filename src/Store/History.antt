-- ===== src/Store/History.antt =====
-- Histories of the store: the write operations of src/qworker/store.py in any order, with any
-- arguments, each committed or rolled back.
use mathlib.Core.Path.{subst}
use dogqoder.Prelude.{◌++◌, ℕ, ◌+◌, ◌≡◌, refl, sym, Bool, none, some, String, List, [], ◌∷◌, arith}
use dogqoder.Patterns.{Host}
use dogqoder.Json.{Object}
use dogqoder.Lifecycle.{WorkerState}
use dogqoder.Workspace.{FileSystem, canonical_workspace}
use dogqoder.Result.{Result, ok, err, >>=-eq-ok, unsafe_creation_field}
use dogqoder.Store.{EventRecord, Db, empty_db, Draw, or_raise, commit, last_sequence}
use dogqoder.Store.Operations.{
  NewWorker, chosen_id, validate_worker_creation, creation, read_back, create_worker, start_attempt,
  append_event,
}
use dogqoder.Store.Approvals.{
  record_approval_request, record_approval_resolution, expire_approval_requests,
}
use dogqoder.Store.Results.{NewResult, record_result, result_rows-SoundStep}
use dogqoder.Store.Sequence.{IsNumbered, count_events, last_sequence-count}
use dogqoder.Store.Consistency.{view, attempt_state}
use dogqoder.Store.Invariant.{Extends-refl, Extends-trans, IsSound}
use dogqoder.Store.Projection.{Advance}
use dogqoder.Store.Soundness.{SoundStep, append_rows-SoundStep}
use dogqoder.Store.Insertion.{start_rows-SoundStep, create_rows-SoundStep}
use dogqoder.Store.ApprovalSoundness.{
  request_rows-SoundStep, resolution_rows-SoundStep, expire_rows-SoundStep,
}

-- A call of the store, with the time and the random draws that it meets.
pub data Op : Type 0 where
  create_worker_op : Draw → Draw → ℕ → NewWorker → Op
  start_attempt_op : Draw → ℕ → String → Op
  append_event_op : Draw → ℕ → String → String → Object → Op
  request_op : Draw → Draw → ℕ → String → ℕ → Object → Op
  resolution_op : Draw → Draw → ℕ → String → ℕ → Object → Bool → Op
  result_op : Draw → ℕ → String → NewResult → Op
  expire_op : (ℕ → Draw) → ℕ → String → ℕ → List String → Op

unfoldable pub perform : Host → FileSystem → Op → Db → Db
unfolding create_worker start_attempt append_event record_approval_request
    record_approval_resolution expire_approval_requests record_result
perform host fs (create_worker_op d d' now n) db = (create_worker host fs d d' now n db).1
perform host fs (start_attempt_op d now id) db = (start_attempt host d now id db).1
perform host fs (append_event_op d now id event_type payload) db =
    (append_event host d now id event_type payload db).1
perform host fs (request_op d d' now id n payload) db =
    (record_approval_request host d d' now id n payload db).1
perform host fs (resolution_op d d' now id n payload restore) db =
    (record_approval_resolution host d d' now id n payload restore db).1
perform host fs (result_op d now id n) db = (record_result host d now id n db).1
perform host fs (expire_op ds now id n ids) db =
    (expire_approval_requests host ds now id n ids db).1

unfoldable pub run : Host → FileSystem → List Op → Db → Db
unfolding perform
run host fs [] db = db
run host fs (op ∷ ops) db = run host fs ops (perform host fs op db)

SoundStep-refl : (db : Db) → IsSound db → SoundStep db db
SoundStep-refl db s = (s, λ i. Advance.stay refl, Extends-refl db.events)

-- A transaction that is rolled back changes nothing.
commit-SoundStep :
    {A : Type 0} (db : Db) (r : Result (A × Db))
    → IsSound db
    → ((a : A) (db' : Db) → r ≡ ok (a, db') → SoundStep db db')
    → SoundStep db (commit db r).1
commit-SoundStep db (ok (a, db')) s h = h a db' refl
commit-SoundStep db (err e) s h = SoundStep-refl db s

read_back-tables : (r : Result String × Db) → (read_back r).1 ≡ r.1
read_back-tables (ok id, db) = refl
read_back-tables (err e, db) = refl

creation-SoundStep :
    (host : Host) (fs : FileSystem) (d d' : Draw) (now : ℕ) (n : NewWorker) (db db' : Db)
    (w : String)
    → creation host fs d d' now n db ≡ ok (w, db')
    → IsSound db
    → SoundStep db db'
unfolding creation
creation-SoundStep host fs d d' now n db db' w h s =
    let (cwd, h1, k1) =
      >>=-eq-ok (or_raise (canonical_workspace fs n.cwd) (unsafe_creation_field "cwd")) _ h in
    let (_, h2, k2) =
      >>=-eq-ok (validate_worker_creation host (chosen_id n.worker_id d) cwd n) _ k1 in
    create_rows-SoundStep host d' now (chosen_id n.worker_id d) cwd n db db' w k2 s

-- Every call on a sound store, committed or not, loses no event, keeps the tables sound, and advances each worker by
-- one edge of the lifecycle at most: it changes the state within an attempt, or starts the next
-- attempt, or creates the worker with its first attempt.
pub perform-SoundStep :
    (host : Host) (fs : FileSystem) (op : Op) (db : Db)
    → IsSound db
    → SoundStep db (perform host fs op db)
unfolding perform create_worker start_attempt append_event record_approval_request
    record_approval_resolution expire_approval_requests record_result
perform-SoundStep host fs (create_worker_op d d' now n) db s =
    subst (SoundStep db) (sym (read_back-tables _))
      (commit-SoundStep db _ s (λ w db' h. creation-SoundStep host fs d d' now n db db' w h s))
perform-SoundStep host fs (start_attempt_op d now id) db s =
    commit-SoundStep db _ s (λ a db' h. start_rows-SoundStep host d now id db db' a h s)
perform-SoundStep host fs (append_event_op d now id event_type payload) db s =
    commit-SoundStep db _ s
      (λ e db' h. append_rows-SoundStep host d now id event_type payload db db' e h s)
perform-SoundStep host fs (request_op d d' now id n payload) db s =
    commit-SoundStep db _ s
      (λ es db' h. request_rows-SoundStep host d d' now id n payload db db' es h s)
perform-SoundStep host fs (resolution_op d d' now id n payload restore) db s =
    commit-SoundStep db _ s
      (λ es db' h. resolution_rows-SoundStep host d d' now id n payload restore db db' es h s)
perform-SoundStep host fs (result_op d now id n) db s =
    commit-SoundStep db _ s (λ e db' h. result_rows-SoundStep host d now id n db db' e h s)
perform-SoundStep host fs (expire_op ds now id n []) db s = SoundStep-refl db s
perform-SoundStep host fs (expire_op ds now id n (r ∷ rs)) db s =
    commit-SoundStep db _ s
      (λ es db' h. expire_rows-SoundStep host ds now id n (r ∷ rs) db db' es h s)

pub run-IsSound :
    (host : Host) (fs : FileSystem) (ops : List Op) (db : Db)
    → IsSound db
    → IsSound (run host fs ops db)
unfolding run
run-IsSound host fs [] db s = s
run-IsSound host fs (op ∷ ops) db s =
    run-IsSound host fs ops (perform host fs op db) (perform-SoundStep host fs op db s).0

-- No call removes, changes or reorders an event: after any calls on a sound store the events are those
-- before, with the new ones behind them.
pub run-Extends :
    (host : Host) (fs : FileSystem) (ops : List Op) (db : Db)
    → IsSound db
    → (more : List EventRecord) × ((run host fs ops db).events ≡ db.events ++ more)
unfolding run
run-Extends host fs [] db s = Extends-refl db.events
run-Extends host fs (op ∷ ops) db s =
    let (sound, moves, more) = perform-SoundStep host fs op db s in
    Extends-trans _ more (run-Extends host fs ops (perform host fs op db) sound)

pub empty_db-IsSound : IsSound empty_db
empty_db-IsSound = record {
  numbered = λ id. tt;
  agrees = record { fresh = λ id n h. refl; positive = λ id n s h. cc; synced = λ id n s h. cc };
}

-- From an empty store, whatever is called: a worker's events are numbered 1, 2, 3 and so on without
-- a gap, its event cursor is the number of its events, and its current attempt has a row that
-- agrees with it on the state, beyond which there is no later attempt.
pub run-invariant :
    (host : Host) (fs : FileSystem) (ops : List Op) (id : String)
    → let db = run host fs ops empty_db in
      IsNumbered id 1 db.events
      × (last_sequence id db.events ≡ count_events id db.events)
      × ((n : ℕ) (s : WorkerState)
          → view db id ≡ some (n, s)
          → (attempt_state db id n ≡ some s) × (attempt_state db id (n + 1) ≡ none))
run-invariant host fs ops id =
    let db = run host fs ops empty_db in
    let sound = run-IsSound host fs ops empty_db empty_db-IsSound in
    (
      sound.numbered id,
      last_sequence-count id db.events (sound.numbered id),
      λ n s here.
          (sound.agrees.synced id n s here, sound.agrees.fresh id (n + 1) (rw here (omega arith))),
    )
