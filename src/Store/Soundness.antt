-- ===== src/Store/Soundness.antt =====
-- Every transaction of store.py that commits keeps the tables sound and advances each worker by at
-- most one step of the lifecycle.
use mathlib.Core.Option
use mathlib.Core.Path.{subst}
use dogqoder.Prelude.{ℕ, ◌≡◌, ap, ◌∙◌, true, false, not, some, String, ◌&&◌, ◌==◌, arith}
use dogqoder.Json.{Object}
use dogqoder.Patterns.{Host}
use dogqoder.Lifecycle.{WorkerState}
use dogqoder.Events.{validated_payload}
use dogqoder.Events.Copy.{text_at-copy}
use dogqoder.Events.Validation.{validated_payload-MeetsSchema}
use dogqoder.Result.{ok, >>=-eq-ok, require-eq-ok, unknown_worker}
use dogqoder.Store.{WorkerRecord, EventRecord, Db, Draw, find_worker, or_raise, append_row}
use dogqoder.Store.Project.{text_at, names_starting, project_event}
use dogqoder.Store.Operations.{append_rows}
use dogqoder.Store.Effects.{append_row_inv}
use dogqoder.Store.Consistency.{view_of, view}
use dogqoder.Store.Invariant.{
  Extends, Extends-trans, IsSound, SameStates-append, IsSound-append, SameStates,
}
use dogqoder.Store.Projection.{Advance, or_raise-eq-ok, project_event-IsSound}

-- What a transaction leaves: sound tables, in which every worker advanced by at most one step, with
-- all the events from before.
abbrev pub SoundStep : Db → Db → Type 0
SoundStep db db' =
    IsSound db'
    × ((id : String) → Advance (view db id) (view db' id))
    × Extends db.events db'.events

pub view_of_found :
    (id : String) (db : Db) (row : WorkerRecord)
    → find_worker id db ≡ some row
    → view db id ≡ some (row.attempt, row.state)
view_of_found id db row h = ap (Option.map view_of) h

-- A persisted payload names the same state as the one that was validated.
pub text_at-payload :
    (host : Host) (k event_type : String) (payload r : Object)
    → validated_payload host event_type payload ≡ ok r
    → text_at k r ≡ text_at k payload
text_at-payload host k event_type payload r h =
    let (s, known, meets, same) = validated_payload-MeetsSchema host event_type payload r h in
    ap (text_at k) same ∙ text_at-copy k payload

-- A transaction that first leaves all states alone.
pub SoundStep-after : {db db1 db2 : Db} → SameStates db db1 → SoundStep db1 db2 → SoundStep db db2
SoundStep-after {db} {db1} {db2} same (sound, moves, more) = (
  sound,
  λ i. subst (λ v. Advance v (view db2 i)) (same.views i) (moves i),
  Extends-trans _ same.extends more,
)

pub SoundStep-quiet : {db db1 : Db} → SameStates db db1 → IsSound db1 → SoundStep db db1
SoundStep-quiet same sound = (sound, λ i. Advance.stay (same.views i), same.extends)

-- An event of the current attempt, appended and projected.
pub append_project-SoundStep :
    (host : Host) (draw : Draw) (id : String) (n : ℕ) (s : WorkerState) (event_type : String)
    (payload : Object) (now : ℕ) (db db1 db2 : Db) (e : EventRecord)
    → view db id ≡ some (n, s)
    → ((event_type == "worker.state_changed") ≡ true
        → names_starting (text_at "state" payload) ≡ false)
    → append_row host draw id n event_type payload now db ≡ ok (e, db1)
    → project_event e db1 ≡ ok db2
    → IsSound db
    → SoundStep db db2
append_project-SoundStep host draw id n s event_type payload now db db1 db2 e here plain h k sound =
    let a = append_row_inv host draw id n event_type payload now db e db1 h in
    let same = SameStates-append a in
    let here' : view db1 e.worker_id ≡ some (e.attempt, s) =
      rw (a.same_worker, a.same_attempt) (same.views id ∙ here) in
    let plain' : (e.event_type == "worker.state_changed") ≡ true
        → names_starting (text_at "state" e.payload) ≡ false =
      λ is_state.
        ap names_starting (text_at-payload host "state" event_type payload e.payload a.is_valid)
        ∙ plain (rw a.same_type at is_state) in
    let step = project_event-IsSound e db1 db2 s here' plain' k (IsSound-append a sound) in
    SoundStep-after same step

-- `append_event`
pub append_rows-SoundStep :
    (host : Host) (draw : Draw) (now : ℕ) (id event_type : String) (payload : Object) (db db' : Db)
    (e : EventRecord)
    → append_rows host draw now id event_type payload db ≡ ok (e, db')
    → IsSound db
    → SoundStep db db'
unfolding append_rows
append_rows-SoundStep host draw now id event_type payload db db' e h sound =
    let (safe, valid, h1) = >>=-eq-ok (validated_payload host event_type payload) _ h in
    let (no_create, h2) = require-eq-ok (not (event_type == "worker.created")) _ _ h1 in
    let (plain, h3) =
      require-eq-ok
        (not ((event_type == "worker.state_changed") && names_starting (text_at "state" safe))) _ _
        h2 in
    let (row, found, h4) = >>=-eq-ok (or_raise (find_worker id db) (unknown_worker id)) _ h3 in
    let (appended, h5, h6) =
      >>=-eq-ok (append_row host draw id row.attempt event_type safe now db) _ h4 in
    let (db2, projected, h7) = >>=-eq-ok (project_event appended.0 appended.1) _ h6 in
    let same : db2 ≡ db' = cc in
    subst (SoundStep db) same (
      append_project-SoundStep host draw id row.attempt row.state event_type safe now db appended.1
        db2 appended.0 (view_of_found id db row (or_raise-eq-ok (find_worker id db) _ found))
        (λ is_state. ground arith) h5 projected sound)
