-- ===== src/Store/ApprovalSoundness.antt =====
-- `record_approval_request`, `record_approval_resolution` and `expire_approval_requests` of
-- src/qworker/store.py keep the tables sound.
use mathlib.Core.Path.{subst}
use dogqoder.Prelude.{
  ℕ, ◌≡◌, refl, ◌∙◌, Bool, true, false, some, String, List, [], ◌∷◌, ◌&&◌, ◌==◌, arith, nat_eq,
  if◌then◌else◌,
}
use dogqoder.Patterns.{Host}
use dogqoder.Json.{Object}
use dogqoder.Lifecycle.{WorkerState, running, requires_action, state_eq}
use dogqoder.Events.{validated_payload}
use dogqoder.Result.{Result, ok, ◌>>=◌, >>=-eq-ok, require-eq-ok, unknown_worker, attempt_changed}
use dogqoder.Store.{WorkerRecord, EventRecord, Db, Draw, find_worker, or_raise, append_row}
use dogqoder.Store.Project.{project_event}
use dogqoder.Store.Approvals.{
  append_state, is_live, request_rows, require_waiting, resolution_rows, validate_expired,
  append_all, pair_up, expire_rows,
}
use dogqoder.Store.Effects.{append_row_inv}
use dogqoder.Store.Consistency.{view}
use dogqoder.Store.Invariant.{
  IsSound, Extends-refl, SameStates, SameStates-trans, SameStates-append, IsSound-append,
}
use dogqoder.Store.Projection.{or_raise-eq-ok}
use dogqoder.Store.Soundness.{
  SoundStep, SoundStep-after, SoundStep-quiet, view_of_found, append_project-SoundStep,
}

-- A worker of the given attempt and state.
abbrev At : String → ℕ → WorkerState → Db → Type 0
At id n s db = view db id ≡ some (n, s)

append_state-SoundStep :
    (host : Host) (draw : Draw) (id : String) (n : ℕ) (text : String) (now : ℕ) (s : WorkerState)
    (db db' : Db) (e : EventRecord)
    → At id n s db
    → (text == "starting") ≡ false
    → append_state host draw id n text now db ≡ ok (e, db')
    → IsSound db
    → SoundStep db db'
unfolding append_state
append_state-SoundStep host draw id n text now s db db' e here plain h sound =
    let (appended, h1, h2) =
      >>=-eq-ok (append_row host draw id n "worker.state_changed" _ now db) _ h in
    let (db2, projected, h3) = >>=-eq-ok (project_event appended.0 appended.1) _ h2 in
    let last : db2 ≡ db' = cc in
    subst (SoundStep db) last (
      append_project-SoundStep host draw id n s "worker.state_changed" _ now db appended.1 db2
        appended.0 here (λ is_state. plain) h1 projected sound)

-- What is left of a step that appends an event without projecting it.
record Quiet (db db' : Db) : Type 0 where
  same : SameStates db db'
  sound : IsSound db → IsSound db'

Quiet-append :
    (host : Host) (draw : Draw) (id : String) (n : ℕ) (event_type : String) (payload : Object)
    (now : ℕ) (db db' : Db) (e : EventRecord)
    → append_row host draw id n event_type payload now db ≡ ok (e, db')
    → Quiet db db'
Quiet-append host draw id n event_type payload now db db' e h =
    let a = append_row_inv host draw id n event_type payload now db e db' h in
    record { same = SameStates-append a; sound = IsSound-append a }

-- The events of `append_state`, after the event `e`.
abbrev with_state :
    Host → Draw → String → ℕ → String → ℕ → EventRecord → Db → Result (List EventRecord × Db)
unfolding append_state
with_state host draw id n text now e db =
    append_state host draw id n text now db >>= λ m. ok (e ∷ m.0 ∷ [], m.1)

-- An event, and then a change of state where the test holds.
Quiet-then :
    (host : Host) (draw : Draw) (id : String) (n : ℕ) (text : String) (now : ℕ) (s : WorkerState)
    (db db1 db' : Db) (e : EventRecord) (es : List EventRecord) (moves : Bool)
    → At id n s db
    → (text == "starting") ≡ false
    → Quiet db db1
    → (if moves then with_state host draw id n text now e db1 else ok (e ∷ [], db1)) ≡ ok (es, db')
    → IsSound db
    → SoundStep db db'
unfolding append_state with_state
Quiet-then host draw id n text now s db db1 db' e es true here plain quiet h sound =
    let (moved, h1, h2) = >>=-eq-ok (append_state host draw id n text now db1) _ h in
    let last : moved.1 ≡ db' = cc in
    SoundStep-after quiet.same (
      subst (SoundStep db1) last (
        append_state-SoundStep host draw id n text now s db1 moved.1 moved.0
          (quiet.same.views id ∙ here) plain h1 (quiet.sound sound)))
Quiet-then host draw id n text now s db db1 db' e es false here plain quiet h sound =
    let last : db1 ≡ db' = cc in
    subst (SoundStep db) last (SoundStep-quiet quiet.same (quiet.sound sound))

live_row :
    (id : String) (db : Db) (row : WorkerRecord) (n : ℕ)
    → find_worker id db ≡ some row
    → nat_eq row.attempt n ≡ true
    → At id n row.state db
live_row id db row n found e =
    subst (λ m. view db id ≡ some (m, row.state)) (ground arith) (view_of_found id db row found)

-- `record_approval_request`
pub request_rows-SoundStep :
    (host : Host) (draw draw' : Draw) (now : ℕ) (id : String) (n : ℕ) (payload : Object)
    (db db' : Db) (es : List EventRecord)
    → request_rows host draw draw' now id n payload db ≡ ok (es, db')
    → IsSound db
    → SoundStep db db'
unfolding request_rows
request_rows-SoundStep host draw draw' now id n payload db db' es h sound =
    let (safe, valid, h1) = >>=-eq-ok (validated_payload host "approval.requested" payload) _ h in
    let (row, found, h2) = >>=-eq-ok (or_raise (find_worker id db) (unknown_worker id)) _ h1 in
    let (current, h3) =
      require-eq-ok (nat_eq row.attempt n && is_live row.state) attempt_changed _ h2 in
    let (requested, h4, h5) =
      >>=-eq-ok (append_row host draw id n "approval.requested" safe now db) _ h3 in
    let here = live_row id db row n (or_raise-eq-ok (find_worker id db) _ found) (ground arith) in
    Quiet-then host draw' id n "requires_action" now row.state db requested.1 db' requested.0 es
      (state_eq row.state running) here refl
      (Quiet-append host draw id n "approval.requested" safe now db requested.1 requested.0 h4) h5
      sound

waiting_inv :
    (id : String) (n : ℕ) (db : Db) {u : Unit {0}}
    → require_waiting id n db ≡ ok u
    → (row : WorkerRecord) × At id n row.state db
unfolding require_waiting
waiting_inv id n db h =
    let (row, found, h1) = >>=-eq-ok (or_raise (find_worker id db) (unknown_worker id)) _ h in
    let current : (nat_eq row.attempt n && state_eq row.state requires_action) ≡ true =
      ground arith in
    (row, live_row id db row n (or_raise-eq-ok (find_worker id db) _ found) (ground arith))

-- `record_approval_resolution`
pub resolution_rows-SoundStep :
    (host : Host) (draw draw' : Draw) (now : ℕ) (id : String) (n : ℕ) (payload : Object)
    (restore_running : Bool) (db db' : Db) (es : List EventRecord)
    → resolution_rows host draw draw' now id n payload restore_running db ≡ ok (es, db')
    → IsSound db
    → SoundStep db db'
unfolding resolution_rows
resolution_rows-SoundStep host draw draw' now id n payload restore_running db db' es h sound =
    let (safe, valid, h1) = >>=-eq-ok (validated_payload host "approval.resolved" payload) _ h in
    let (_, waits, h2) = >>=-eq-ok (require_waiting id n db) _ h1 in
    let (resolved, h3, h4) =
      >>=-eq-ok (append_row host draw id n "approval.resolved" safe now db) _ h2 in
    let (row, here) = waiting_inv id n db waits in
    Quiet-then host draw' id n "running" now row.state db resolved.1 db' resolved.0 es
      restore_running here refl
      (Quiet-append host draw id n "approval.resolved" safe now db resolved.1 resolved.0 h3) h4
      sound

Quiet-append_all :
    (host : Host) (id : String) (n now : ℕ) (rows : List (Object × Draw)) (db db' : Db)
    (es : List EventRecord)
    → append_all host id n now rows db ≡ ok (es, db')
    → Quiet db db'
unfolding append_all
Quiet-append_all host id n now [] db db' es h =
    let last : db ≡ db' = cc in
    subst (Quiet db) last (record {
      same = record { views = λ i. refl; attempts = λ i m. refl; extends = Extends-refl db.events };
      sound = λ s. s;
    })
Quiet-append_all host id n now ((payload, draw) ∷ rest) db db' es h =
    let (one, h1, h2) =
      >>=-eq-ok (append_row host draw id n "approval.resolved" payload now db) _ h in
    let (more, h3, h4) = >>=-eq-ok (append_all host id n now rest one.1) _ h2 in
    let last : more.1 ≡ db' = cc in
    let first = Quiet-append host draw id n "approval.resolved" payload now db one.1 one.0 h1 in
    let later = Quiet-append_all host id n now rest one.1 more.1 more.0 h3 in
    subst (Quiet db) last (record {
      same = SameStates-trans first.same later.same;
      sound = λ s. later.sound (first.sound s);
    })

-- `expire_approval_requests`
pub expire_rows-SoundStep :
    (host : Host) (draws : ℕ → Draw) (now : ℕ) (id : String) (n : ℕ) (ids : List String)
    (db db' : Db) (es : List EventRecord)
    → expire_rows host draws now id n ids db ≡ ok (es, db')
    → IsSound db
    → SoundStep db db'
unfolding expire_rows
expire_rows-SoundStep host draws now id n ids db db' es h sound =
    let (payloads, valid, h1) = >>=-eq-ok (validate_expired host ids) _ h in
    let (_, waits, h2) = >>=-eq-ok (require_waiting id n db) _ h1 in
    let (expired, h3, h4) =
      >>=-eq-ok (append_all host id n now (pair_up payloads draws 1) db) _ h2 in
    let (moved, h5, h6) =
      >>=-eq-ok (append_state host (draws 0) id n "running" now expired.1) _ h4 in
    let last : moved.1 ≡ db' = cc in
    let (row, here) = waiting_inv id n db waits in
    let quiet =
      Quiet-append_all host id n now (pair_up payloads draws 1) db expired.1 expired.0 h3 in
    SoundStep-after quiet.same (
      subst (SoundStep expired.1) last (
        append_state-SoundStep host (draws 0) id n "running" now row.state expired.1 moved.1 moved.0
          (quiet.same.views id ∙ here) refl h5 (quiet.sound sound)))
