-- ===== src/Store/Logging.antt =====
-- What `append_event` of src/qworker/store.py leaves where it commits: one more event, and the state that
-- the event names.
use mathlib.Core.Path.{subst}
use dogqoder.Prelude.{
  ℕ, ◌≡◌, sym, ap, ◌∙◌, Bool, true, false, not, some, String, [], ◌∷◌, ◌++◌, ◌&&◌, ◌==◌, inl, inr,
  eq_refl,
}
use dogqoder.Json.{Object}
use dogqoder.Patterns.{Host}
use dogqoder.Lifecycle.{WorkerState}
use dogqoder.Events.{validated_payload}
use dogqoder.Result.{ok, >>=-eq-ok, require-eq-ok, unknown_worker}
use dogqoder.Store.{WorkerRecord, EventRecord, Db, Draw, find_worker, or_raise, append_row}
use dogqoder.Store.Project.{text_at, names_starting, parse_state, set_state, project_event}
use dogqoder.Store.Operations.{append_rows}
use dogqoder.Store.Effects.{Appended, append_row_inv}
use dogqoder.Store.Consistency.{view}
use dogqoder.Store.Invariant.{SameStates-append}
use dogqoder.Store.StateChange.{view-set_state}
use dogqoder.Store.Projection.{Changed, or_raise-eq-ok, project_state_inv, project_event_cases}
use dogqoder.Store.Soundness.{view_of_found, text_at-payload}

-- The event `e` is the one new event; the texts of its payload are those given.
pub record Logged (id event_type : String) (payload : Object) (e : EventRecord) (db db' : Db)
    : Type 0 where
  pub own : e.worker_id ≡ id
  pub typed : e.event_type ≡ event_type
  pub texts : (k : String) → text_at k e.payload ≡ text_at k payload
  pub events : db'.events ≡ db.events ++ e ∷ []
  pub still : (event_type == "worker.state_changed") ≡ false → (i : String) → view db' i ≡ view db i
  pub moved :
      (event_type == "worker.state_changed") ≡ true
      → (row : WorkerRecord) × (text : String) × (state : WorkerState) × (find_worker id db
          ≡ some row)
        × (text_at "state" payload ≡ some text)
        × (parse_state text ≡ some state)
        × (view db' id ≡ some (row.attempt, state))

state_change :
    (e : EventRecord) (db db' : Db)
    → (e.event_type == "worker.state_changed") ≡ true
    → project_event e db ≡ ok db'
    → Changed e db db'
unfolding project_event
state_change e db db' is_state h = project_state_inv e db db' (rw is_state at h)

Changed-view :
    (e : EventRecord) (db db' : Db) (n : ℕ) (s : WorkerState)
    → view db e.worker_id ≡ some (e.attempt, s)
    → (c : Changed e db db') → view db' e.worker_id ≡ some (e.attempt, c.state)
Changed-view e db db' n s here c =
    subst (λ d. view d e.worker_id ≡ some (e.attempt, c.state)) (sym c.tables)
      (rw (eq_refl e.worker_id) at (view-set_state e c.state db here e.worker_id))

still_view :
    (e : EventRecord) (db db' : Db)
    → (e.event_type == "worker.state_changed") ≡ false
    → project_event e db ≡ ok db'
    → (i : String) → view db' i ≡ view db i
still_view e db db' other h i = elim (project_event_cases e db db' h) [
  | inl (same, events) ↦ same.views i
  | inr (is_state, c) ↦ absurd (no (sym other ∙ is_state))
]
  where
    no : ◌≡◌ {A = Bool} false true → ⊥
    no h = cc

project_event-events :
    (e : EventRecord) (db db' : Db) → project_event e db ≡ ok db' → db'.events ≡ db.events
unfolding set_state
project_event-events e db db' h = elim (project_event_cases e db db' h) [
  | inl (same, events) ↦ events
  | inr (is_state, c) ↦ ap (λ d. d.events) c.tables
]

Appended-Logged :
    (host : Host) (draw : Draw) (now : ℕ) (id event_type : String) (payload safe : Object)
    (db db1 db2 : Db) (e : EventRecord) (row : WorkerRecord)
    → validated_payload host event_type payload ≡ ok safe
    → find_worker id db ≡ some row
    → Appended host draw id row.attempt event_type safe now db e db1
    → project_event e db1 ≡ ok db2
    → Logged id event_type payload e db db2
Appended-Logged host draw now id event_type payload safe db db1 db2 e row valid found a projected =
    let same = SameStates-append a in
    let here : view db1 e.worker_id ≡ some (e.attempt, row.state) =
      rw (a.same_worker, a.same_attempt) (same.views id ∙ view_of_found id db row found) in
    let texts : (k : String) → text_at k e.payload ≡ text_at k payload = λ k.
      text_at-payload host k event_type safe e.payload a.is_valid
      ∙ text_at-payload host k event_type payload safe valid in
    record {
      own = a.same_worker;
      typed = a.same_type;
      texts = texts;
      events = project_event-events e db1 db2 projected ∙ ap (λ d. d.events) a.tables;
      still = λ other i. still_view e db1 db2 (rw a.same_type other) projected i ∙ same.views i;
      moved = λ is_state.
          let c = state_change e db1 db2 (rw a.same_type is_state) projected in
          (
            row,
            c.text,
            c.state,
            found,
            sym (texts "state") ∙ c.in_payload,
            c.named,
            rw (a.same_worker, a.same_attempt) at
                (Changed-view e db1 db2 row.attempt row.state here c),
          );
    }

pub append_rows-Logged :
    (host : Host) (draw : Draw) (now : ℕ) (id event_type : String) (payload : Object) (db db' : Db)
    (e : EventRecord)
    → append_rows host draw now id event_type payload db ≡ ok (e, db')
    → Logged id event_type payload e db db'
unfolding append_rows
append_rows-Logged host draw now id event_type payload db db' e h =
    let (safe, valid, h1) = >>=-eq-ok (validated_payload host event_type payload) _ h in
    let (no_create, h2) = require-eq-ok (not (event_type == "worker.created")) _ _ h1 in
    let (plain, h3) =
      require-eq-ok
        (not ((event_type == "worker.state_changed") && names_starting (text_at "state" safe))) _ _
        h2 in
    let (row, found, h4) = >>=-eq-ok (or_raise (find_worker id db) (unknown_worker id)) _ h3 in
    let (appended, h5, h6) =
      >>=-eq-ok (append_row host draw id row.attempt event_type safe now db) _ h4 in
    let (db2, projected, h7) = >>=-eq-ok (project_event appended.0 appended.1) _ h6 in
    let same : db2 ≡ db' = cc in
    let same_event : appended.0 ≡ e = cc in
    subst (λ d. Logged id event_type payload e db d) same
      (subst (λ o. Logged id event_type payload o db db2) same_event
        (Appended-Logged host draw now id event_type payload safe db appended.1 db2 appended.0 row
          valid (or_raise-eq-ok (find_worker id db) _ found)
          (append_row_inv host draw id row.attempt event_type safe now db appended.0 appended.1 h5)
          projected))
