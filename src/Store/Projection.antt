-- ===== src/Store/Projection.antt =====
-- What `_project_event` of store.py leaves in the tables: a change of state follows an edge of the
-- lifecycle, and any other event leaves all states alone.
use mathlib.Core.Option
use mathlib.Core.Path.{subst}
use dogqoder.Prelude.{
  ℕ, ◌+◌, ◌≡◌, ◌≢◌, ◌⊎◌, refl, sym, ap, true, false, Option, none, some, String, [], ◌∷◌, ◌++◌,
  ◌==◌, arith, contains, eq_iff, Bool-cases, inl, inr, if◌then◌else◌,
}
use dogqoder.Lifecycle.{WorkerState, starting, transition}
use dogqoder.Tables.{update_where}
use dogqoder.Result.{Error, ok, >>=-eq-ok}
use dogqoder.Store.{WorkerRecord, EventRecord, Db, is_worker, find_worker, or_raise}
use dogqoder.Store.Project.{
  text_at, names_starting, parse_state, set_state, move_to, parse_health, project_state,
  project_health, project_warning, project_event,
}
use dogqoder.Store.Consistency.{View, view_of, view}
use dogqoder.Store.Invariant.{
  Extends, Extends-refl, IsSound, SameStates, SameStates-update, IsSound-same,
}
use dogqoder.Store.StateChange.{view-set_state, IsSound-set_state}
use dogqoder.Lifecycle.Reach.{◌⟶◌, transition_iff}

-- How a worker may come to stand after one transaction: as before, in another state of the same
-- attempt, in a new attempt, or as a new worker.
pub data Advance (v v' : View) : Type 0 where
  stay : v' ≡ v → Advance v v'
  move :
      (n : ℕ) (s t : WorkerState)
      → v ≡ some (n, s)
      → s ⟶ t
      → t ≢ starting
      → v' ≡ some (n, t)
      → Advance v v'
  restart :
      (n : ℕ) (s : WorkerState)
      → v ≡ some (n, s)
      → s ⟶ starting
      → v' ≡ some (n + 1, starting)
      → Advance v v'
  create : v ≡ none → v' ≡ some (1, starting) → Advance v v'

pub or_raise-eq-ok {ℓ} :
    {A : Type ℓ} (o : Option A) (x : Error) {a : A} → or_raise o x ≡ ok a → o ≡ some a
or_raise-eq-ok none x h = cc
or_raise-eq-ok (some b) x h = ground arith

ok-injective {ℓ} : {A : Type ℓ} {a b : A} → ok a ≡ ok b → a ≡ b
ok-injective h = cc

move_to_inv :
    (s : WorkerState) (o : Option WorkerState) {t : WorkerState}
    → move_to s o ≡ ok t
    → (o ≡ some t) × (s ⟶ t)
move_to_inv s none h = cc
move_to_inv s (some target) {t} h =
    let (same, edge) = (transition_iff s target t).0 (or_raise-eq-ok (transition s target) _ h) in
    (ap some (sym same), subst (λ u. s ⟶ u) (sym same) edge)

-- A projected change of state.
pub record Changed (e : EventRecord) (db db' : Db) : Type 0 where
  pub text : String
  pub row : WorkerRecord
  pub state : WorkerState
  pub in_payload : text_at "state" e.payload ≡ some text
  pub in_table : find_worker e.worker_id db ≡ some row
  pub named : parse_state text ≡ some state
  pub edge : row.state ⟶ state
  pub tables : db' ≡ set_state e state db

pub project_state_inv :
    (e : EventRecord) (db db' : Db) → project_state e db ≡ ok db' → Changed e db db'
unfolding project_state
project_state_inv e db db' h =
    let (text, h1, k1) = >>=-eq-ok (or_raise (text_at "state" e.payload) _) _ h in
    let (row, h2, k2) = >>=-eq-ok (or_raise (find_worker e.worker_id db) _) _ k1 in
    let (state, h3, k3) = >>=-eq-ok (move_to row.state (parse_state text)) _ k2 in
    let (named, edge) = move_to_inv row.state (parse_state text) h3 in
    record {
      text = text;
      row = row;
      state = state;
      in_payload = or_raise-eq-ok _ _ h1;
      in_table = or_raise-eq-ok _ _ h2;
      named = named;
      edge = edge;
      tables = sym (ok-injective k3);
    }

-- The tables differ in no state and in no event.
abbrev pub Unmoved : Db → Db → Type 0
Unmoved db db' = SameStates db db' × (db'.events ≡ db.events)

Unmoved-update :
    (k : String) (f : WorkerRecord → WorkerRecord) (db : Db)
    → ((w : WorkerRecord) → (f w).worker_id ≡ w.worker_id)
    → ((w : WorkerRecord) → view_of (f w) ≡ view_of w)
    → Unmoved db (record db { workers = update_where (is_worker k) f db.workers })
Unmoved-update k f db keeps same = (SameStates-update k f db keeps same, refl)

Unmoved-refl : (db : Db) → Unmoved db db
Unmoved-refl db =
    (record { views = λ id. refl; attempts = λ id n. refl; extends = Extends-refl db.events }, refl)

project_health_inv : (e : EventRecord) (db db' : Db) → project_health e db ≡ ok db' → Unmoved db db'
unfolding project_health
project_health_inv e db db' h =
    let (text, h1, k1) = >>=-eq-ok (or_raise (text_at "health" e.payload) _) _ h in
    let (health, h2, k2) = >>=-eq-ok (or_raise (parse_health text) _) _ k1 in
    subst (Unmoved db) (ok-injective k2)
      (Unmoved-update e.worker_id (λ w. record w { health = health }) db (λ w. refl) (λ w. refl))

project_warning_inv :
    (e : EventRecord) (db db' : Db) → project_warning e db ≡ ok db' → Unmoved db db'
unfolding project_warning
project_warning_inv e db db' h =
    let (code, h1, k1) = >>=-eq-ok (or_raise (text_at "code" e.payload) _) _ h in
    let (row, h2, k2) = >>=-eq-ok (or_raise (find_worker e.worker_id db) _) _ k1 in
    subst (Unmoved db) (ok-injective k2) (either row code)
  where
    either :
        (row : WorkerRecord) (code : String)
        → Unmoved db (
            if contains row.warnings code then db else record db {
              workers =
                  update_where
                    (is_worker e.worker_id)
                    (λ w. record w { warnings = row.warnings ++ code ∷ [] })
                    db.workers;
            })
    either row code = elim (Bool-cases (contains row.warnings code)) [
      | inl old ↦ rw old (Unmoved-refl db)
      | inr new ↦ rw new (
          Unmoved-update e.worker_id (λ w. record w { warnings = row.warnings ++ code ∷ [] }) db
            (λ w. refl) (λ w. refl))
    ]

-- Every projection either moves no state or is a change of state.
pub project_event_cases :
    (e : EventRecord) (db db' : Db)
    → project_event e db ≡ ok db'
    → Unmoved db db' ⊎ (((e.event_type == "worker.state_changed") ≡ true) × Changed e db db')
unfolding project_event
project_event_cases e db db' h = elim (Bool-cases (e.event_type == "worker.state_changed")) [
  | inl is_state ↦ inr (is_state, project_state_inv e db db' (rw is_state at h))
  | inr other ↦ inl (rest (rw other at h))
]
  where
    rest :
        (if e.event_type == "worker.health_changed"
            then project_health e db
            else if e.event_type == "worker.warning"
            then project_warning e db
            else ok db)
          ≡ ok db'
        → Unmoved db db'
    rest k = elim (Bool-cases (e.event_type == "worker.health_changed")) [
      | inl is_health ↦ project_health_inv e db db' (rw is_health at k)
      | inr no_health ↦ elim (Bool-cases (e.event_type == "worker.warning")) [
        | inl is_warning ↦ project_warning_inv e db db' (rw (no_health, is_warning) at k)
        | inr no_warning ↦
            subst (Unmoved db) (ok-injective (rw (no_health, no_warning) at k)) (Unmoved-refl db)
      ]
    ]

parse_state-ne-starting :
    (text : String) (t : WorkerState)
    → parse_state text ≡ some t
    → names_starting (some text) ≡ false
    → t ≢ starting
unfolding parse_state
parse_state-ne-starting text t named plain = ground arith

Advance-set_state :
    (e : EventRecord) (db : Db) (s t : WorkerState)
    → view db e.worker_id ≡ some (e.attempt, s)
    → s ⟶ t
    → t ≢ starting
    → (id : String) → Advance (view db id) (view (set_state e t db) id)
Advance-set_state e db s t here edge plain id = elim (Bool-cases (e.worker_id == id)) [
  | inl own ↦
      Advance.move e.attempt s t
        (subst (λ i. view db i ≡ some (e.attempt, s)) ((eq_iff e.worker_id id).0 own) here) edge
        plain (rw own at (view-set_state e t db here id))
  | inr other ↦ Advance.stay (rw other at (view-set_state e t db here id))
]

pub view_found :
    (o : Option WorkerRecord) (row : WorkerRecord) {n : ℕ} {s : WorkerState}
    → o ≡ some row
    → Option.map view_of o ≡ some (n, s)
    → (row.attempt ≡ n) × (row.state ≡ s)
view_found none row h k = cc
view_found (some w) row h k = ground arith

-- The projection of an event of a worker's current attempt keeps the tables sound, and moves that
-- worker at most along one edge of the lifecycle.
pub project_event-IsSound :
    (e : EventRecord) (db db' : Db) (s : WorkerState)
    → view db e.worker_id ≡ some (e.attempt, s)
    → ((e.event_type == "worker.state_changed") ≡ true
        → names_starting (text_at "state" e.payload) ≡ false)
    → project_event e db ≡ ok db'
    → IsSound db
    → IsSound db'
      × ((id : String) → Advance (view db id) (view db' id))
      × Extends db.events db'.events
unfolding set_state
project_event-IsSound e db db' s here plain h sound = elim (project_event_cases e db db' h) [
  | inl (same, events) ↦ (
    IsSound-same same (λ id. rw events (sound.numbered id)) sound,
    λ id. Advance.stay (same.views id),
    same.extends,
  )
  | inr (is_state, c) ↦
      let before : c.row.state ≡ s =
        (view_found (find_worker e.worker_id db) c.row c.in_table here).1 in
      let edge : s ⟶ c.state = subst (λ u. u ⟶ c.state) before c.edge in
      let later : c.state ≢ starting =
        parse_state-ne-starting c.text c.state c.named
          (subst (λ o. names_starting o ≡ false) c.in_payload (plain is_state)) in
      (
        subst IsSound (sym c.tables) (IsSound-set_state e c.state db here sound),
        λ id.
            subst (λ d. Advance (view db id) (view d id)) (sym c.tables)
              (Advance-set_state e db s c.state here edge later id),
        subst (λ d. Extends db.events d.events) (sym c.tables) (Extends-refl db.events),
      )
]
