-- ===== src/Store/Effects.antt =====
-- What the shared steps of store.py's transactions leave in the tables.
use mathlib.Core.Option
use mathlib.Core.Path.{subst₂}
use dogqoder.Prelude.{
  ℕ, ◌+◌, ◌≡◌, refl, ap, Bool, true, false, not, String, List, [], ◌∷◌, ◌++◌, ◌&&◌, ◌==◌, arith,
  nat_eq, ltb, any, is_some, Bool-cases, inl, inr, eq_iff, if◌then◌else◌,
}
use dogqoder.Json.{Object}
use dogqoder.Patterns.{Host}
use dogqoder.Events.{validated_payload}
use dogqoder.Tables.{select, update_where, select-update_where, select-update_where_other}
use dogqoder.Ulid.{new_ulid}
use dogqoder.Result.{ok, >>=-eq-ok, require-eq-ok}
use dogqoder.Store.{
  WorkerRecord, AttemptRecord, EventRecord, Db, Draw, is_worker, is_attempt, find_worker,
  last_sequence, insert_event, touch, append_row,
}

-- An update of one worker's row, seen from every identifier.
pub find-update_worker :
    (k id : String) (f : WorkerRecord → WorkerRecord) (ws : List WorkerRecord)
    → ((w : WorkerRecord) → (f w).worker_id ≡ w.worker_id)
    → select (is_worker id) (update_where (is_worker k) f ws)
      ≡ (if k == id then Option.map f (select (is_worker id) ws) else select (is_worker id) ws)
find-update_worker k id f ws keeps = elim (Bool-cases (k == id)) [
  | inl e ↦ rw e (
      select-update_where (is_worker k) (is_worker id) f ws (λ w. rw (keeps w))
        (λ w h. rw ((eq_iff k id).0 e) h))
  | inr e ↦ rw e (
      select-update_where_other (is_worker k) (is_worker id) f ws (λ w. rw (keeps w))
        (λ w h. ground (arith, eq_iff w.worker_id id, eq_iff w.worker_id k, eq_iff k id)))
]

-- An update of one attempt's row, seen from every attempt.
pub find-update_attempt :
    (k id : String) (m n : ℕ) (f : AttemptRecord → AttemptRecord) (rows : List AttemptRecord)
    → ((a : AttemptRecord) → (f a).worker_id ≡ a.worker_id)
    → ((a : AttemptRecord) → (f a).attempt ≡ a.attempt)
    → select (is_attempt id n) (update_where (is_attempt k m) f rows) ≡ (
        if (k == id) && nat_eq m n
        then Option.map f (select (is_attempt id n) rows)
        else select (is_attempt id n) rows)
find-update_attempt k id m n f rows keeps keeps' = elim (Bool-cases ((k == id) && nat_eq m n)) [
  | inl e ↦ rw e (
      select-update_where (is_attempt k m) (is_attempt id n) f rows (λ a. rw (keeps a, keeps' a))
        (λ a h. ground (arith, eq_iff k id, eq_iff a.worker_id id, eq_iff a.worker_id k)))
  | inr e ↦ rw e (
      select-update_where_other (is_attempt k m) (is_attempt id n) f rows
        (λ a. rw (keeps a, keeps' a))
        (λ a h. ground (arith, eq_iff a.worker_id id, eq_iff a.worker_id k, eq_iff k id)))
]

-- What a committed event says and where it stands.
pub record Appended (host : Host) (draw : Draw) (id : String) (attempt : ℕ) (event_type : String)
    (payload : Object) (timestamp : ℕ) (db : Db) (e : EventRecord) (db' : Db) : Type 0 where
  pub next_sequence : e.sequence ≡ last_sequence id db.events + 1
  pub same_worker : e.worker_id ≡ id
  pub same_attempt : e.attempt ≡ attempt
  pub same_type : e.event_type ≡ event_type
  pub same_time : e.timestamp ≡ timestamp
  pub is_valid : validated_payload host event_type payload ≡ ok e.payload
  pub worker_exists : is_some (find_worker id db) ≡ true
  pub fresh_id : any (λ o. o.event_id == e.event_id) db.events ≡ false
  pub tables : db' ≡ touch id timestamp (record db { events = db.events ++ e ∷ [] })

not-true : (b : Bool) → not b ≡ true → b ≡ false
not-true b h = ground arith

insert_event_inv :
    (e : EventRecord) (db db' : Db)
    → insert_event e db ≡ ok db'
    → (is_some (find_worker e.worker_id db) ≡ true)
      × (any (λ o. o.event_id == e.event_id) db.events ≡ false)
      × (db' ≡ record db { events = db.events ++ e ∷ [] })
unfolding insert_event
insert_event_inv e db db' h =
    let (exists, h1) = require-eq-ok (is_some (find_worker e.worker_id db)) _ _ h in
    let (positive, h2) = require-eq-ok (ltb 0 e.sequence && ltb 0 e.attempt) _ _ h1 in
    let (fresh, h3) = require-eq-ok (not (any (λ o. o.event_id == e.event_id) db.events)) _ _ h2 in
    let (unused, h4) =
      require-eq-ok
        (not (any (λ o. (o.worker_id == e.worker_id) && nat_eq o.sequence e.sequence) db.events)) _
        _ h3 in
    (exists, not-true (any (λ o. o.event_id == e.event_id) db.events) fresh, cc)

pub append_row_inv :
    (host : Host) (draw : Draw) (id : String) (attempt : ℕ) (event_type : String) (payload : Object)
    (timestamp : ℕ) (db : Db) (e : EventRecord) (db' : Db)
    → append_row host draw id attempt event_type payload timestamp db ≡ ok (e, db')
    → Appended host draw id attempt event_type payload timestamp db e db'
unfolding append_row
append_row_inv host draw id attempt event_type payload timestamp db e db' h =
    let (safe, valid, h1) = >>=-eq-ok (validated_payload host event_type payload) _ h in
    let event : EventRecord = record {
      sequence = last_sequence id db.events + 1;
      event_id = new_ulid draw.time_ns draw.bits;
      worker_id = id;
      attempt = attempt;
      timestamp = timestamp;
      event_type = event_type;
      payload = safe;
    } in
    let (db1, inserted, h2) = >>=-eq-ok (insert_event event db) _ h1 in
    let (exists, fresh, tables) = insert_event_inv event db db1 inserted in
    let same : event ≡ e = cc in
    let same' : touch id timestamp db1 ≡ db' = cc in
    subst₂ (Appended host draw id attempt event_type payload timestamp db) same same' (record {
      next_sequence = refl;
      same_worker = refl;
      same_attempt = refl;
      same_type = refl;
      same_time = refl;
      is_valid = valid;
      worker_exists = exists;
      fresh_id = fresh;
      tables = ap (touch id timestamp) tables;
    })
