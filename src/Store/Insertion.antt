-- ===== src/Store/Insertion.antt =====
-- `create_worker` and `start_attempt` of src/qworker/store.py keep the tables sound.
use mathlib.Core.Option
use mathlib.Core.Path.{subst}
use dogqoder.Prelude.{
  ℕ, ◌+◌, ◌≡◌, refl, sym, ap, ◌∙◌, Bool, true, not, Option, none, some, String, List, [], ◌∷◌, ◌++◌,
  ◌&&◌, ◌==◌, ltb, any, is_some, arith, eq_iff, eq_refl, nat_eq, Bool-cases, inl, inr,
  if◌then◌else◌,
}
use dogqoder.Patterns.{Host}
use dogqoder.Json.{Object}
use dogqoder.Result.{unknown_worker, invalid_transition}
use dogqoder.Lifecycle.{starting, transition}
use dogqoder.Lifecycle.Reach.{transition_iff}
use dogqoder.Tables.{select, update_where, select-snoc}
use dogqoder.Result.{ok, >>=-eq-ok, require-eq-ok}
use dogqoder.Store.{
  WorkerRecord, AttemptRecord, EventRecord, Db, Draw, is_worker, is_attempt, find_worker, or_raise,
  append_row,
}
use dogqoder.Store.Operations.{
  NewWorker, new_row, new_attempt, restart_row, insert_worker, insert_attempt, create_rows,
  start_rows,
}
use dogqoder.Store.Effects.{find-update_worker, append_row_inv}
use dogqoder.Store.Consistency.{view_of, attempt_of, view, attempt_state, Agree-cong, Agree-start}
use dogqoder.Store.Invariant.{IsSound, SameStates-append, IsSound-append}
use dogqoder.Store.Projection.{Advance, or_raise-eq-ok}
use dogqoder.Store.Soundness.{SoundStep, view_of_found}

select-any : {A : Type 0} (p : A → Bool) (xs : List A) → not (any p xs) ≡ true → select p xs ≡ none
select-any p [] h = refl
select-any p (x ∷ xs) h = ground (arith, select-any p xs)

-- A row at the end, seen through any test and any column.
map-select-snoc :
    {A B : Type 0} (f : A → B) (q : A → Bool) (xs : List A) (y : A)
    → (q y ≡ true → select q xs ≡ none)
    → Option.map f (select q (xs ++ y ∷ []))
      ≡ (if q y then some (f y) else Option.map f (select q xs))
map-select-snoc {A = A} f q xs y fresh =
    ap (Option.map f) (select-snoc q xs y) ∙ at_end (select q xs) fresh
  where
    at_end :
        (o : Option A)
        → (q y ≡ true → o ≡ none)
        → Option.map f (elim o [ some x ↦ some x | none ↦ if q y then some y else none ])
          ≡ (if q y then some (f y) else Option.map f o)
    at_end none h = ground arith
    at_end (some x) h = ground arith

insert_worker_inv :
    (w : WorkerRecord) (db db' : Db)
    → insert_worker w db ≡ ok db'
    → (find_worker w.worker_id db ≡ none) × (db' ≡ record db { workers = db.workers ++ w ∷ [] })
unfolding insert_worker
insert_worker_inv w db db' h =
    let (fresh, k) = require-eq-ok (not (any (is_worker w.worker_id) db.workers)) _ _ h in
    (select-any (is_worker w.worker_id) db.workers fresh, cc)

insert_attempt_inv :
    (a : AttemptRecord) (db db' : Db)
    → insert_attempt a db ≡ ok db'
    → (select (is_attempt a.worker_id a.attempt) db.attempts ≡ none)
      × (db' ≡ record db { attempts = db.attempts ++ a ∷ [] })
unfolding insert_attempt
insert_attempt_inv a db db' h =
    let (exists, h1) = require-eq-ok (is_some (find_worker a.worker_id db)) _ _ h in
    let (positive, h2) = require-eq-ok (ltb 0 a.attempt) _ _ h1 in
    let (fresh, h3) =
      require-eq-ok (not (any (is_attempt a.worker_id a.attempt) db.attempts)) _ _ h2 in
    (select-any (is_attempt a.worker_id a.attempt) db.attempts fresh, cc)

attempt_state-snoc :
    (a : AttemptRecord) (attempts : List AttemptRecord) (id : String) (n : ℕ)
    → select (is_attempt a.worker_id a.attempt) attempts ≡ none
    → Option.map (λ r. r.state) (select (is_attempt id n) (attempts ++ a ∷ [])) ≡ (
        if (a.worker_id == id) && nat_eq a.attempt n
        then some a.state
        else Option.map (λ r. r.state) (select (is_attempt id n) attempts))
attempt_state-snoc a attempts id n fresh =
    map-select-snoc (λ r. r.state) (is_attempt id n) attempts a
      (λ own.
        let same : a.worker_id ≡ id = ground (arith, eq_iff a.worker_id id) in
        let same' : a.attempt ≡ n = ground arith in rw (same, same') at fresh)

view-snoc :
    (w : WorkerRecord) (workers : List WorkerRecord) (id : String)
    → select (is_worker w.worker_id) workers ≡ none
    → Option.map view_of (select (is_worker id) (workers ++ w ∷ [])) ≡ (
        if w.worker_id == id
        then some (w.attempt, w.state)
        else Option.map view_of (select (is_worker id) workers))
view-snoc w workers id fresh =
    map-select-snoc view_of (is_worker id) workers w
      (λ own. rw ((eq_iff w.worker_id id).0 own) at fresh)

view-restart :
    (k id : String) (n : ℕ) (workers : List WorkerRecord) {row : WorkerRecord}
    → select (is_worker k) workers ≡ some row
    → Option.map view_of
        (select (is_worker id) (update_where (is_worker k) (restart_row n) workers))
      ≡ (if k == id then some (n, starting) else Option.map view_of (select (is_worker id) workers))
view-restart k id n workers {row} found =
    ap (Option.map view_of) (find-update_worker k id (restart_row n) workers (λ w. refl))
    ∙ (elim (Bool-cases (k == id)) [
      | inl own ↦
          rw own (restarted (select (is_worker id) workers) (rw ((eq_iff k id).0 own) at found))
      | inr other ↦ rw other
    ])
  where
    restarted :
        (o : Option WorkerRecord)
        → o ≡ some row
        → Option.map view_of (Option.map (restart_row n) o) ≡ some (n, starting)
    restarted none h = cc
    restarted (some w) h = refl

-- A new attempt of `k` in both tables, before the event that reports it.
record Started (k : String) (n : ℕ) (db db' : Db) : Type 0 where
  views : (id : String) → view db' id ≡ (if k == id then some (n, starting) else view db id)
  attempts :
      (id : String) (m : ℕ)
      → attempt_state db' id m
        ≡ (if (k == id) && nat_eq n m then some starting else attempt_state db id m)
  same_events : db'.events ≡ db.events

IsSound-start :
    (k : String) (n : ℕ) (db db' : Db)
    → n ≡ attempt_of (view db k) + 1
    → Started k n db db'
    → IsSound db
    → IsSound db'
IsSound-start k n db db' next s sound = record {
  numbered = λ id. rw s.same_events (sound.numbered id);
  agrees =
      Agree-cong _ (view db') _ (attempt_state db') (λ id. rw (sym next) (s.views id))
        (λ id m. rw (sym next) (s.attempts id m))
        (Agree-start (view db) (attempt_state db) k sound.agrees);
}

-- The new attempt, with the event that reports it.
Started-SoundStep :
    (host : Host) (draw : Draw) (k : String) (n : ℕ) (event_type : String) (payload : Object)
    (now : ℕ) (db db1 db2 : Db) (e : EventRecord)
    → n ≡ attempt_of (view db k) + 1
    → Started k n db db1
    → append_row host draw k n event_type payload now db1 ≡ ok (e, db2)
    → (view db1 k ≡ some (n, starting) → Advance (view db k) (view db1 k))
    → IsSound db
    → SoundStep db db2
Started-SoundStep host draw k n event_type payload now db db1 db2 e next s h advance sound =
    let a = append_row_inv host draw k n event_type payload now db1 e db2 h in
    let same = SameStates-append a in
    let own : view db1 k ≡ some (n, starting) = rw (eq_refl k) at (s.views k) in
    (
      IsSound-append a (IsSound-start k n db db1 next s sound),
      λ id.
          subst (λ v. Advance (view db id) v) (sym (same.views id))
            (elim (Bool-cases (k == id)) [
              | inl here ↦
                  subst (λ i. Advance (view db i) (view db1 i)) ((eq_iff k id).0 here) (advance own)
              | inr other ↦ Advance.stay (rw other at (s.views id))
            ]),
      rw s.same_events at same.extends,
    )

module _ (host : Host) (draw : Draw) (now : ℕ) (id : String) where
  -- `start_attempt`
  pub start_rows-SoundStep :
      (db db' : Db) (a : AttemptRecord)
      → start_rows host draw now id db ≡ ok (a, db')
      → IsSound db
      → SoundStep db db'
  unfolding start_rows
  start_rows-SoundStep db db' a h sound =
      let (row, found, h1) = >>=-eq-ok (or_raise (find_worker id db) (unknown_worker id)) _ h in
      let (state, edge, h2) =
        >>=-eq-ok (or_raise (transition row.state starting) invalid_transition) _ h1 in
      let n : ℕ = row.attempt + 1 in
      let (db1, inserted, h3) = >>=-eq-ok (insert_attempt (new_attempt id n now) db) _ h2 in
      let db2 : Db = record db1 {
        workers = update_where (is_worker id) (restart_row n) db1.workers;
      } in
      let (appended, h4, h5) =
        >>=-eq-ok (append_row host draw id n "worker.state_changed" _ now db2) _ h3 in
      let last : appended.1 ≡ db' = cc in
      let (fresh, tables) = insert_attempt_inv (new_attempt id n now) db db1 inserted in
      let found' = or_raise-eq-ok (find_worker id db) _ found in
      let here = view_of_found id db row found' in
      let started : Started id n db db2 = record {
        views = λ i. rw tables (view-restart id i n db.workers found');
        attempts =
            λ i m. rw tables (attempt_state-snoc (new_attempt id n now) db.attempts i m fresh);
        same_events = rw tables refl;
      } in
      subst (SoundStep db) last (
        Started-SoundStep host draw id n "worker.state_changed" _ now db db2 appended.1 appended.0
          (rw here refl) started h4
          (λ own.
            Advance.restart row.attempt row.state here
              ((transition_iff row.state starting state).0
                (or_raise-eq-ok (transition row.state starting) _ edge)).1
              own)
          sound)

  -- `create_worker`
  pub create_rows-SoundStep :
      (cwd : String) (n : NewWorker) (db db' : Db) (w : String)
      → create_rows host draw now id cwd n db ≡ ok (w, db')
      → IsSound db
      → SoundStep db db'
  unfolding create_rows
  create_rows-SoundStep cwd n db db' w h sound =
      let (db1, inserted, h1) = >>=-eq-ok (insert_worker (new_row id cwd now n) db) _ h in
      let (db2, inserted', h2) = >>=-eq-ok (insert_attempt (new_attempt id 1 now) db1) _ h1 in
      let (appended, h3, h4) =
        >>=-eq-ok (append_row host draw id 1 "worker.created" _ now db2) _ h2 in
      let last : appended.1 ≡ db' = cc in
      let (none_yet, tables) = insert_worker_inv (new_row id cwd now n) db db1 inserted in
      let (fresh, tables') = insert_attempt_inv (new_attempt id 1 now) db1 db2 inserted' in
      let here : view db id ≡ none = ap (Option.map view_of) none_yet in
      let started : Started id 1 db db2 = record {
        views = λ i. rw (tables', tables) (view-snoc (new_row id cwd now n) db.workers i none_yet);
        attempts = λ i m.
            rw (tables', tables)
              (attempt_state-snoc (new_attempt id 1 now) db.attempts i m (rw tables at fresh));
        same_events = rw (tables', tables) refl;
      } in
      subst (SoundStep db) last (
        Started-SoundStep host draw id 1 "worker.created" _ now db db2 appended.1 appended.0
          (rw here refl) started h3 (λ own. Advance.create here own) sound)
