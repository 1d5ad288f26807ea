-- ===== src/Store/Invariant.antt =====
-- The invariant of store.py's tables, and the shared steps that keep it.
use mathlib.Core.Option
use mathlib.Core.List.{append_assoc, append-nil}
use mathlib.Core.Path.{subst}
use dogqoder.Prelude.{
  [], ◌∷◌, ◌++◌, ℕ, ◌+◌, ◌≡◌, refl, sym, ap, ◌∙◌, Option, none, some, String, List, ◌==◌, arith,
  eq_iff, Bool-cases, inl, inr,
}
use dogqoder.Json.{Object}
use dogqoder.Patterns.{Host}
use dogqoder.Tables.{select, update_where}
use dogqoder.Store.{WorkerRecord, EventRecord, Db, Draw, is_worker, last_sequence}
use dogqoder.Store.Effects.{find-update_worker, Appended}
use dogqoder.Store.Sequence.{IsNumbered, IsNumbered-snoc, last_sequence-count}
use dogqoder.Store.Consistency.{view_of, view, attempt_state, Agree, Agree-cong}

pub record IsSound (db : Db) : Type 0 where
  pub numbered : (id : String) → IsNumbered id 1 db.events
  pub agrees : Agree (view db) (attempt_state db)

-- The events are those before and some more behind them.
abbrev pub Extends : List EventRecord → List EventRecord → Type 0
Extends before after = (more : List EventRecord) × (after ≡ before ++ more)

pub Extends-refl : (es : List EventRecord) → Extends es es
Extends-refl es = ([], sym (append-nil es))

pub Extends-trans :
    (a : List EventRecord) {b c : List EventRecord} → Extends a b → Extends b c → Extends a c
Extends-trans a (more, p) (later, q) =
    (more ++ later, q ∙ ap (λ es. es ++ later) p ∙ append_assoc a more later)

-- Neither a worker's state nor its attempts differ, and no event is lost.
pub record SameStates (db db' : Db) : Type 0 where
  pub views : (id : String) → view db' id ≡ view db id
  pub attempts : (id : String) (n : ℕ) → attempt_state db' id n ≡ attempt_state db id n
  pub extends : Extends db.events db'.events

pub SameStates-trans : {a b c : Db} → SameStates a b → SameStates b c → SameStates a c
SameStates-trans p q = record {
  views = λ id. q.views id ∙ p.views id;
  attempts = λ id n. q.attempts id n ∙ p.attempts id n;
  extends = Extends-trans _ p.extends q.extends;
}

map-view :
    (f : WorkerRecord → WorkerRecord) (o : Option WorkerRecord)
    → ((w : WorkerRecord) → view_of (f w) ≡ view_of w)
    → Option.map view_of (Option.map f o) ≡ Option.map view_of o
map-view f none h = refl
map-view f (some w) h = ap some (h w)

view-update_where :
    (k id : String) (f : WorkerRecord → WorkerRecord) (ws : List WorkerRecord)
    → ((w : WorkerRecord) → (f w).worker_id ≡ w.worker_id)
    → ((w : WorkerRecord) → view_of (f w) ≡ view_of w)
    → Option.map view_of (select (is_worker id) (update_where (is_worker k) f ws))
      ≡ Option.map view_of (select (is_worker id) ws)
view-update_where k id f ws keeps same =
    ap (Option.map view_of) (find-update_worker k id f ws keeps) ∙ (elim (Bool-cases (k == id)) [
      | inl e ↦ rw e (map-view f (select (is_worker id) ws) same)
      | inr e ↦ rw e
    ])

-- An update of a worker's other columns.
pub SameStates-update :
    (k : String) (f : WorkerRecord → WorkerRecord) (db : Db)
    → ((w : WorkerRecord) → (f w).worker_id ≡ w.worker_id)
    → ((w : WorkerRecord) → view_of (f w) ≡ view_of w)
    → SameStates db (record db { workers = update_where (is_worker k) f db.workers })
SameStates-update k f db keeps same = record {
  views = λ id. view-update_where k id f db.workers keeps same;
  attempts = λ id n. refl;
  extends = Extends-refl db.events;
}

pub IsSound-same :
    {db db' : Db}
    → SameStates db db'
    → ((id : String) → IsNumbered id 1 db'.events)
    → IsSound db
    → IsSound db'
IsSound-same {db} {db'} same numbered s = record {
  numbered = numbered;
  agrees =
      Agree-cong (view db) (view db') (attempt_state db) (attempt_state db') same.views
        same.attempts s.agrees;
}

module _ {host : Host} {draw : Draw} {k : String} {attempt : ℕ} {event_type : String}
    {payload : Object} {timestamp : ℕ} {db : Db} {e : EventRecord} {db' : Db}
    (a : Appended host draw k attempt event_type payload timestamp db e db') where
  pub SameStates-append : SameStates db db'
  SameStates-append = subst (SameStates db) (sym a.tables) (record {
    views = λ id.
        view-update_where k id (λ w. record w { last_event_at = some timestamp }) db.workers
          (λ w. refl) (λ w. refl);
    attempts = λ id n. refl;
    extends = (e ∷ [], refl);
  })

  pub IsSound-append : IsSound db → IsSound db'
  IsSound-append s = IsSound-same SameStates-append numbered s
    where
      numbered : (id : String) → IsNumbered id 1 db'.events
      numbered id =
          subst (λ d. IsNumbered id 1 d.events) (sym a.tables)
            (IsNumbered-snoc id 1 db.events e (s.numbered id) (λ own.
              let same : k ≡ id = sym a.same_worker ∙ (eq_iff e.worker_id id).0 own in
              let next : e.sequence ≡ last_sequence id db.events + 1 =
                subst (λ i. e.sequence ≡ last_sequence i db.events + 1) same a.next_sequence in
              omega (arith, next, last_sequence-count id db.events (s.numbered id))))
