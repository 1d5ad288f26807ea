-- ===== src/Store/StateChange.antt =====
-- A change of a worker's state in store.py's tables, and the projection of an appended event.
use mathlib.Core.Option
use mathlib.Core.Path.{subst}
use dogqoder.Prelude.{
  ℕ, ◌≡◌, refl, ap, ◌∙◌, true, Option, none, some, String, ◌&&◌, ◌==◌, arith, nat_eq, eq_iff,
  Bool-cases, inl, inr, if◌then◌else◌,
}
use dogqoder.Lifecycle.{WorkerState}
use dogqoder.Store.{WorkerRecord, AttemptRecord, EventRecord, Db, find_worker, find_attempt}
use dogqoder.Store.Project.{set_state}
use dogqoder.Store.Effects.{find-update_worker, find-update_attempt}
use dogqoder.Store.Consistency.{view_of, view, attempt_state, Agree-cong, Agree-set}
use dogqoder.Store.Invariant.{IsSound}

-- A row that is there, with its state set.
map-view_set :
    (f : WorkerRecord → WorkerRecord) (t : WorkerState) (o : Option WorkerRecord) {n : ℕ}
    {s : WorkerState}
    → ((w : WorkerRecord) → view_of (f w) ≡ (w.attempt, t))
    → Option.map view_of o ≡ some (n, s)
    → Option.map view_of (Option.map f o) ≡ some (n, t)
map-view_set f t none sets h = cc
map-view_set f t (some w) sets h = ground (arith, sets w)

map-state_set :
    (f : AttemptRecord → AttemptRecord) (t : WorkerState) (o : Option AttemptRecord)
    {s : WorkerState}
    → ((a : AttemptRecord) → (f a).state ≡ t)
    → Option.map (λ a. a.state) o ≡ some s
    → Option.map (λ a. a.state) (Option.map f o) ≡ some t
map-state_set f t none sets h = cc
map-state_set f t (some a) sets h = ap some (sets a)

-- A change of the state of a worker's current attempt.
module _ (e : EventRecord) (state : WorkerState) (db : Db) {before : WorkerState}
    (here : view db e.worker_id ≡ some (e.attempt, before)) where
  pub view-set_state :
      (id : String)
      → view (set_state e state db) id
        ≡ (if e.worker_id == id then some (e.attempt, state) else view db id)
  unfolding set_state
  view-set_state id =
      ap (Option.map view_of) (find-update_worker e.worker_id id _ db.workers (λ w. refl))
      ∙ (elim (Bool-cases (e.worker_id == id)) [
        | inl own ↦ rw own (
            map-view_set _ state (find_worker id db) (λ w. refl)
              (subst (λ i. view db i ≡ some (e.attempt, before)) ((eq_iff e.worker_id id).0 own)
                here))
        | inr other ↦ rw other
      ])

  attempts-set_state :
      IsSound db
      → (id : String) (n : ℕ)
      → attempt_state (set_state e state db) id n
        ≡ (if (e.worker_id == id) && nat_eq e.attempt n then some state else attempt_state db id n)
  unfolding set_state
  attempts-set_state s id n =
      ap (Option.map (λ a. a.state))
        (find-update_attempt e.worker_id id e.attempt n _ db.attempts (λ a. refl) (λ a. refl))
      ∙ (elim (Bool-cases ((e.worker_id == id) && nat_eq e.attempt n)) [
        | inl own ↦ rw own (
            map-state_set _ state (find_attempt id n db) (λ a. refl)
              (s.agrees.synced id n before (current own)))
        | inr other ↦ rw other
      ])
    where
      current : ((e.worker_id == id) && nat_eq e.attempt n) ≡ true → view db id ≡ some (n, before)
      current own = ground (arith, eq_iff e.worker_id id, here)

  pub IsSound-set_state : IsSound db → IsSound (set_state e state db)
  IsSound-set_state s = record {
    numbered = λ id. unfold set_state in s.numbered id;
    agrees =
        Agree-cong _ (view (set_state e state db)) _ (attempt_state (set_state e state db))
          view-set_state (attempts-set_state s)
          (Agree-set (view db) (attempt_state db) e.worker_id e.attempt before state here s.agrees);
  }
