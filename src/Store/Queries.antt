-- ===== src/Store/Queries.antt =====
-- `get_worker`, `list_workers`, `latest_event_cursor` and `events_since` of src/qworker/store.py.
use dogqoder.Prelude.{
  ℕ, Bool, true, false, Option, String, List, [], ◌∷◌, ◌&&◌, ◌||◌, ◌==◌, keep, ltb, nat_eq, map,
  if◌then◌else◌,
}
use Prim.Native.Nat.{Ordering}
use Prim.Native.String.{compare}
use dogqoder.Store.{WorkerRecord, EventRecord, Db, find_worker, last_sequence}

unfoldable pub get_worker : String → Db → Option WorkerRecord
get_worker worker_id db = find_worker worker_id db

unfoldable pub latest_event_cursor : String → Db → ℕ
latest_event_cursor worker_id db = last_sequence worker_id db.events

-- `ORDER BY sequence ASC`, by insertion; rows of equal sequence keep their order.
unfoldable pub insert_by_sequence : EventRecord → List EventRecord → List EventRecord
insert_by_sequence e [] = e ∷ []
insert_by_sequence e (o ∷ os) =
    let later = o ∷ insert_by_sequence e os in
    if ltb o.sequence e.sequence then later else e ∷ o ∷ os

unfoldable pub sort_by_sequence : List EventRecord → List EventRecord
unfolding insert_by_sequence
sort_by_sequence [] = []
sort_by_sequence (e ∷ es) = insert_by_sequence e (sort_by_sequence es)

-- `events_since`, for a cursor that is not negative.
unfoldable pub events_since : String → ℕ → Db → List EventRecord
unfolding sort_by_sequence
events_since worker_id since db =
    sort_by_sequence (keep (λ e. (e.worker_id == worker_id) && ltb since e.sequence) db.events)

-- `ListedWorker`
pub record ListedWorker : Type 0 where
  pub worker : WorkerRecord
  pub event_cursor : ℕ

-- `ORDER BY created_at DESC, worker_id DESC`: `a` comes no later than `b`.
abbrev pub is_newer : WorkerRecord → WorkerRecord → Bool
is_newer a b =
    ltb b.created_at a.created_at
    || (nat_eq b.created_at a.created_at
        && (elim (compare b.worker_id a.worker_id) [ Ordering.gt ↦ false | _ ↦ true ]))

unfoldable pub insert_by_age : WorkerRecord → List WorkerRecord → List WorkerRecord
insert_by_age w [] = w ∷ []
insert_by_age w (v ∷ vs) =
    let later = v ∷ insert_by_age w vs in if is_newer w v then w ∷ v ∷ vs else later

unfoldable pub sort_by_age : List WorkerRecord → List WorkerRecord
unfolding insert_by_age
sort_by_age [] = []
sort_by_age (w ∷ ws) = insert_by_age w (sort_by_age ws)

unfoldable pub list_workers : Db → List ListedWorker
unfolding sort_by_age
list_workers db =
    map (λ w. record { worker = w; event_cursor = last_sequence w.worker_id db.events })
      (sort_by_age db.workers)
