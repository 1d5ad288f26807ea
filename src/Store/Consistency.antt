-- ===== src/Store/Consistency.antt =====
-- The two tables that hold a worker's state, seen as functions of identifiers: the current attempt
-- and state of a worker, and the state of every attempt.
use mathlib.Core.Option
use dogqoder.Prelude.{
  ℕ, ◌+◌, ◌<◌, ◌≡◌, Option, none, some, String, ◌&&◌, ◌==◌, arith, nat_eq, eq_iff, if◌then◌else◌,
}
use dogqoder.Lifecycle.{WorkerState, starting}
use dogqoder.Store.{WorkerRecord, Db, find_worker, find_attempt}

abbrev pub View : Type 0
View = Option (ℕ × WorkerState)

abbrev pub view_of : WorkerRecord → ℕ × WorkerState
view_of w = (w.attempt, w.state)

abbrev pub view : Db → String → View
view db id = Option.map view_of (find_worker id db)

abbrev pub attempt_state : Db → String → ℕ → Option WorkerState
attempt_state db id n = Option.map (λ a. a.state) (find_attempt id n db)

abbrev pub attempt_of : View → ℕ
attempt_of none = 0
attempt_of (some v) = v.0

-- A worker's current attempt is positive and has a row with the worker's state, and no attempt is
-- numbered beyond the current one.
pub record Agree (current : String → View) (past : String → ℕ → Option WorkerState) : Type 0 where
  pub fresh : (id : String) (n : ℕ) → attempt_of (current id) < n → past id n ≡ none
  pub positive : (id : String) (n : ℕ) (s : WorkerState) → current id ≡ some (n, s) → 0 < n
  pub synced :
      (id : String) (n : ℕ) (s : WorkerState) → current id ≡ some (n, s) → past id n ≡ some s

pub Agree-cong :
    (current current' : String → View) (past past' : String → ℕ → Option WorkerState)
    → ((id : String) → current' id ≡ current id)
    → ((id : String) (n : ℕ) → past' id n ≡ past id n)
    → Agree current past
    → Agree current' past'
Agree-cong current current' past past' same same' a = record {
  fresh = λ id n h. rw (same' id n) (a.fresh id n (rw (same id) at h));
  positive = λ id n s h. a.positive id n s (rw (same id) at h);
  synced = λ id n s h. rw (same' id n) (a.synced id n s (rw (same id) at h));
}

-- The current attempt `n` of `k` changes its state to `t`.
pub Agree-set :
    (current : String → View) (past : String → ℕ → Option WorkerState) (k : String) (n : ℕ)
    (s t : WorkerState)
    → current k ≡ some (n, s)
    → Agree current past
    → Agree
        (λ id. if k == id then some (n, t) else current id)
        (λ id m. if (k == id) && nat_eq n m then some t else past id m)
Agree-set current past k n s t here a = record {
  fresh = λ id m h. ground (arith, eq_iff k id, a.fresh id m);
  positive = λ id m u h. ground (arith, eq_iff k id, a.positive k n s here, a.positive id m u);
  synced = λ id m u h. ground (arith, eq_iff k id, a.synced id m u);
}

-- The worker `k`, whose current attempt is `n`, starts the attempt `n + 1`.
pub Agree-start :
    (current : String → View) (past : String → ℕ → Option WorkerState) (k : String)
    → Agree current past
    → Agree
        (λ id. if k == id then some (attempt_of (current k) + 1, starting) else current id)
        (λ id m.
          if (k == id) && nat_eq (attempt_of (current k) + 1) m then some starting else past id m)
Agree-start current past k a = record {
  fresh = λ id m h. ground (arith, eq_iff k id, a.fresh id m);
  positive = λ id m u h. ground (arith, eq_iff k id, a.positive id m u);
  synced = λ id m u h. ground (arith, eq_iff k id, a.synced id m u);
}
