-- ===== src/Supervisor/Following.antt =====
-- What a watcher of src/qworker/supervisor.py yields, against the events that are in the store.
use mathlib.Core.Path.{subst}
use mathlib.Core.List.{append-nil}
use dogqoder.Prelude.{
  ℕ, zero, suc, ◌+◌, ◌≡◌, ◌⊎◌, inl, inr, refl, sym, ap, ◌∙◌, Bool, true, false, Option, none, some,
  String, List, [], ◌∷◌, ◌++◌, keep, drop, length, arith, Bool-cases, Option-cases,
}
use dogqoder.Patterns.{Host}
use dogqoder.Workspace.{FileSystem}
use dogqoder.Store.{WorkerRecord, EventRecord, Db, empty_db, find_worker}
use dogqoder.Store.Queries.{events_since}
use dogqoder.Store.Invariant.{Extends, Extends-refl, Extends-trans}
use dogqoder.Store.History.{Op, run}
use dogqoder.Store.Replay.{is_own, Consecutive, events_since-drop}
use dogqoder.Supervisor.Watch.{Reading, WatchEnd, last_cursor, is_over, follow}

-- The readings are of tables that the store's calls leave, each with the events of those before.
abbrev pub Growing : Host → FileSystem → List EventRecord → List Reading → Type 0
Growing host fs before [] = Unit
Growing host fs before (r ∷ rs) =
    ((ops : List Op) × (r.db ≡ run host fs ops empty_db))
    × Extends before r.db.events
    × Growing host fs r.db.events rs

abbrev pub Has : Reading → List Reading → Type 0
Has r [] = ⊥
Has r (o ∷ os) = (o ≡ r) ⊎ Has r os

abbrev pub last_events : List EventRecord → List Reading → List EventRecord
last_events before [] = before
last_events before (r ∷ rs) = last_events r.db.events rs

-- Why a watch ended as it did, with the events `es` at its last reading: all readings are used up, or
-- the worker of a reading is over or gone.
abbrev pub Explains :
    String → List EventRecord → List Reading → WatchEnd → List EventRecord → Type 0
Explains id before rs WatchEnd.waiting es = es ≡ last_events before rs
Explains id before rs WatchEnd.finished es =
    (r : Reading) × Has r rs
    × (r.db.events ≡ es)
    × (is_over r.closed (find_worker id r.db) ≡ some WatchEnd.finished)
Explains id before rs WatchEnd.unknown_worker es =
    (r : Reading) × Has r rs
    × (r.db.events ≡ es)
    × (is_over r.closed (find_worker id r.db) ≡ some WatchEnd.unknown_worker)

keep-append :
    (id : String) (xs ys : List EventRecord)
    → keep (is_own id) (xs ++ ys) ≡ keep (is_own id) xs ++ keep (is_own id) ys
keep-append id [] ys = refl
keep-append id (x ∷ xs) ys = elim (Bool-cases (is_own id x)) [
  | inl own ↦ rw own (ap (λ rest. x ∷ rest) (keep-append id xs ys))
  | inr other ↦ rw other (keep-append id xs ys)
]

drop-length : (l more : List EventRecord) → drop (length l) (l ++ more) ≡ more
drop-length [] more = refl
drop-length (x ∷ l) more = drop-length l more

-- Reading on from behind a batch.
drop-batch :
    (c : ℕ) (l more : List EventRecord)
    → drop c l ++ drop (c + length (drop c l)) (l ++ more) ≡ drop c (l ++ more)
drop-batch zero l more =
    let e : 0 + length l ≡ length l = omega arith in
    ap (λ n. l ++ drop n (l ++ more)) e ∙ ap (λ rest. l ++ rest) (drop-length l more)
drop-batch (suc c) [] more = let e : suc c + 0 ≡ suc c = omega arith in ap (λ n. drop n more) e
drop-batch (suc c) (x ∷ l) more =
    let e : suc c + length (drop c l) ≡ suc (c + length (drop c l)) = omega arith in
    ap (λ n. drop c l ++ drop n (x ∷ (l ++ more))) e ∙ drop-batch c l more

drop-nil : (n : ℕ) → drop n (let e : List EventRecord = [] in e) ≡ []
drop-nil zero = refl
drop-nil (suc n) = refl

drop-past : (c : ℕ) (l : List EventRecord) → drop (c + length (drop c l)) l ≡ []
drop-past zero l =
    let e : 0 + length l ≡ length l = omega arith in
    ap (λ n. drop n l) e ∙ ap (drop (length l)) (sym (append-nil l)) ∙ drop-length l []
drop-past (suc c) [] = drop-nil (suc c + 0)
drop-past (suc c) (x ∷ l) =
    let e : suc c + length (drop c l) ≡ suc (c + length (drop c l)) = omega arith in
    ap (λ n. drop n (x ∷ l)) e ∙ drop-past c l

last_cursor-Consecutive :
    (c : ℕ) (es : List EventRecord) → Consecutive (suc c) es → last_cursor c es ≡ c + length es
last_cursor-Consecutive c [] h = omega arith
last_cursor-Consecutive c (e ∷ es) h = rw h.0 (last_cursor-Consecutive (suc c) es h.1 ∙ omega arith)

Consecutive-append :
    (c : ℕ) (xs ys : List EventRecord)
    → Consecutive (suc c) xs
    → Consecutive (suc (c + length xs)) ys
    → Consecutive (suc c) (xs ++ ys)
Consecutive-append c [] ys h k =
    let e : c + 0 ≡ c = omega arith in subst (λ n. Consecutive (suc n) ys) e k
Consecutive-append c (x ∷ xs) ys h k =
    let e : c + suc (length xs) ≡ suc c + length xs = omega arith in
    (h.0, Consecutive-append (suc c) xs ys h.1 (subst (λ n. Consecutive (suc n) ys) e k))

widen :
    (id : String) (before : List EventRecord) (r : Reading) (rs : List Reading) (end : WatchEnd)
    (es : List EventRecord)
    → Explains id r.db.events rs end es
    → Explains id before (r ∷ rs) end es
widen id before r rs WatchEnd.waiting es h = h
widen id before r rs WatchEnd.finished es (q, has, same, over) = (q, inr has, same, over)
widen id before r rs WatchEnd.unknown_worker es (q, has, same, over) = (q, inr has, same, over)

is_over-ne-waiting :
    (closed : Bool) (worker : Option WorkerRecord)
    → is_over closed worker ≡ some WatchEnd.waiting
    → ⊥
is_over-ne-waiting true worker h = cc
is_over-ne-waiting false none h = cc
is_over-ne-waiting false (some w) h = ground arith

explain :
    (id : String) (before : List EventRecord) (r : Reading) (rs : List Reading) (end : WatchEnd)
    → is_over r.closed (find_worker id r.db) ≡ some end
    → Explains id before (r ∷ rs) end r.db.events
explain id before r rs WatchEnd.waiting h = absurd (is_over-ne-waiting _ _ h)
explain id before r rs WatchEnd.finished h = (r, inl refl, refl, h)
explain id before r rs WatchEnd.unknown_worker h = (r, inl refl, refl, h)

module _ (host : Host) (fs : FileSystem) (id : String) where
  batch :
      (c : ℕ) (db : Db)
      → (ops : List Op) × (db ≡ run host fs ops empty_db)
      → (events_since id c db ≡ drop c (keep (is_own id) db.events))
        × Consecutive (suc c) (events_since id c db)
  batch c db (ops, p) =
      subst
        (λ d.
          (events_since id c d ≡ drop c (keep (is_own id) d.events))
          × Consecutive (suc c) (events_since id c d))
        (sym p) (events_since-drop host fs ops id c)

  -- What a watch from a cursor comes to.
  Exact : ℕ → List EventRecord → List Reading → List EventRecord × WatchEnd → Type 0
  Exact c before rs out =
      Consecutive (suc c) out.0
      × (es : List EventRecord) × (out.0 ≡ drop c (keep (is_own id) es))
      × Explains id before rs out.1 es

  -- Nothing new, and the watch goes on or is over.
  quiet-Exact :
      (c : ℕ) (before : List EventRecord) (r : Reading) (rs : List Reading)
      → [] ≡ drop c (keep (is_own id) r.db.events)
      → Exact c r.db.events rs (follow id c rs)
      → Exact c before (r ∷ rs) (elim (is_over r.closed (find_worker id r.db)) [
        | some end ↦ ([], end)
        | none ↦ follow id c rs
      ])
  unfolding Exact
  quiet-Exact c before r rs nothing (steps, es, same, why) =
      elim (Option-cases (is_over r.closed (find_worker id r.db))) [
        | inl still ↦ rw still (steps, es, same, widen id before r rs _ es why)
        | inr (end, over) ↦ rw over (tt, r.db.events, nothing, explain id before r rs end over)
      ]

  -- A batch, and what comes after it.
  batch-Exact :
      (c : ℕ) (before : List EventRecord) (r : Reading) (rs : List Reading) (b : List EventRecord)
      (out : List EventRecord × WatchEnd)
      → b ≡ drop c (keep (is_own id) r.db.events)
      → Consecutive (suc c) b
      → Exact (c + length b) r.db.events rs out
      → ((es : List EventRecord) → Explains id r.db.events rs out.1 es → Extends r.db.events es)
      → Exact c before (r ∷ rs) (b ++ out.0, out.1)
  unfolding Exact
  batch-Exact c before r rs b out same steps (steps', es, same', why) grown =
      let (more, longer) = grown es why in
      let own : keep (is_own id) es ≡ keep (is_own id) r.db.events ++ keep (is_own id) more =
        ap (keep (is_own id)) longer ∙ keep-append id r.db.events more in
      (
        Consecutive-append c b out.0 steps steps',
        es,
        rw (same', own, same) (drop-batch c (keep (is_own id) r.db.events) (keep (is_own id) more)),
        widen id before r rs out.1 es why,
      )

  last-Extends :
      (before : List EventRecord) (rs : List Reading)
      → Growing host fs before rs
      → Extends before (last_events before rs)
  last-Extends before [] g = Extends-refl before
  last-Extends before (r ∷ rs) g = Extends-trans before g.1 (last-Extends r.db.events rs g.2)

  Has-Extends :
      (before : List EventRecord) (rs : List Reading) (q : Reading)
      → Growing host fs before rs
      → Has q rs
      → Extends before q.db.events
  Has-Extends before [] q g h = absurd h
  Has-Extends before (r ∷ rs) q g (inl e) = subst (λ x. Extends before x.db.events) e g.1
  Has-Extends before (r ∷ rs) q g (inr h) =
      Extends-trans before g.1 (Has-Extends r.db.events rs q g.2 h)

  Explains-Extends :
      (before : List EventRecord) (rs : List Reading) (end : WatchEnd) (es : List EventRecord)
      → Growing host fs before rs
      → Explains id before rs end es
      → Extends before es
  Explains-Extends before rs WatchEnd.waiting es g e =
      subst (Extends before) (sym e) (last-Extends before rs g)
  Explains-Extends before rs WatchEnd.finished es g (q, has, e, over) =
      subst (Extends before) e (Has-Extends before rs q g has)
  Explains-Extends before rs WatchEnd.unknown_worker es g (q, has, e, over) =
      subst (Extends before) e (Has-Extends before rs q g has)

  follow-Exact :
      (c : ℕ) (before : List EventRecord) (rs : List Reading)
      → [] ≡ drop c (keep (is_own id) before)
      → Growing host fs before rs
      → Exact c before rs (follow id c rs)
  unfolding follow Exact
  follow-Exact c before [] nothing g = (tt, before, nothing, refl)
  follow-Exact c before (r ∷ rs) nothing g =
      let (same, steps) = batch c r.db g.0 in
      read (events_since id c r.db) refl same steps
        (λ none_new. follow-Exact c r.db.events rs none_new g.2)
        (λ cursor none_new. follow-Exact cursor r.db.events rs none_new g.2)
    where
      read :
          (b : List EventRecord)
          → events_since id c r.db ≡ b
          → events_since id c r.db ≡ drop c (keep (is_own id) r.db.events)
          → Consecutive (suc c) (events_since id c r.db)
          → ([] ≡ drop c (keep (is_own id) r.db.events) → Exact c r.db.events rs (follow id c rs))
          → ((cursor : ℕ)
              → [] ≡ drop cursor (keep (is_own id) r.db.events)
              → Exact cursor r.db.events rs (follow id cursor rs))
          → Exact c before (r ∷ rs) (follow id c (r ∷ rs))
      read [] e same steps quiet later =
          rw (e, follow) (quiet-Exact c before r rs (sym e ∙ same) (quiet (sym e ∙ same)))
      read (x ∷ b) e same steps quiet later =
          let batch' : x ∷ b ≡ drop c (keep (is_own id) r.db.events) = sym e ∙ same in
          let steps' : Consecutive (suc c) (x ∷ b) = subst (Consecutive (suc c)) e steps in
          let cursor : last_cursor x.sequence b ≡ c + length (x ∷ b) =
            last_cursor-Consecutive c (x ∷ b) steps' in
          let past : [] ≡ drop (c + length (x ∷ b)) (keep (is_own id) r.db.events) =
            subst (λ d. [] ≡ drop (c + length d) (keep (is_own id) r.db.events)) (sym batch')
              (sym (drop-past c (keep (is_own id) r.db.events))) in
          let rest : Exact (c + length (x ∷ b)) r.db.events rs
              (follow id (last_cursor x.sequence b) rs) =
            subst (λ k. Exact (c + length (x ∷ b)) r.db.events rs (follow id k rs)) (sym cursor)
              (later (c + length (x ∷ b)) past) in
          rw (e, follow)
            (batch-Exact c before r rs (x ∷ b) (follow id (last_cursor x.sequence b) rs) batch'
              steps' rest (λ es why. Explains-Extends r.db.events rs _ es g.2 why))

  -- Whenever a watcher that follows is woken, and however long it waits: what it has yielded is exactly
  -- the worker's events behind its cursor, in order, without a gap or a repetition, up to the events
  -- of the last reading; and it ends only at a reading that finds the supervisor closed, the worker at
  -- a terminal state, or the worker gone.
  pub follow-exact :
      (since : ℕ) (rs : List Reading)
      → Growing host fs [] rs
      → Consecutive (suc since) (follow id since rs).0
        × (es : List EventRecord) × ((follow id since rs).0 ≡ drop since (keep (is_own id) es))
        × Explains id [] rs (follow id since rs).1 es
  unfolding Exact
  follow-exact since rs g = follow-Exact since [] rs (sym (drop-nil since)) g
