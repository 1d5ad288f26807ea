-- ===== src/Store/Replay.antt =====
-- Reading the events of a worker from a cursor on, by `events_since` of src/qworker/store.py.
use mathlib.Core.Path.{subst}
use dogqoder.Prelude.{
  ℕ, ◌≤◌, ◌<◌, zero, suc, ◌+◌, ◌-◌, ◌≡◌, refl, sym, ap, ◌∙◌, Bool, true, false, String, List, [],
  ◌∷◌, ◌&&◌, ◌==◌, keep, drop, ltb, arith, Bool-cases, inl, inr,
}
use dogqoder.Patterns.{Host}
use dogqoder.Workspace.{FileSystem}
use dogqoder.Store.{EventRecord, empty_db}
use dogqoder.Store.Queries.{insert_by_sequence, sort_by_sequence, events_since}
use dogqoder.Store.Sequence.{IsNumbered}
use dogqoder.Store.History.{Op, run, run-invariant}

abbrev pub is_own : String → EventRecord → Bool
is_own id e = e.worker_id == id

-- The sequence numbers are `n`, `n + 1` and so on.
abbrev pub Consecutive : ℕ → List EventRecord → Type 0
Consecutive n [] = Unit
Consecutive n (e ∷ es) = (e.sequence ≡ n) × Consecutive (suc n) es

insert_first :
    (n : ℕ) (e : EventRecord) (es : List EventRecord)
    → e.sequence ≡ n
    → Consecutive (suc n) es
    → insert_by_sequence e es ≡ e ∷ es
unfolding insert_by_sequence
insert_first n e [] h c = refl
insert_first n e (o ∷ os) h c = ground (arith, h, c.0)

sort-Consecutive : (n : ℕ) (es : List EventRecord) → Consecutive n es → sort_by_sequence es ≡ es
unfolding sort_by_sequence
sort-Consecutive n [] c = refl
sort-Consecutive n (e ∷ es) c =
    ap (insert_by_sequence e) (sort-Consecutive (suc n) es c.1) ∙ insert_first n e es c.0 c.1

Consecutive-own :
    (id : String) (n : ℕ) (es : List EventRecord)
    → IsNumbered id n es
    → Consecutive n (keep (is_own id) es)
Consecutive-own id n [] h = tt
Consecutive-own id n (e ∷ es) h = elim (Bool-cases (e.worker_id == id)) [
  | inl own ↦ rw own (h.0 own, Consecutive-own id (suc n) es (rw own at h.1))
  | inr other ↦ rw other (Consecutive-own id n es (rw other at h.1))
]

Consecutive-drop :
    (n m k : ℕ) (es : List EventRecord) → m ≡ n + k → Consecutive n es → Consecutive m (drop k es)
Consecutive-drop n m zero es h c = subst (λ i. Consecutive i es) (omega (arith, h)) c
Consecutive-drop n m (suc k) [] h c = tt
Consecutive-drop n m (suc k) (e ∷ es) h c = Consecutive-drop (suc n) m k es (omega (arith, h)) c.1

keep-drop :
    (id : String) (n c k : ℕ) (es : List EventRecord)
    → IsNumbered id (suc n) es
    → k ≡ c - n
    → keep (λ e. (e.worker_id == id) && ltb c e.sequence) es ≡ drop k (keep (is_own id) es)
keep-drop id n c zero [] h d = refl
keep-drop id n c (suc k) [] h d = refl
keep-drop id n c zero (e ∷ es) h d = elim (Bool-cases (e.worker_id == id)) [
  | inl own ↦
      rw (own, first_after (h.0 own) (omega (arith, d)))
        (ap (λ rest. e ∷ rest) (keep-drop id (suc n) c zero es (rw own at h.1) (omega (arith, d))))
  | inr other ↦ rw other (keep-drop id n c zero es (rw other at h.1) d)
]
  where
    first_after : e.sequence ≡ suc n → c ≤ n → ltb c e.sequence ≡ true
    first_after this le = ground arith
keep-drop id n c (suc k) (e ∷ es) h d = elim (Bool-cases (e.worker_id == id)) [
  | inl own ↦
      rw (own, not_after (h.0 own) (omega (arith, d)))
        (keep-drop id (suc n) c k es (rw own at h.1) (omega (arith, d)))
  | inr other ↦ rw other (keep-drop id n c (suc k) es (rw other at h.1) d)
]
  where
    not_after : e.sequence ≡ suc n → n < c → ltb c e.sequence ≡ false
    not_after this lt = ground arith

-- From an empty store, whatever is called: `events_since` gives exactly the worker's events after
-- the first `since` ones, in order, and they are numbered from `since + 1` on.
pub events_since-drop :
    (host : Host) (fs : FileSystem) (ops : List Op) (id : String) (since : ℕ)
    → let db = run host fs ops empty_db in
      (events_since id since db ≡ drop since (keep (is_own id) db.events))
      × Consecutive (suc since) (events_since id since db)
unfolding events_since
events_since-drop host fs ops id since =
    let db = run host fs ops empty_db in
    let numbered = (run-invariant host fs ops id).0 in
    let kept = keep-drop id 0 since since db.events numbered (omega arith) in
    let later : Consecutive (suc since) (drop since (keep (is_own id) db.events)) =
      Consecutive-drop 1 (suc since) since _ (omega arith)
        (Consecutive-own id 1 db.events numbered) in
    let same : events_since id since db ≡ drop since (keep (is_own id) db.events) =
      ap sort_by_sequence kept ∙ sort-Consecutive (suc since) _ later in
    (same, subst (Consecutive (suc since)) (sym same) later)
