-- ===== src/Store/Sequence.antt =====
-- The numbering of a worker's events in store.py: 1, 2, 3 and so on, with no gap.
use dogqoder.Prelude.{
  ℕ, zero, suc, ◌+◌, ◌≡◌, refl, Bool, true, false, String, List, [], ◌∷◌, ◌++◌, ◌∙◌, Bool-cases,
  inl, inr, ◌==◌, arith, ltb, if◌then◌else◌,
}
use dogqoder.Store.{EventRecord, last_sequence}

abbrev pub count_events : String → List EventRecord → ℕ
count_events id [] = 0
count_events id (e ∷ es) =
    let rest = count_events id es in if e.worker_id == id then suc rest else rest

abbrev pub bump : Bool → ℕ → ℕ
bump true n = suc n
bump false n = n

-- The events of the worker are numbered from `n` on, in the order of insertion.
abbrev pub IsNumbered : String → ℕ → List EventRecord → Type 0
IsNumbered id n [] = Unit
IsNumbered id n (e ∷ es) =
    ((e.worker_id == id) ≡ true → e.sequence ≡ n) × IsNumbered id (bump (e.worker_id == id) n) es

-- The greatest number of events that are numbered from `n` on.
abbrev last_from : ℕ → ℕ → ℕ
last_from n zero = 0
last_from n (suc k) = n + k

step :
    (n first count last : ℕ)
    → first ≡ suc n
    → last ≡ last_from (suc (suc n)) count
    → (if ltb last first then first else last) ≡ last_from (suc n) (suc count)
step n first zero last e h = ground arith
step n first (suc count) last e h = ground arith

last_sequence-IsNumbered :
    (id : String) (n : ℕ) (es : List EventRecord)
    → IsNumbered id (suc n) es
    → last_sequence id es ≡ last_from (suc n) (count_events id es)
unfolding last_sequence
last_sequence-IsNumbered id n [] h = refl
last_sequence-IsNumbered id n (e ∷ es) h = elim (Bool-cases (e.worker_id == id)) [
  | inl own ↦
      let later : IsNumbered id (suc (suc n)) es = rw own at h.1 in
      rw own (
        step n e.sequence (count_events id es) (last_sequence id es) (h.0 own)
          (last_sequence-IsNumbered id (suc n) es later))
  | inr other ↦
      let later : IsNumbered id (suc n) es = rw other at h.1 in
      rw other (last_sequence-IsNumbered id n es later)
]

pub last_sequence-count :
    (id : String) (es : List EventRecord)
    → IsNumbered id 1 es
    → last_sequence id es ≡ count_events id es
last_sequence-count id es h = last_sequence-IsNumbered id 0 es h ∙ from_one (count_events id es)
  where
    from_one : (k : ℕ) → last_from 1 k ≡ k
    from_one zero = refl
    from_one (suc k) = omega arith

pub IsNumbered-snoc :
    (id : String) (n : ℕ) (es : List EventRecord) (e : EventRecord)
    → IsNumbered id n es
    → ((e.worker_id == id) ≡ true → e.sequence ≡ n + count_events id es)
    → IsNumbered id n (es ++ e ∷ [])
IsNumbered-snoc id n [] e h k = (λ own. omega (arith, k own), tt)
IsNumbered-snoc id n (o ∷ os) e h k = (
  h.0,
  IsNumbered-snoc id (bump (o.worker_id == id) n) os e h.1
      (λ own. k own ∙ count_bump (o.worker_id == id) n (count_events id os)),
)
  where
    count_bump : (b : Bool) (m c : ℕ) → m + (if b then suc c else c) ≡ bump b m + c
    count_bump true m c = omega arith
    count_bump false m c = refl
