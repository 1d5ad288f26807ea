-- ===== src/Foreground/Reading.antt =====
-- What `_consume_result` of src/qworker/auditor.py and src/qworker/coder.py reads, and how it ends.
use dogqoder.Prelude.{
  ◌≡◌, refl, ap, ◌⊎◌, inl, inr, Bool, true, false, ◌&&◌, List, [], ◌∷◌, any, Bool-cases,
}
use dogqoder.Domain.{AdapterEvent}
use dogqoder.Foreground.{
  Step, done, diagnosed, unavailable, raised, Signal, event, broken, expired, cancelled, fails,
  crashes, Engine, is_result, after_result, settle, consume,
}

-- Events, and what comes behind them.
abbrev pub signals : List AdapterEvent → List Signal → List Signal
signals [] rest = rest
signals (x ∷ xs) rest = event x ∷ signals xs rest

-- A connection that broke, a wait that timed out, or a cancellation.
abbrev pub is_break : Signal → Bool
is_break broken = true
is_break expired = true
is_break cancelled = true
is_break _ = false

-- Nothing more comes, or a break.
abbrev pub IsStopped : List Signal → Type 0
IsStopped [] = Unit
IsStopped (s ∷ rest) = is_break s ≡ true

module _ {C R A : Type 0} (e : Engine C R A) where
  abbrev pub fold : R → List AdapterEvent → R
  fold r [] = r
  fold r (x ∷ xs) = fold (e.apply r x) xs

  abbrev pub has_result : List AdapterEvent → Bool
  has_result xs = any (is_result e) xs

  abbrev pub Explains : R → List Signal → Step A → Type 0
  Explains r ss (done a) =
      (read : List AdapterEvent) × (rest : List Signal) × (ss ≡ signals read rest)
      × (a ≡ e.finish (fold r read) (has_result read && e.needs_settlement (fold r read)))
      × (has_result read ≡ false → rest ≡ [])
      × (e.needs_settlement (fold r read) ≡ true → IsStopped rest)
  Explains r ss (diagnosed d) =
      (read : List AdapterEvent) × (rest : List Signal) × (ss ≡ signals read (fails d ∷ rest))
  Explains r ss (unavailable text) = ⊥
  Explains r ss (raised what) =
      (read : List AdapterEvent) × (s : Signal) × (rest : List Signal) × (ss
        ≡ signals read (s ∷ rest))
      × ((s ≡ crashes what) ⊎ ((has_result read ≡ false) × (is_break s ≡ true)))

  -- The same, behind a result that leaves nested tasks.
  abbrev pub Settles : R → List Signal → Step A → Type 0
  Settles r ss (done a) =
      (read : List AdapterEvent) × (rest : List Signal) × (ss ≡ signals read rest)
      × (a ≡ e.finish (fold r read) (e.needs_settlement (fold r read)))
      × (e.needs_settlement (fold r read) ≡ true → IsStopped rest)
  Settles r ss (diagnosed d) =
      (read : List AdapterEvent) × (rest : List Signal) × (ss ≡ signals read (fails d ∷ rest))
  Settles r ss (unavailable text) = ⊥
  Settles r ss (raised what) =
      (read : List AdapterEvent) × (rest : List Signal) × (ss ≡ signals read (crashes what ∷ rest))

  Settles-event :
      (r : R) (x : AdapterEvent) (ss : List Signal) (out : Step A)
      → Settles (e.apply r x) ss out
      → Settles r (event x ∷ ss) out
  Settles-event r x ss (done a) (read, rest, same, is, h) =
      (x ∷ read, rest, ap (λ l. event x ∷ l) same, is, h)
  Settles-event r x ss (diagnosed d) (read, rest, same) =
      (x ∷ read, rest, ap (λ l. event x ∷ l) same)
  Settles-event r x ss (unavailable text) h = h
  Settles-event r x ss (raised what) (read, rest, same) =
      (x ∷ read, rest, ap (λ l. event x ∷ l) same)

  settle-Settles :
      (r : R) (ss : List Signal) → e.needs_settlement r ≡ true → Settles r ss (settle e r ss)
  unfolding settle
  settle-Settles r [] busy = ([], [], refl, refl, λ h. tt)
  settle-Settles r (event x ∷ ss) busy = elim (Bool-cases (e.needs_settlement (e.apply r x))) [
    | inl more ↦
        rw more
          (Settles-event r x ss (settle e (e.apply r x) ss) (settle-Settles (e.apply r x) ss more))
    | inr last ↦ rw last (x ∷ [], ss, refl, rw last refl, λ h. cc)
  ]
  settle-Settles r (broken ∷ ss) busy = ([], broken ∷ ss, refl, rw busy refl, λ h. refl)
  settle-Settles r (expired ∷ ss) busy = ([], expired ∷ ss, refl, rw busy refl, λ h. refl)
  settle-Settles r (cancelled ∷ ss) busy = ([], cancelled ∷ ss, refl, rw busy refl, λ h. refl)
  settle-Settles r (fails d ∷ ss) busy = ([], ss, refl)
  settle-Settles r (crashes what ∷ ss) busy = ([], ss, refl)

  Explains-result :
      (r : R) (x : AdapterEvent) (ss : List Signal) (out : Step A)
      → is_result e x ≡ true
      → Settles (e.apply r x) ss out
      → Explains r (event x ∷ ss) out
  Explains-result r x ss (done a) main (read, rest, same, is, h) =
      (x ∷ read, rest, ap (λ l. event x ∷ l) same, rw main is, λ absent. cc (rw main at absent), h)
  Explains-result r x ss (diagnosed d) main (read, rest, same) =
      (x ∷ read, rest, ap (λ l. event x ∷ l) same)
  Explains-result r x ss (unavailable text) main h = h
  Explains-result r x ss (raised what) main (read, rest, same) =
      (x ∷ read, crashes what, rest, ap (λ l. event x ∷ l) same, inl refl)

  Explains-event :
      (r : R) (x : AdapterEvent) (ss : List Signal) (out : Step A)
      → is_result e x ≡ false
      → Explains (e.apply r x) ss out
      → Explains r (event x ∷ ss) out
  Explains-event r x ss (done a) other (read, rest, same, is, none_yet, h) =
      (x ∷ read, rest, ap (λ l. event x ∷ l) same, rw other is, rw other none_yet, h)
  Explains-event r x ss (diagnosed d) other (read, rest, same) =
      (x ∷ read, rest, ap (λ l. event x ∷ l) same)
  Explains-event r x ss (unavailable text) other h = h
  Explains-event r x ss (raised what) other (read, s, rest, same, why) =
      (x ∷ read, s, rest, ap (λ l. event x ∷ l) same, rw other why)

  after_result-Settles : (r : R) (ss : List Signal) → Settles r ss (after_result e r ss)
  after_result-Settles r ss = elim (Bool-cases (e.needs_settlement r)) [
    | inl busy ↦ rw busy (settle-Settles r ss busy)
    | inr over ↦ rw over ([], ss, refl, rw over refl, λ h. cc)
  ]

  -- However a connection behaves, a session ends in one of these ways. It returns the reducer's
  -- result on events that were read in order: all there were, if no main result was among them;
  -- otherwise it is marked as unsettled exactly when tasks are still active, and then nothing
  -- more came or the connection broke. Or it raises the exception that comes next, which is a
  -- break only before a main result.
  pub consume-Explains : (r : R) (ss : List Signal) → Explains r ss (consume e r ss)
  unfolding consume
  consume-Explains r [] = ([], [], refl, refl, λ h. refl, λ h. tt)
  consume-Explains r (event x ∷ ss) = elim (Bool-cases (is_result e x)) [
    | inl main ↦ rw main (
        Explains-result r x ss (after_result e (e.apply r x) ss) main
          (after_result-Settles (e.apply r x) ss))
    | inr other ↦ rw other (
        Explains-event r x ss (consume e (e.apply r x) ss) other
          (consume-Explains (e.apply r x) ss))
  ]
  consume-Explains r (broken ∷ ss) = ([], broken, ss, refl, inr (refl, refl))
  consume-Explains r (expired ∷ ss) = ([], expired, ss, refl, inr (refl, refl))
  consume-Explains r (cancelled ∷ ss) = ([], cancelled, ss, refl, inr (refl, refl))
  consume-Explains r (fails d ∷ ss) = ([], ss, refl)
  consume-Explains r (crashes what ∷ ss) = ([], crashes what, ss, refl, inl refl)
