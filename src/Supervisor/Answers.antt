-- ===== src/Supervisor/Answers.antt =====
-- What a successful `respond` of src/qworker/supervisor.py does to its request.
use mathlib.Core.Path.{subst}
use dogqoder.Prelude.{
  ℕ, suc, ◌≡◌, refl, ap, ◌∙◌, Bool, true, false, not, ◌&&◌, Option, none, some, String, List, [],
  ◌∷◌, ◌==◌, lookup, nat_eq, nat_eq_iff, arith, eq_iff, eq_refl, Bool-cases, inl, inr,
}
use dogqoder.Json.{Object}
use dogqoder.Lifecycle.{WorkerState, requires_action}
use dogqoder.Control.{ApprovalDecision, parse_approval_response}
use dogqoder.Result.{Result, ok, err, attempt_changed}
use dogqoder.Store.{WorkerRecord, EventRecord, Db, find_worker}
use dogqoder.Store.Approvals.{record_approval_resolution}
use dogqoder.Supervisor.{
  supervisor_error, Reply, returned, raised, FutureState, waiting, decided, PendingApproval, Sup,
  Env, M, resume_with, ◌>>=◌, ◌>>◌, ensure, settle, catch_changed, pop, put, found_worker,
  require_worker,
}
use dogqoder.Supervisor.Approvals.{forget}
use dogqoder.Supervisor.Responding.{
  own_pending, decision_or_invalid, conclude, resolved_payload, set_result, resolve, respond, waits,
  other_pending, settle_future,
}

resume-returned :
    {A B : Type 0} (f : A → M B) (r : Reply A × Sup) {b : B} {t : Sup}
    → resume_with f r ≡ (returned b, t)
    → (a : A) × (u : Sup) × (r ≡ (returned a, u)) × (f a u ≡ (returned b, t))
resume-returned f (returned a, u) h = (a, u, refl, h)
resume-returned f (raised e, u) h = cc

-- A computation that returns has parts that return.
pub bind-returned :
    {A B : Type 0} (m : M A) (f : A → M B) (s : Sup) {b : B} {t : Sup}
    → (m >>= f) s ≡ (returned b, t)
    → (a : A) × (u : Sup) × (m s ≡ (returned a, u)) × (f a u ≡ (returned b, t))
bind-returned m f s h = resume-returned f (m s) h

pub ensure-returned :
    {B : Type 0} (test : Bool) (code message : String) (k : M B) (s : Sup) {b : B} {t : Sup}
    → (ensure test code message >> k) s ≡ (returned b, t)
    → (test ≡ true) × (k s ≡ (returned b, t))
ensure-returned true code message k s h = (refl, h)
ensure-returned false code message k s h = cc

pub require_worker-returned :
    {B : Type 0} (id : String) (k : WorkerRecord → M B) (s : Sup) {b : B} {t : Sup}
    → (require_worker id >>= k) s ≡ (returned b, t)
    → (w : WorkerRecord) × (find_worker id s.db ≡ some w) × (k w s ≡ (returned b, t))
unfolding require_worker
require_worker-returned {B} id k s {b} {t} h = found (find_worker id s.db) refl h
  where
    found :
        (o : Option WorkerRecord)
        → find_worker id s.db ≡ o
        → resume_with k (found_worker id o s) ≡ (returned b, t)
        → (w : WorkerRecord) × (find_worker id s.db ≡ some w) × (k w s ≡ (returned b, t))
    found none e h = cc
    found (some w) e h = (w, e, h)

own_pending-returned :
    {B : Type 0} (w : String) (o : Option PendingApproval) (k : PendingApproval → M B) (s : Sup)
    {b : B} {t : Sup}
    → (own_pending w o >>= k) s ≡ (returned b, t)
    → (p : PendingApproval) × (o ≡ some p) × (p.worker_id ≡ w) × (k p s ≡ (returned b, t))
own_pending-returned w none k s h = cc
own_pending-returned {B} w (some p) k s {b} {t} h = elim (Bool-cases (p.worker_id == w)) [
  | inl own ↦ (p, refl, (eq_iff p.worker_id w).0 own, rw own at h)
  | inr other ↦ absurd (no (rw other at h))
]
  where
    no :
        ◌≡◌ {A = Reply B × Sup}
          (
            raised (supervisor_error "approval_not_pending" "Approval request is not pending." []),
            s,
          )
          (returned b, t)
        → ⊥
    no h = cc

pub lookup-pop : {V : Type 0} (key : String) (d : List (String × V)) → lookup key (pop key d) ≡ none
lookup-pop key [] = refl
lookup-pop key ((k, v) ∷ d) = elim (Bool-cases (k == key)) [
  | inl same ↦ rw same (lookup-pop key d)
  | inr other ↦ rw (other, other) (lookup-pop key d)
]

pub lookup-put :
    {V : Type 0} (key : String) (v : V) (d : List (String × V)) → lookup key (put key v d) ≡ some v
lookup-put key v [] = rw (eq_refl key)
lookup-put key v ((k, w) ∷ d) = elim (Bool-cases (k == key)) [
  | inl same ↦ rw (same, eq_refl key)
  | inr other ↦ rw (other, other) (lookup-put key v d)
]

decision-returned :
    {B : Type 0} (message : String) (o : Option ApprovalDecision) (k : ApprovalDecision → M B)
    (s : Sup) {b : B} {t : Sup}
    → (decision_or_invalid message o >>= k) s ≡ (returned b, t)
    → (d : ApprovalDecision) × (o ≡ some d) × (k d s ≡ (returned b, t))
decision-returned message none k s h = cc
decision-returned message (some d) k s h = (d, refl, h)

-- The two maps of the requests are those before.
SameRequests : Sup → Sup → Type 0
SameRequests s u = (u.pending ≡ s.pending) × (u.futures ≡ s.futures)

settle-SameRequests :
    {A : Type 0} (s : Sup) (n : ℕ) (r : Result A × Db)
    → SameRequests s (catch_changed (settle s n r)).1
unfolding SameRequests
settle-SameRequests s n (ok a, db) = (refl, refl)
settle-SameRequests s n (err attempt_changed, db) = (refl, refl)
settle-SameRequests s n (err e, db) = (refl, refl)

set_result-pending :
    (id : String) (d : ApprovalDecision) (s : Sup) → (set_result id d s).pending ≡ s.pending
unfolding set_result
set_result-pending id d s = same (lookup id s.futures)
  where
    same : (o : Option FutureState) → (settle_future id d o s).pending ≡ s.pending
    same none = refl
    same (some waiting) = refl
    same (some (decided e)) = refl
    same (some FutureState.cancelled) = refl

set_result-waiting :
    (id : String) (d : ApprovalDecision) (s : Sup)
    → lookup id s.futures ≡ some waiting
    → lookup id (set_result id d s).futures ≡ some (decided d)
unfolding set_result
set_result-waiting id d s h = rw h (lookup-put id (decided d) s.futures)

both : (a b c : Bool) → (a && b && c) ≡ true → (a ≡ true) × (b ≡ true)
both a b c h = ground arith

waits-state : (s : WorkerState) → waits s ≡ true → s ≡ requires_action
waits-state s h = ground arith

-- The state in which a request is answered.
record Answered (id : String) (d : ApprovalDecision) (s t : Sup) : Type 0 where
  gone : lookup id t.pending ≡ none
  told : lookup id s.futures ≡ some waiting → lookup id t.futures ≡ some (decided d)

after_record-Answered :
    (id : String) (d : ApprovalDecision) (s u : Sup)
    → SameRequests s u
    → Answered id d s (set_result id d (forget id u))
unfolding SameRequests
after_record-Answered id d s u (pending, futures) = record {
  gone = ap (lookup id) (set_result-pending id d (forget id u)) ∙ lookup-pop id u.pending;
  told = λ h. set_result-waiting id d (forget id u) (ap (lookup id) futures ∙ h);
}

conclude-Answered :
    (id : String) (d : ApprovalDecision) (s : Sup) (r : Reply (Option (List EventRecord)) × Sup)
    {b : Object} {t : Sup}
    → SameRequests s r.1
    → resume_with (conclude id d) r ≡ (returned b, t)
    → Answered id d s t
unfolding conclude
conclude-Answered id d s (raised e, u) same h = cc
conclude-Answered id d s (returned none, u) same h = cc
conclude-Answered id d s (returned (some events), u) same h =
    subst (Answered id d s) (ap (λ o. o.1) h) (after_record-Answered id d s u same)

resolve-Answered :
    (env : Env) (w : String) (p : PendingApproval) (id : String) (d : ApprovalDecision) (s : Sup)
    {b : Object} {t : Sup}
    → resolve env w p id d s ≡ (returned b, t)
    → Answered id d s t
unfolding resolve
resolve-Answered env w p id d s h =
    let stored =
      record_approval_resolution env.host (env.draw s.tick) (env.draw (suc s.tick))
        (env.clock s.tick) w p.attempt (resolved_payload id d)
        (not (other_pending id w p.attempt s)) s.db in
    conclude-Answered id d s (catch_changed (settle s 2 stored)) (settle-SameRequests s 2 stored) h

-- A response that is accepted answers a request of that worker that was pending at its current attempt
-- while it waited for an action, by the decision that the response says: the request is pending no
-- more, its callback is told the decision if it still waited, and a further response to it, in the state
-- that is left, is refused.
pub respond-answers :
    (env : Env) (w id : String) (response : Object) (s : Sup) (b : Object) (t : Sup)
    → respond env w id response s ≡ (returned b, t)
    → (p : PendingApproval) × (row : WorkerRecord) × (d : ApprovalDecision) × (lookup id s.pending
        ≡ some p)
      × (p.worker_id ≡ w)
      × (find_worker w s.db ≡ some row)
      × (row.attempt ≡ p.attempt)
      × (row.state ≡ requires_action)
      × (parse_approval_response (env.matches p.schema_snapshot) p.request response ≡ some d)
      × (lookup id t.pending ≡ none)
      × (lookup id s.futures ≡ some waiting → lookup id t.futures ≡ some (decided d))
      × ((v : String) (again : Object)
          → respond env v id again t ≡ (
            raised (supervisor_error "approval_not_pending" "Approval request is not pending." []),
            t,
          ))
unfolding respond
respond-answers env w id response s b t h =
    let (p, found, own, h1) = own_pending-returned w (lookup id s.pending) _ s h in
    let (row, here, h2) = require_worker-returned w _ s h1 in
    let (test, h3) = ensure-returned _ _ _ _ s h2 in
    let (d, read, h4) = decision-returned _ _ _ s h3 in
    let answered = resolve-Answered env w p id d s h4 in
    let (same, waits') = both (nat_eq row.attempt p.attempt) (waits row.state) _ test in
    (
      p,
      row,
      d,
      found,
      own,
      here,
      (nat_eq_iff row.attempt p.attempt).0 same,
      waits-state row.state waits',
      read,
      answered.gone,
      answered.told,
      λ v again. rw answered.gone,
    )
