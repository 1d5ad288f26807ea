-- ===== src/Supervisor/Messages.antt =====
-- What a successful `steer` of src/qworker/supervisor.py has checked and done, in order.
use mathlib.Core.Path.{subst, subst₂}
use dogqoder.Prelude.{
  ℕ, ◌≡◌, ◌⊎◌, refl, sym, ap, ◌∙◌, true, false, not, ◌&&◌, Option, none, some, String, [], ◌∷◌,
  ◌++◌, ◌==◌, lookup, is_some, nat_eq_iff, arith,
}
use dogqoder.Json.{Json, Object, str}
use dogqoder.Lifecycle.{WorkerState, running, requires_action}
use dogqoder.Result.{Result, ok, err}
use dogqoder.Store.{WorkerRecord, EventRecord, Db, find_worker, commit}
use dogqoder.Store.Project.{text_at}
use dogqoder.Store.Operations.{append_event}
use dogqoder.Store.Logging.{Logged, append_rows-Logged}
use dogqoder.Supervisor.{
  Reply, returned, raised, Sup, Env, M, ◌>>=◌, ◌>>◌, return, resume_with, ensure, gets, settle,
  require_worker, append, is_active, is_attempt_live, require_live_attempt, versioned,
}
use dogqoder.Supervisor.Steering.{SteeringPriority, priority_text, protocol_failure, guarded, steer}
use dogqoder.Supervisor.Answers.{bind-returned, ensure-returned, require_worker-returned}

returned-injective : {A : Type 0} {a b : A} → returned a ≡ returned b → a ≡ b
returned-injective h = cc

settled :
    (s : Sup) (r : Result (EventRecord × Db)) {e : EventRecord} {u : Sup}
    → settle s 1 (commit s.db r) ≡ (returned e, u)
    → r ≡ ok (e, u.db)
settled s (ok (e', db)) {e} h =
    let same_db = ap (λ o. o.1.db) h in
    let same_event = returned-injective (ap (λ o. o.0) h) in
    ap (λ o. ok (o, db)) same_event ∙ ap (λ d. ok (e, d)) same_db
settled s (err x) h = cc

-- An event that the supervisor appends is in the store afterwards.
pub append-Logged :
    (env : Env) (id event_type : String) (payload : Object) (s : Sup) {e : EventRecord} {u : Sup}
    → append env id event_type payload s ≡ (returned e, u)
    → Logged id event_type payload e s.db u.db
unfolding append append_event
append-Logged env id event_type payload s {e} {u} h =
    append_rows-Logged env.host (env.draw s.tick) (env.clock s.tick) id event_type payload s.db u.db
      e (settled s _ h)

live_attempt : (n : ℕ) (o : Option ℕ) → is_attempt_live n o ≡ true → o ≡ some n
live_attempt n none h = cc
live_attempt n (some m) h = ap some ((nat_eq_iff m n).0 h)

active_state : (s : WorkerState) → is_active s ≡ true → (s ≡ running) ⊎ (s ≡ requires_action)
active_state s h = ground arith

-- `_require_live_attempt` from the worker's row on.
abbrev live_of : String → WorkerRecord → M ℕ
live_of id worker = gets (λ s. lookup id s.live_attempts) >>= λ live.
    ensure (is_attempt_live worker.attempt live && is_active worker.state) "worker_not_live"
      "Worker has no live attempt."
    >> return worker.attempt

abbrev at_worker : String → M ℕ
at_worker id = require_worker id >>= live_of id

require_live_attempt-returned :
    {B : Type 0} (id : String) (k : ℕ → M B) (s : Sup) {b : B} {t : Sup}
    → (require_live_attempt id >>= k) s ≡ (returned b, t)
    → (row : WorkerRecord) × (s.closed ≡ false)
      × (find_worker id s.db ≡ some row)
      × (lookup id s.live_attempts ≡ some row.attempt)
      × ((row.state ≡ running) ⊎ (row.state ≡ requires_action))
      × (k row.attempt s ≡ (returned b, t))
unfolding require_live_attempt
require_live_attempt-returned id k s {b} {t} h =
    let (n, u, first, rest) = bind-returned (require_live_attempt id) k s h in
    let (opened, first1) =
      ensure-returned (not s.closed) "supervisor_unavailable" "Supervisor is closed." (at_worker id)
        s first in
    let (row, found, first2) = require_worker-returned id (live_of id) s first1 in
    let (test, first3) =
      ensure-returned
        (is_attempt_live row.attempt (lookup id s.live_attempts) && is_active row.state)
        "worker_not_live" "Worker has no live attempt." (return row.attempt) s first2 in
    (
      row,
      ground arith,
      found,
      live_attempt row.attempt (lookup id s.live_attempts) (ground arith),
      active_state row.state (ground arith),
      subst₂ (λ m v. k m v ≡ (returned b, t)) (sym (returned-injective (ap (λ o. o.0) first3)))
          (sym (ap (λ o. o.1) first3)) rest,
    )

guarded-returned :
    {A B : Type 0} (message : String) (m : M A) (k : A → M B) (s : Sup) {b : B} {t : Sup}
    → (guarded message m >>= k) s ≡ (returned b, t)
    → (a : A) × (u : Sup) × (m s ≡ (returned a, u)) × (k a u ≡ (returned b, t))
guarded-returned {A} message m k s {b} {t} h = told (m s) h
  where
    told :
        (r : Reply A × Sup)
        → resume_with k (protocol_failure message r) ≡ (returned b, t)
        → (a : A) × (u : Sup) × (r ≡ (returned a, u)) × (k a u ≡ (returned b, t))
    told (returned a, u) h = (a, u, refl, h)
    told (raised e, u) h = cc

-- The store has one more event of the worker, which carries the identifier of the message.
abbrev pub Says : String → String → String → EventRecord → Sup → Sup → Type 0
Says w event_type uuid e s u =
    (u.db.events ≡ s.db.events ++ e ∷ [])
    × (e.worker_id ≡ w)
    × (e.event_type ≡ event_type)
    × (text_at "message_id" e.payload ≡ some uuid)

append-Says :
    (env : Env) (w event_type uuid : String) (rest : Object) (s : Sup) {e : EventRecord} {u : Sup}
    → append env w event_type (versioned (("message_id", str uuid) ∷ rest)) s ≡ (returned e, u)
    → Says w event_type uuid e s u
append-Says env w event_type uuid rest s h =
    let logged = append-Logged env w event_type (versioned (("message_id", str uuid) ∷ rest)) s h in
    (logged.events, logged.own, logged.typed, logged.texts "message_id")

no_agent : (agent : Option String) → not (is_some agent) ≡ true → agent ≡ none
no_agent none h = refl
no_agent (some a) h = cc

-- A message that is accepted is not empty and not for a nested agent, and it went to the live attempt of
-- an open supervisor's worker, which was running or waited for an action. First the store got the
-- event that it is queued, then the transport delivered it, and then the store got the event that it
-- is delivered, both with the identifier that the reply has.
pub steer-delivers :
    (env : Env) (uuid : String) (deliver : ℕ → M (Unit {0})) (w message : String)
    (priority : SteeringPriority) (agent : Option String) (s : Sup) (b : Object) (t : Sup)
    → steer env uuid deliver w message priority agent s ≡ (returned b, t)
    → (row : WorkerRecord) × (e e' : EventRecord) × (u v : Sup) × ((message == "") ≡ false)
      × (agent ≡ none)
      × (s.closed ≡ false)
      × (find_worker w s.db ≡ some row)
      × (lookup w s.live_attempts ≡ some row.attempt)
      × ((row.state ≡ running) ⊎ (row.state ≡ requires_action))
      × Says w "steer.queued" uuid e s u
      × (deliver row.attempt u ≡ (returned tt, v))
      × Says w "steer.delivered" uuid e' v t
      × (lookup "message_id" b ≡ some (str uuid))
unfolding steer
steer-delivers env uuid deliver w message priority agent s b t h =
    let (filled, h1) = ensure-returned (not (message == "")) _ _ _ s h in
    let (own, h2) = ensure-returned (not (is_some agent)) _ _ _ s h1 in
    let (row, opened, found, live, active, h3) = require_live_attempt-returned w _ s h2 in
    let (e, u, queued, h4) = bind-returned (append env w "steer.queued" _) _ s h3 in
    let (done, v, delivered, h5) = guarded-returned _ (deliver row.attempt) _ u h4 in
    let (e', x, noted, h6) = bind-returned (append env w "steer.delivered" _) _ v h5 in
    (
      row,
      e,
      e',
      u,
      v,
      ground arith,
      no_agent agent own,
      opened,
      found,
      live,
      active,
      append-Says env w "steer.queued" uuid (("priority", Json.str (priority_text priority)) ∷ []) s
          queued,
      delivered,
      subst (Says w "steer.delivered" uuid e' v) (ap (λ o. o.1) h6)
          (append-Says env w "steer.delivered" uuid [] v noted),
      sym (ap (lookup "message_id") (returned-injective (ap (λ o. o.0) h6))),
    )
