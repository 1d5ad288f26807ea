-- ===== src/Supervisor/Refinement.antt =====
-- What src/qworker/supervisor.py does to its store: nothing but calls of src/qworker/store.py.
use dogqoder.Prelude.{
  ℕ, ◌≡◌, refl, sym, ap, ◌∙◌, Bool, true, false, Option, none, some, String, List, [], ◌∷◌, ◌++◌,
  if◌then◌else◌,
}
use dogqoder.Json.{Object}
use dogqoder.Patterns.{Host}
use dogqoder.Workspace.{FileSystem}
use dogqoder.Result.{Result, ok, err, attempt_changed}
use dogqoder.Store.{WorkerRecord, Db, find_worker}
use dogqoder.Store.Operations.{append_event}
use dogqoder.Store.History.{Op, append_event_op, perform, run}
use dogqoder.Supervisor.{
  exception, supervisor_error, Reply, returned, raised, Sup, Env, M, resume_with, ◌>>=◌, ◌>>◌,
  return, raise, ensure, gets, modify, settle, catch_changed, unless_changed, found_worker,
  require_worker, require_live_attempt, append,
}

-- The tables of the second state are those of the first after some calls of the store.
abbrev pub Reaches : Env → Sup → Sup → Type 0
Reaches env s s' = (ops : List Op) × (s'.db ≡ run env.host env.fs ops s.db)

-- Whatever the state, the computation does nothing to the tables but call the store.
pub record Keeps {ℓ} (env : Env) {A : Type ℓ} (m : M A) : Type ℓ where
  pub reaches : (s : Sup) → Reaches env s (m s).1

run-append :
    (host : Host) (fs : FileSystem) (a b : List Op) (db : Db)
    → run host fs (a ++ b) db ≡ run host fs b (run host fs a db)
unfolding run
run-append host fs [] b db = refl
run-append host fs (op ∷ a) b db = run-append host fs a b (perform host fs op db)

pub Reaches-refl : (env : Env) (s : Sup) → Reaches env s s
unfolding run
Reaches-refl env s = ([], refl)

pub Reaches-trans : (env : Env) (s t u : Sup) → Reaches env s t → Reaches env t u → Reaches env s u
Reaches-trans env s t u (a, p) (b, q) =
    (a ++ b, q ∙ ap (run env.host env.fs b) p ∙ sym (run-append env.host env.fs a b s.db))

module _ (env : Env) where
  Reaches-resume {ℓ κ} :
      {A : Type ℓ} {B : Type κ} (f : A → M B) (s : Sup) (r : Reply A × Sup)
      → Reaches env s r.1
      → ((a : A) → Keeps env (f a))
      → Reaches env s (resume_with f r).1
  Reaches-resume f s (returned a, t) h k = Reaches-trans env s t (f a t).1 h ((k a).reaches t)
  Reaches-resume f s (raised e, t) h k = h

  pub Keeps-bind {ℓ κ} :
      {A : Type ℓ} {B : Type κ} {m : M A} {f : A → M B}
      → Keeps env m
      → ((a : A) → Keeps env (f a))
      → Keeps env (m >>= f)
  Keeps-bind {m = m} {f = f} h k = record {
    reaches = λ s. Reaches-resume f s (m s) (h.reaches s) k;
  }

  pub Keeps-then {ℓ κ} :
      {A : Type ℓ} {B : Type κ} {m : M A} {k : M B} → Keeps env m → Keeps env k → Keeps env (m >> k)
  Keeps-then h k = Keeps-bind h (λ a. k)

  pub Keeps-return {ℓ} : {A : Type ℓ} (a : A) → Keeps env (return a)
  Keeps-return a = record { reaches = Reaches-refl env }

  pub Keeps-raise {ℓ} :
      {A : Type ℓ} (code message : String) → Keeps env (raise {A = A} code message)
  Keeps-raise code message = record { reaches = Reaches-refl env }

  pub Keeps-gets {ℓ} : {A : Type ℓ} (f : Sup → A) → Keeps env (gets f)
  Keeps-gets f = record { reaches = Reaches-refl env }

  pub Keeps-ensure : (test : Bool) (code message : String) → Keeps env (ensure test code message)
  Keeps-ensure true code message = Keeps-return tt
  Keeps-ensure false code message = Keeps-raise code message

  -- A change that leaves the tables alone.
  pub Keeps-modify : (f : Sup → Sup) → ((s : Sup) → (f s).db ≡ s.db) → Keeps env (modify f)
  unfolding run
  Keeps-modify f same = record { reaches = λ s. ([], same s) }

  settle-db {ℓ} : {A : Type ℓ} (s : Sup) (n : ℕ) (r : Result A × Db) → (settle s n r).1.db ≡ r.1
  settle-db s n (ok a, db) = refl
  settle-db s n (err e, db) = refl

  -- A call of the store.
  pub Keeps-settle {ℓ} :
      {A : Type ℓ} (n : ℕ) (op : Sup → Op) (call : Sup → Result A × Db)
      → ((s : Sup) → (call s).1 ≡ perform env.host env.fs (op s) s.db)
      → Keeps env (λ s. settle s n (call s))
  unfolding run
  Keeps-settle n op call same = record {
    reaches = λ s. (op s ∷ [], settle-db s n (call s) ∙ same s);
  }

  catch-db {ℓ} : {A : Type ℓ} (r : Reply A × Sup) → (catch_changed r).1.db ≡ r.1.db
  catch-db (returned a, s) = refl
  catch-db (raised (supervisor_error c m w), s) = refl
  catch-db (raised (exception attempt_changed), s) = refl
  catch-db (raised (exception e), s) = refl

  pub Keeps-unless_changed {ℓ} : {A : Type ℓ} {m : M A} → Keeps env m → Keeps env (unless_changed m)
  Keeps-unless_changed {m = m} h = record {
    reaches = λ s. let (ops, p) = h.reaches s in (ops, catch-db (m s) ∙ p);
  }

  pub Keeps-require_worker : (id : String) → Keeps env (require_worker id)
  unfolding require_worker run
  Keeps-require_worker id = record { reaches = λ s. found s (find_worker id s.db) }
    where
      found : (s : Sup) (o : Option WorkerRecord) → Reaches env s (found_worker id o s).1
      found s none = ([], refl)
      found s (some w) = ([], refl)

  pub Keeps-append :
      (id event_type : String) (payload : Object) → Keeps env (append env id event_type payload)
  unfolding append perform
  Keeps-append id event_type payload =
      Keeps-settle 1
        (λ s. append_event_op (env.draw s.tick) (env.clock s.tick) id event_type payload)
        (λ s. append_event env.host (env.draw s.tick) (env.clock s.tick) id event_type payload s.db)
        (λ s. refl)

  pub Keeps-require_live_attempt : (id : String) → Keeps env (require_live_attempt id)
  unfolding require_live_attempt
  Keeps-require_live_attempt id =
      search (Keeps-bind, Keeps-gets, Keeps-ensure, Keeps-return, Keeps-require_worker) depth 14

  pub Keeps-if {ℓ} :
      {A : Type ℓ} (b : Bool) (m n : M A)
      → Keeps env m
      → Keeps env n
      → Keeps env (if b then m else n)
  Keeps-if true m n km kn = km
  Keeps-if false m n km kn = kn

pub ruleset keeps_rules = (
  Keeps-bind, Keeps-return, Keeps-raise, Keeps-gets, Keeps-ensure, Keeps-if, Keeps-unless_changed,
  Keeps-require_worker, Keeps-append, Keeps-require_live_attempt,
)
