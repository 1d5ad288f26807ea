-- ===== src/Supervisor/Calls.antt =====
-- Each method of src/qworker/supervisor.py keeps to the calls of the store, whatever else it waits for.
use dogqoder.Prelude.{
  ℕ, suc, ◌+◌, ◌≡◌, refl, ◌∙◌, Bool, true, false, Option, none, some, String, List, [], ◌∷◌, length,
  lookup, if◌then◌else◌,
}
use dogqoder.Json.{Object}
use dogqoder.Control.{ApprovalRequest, ApprovalDecision}
use dogqoder.Store.{EventRecord, find_worker}
use dogqoder.Store.Approvals.{
  record_approval_request, record_approval_resolution, expire_approval_requests,
}
use dogqoder.Store.History.{request_op, resolution_op, expire_op, perform, run}
use dogqoder.Supervisor.{
  Reply, returned, raised, PendingApproval, Sup, Env, ◌>>◌, modify, versioned, pop, FutureState,
  waiting, decided, is_attempt_live,
}
use dogqoder.Supervisor.Refinement.{
  Reaches, Reaches-refl, Keeps, Keeps-bind, Keeps-return, Keeps-raise, Keeps-modify, Keeps-settle,
  Keeps-unless_changed, keeps_rules,
}
use dogqoder.Supervisor.Approvals.{
  settled, store_request, accepts_requests, take_snapshot, enter_pending, enter_request,
  new_request_id, request_with, request_approval, after_record, forget, default_decision,
}
use dogqoder.Supervisor.Responding.{
  store_resolution, store_expiry, settle_future, set_result, own_pending, decision_or_invalid,
  conclude, resolved_payload, resolve, respond, deny_all, settle_pending, complete_live_attempt,
  pending_of,
}

settle_future-db :
    (id : String) (d : ApprovalDecision) (o : Option FutureState) (s : Sup)
    → (settle_future id d o s).db ≡ s.db
settle_future-db id d none s = refl
settle_future-db id d (some waiting) s = refl
settle_future-db id d (some (decided e)) s = refl
settle_future-db id d (some FutureState.cancelled) s = refl

set_result-db : (id : String) (d : ApprovalDecision) (s : Sup) → (set_result id d s).db ≡ s.db
unfolding set_result
set_result-db id d s = settle_future-db id d (lookup id s.futures) s

deny_all-db : (ps : List PendingApproval) (s : Sup) → (deny_all ps s).db ≡ s.db
unfolding deny_all
deny_all-db [] s = refl
deny_all-db (p ∷ ps) s = deny_all-db ps _ ∙ set_result-db p.request_id _ (forget p.request_id s)

module _ (env : Env) where
  Keeps-store_request :
      (id : String) (n : ℕ) (payload : Object) → Keeps env (store_request env id n payload)
  unfolding perform
  Keeps-store_request id n payload =
      Keeps-settle env 2
        (λ s. request_op (env.draw s.tick) (env.draw (suc s.tick)) (env.clock s.tick) id n payload)
        (λ s.
          record_approval_request env.host (env.draw s.tick) (env.draw (suc s.tick))
            (env.clock s.tick) id n payload s.db)
        (λ s. refl)

  Keeps-store_resolution :
      (id : String) (n : ℕ) (payload : Object) (restore : Bool)
      → Keeps env (store_resolution env id n payload restore)
  unfolding perform
  Keeps-store_resolution id n payload restore =
      Keeps-settle env 2
        (λ s.
          resolution_op (env.draw s.tick) (env.draw (suc s.tick)) (env.clock s.tick) id n payload
            restore)
        (λ s.
          record_approval_resolution env.host (env.draw s.tick) (env.draw (suc s.tick))
            (env.clock s.tick) id n payload restore s.db)
        (λ s. refl)

  Keeps-store_expiry :
      (id : String) (n : ℕ) (ids : List String) → Keeps env (store_expiry env id n ids)
  unfolding perform
  Keeps-store_expiry id n ids =
      Keeps-settle env (suc (length ids))
        (λ s. expire_op (λ i. env.draw (i + s.tick)) (env.clock s.tick) id n ids)
        (λ s.
          expire_approval_requests env.host (λ i. env.draw (i + s.tick)) (env.clock s.tick) id n ids
            s.db)
        (λ s. refl)

  after_record-db :
      {A : Type 0} (id : String) (d : ApprovalDecision) (r : Reply (Option A) × Sup)
      → (after_record id d r).1.db ≡ r.1.db
  after_record-db id d (returned (some a), s) = refl
  after_record-db id d (returned none, s) = refl
  after_record-db id d (raised e, s) = refl

  Keeps-enter_request :
      (w : String) (n : ℕ) (d : ApprovalDecision) (id : String) (request : ApprovalRequest)
      (schema display : Option Object)
      → Keeps env (enter_request env w n d id request schema display)
  unfolding enter_request run
  Keeps-enter_request w n d id request schema none = record { reaches = λ s. ([], refl) }
  Keeps-enter_request w n d id request schema (some display) = record {
    reaches = λ s.
        let (ops, p) =
          (Keeps-unless_changed env
              (Keeps-store_request w n (versioned (pop "attempt" display)))).reaches
            (enter_pending _ s) in
        (ops, after_record-db id d _ ∙ p);
  }

  Keeps-new_request_id : Keeps env (new_request_id env)
  unfolding new_request_id run
  Keeps-new_request_id = record { reaches = λ s. ([], refl) }

  Keeps-request_with :
      (w : String) (n : ℕ) (d : ApprovalDecision) (o : Option (ApprovalRequest × Option Object))
      → Keeps env (request_with env w n d o)
  unfolding request_with
  Keeps-request_with w n d none = Keeps-return env (settled d)
  Keeps-request_with w n d (some (request, schema)) =
      Keeps-bind env Keeps-new_request_id (λ id. Keeps-enter_request w n d id request schema _)

  pub Keeps-request_approval :
      (w : String) (n : ℕ) (request : ApprovalRequest)
      → Keeps env (request_approval env w n request)
  unfolding request_approval
  Keeps-request_approval w n request = record {
    reaches =
        λ s. choose s (accepts_requests n s.closed (lookup w s.live_attempts) (find_worker w s.db));
  }
    where
      choose :
          (s : Sup) (test : Bool)
          → Reaches env s
              (if test
                then request_with env w n
                    (default_decision request)
                    (take_snapshot env.snapshot request)
                    s
                else (returned (settled (default_decision request)), s)).1
      choose s true = (Keeps-request_with w n _ _).reaches s
      choose s false = Reaches-refl env s

  Keeps-own_pending : (w : String) (o : Option PendingApproval) → Keeps env (own_pending w o)
  Keeps-own_pending w none = Keeps-raise env _ _
  Keeps-own_pending w (some p) = search keeps_rules depth 14

  Keeps-decision_or_invalid :
      (message : String) (o : Option ApprovalDecision) → Keeps env (decision_or_invalid message o)
  Keeps-decision_or_invalid message none = Keeps-raise env _ _
  Keeps-decision_or_invalid message (some d) = Keeps-return env d

  Keeps-conclude :
      (id : String) (d : ApprovalDecision) (o : Option (List EventRecord))
      → Keeps env (conclude id d o)
  unfolding conclude run
  Keeps-conclude id d none = record { reaches = λ s. ([], refl) }
  Keeps-conclude id d (some events) = record {
    reaches = λ s. ([], set_result-db id d (forget id s));
  }

  Keeps-resolve :
      (w : String) (p : PendingApproval) (id : String) (d : ApprovalDecision)
      → Keeps env (resolve env w p id d)
  unfolding resolve
  Keeps-resolve w p id d = record {
    reaches = λ s.
        (Keeps-bind env
            (Keeps-unless_changed env
              (Keeps-store_resolution w p.attempt (resolved_payload id d) _))
            (Keeps-conclude id d)).reaches
          s;
  }

  pub Keeps-respond : (w id : String) (response : Object) → Keeps env (respond env w id response)
  unfolding respond
  Keeps-respond w id response =
      search (keeps_rules, Keeps-own_pending, Keeps-decision_or_invalid, Keeps-resolve) depth 20

  Keeps-settle_pending :
      (w : String) (n : ℕ) (ps : List PendingApproval) → Keeps env (settle_pending env w n ps)
  unfolding settle_pending
  Keeps-settle_pending w n [] = Keeps-return env tt
  Keeps-settle_pending w n (p ∷ ps) =
      Keeps-bind env (Keeps-unless_changed env (Keeps-store_expiry w n _))
        (λ a. Keeps-modify env (deny_all (p ∷ ps)) (deny_all-db (p ∷ ps)))

  pub Keeps-complete_live_attempt : (w : String) (n : ℕ) → Keeps env (complete_live_attempt env w n)
  unfolding complete_live_attempt
  Keeps-complete_live_attempt w n = record {
    reaches = λ s. choose s (is_attempt_live n (lookup w s.live_attempts));
  }
    where
      choose :
          (s : Sup) (test : Bool)
          → Reaches env s
              (if test
                then (settle_pending env w n (pending_of w n s.pending)
                      >> modify (λ t. record t { live_attempts = pop w t.live_attempts }))
                    s
                else (returned tt, s)).1
      choose s true =
          (Keeps-bind env (Keeps-settle_pending w n (pending_of w n s.pending))
              (λ a. Keeps-modify env _ (λ t. refl))).reaches
            s
      choose s false = Reaches-refl env s
