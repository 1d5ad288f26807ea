-- ===== src/Rpc/Calls.antt =====
-- Which requests `_dispatch` of src/qworker/rpc.py takes for which call of the supervisor.
use mathlib.Core.Path.{subst}
use dogqoder.Prelude.{
  ◌≡◌, ◌↔◌, inl, inr, refl, sym, ap, ◌∙◌, ◌||◌, some, String, List, [], ◌==◌, eq_iff, lookup,
  if◌then◌else◌,
}
use dogqoder.Json.{Fields, Object, obj, fields}
use dogqoder.Supervisor.Steering.{SteeringPriority, now, next, later, priority_text}
use dogqoder.Supervisor.Views.{WorkerContract}
use dogqoder.Rpc.Fields.{Parsed, parsed, ◌>>=◌, or_reject, require, string}
use dogqoder.Rpc.Requests.{object_at}
use dogqoder.Rpc.Dispatch.{
  Service, Call, priority_of, contract_of, default_model, read_spawn, read_steer, read_cancel,
  read_stop, read_respond, read_worker, read_call,
}
use dogqoder.Rpc.Parameters.{method_of, Says, SaysTask, SaysWorker}
use dogqoder.Rpc.Readers.{
  Holds-string, HoldsOr-optional_string, MayHold-string_or_none, HoldsTexts-string_tuple,
  HoldsFlag-boolean, HasFields-validate_fields, if-cases,
}
use dogqoder.Rpc.Accepts.{
  Reads, spawn-Reads, list-Reads, worker-Says, steer-Reads, cancel-Reads, stop-Reads, respond-Reads,
}

then_parsed {ℓ κ} :
    {A : Type ℓ} {B : Type κ} (f : A → Parsed B) {m : Parsed A} {a : A} {b : B}
    → m ≡ parsed a
    → f a ≡ parsed b
    → (m >>= f) ≡ parsed b
then_parsed f e h = ap (λ m. m >>= f) e ∙ h

priority-text : (p : SteeringPriority) → priority_of (priority_text p) ≡ some p
priority-text now = refl
priority-text next = refl
priority-text later = refl

fields-object_at :
    (o : Object) (fs : Fields) (response : Object)
    → lookup "response" o ≡ some (obj fs)
    → fields fs ≡ response
    → object_at "response" o ≡ some response
fields-object_at o fs response there e = rw (there, object_at) (ap some e)

module _ (v : Service) where
  SaysTask-read_spawn :
      (role objective cwd model : String) (context constraints criteria : List String) (o : Object)
      → require ((role == "auditor") || (role == "coder")) "role must be auditor or coder."
        ≡ parsed tt
      → SaysTask v role (default_model role) objective cwd model context constraints criteria o
      → read_spawn v o
        ≡ parsed (Call.spawns (contract_of role objective cwd model context constraints criteria))
  unfolding read_spawn
  SaysTask-read_spawn role objective cwd model context constraints criteria o known
        (
          shape,
          role_held,
          objective_held,
          (text, cwd_held, path),
          context_held,
          constraints_held,
          criteria_held,
          model_held,
        ) =
      then_parsed _ (HasFields-validate_fields _ _ o shape) (
        then_parsed _ (Holds-string "role" o role role_held) (
          then_parsed _ known (
            then_parsed _ (Holds-string "objective" o objective objective_held) (
              then_parsed _ (Holds-string "cwd" o text cwd_held) (
                then_parsed _ (HoldsTexts-string_tuple "context" o context context_held) (
                  then_parsed _
                    (HoldsTexts-string_tuple "constraints" o constraints constraints_held)
                    (then_parsed _
                      (HoldsTexts-string_tuple "acceptance_criteria" o criteria criteria_held)
                      (then_parsed _
                        (HoldsOr-optional_string "model" (default_model role) o model model_held)
                        (ap
                          (λ p. parsed (
                            Call.spawns
                              (contract_of role objective p model context constraints criteria)))
                          path)))))))))

  SaysWorker-read_worker :
      (call : String → Call) (w : String) (o : Object)
      → SaysWorker w o
      → read_worker call o ≡ parsed (call w)
  unfolding read_worker
  SaysWorker-read_worker call w o (shape, held) =
      then_parsed (λ _. string "worker_id" o >>= λ w. parsed (call w))
        (HasFields-validate_fields _ _ o shape)
        (then_parsed (λ w. parsed (call w)) (Holds-string "worker_id" o w held) refl)

  Says-read_call : (c : Call) (o : Object) → Says v c o → read_call v (method_of c) o ≡ parsed c
  unfolding read_call read_steer read_cancel read_stop read_respond
  Says-read_call (Call.spawns (WorkerContract.audit c)) o said =
      SaysTask-read_spawn "auditor" c.objective c.cwd c.requested_model c.context c.constraints
        c.acceptance_criteria o refl said
  Says-read_call (Call.spawns (WorkerContract.coder c)) o said =
      SaysTask-read_spawn "coder" c.objective c.cwd c.requested_model c.context c.constraints
        c.acceptance_criteria o refl said
  Says-read_call Call.lists o shape =
      then_parsed (λ _. parsed Call.lists) (HasFields-validate_fields [] [] o shape) refl
  Says-read_call (Call.reads_status w) o said = SaysWorker-read_worker Call.reads_status w o said
  Says-read_call (Call.reads_result w) o said = SaysWorker-read_worker Call.reads_result w o said
  Says-read_call (Call.resumes w) o said = SaysWorker-read_worker Call.resumes w o said
  Says-read_call (Call.steers w message p agent) o
        (shape, w_held, message_held, p_held, agent_held) =
      then_parsed _ (HasFields-validate_fields _ _ o shape) (
        then_parsed _ (HoldsOr-optional_string "priority" "next" o (priority_text p) p_held) (
          then_parsed _ (ap (or_reject "priority must be now, next, or later.") (priority-text p)) (
            then_parsed _ (MayHold-string_or_none "agent_id" o agent agent_held) (
              then_parsed _ (Holds-string "worker_id" o w w_held)
                (then_parsed _ (Holds-string "message" o message message_held) refl)))))
  Says-read_call (Call.cancels w message) o (shape, w_held, message_held) =
      then_parsed _ (HasFields-validate_fields _ _ o shape) (
        then_parsed _ (Holds-string "worker_id" o w w_held)
          (then_parsed _ (Holds-string "message_id" o message message_held) refl))
  Says-read_call (Call.stops w force agent) o (shape, w_held, force_held, agent_held) =
      then_parsed _ (HasFields-validate_fields _ _ o shape) (
        then_parsed _ (MayHold-string_or_none "agent_id" o agent agent_held) (
          then_parsed _ (Holds-string "worker_id" o w w_held)
            (then_parsed _ (HoldsFlag-boolean "force" o force force_held) refl)))
  Says-read_call (Call.responds w request response) o
        (shape, w_held, request_held, (fs, there, e)) =
      then_parsed _ (HasFields-validate_fields _ _ o shape) (
        then_parsed _
          (ap (or_reject "response must be a JSON object.")
            (fields-object_at o fs response there e))
          (then_parsed _ (Holds-string "worker_id" o w w_held)
            (then_parsed _ (Holds-string "request_id" o request request_held) refl)))

  -- One test of the method's name.
  named :
      (method name : String) (m n : Parsed Call) (o : Object) (c : Call)
      → (if method == name then m else n) ≡ parsed c
      → (m ≡ parsed c → Reads v o name c)
      → (n ≡ parsed c → Reads v o method c)
      → Reads v o method c
  named method name m n o c h here elsewhere = elim (if-cases (method == name) m n c h) [
    | inl (same, read) ↦ subst (λ t. Reads v o t c) (sym ((eq_iff method name).0 same)) (here read)
    | inr (other, rest) ↦ elsewhere rest
  ]

  worker-Reads :
      (name : String) (call : String → Call) (o : Object) (c : Call)
      → ((w : String) → SaysWorker w o → Reads v o name (call w))
      → read_worker call o ≡ parsed c
      → Reads v o name c
  worker-Reads name call o c says h =
      let (w, said, same) = worker-Says v call o c h in subst (Reads v o name) same (says w said)

  read_call-Reads :
      (method : String) (o : Object) (c : Call)
      → read_call v method o ≡ parsed c
      → Reads v o method c
  unfolding read_call
  read_call-Reads method o c h = named method "spawn" _ _ o c h (spawn-Reads v o c) (λ h.
      named method "list" _ _ o c h (list-Reads v o c) (λ h.
        named method "status" _ _ o c h
          (worker-Reads "status" Call.reads_status o c (λ w said. (refl, said)))
          (λ h.
            named method "result" _ _ o c h
              (worker-Reads "result" Call.reads_result o c (λ w said. (refl, said)))
              (λ h.
                named method "resume" _ _ o c h
                  (worker-Reads "resume" Call.resumes o c (λ w said. (refl, said)))
                  (λ h. named method "steer" _ _ o c h (steer-Reads v o c) (λ h.
                    named method "cancel_message" _ _ o c h (cancel-Reads v o c) (λ h.
                      named method "stop" _ _ o c h (stop-Reads v o c) (λ h.
                        named method "respond" _ _ o c h (respond-Reads v o c) (λ h. cc)))))))))

  -- A request is taken for a call of the supervisor exactly when its method is that call's and its
  -- parameters say the call: every required one is there, none is unknown, each has its type and is
  -- not empty where it is a text, and what is left out has its default.
  pub read_call_iff :
      (method : String) (o : Object) (c : Call)
      → (read_call v method o ≡ parsed c) ↔ ((method ≡ method_of c) × Says v c o)
  read_call_iff method o c = (
    read_call-Reads method o c,
    λ (same, said). subst (λ t. read_call v t o ≡ parsed c) (sym same) (Says-read_call c o said),
  )
