-- ===== src/Rpc/Accepts.antt =====
-- What `_dispatch` of src/qworker/rpc.py has read, where it comes to a call of the supervisor.
use mathlib.Core.Path.{subst}
use dogqoder.Prelude.{
  ◌≡◌, inl, inr, refl, sym, ap, Bool, true, false, ◌||◌, Option, none, some, String, List, [], ◌∷◌,
  ◌==◌, eq_iff, lookup, Bool-cases, arith,
}
use dogqoder.Json.{Json, Fields, Object, obj, fields}
use dogqoder.Supervisor.Steering.{SteeringPriority, priority_text}
use dogqoder.Rpc.Fields.{
  object_of, Parsed, parsed, ◌>>◌, >>=-eq-parsed, parsed-injective, or_reject, require,
  validate_fields, string, optional_string, string_or_none, string_tuple, boolean,
}
use dogqoder.Rpc.Requests.{object_at}
use dogqoder.Rpc.Dispatch.{
  Service, Call, priority_of, contract_of, default_model, read_spawn, read_steer, read_cancel,
  read_stop, read_respond, read_worker,
}
use dogqoder.Rpc.Parameters.{method_of, Says, SaysTask, SaysWorker}
use dogqoder.Rpc.Readers.{
  HoldsOr, string-Holds, optional_string-HoldsOr, string_or_none-MayHold, string_tuple-HoldsTexts,
  boolean-HoldsFlag, validate_fields-HasFields,
}

require-parsed {ℓ} :
    {B : Type ℓ} (test : Bool) (message : String) (k : Parsed B) {b : B}
    → (require test message >> k) ≡ parsed b
    → (test ≡ true) × (k ≡ parsed b)
require-parsed true message k h = (refl, h)
require-parsed false message k h = cc

or_reject-parsed :
    {A : Type 0} (message : String) (q : Option A) {a : A}
    → or_reject message q ≡ parsed a
    → q ≡ some a
or_reject-parsed message none h = cc
or_reject-parsed message (some b) h = ap some (parsed-injective h)

text-priority : (s : String) (p : SteeringPriority) → priority_of s ≡ some p → s ≡ priority_text p
text-priority s p h = ground (arith, eq_iff s "now", eq_iff s "next", eq_iff s "later")

object_at-fields :
    (o : Object) (response : Object)
    → object_at "response" o ≡ some response
    → (fs : Fields) × (lookup "response" o ≡ some (obj fs)) × (fields fs ≡ response)
object_at-fields o response h = held (lookup "response" o) refl h
  where
    held :
        (q : Option Json)
        → lookup "response" o ≡ q
        → (elim q [ none ↦ none | some v ↦ object_of v ]) ≡ some response
        → (fs : Fields) × (lookup "response" o ≡ some (obj fs)) × (fields fs ≡ response)
    held none e h = cc
    held (some (obj fs)) e h = (fs, e, cc)
    held (some _) e h = cc

module _ (v : Service) where
  -- The method is that of the call, whose parameters are given.
  abbrev pub Reads : Object → String → Call → Type 0
  Reads o method c = (method ≡ method_of c) × Says v c o

  contract-Says :
      (role objective cwd model : String) (context constraints criteria : List String) (o : Object)
      → ((role == "auditor") || (role == "coder")) ≡ true
      → SaysTask v role (default_model role) objective cwd model context constraints criteria o
      → Reads o "spawn"
          (Call.spawns (contract_of role objective cwd model context constraints criteria))
  contract-Says role objective cwd model context constraints criteria o h said =
      elim (Bool-cases (role == "coder")) [
        | inl e ↦
            subst
              (λ r.
                SaysTask v r (default_model r) objective cwd model context constraints criteria o
                → Reads o "spawn"
                    (Call.spawns (contract_of r objective cwd model context constraints criteria)))
              (sym ((eq_iff role "coder").0 e)) (λ said. (refl, said)) said
        | inr e ↦
            subst
              (λ r.
                SaysTask v r (default_model r) objective cwd model context constraints criteria o
                → Reads o "spawn"
                    (Call.spawns (contract_of r objective cwd model context constraints criteria)))
              (sym ((eq_iff role "auditor").0 (ground arith))) (λ said. (refl, said)) said
      ]

  pub spawn-Reads : (o : Object) (c : Call) → read_spawn v o ≡ parsed c → Reads o "spawn" c
  unfolding read_spawn
  spawn-Reads o c h =
      let (shape, h1) = validate_fields-HasFields _ _ o _ h in
      let (role, role_read, h2) = >>=-eq-parsed (string "role" o) _ h1 in
      let (known, h3) = require-parsed _ _ _ h2 in
      let (objective, objective_read, h4) = >>=-eq-parsed (string "objective" o) _ h3 in
      let (cwd, cwd_read, h5) = >>=-eq-parsed (string "cwd" o) _ h4 in
      let (context, context_read, h6) = >>=-eq-parsed (string_tuple "context" o) _ h5 in
      let (constraints, constraints_read, h7) = >>=-eq-parsed (string_tuple "constraints" o) _ h6 in
      let (criteria, criteria_read, h8) =
        >>=-eq-parsed (string_tuple "acceptance_criteria" o) _ h7 in
      let (model, model_read, h9) =
        >>=-eq-parsed (optional_string "model" (default_model role) o) _ h8 in
      subst (Reads o "spawn") (parsed-injective h9) (
        contract-Says role objective (v.path cwd) model context constraints criteria o known (
          shape,
          string-Holds "role" o role role_read,
          string-Holds "objective" o objective objective_read,
          (cwd, string-Holds "cwd" o cwd cwd_read, refl),
          string_tuple-HoldsTexts "context" o context context_read,
          string_tuple-HoldsTexts "constraints" o constraints constraints_read,
          string_tuple-HoldsTexts "acceptance_criteria" o criteria criteria_read,
          optional_string-HoldsOr "model" (default_model role) o model model_read,
        ))

  pub list-Reads :
      (o : Object) (c : Call)
      → (validate_fields [] [] o >> parsed Call.lists) ≡ parsed c
      → Reads o "list" c
  list-Reads o c h =
      let (shape, h1) = validate_fields-HasFields [] [] o _ h in
      subst (Reads o "list") (parsed-injective h1) (refl, shape)

  pub worker-Says :
      (call : String → Call) (o : Object) (c : Call)
      → read_worker call o ≡ parsed c
      → (w : String) × SaysWorker w o × (call w ≡ c)
  unfolding read_worker
  worker-Says call o c h =
      let (shape, h1) = validate_fields-HasFields ("worker_id" ∷ []) [] o _ h in
      let (w, read, h2) = >>=-eq-parsed (string "worker_id" o) (λ w. parsed (call w)) h1 in
      (w, (shape, string-Holds "worker_id" o w read), parsed-injective h2)

  pub steer-Reads : (o : Object) (c : Call) → read_steer o ≡ parsed c → Reads o "steer" c
  unfolding read_steer
  steer-Reads o c h =
      let (shape, h1) = validate_fields-HasFields _ _ o _ h in
      let (name, name_read, h2) = >>=-eq-parsed (optional_string "priority" "next" o) _ h1 in
      let (p, p_read, h3) =
        >>=-eq-parsed (or_reject "priority must be now, next, or later." (priority_of name)) _ h2 in
      let (agent, agent_read, h4) = >>=-eq-parsed (string_or_none "agent_id" o) _ h3 in
      let (w, w_read, h5) = >>=-eq-parsed (string "worker_id" o) _ h4 in
      let (message, message_read, h6) = >>=-eq-parsed (string "message" o) _ h5 in
      subst (Reads o "steer") (parsed-injective h6) (
        refl,
        (
          shape,
          string-Holds "worker_id" o w w_read,
          string-Holds "message" o message message_read,
          subst (λ s. HoldsOr "priority" "next" s o)
              (text-priority name p (or_reject-parsed _ (priority_of name) p_read))
              (optional_string-HoldsOr "priority" "next" o name name_read),
          string_or_none-MayHold "agent_id" o agent agent_read,
        ),
      )

  pub cancel-Reads : (o : Object) (c : Call) → read_cancel o ≡ parsed c → Reads o "cancel_message" c
  unfolding read_cancel
  cancel-Reads o c h =
      let (shape, h1) = validate_fields-HasFields _ _ o _ h in
      let (w, w_read, h2) = >>=-eq-parsed (string "worker_id" o) _ h1 in
      let (message, message_read, h3) = >>=-eq-parsed (string "message_id" o) _ h2 in
      subst (Reads o "cancel_message") (parsed-injective h3) (
        refl,
        (
          shape,
          string-Holds "worker_id" o w w_read,
          string-Holds "message_id" o message message_read,
        ),
      )

  pub stop-Reads : (o : Object) (c : Call) → read_stop o ≡ parsed c → Reads o "stop" c
  unfolding read_stop
  stop-Reads o c h =
      let (shape, h1) = validate_fields-HasFields _ _ o _ h in
      let (agent, agent_read, h2) = >>=-eq-parsed (string_or_none "agent_id" o) _ h1 in
      let (w, w_read, h3) = >>=-eq-parsed (string "worker_id" o) _ h2 in
      let (force, force_read, h4) = >>=-eq-parsed (boolean "force" false o) _ h3 in
      subst (Reads o "stop") (parsed-injective h4) (
        refl,
        (
          shape,
          string-Holds "worker_id" o w w_read,
          boolean-HoldsFlag "force" o force force_read,
          string_or_none-MayHold "agent_id" o agent agent_read,
        ),
      )

  pub respond-Reads : (o : Object) (c : Call) → read_respond o ≡ parsed c → Reads o "respond" c
  unfolding read_respond
  respond-Reads o c h =
      let (shape, h1) = validate_fields-HasFields _ _ o _ h in
      let (response, response_read, h2) =
        >>=-eq-parsed (or_reject "response must be a JSON object." (object_at "response" o)) _ h1 in
      let (w, w_read, h3) = >>=-eq-parsed (string "worker_id" o) _ h2 in
      let (request, request_read, h4) = >>=-eq-parsed (string "request_id" o) _ h3 in
      subst (Reads o "respond") (parsed-injective h4) (
        refl,
        (
          shape,
          string-Holds "worker_id" o w w_read,
          string-Holds "request_id" o request request_read,
          object_at-fields o response (or_reject-parsed _ (object_at "response" o) response_read),
        ),
      )
