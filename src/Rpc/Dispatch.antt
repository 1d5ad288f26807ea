-- ===== src/Rpc/Dispatch.antt =====
-- `_dispatch` of src/qworker/rpc.py: a method's name and parameters become one call of the supervisor.
use dogqoder.Prelude.{
  ℕ, Bool, false, ◌||◌, Option, none, some, String, List, [], ◌∷◌, ◌==◌, if◌then◌else◌,
}
use Prim.Native.String.{◌++◌}
use dogqoder.Json.{Json, Object, obj, from_fields}
use dogqoder.Preflight.{DoctorResult}
use dogqoder.Result.{Error}
use dogqoder.Supervisor.{Failure, supervisor_error, exception, Reply, returned, raised, Sup, Env, M}
use dogqoder.Supervisor.Responding.{respond}
use dogqoder.Supervisor.Steering.{SteeringPriority, steer, cancel_message}
use dogqoder.Supervisor.Views.{WorkerContract}
use dogqoder.Supervisor.Spawn.{Metadata, spawn}
use dogqoder.Supervisor.Resume.{resume, status, listing, result}
use dogqoder.Supervisor.Stop.{stop}
use dogqoder.Rpc.Fields.{
  Parsed, parsed, rejected, ◌>>=◌, ◌>>◌, require, or_reject, validate_fields, string,
  optional_string, string_or_none, string_tuple, boolean,
}
use dogqoder.Rpc.Requests.{object_at}

-- The supervisor's calls that a request may ask for, with their arguments.
pub data Call : Type 0 where
  spawns : WorkerContract → Call
  lists : Call
  reads_status : String → Call
  reads_result : String → Call
  resumes : String → Call
  steers : String → String → SteeringPriority → Option String → Call
  cancels : String → String → Call
  stops : String → Bool → Option String → Call
  responds : String → String → Object → Call

-- What the server and its supervisor are given: `str(Path(text))`, the message of an exception that
-- is a `TypeError` or a `ValueError`, and what the supervisor's calls wait for.
pub record Service : Type 0 where
  pub env : Env
  pub path : String → String
  pub message_of : Error → Option String
  pub defaults : Metadata
  pub preflight : Option (String → M DoctorResult)
  pub uuid : Sup → String
  pub is_canonical : String → Bool
  pub deliver : String → String → SteeringPriority → ℕ → M (Unit {0})
  pub cancel : String → String → ℕ → M Bool
  pub wait : String → ℕ → M (Unit {0})

abbrev pub priority_of : String → Option SteeringPriority
priority_of s =
    if s == "now"
    then some SteeringPriority.now
    else if s == "next"
    then some SteeringPriority.next
    else if s == "later"
    then some SteeringPriority.later
    else none

abbrev pub contract_of :
    String → String → String → String → List String → List String → List String → WorkerContract
contract_of role objective cwd model context constraints criteria =
    if role == "coder"
    then WorkerContract.coder (record {
      objective = objective;
      cwd = cwd;
      requested_model = model;
      context = context;
      constraints = constraints;
      acceptance_criteria = criteria;
    })
    else WorkerContract.audit (record {
      objective = objective;
      cwd = cwd;
      requested_model = model;
      context = context;
      constraints = constraints;
      acceptance_criteria = criteria;
    })

abbrev pub default_model : String → String
default_model role = if role == "coder" then "qwen-coder" else "qwen-auditor"

-- The parameters of `spawn`.
unfoldable pub read_spawn : Service → Object → Parsed Call
unfolding validate_fields string optional_string string_tuple
read_spawn service params = do
  validate_fields ("role" ∷ "cwd" ∷ "objective" ∷ [])
      ("model" ∷ "context" ∷ "constraints" ∷ "acceptance_criteria" ∷ []) params
  role ← string "role" params
  require ((role == "auditor") || (role == "coder")) "role must be auditor or coder."
  objective ← string "objective" params
  cwd ← string "cwd" params
  context ← string_tuple "context" params
  constraints ← string_tuple "constraints" params
  criteria ← string_tuple "acceptance_criteria" params
  model ← optional_string "model" (default_model role) params
  parsed (
      Call.spawns
        (contract_of role objective (service.path cwd) model context constraints criteria))

-- The parameters of `steer`.
unfoldable pub read_steer : Object → Parsed Call
unfolding validate_fields string optional_string string_or_none
read_steer params = do
  validate_fields ("worker_id" ∷ "message" ∷ []) ("priority" ∷ "agent_id" ∷ []) params
  name ← optional_string "priority" "next" params
  priority ← or_reject "priority must be now, next, or later." (priority_of name)
  agent_id ← string_or_none "agent_id" params
  worker_id ← string "worker_id" params
  message ← string "message" params
  parsed (Call.steers worker_id message priority agent_id)

unfoldable pub read_cancel : Object → Parsed Call
unfolding validate_fields string
read_cancel params = do
  validate_fields ("worker_id" ∷ "message_id" ∷ []) [] params
  worker_id ← string "worker_id" params
  message_id ← string "message_id" params
  parsed (Call.cancels worker_id message_id)

unfoldable pub read_stop : Object → Parsed Call
unfolding validate_fields string string_or_none boolean
read_stop params = do
  validate_fields ("worker_id" ∷ []) ("force" ∷ "agent_id" ∷ []) params
  agent_id ← string_or_none "agent_id" params
  worker_id ← string "worker_id" params
  force ← boolean "force" false params
  parsed (Call.stops worker_id force agent_id)

unfoldable pub read_respond : Object → Parsed Call
unfolding validate_fields string
read_respond params = do
  validate_fields ("worker_id" ∷ "request_id" ∷ "response" ∷ []) [] params
  response ← or_reject "response must be a JSON object." (object_at "response" params)
  worker_id ← string "worker_id" params
  request_id ← string "request_id" params
  parsed (Call.responds worker_id request_id response)

-- A method whose one parameter is the worker.
unfoldable pub read_worker : (String → Call) → Object → Parsed Call
unfolding validate_fields string
read_worker call params =
    validate_fields ("worker_id" ∷ []) [] params
    >> (string "worker_id" params >>= λ worker_id. parsed (call worker_id))

unfoldable pub read_call : Service → String → Object → Parsed Call
unfolding read_spawn read_steer read_cancel read_stop read_respond read_worker validate_fields
read_call service method params =
    if method == "spawn"
    then read_spawn service params
    else if method == "list"
    then (validate_fields [] [] params >> parsed Call.lists)
    else if method == "status"
    then read_worker Call.reads_status params
    else if method == "result"
    then read_worker Call.reads_result params
    else if method == "resume"
    then read_worker Call.resumes params
    else if method == "steer"
    then read_steer params
    else if method == "cancel_message"
    then read_cancel params
    else if method == "stop"
    then read_stop params
    else if method == "respond"
    then read_respond params
    else rejected ("Unknown RPC method: " ++ method)

-- What a request comes to: a result, or an exception of the kinds that the connection tells apart.
pub data Fault : Type 0 where
  supervisor_failure : String → String → List String → Fault
  invalid : String → Fault
  unforeseen : Fault

pub data Answer : Type 0 where
  answered : Json → Answer
  faulted : Fault → Answer

abbrev pub fault_of : (Error → Option String) → Failure → Fault
fault_of message_of (supervisor_error code message warnings) =
    Fault.supervisor_failure code message warnings
fault_of message_of (exception e) = elim (message_of e) [
  | some message ↦ Fault.invalid message
  | none ↦ Fault.unforeseen
]

abbrev pub answer_of : (Error → Option String) → Reply Json × Sup → Answer × Sup
answer_of message_of (returned v, s) = (Answer.answered v, s)
answer_of message_of (raised e, s) = (Answer.faulted (fault_of message_of e), s)

abbrev pub as_json : Reply Object × Sup → Reply Json × Sup
as_json (returned o, s) = (returned (obj (from_fields o)), s)
as_json (raised e, s) = (raised e, s)

-- The call of the supervisor.
unfoldable pub perform : Service → Call → M Json
perform v (Call.spawns contract) s = as_json (spawn v.env v.defaults v.preflight contract s)
perform v Call.lists s = (returned (obj (from_fields (listing v.env s))), s)
perform v (Call.reads_status worker_id) s = as_json (status v.env worker_id s)
perform v (Call.reads_result worker_id) s = result worker_id s
perform v (Call.resumes worker_id) s = as_json (resume v.env worker_id s)
perform v (Call.steers worker_id message priority agent_id) s = as_json (
    steer v.env (v.uuid s) (v.deliver worker_id message priority) worker_id message priority
      agent_id s)
perform v (Call.cancels worker_id message_id) s =
    as_json
      (cancel_message v.env v.is_canonical (v.cancel worker_id message_id) worker_id message_id s)
perform v (Call.stops worker_id force agent_id) s =
    as_json (stop v.env (v.wait worker_id) worker_id force agent_id s)
perform v (Call.responds worker_id request_id response) s =
    as_json (respond v.env worker_id request_id response s)

abbrev pub perform_parsed : Service → Parsed Call → Sup → Answer × Sup
perform_parsed v (rejected message) s = (Answer.faulted (Fault.invalid message), s)
perform_parsed v (parsed call) s = answer_of v.message_of (perform v call s)

-- `_dispatch`
unfoldable pub dispatch : Service → String → Object → Sup → Answer × Sup
unfolding read_call
dispatch v method params s = perform_parsed v (read_call v method params) s
