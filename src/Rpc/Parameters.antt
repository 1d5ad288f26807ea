-- ===== src/Rpc/Parameters.antt =====
-- The methods of src/qworker/rpc.py and what their parameters are to be, for each call of the supervisor.
use dogqoder.Prelude.{◌≡◌, some, String, List, [], ◌∷◌, lookup}
use dogqoder.Json.{Fields, Object, obj, fields}
use dogqoder.Supervisor.Steering.{priority_text}
use dogqoder.Supervisor.Views.{WorkerContract}
use dogqoder.Rpc.Dispatch.{Service, Call}
use dogqoder.Rpc.Readers.{Holds, HoldsOr, MayHold, HoldsTexts, HoldsFlag, HasFields}

abbrev pub method_of : Call → String
method_of (Call.spawns contract) = "spawn"
method_of Call.lists = "list"
method_of (Call.reads_status w) = "status"
method_of (Call.reads_result w) = "result"
method_of (Call.resumes w) = "resume"
method_of (Call.steers w message priority agent) = "steer"
method_of (Call.cancels w message) = "cancel_message"
method_of (Call.stops w force agent) = "stop"
method_of (Call.responds w request response) = "respond"

-- The parameters of a task; the workspace is the path of its text.
abbrev pub SaysTask :
    Service
    → String
    → String
    → String
    → String
    → String
    → List String
    → List String
    → List String
    → Object
    → Type 0
SaysTask v role default objective cwd model context constraints criteria o =
    HasFields ("role" ∷ "cwd" ∷ "objective" ∷ [])
      ("model" ∷ "context" ∷ "constraints" ∷ "acceptance_criteria" ∷ []) o
    × Holds "role" role o
    × Holds "objective" objective o
    × ((text : String) × Holds "cwd" text o × (v.path text ≡ cwd))
    × HoldsTexts "context" context o
    × HoldsTexts "constraints" constraints o
    × HoldsTexts "acceptance_criteria" criteria o
    × HoldsOr "model" default model o

abbrev pub SaysWorker : String → Object → Type 0
SaysWorker w o = HasFields ("worker_id" ∷ []) [] o × Holds "worker_id" w o

-- The parameters say the call: its required ones are there, none is unknown, each has its type, and
-- what is left out has its default.
abbrev pub Says : Service → Call → Object → Type 0
Says v (Call.spawns (WorkerContract.audit c)) o =
    SaysTask v "auditor" "qwen-auditor" c.objective c.cwd c.requested_model c.context c.constraints
      c.acceptance_criteria o
Says v (Call.spawns (WorkerContract.coder c)) o =
    SaysTask v "coder" "qwen-coder" c.objective c.cwd c.requested_model c.context c.constraints
      c.acceptance_criteria o
Says v Call.lists o = HasFields [] [] o
Says v (Call.reads_status w) o = SaysWorker w o
Says v (Call.reads_result w) o = SaysWorker w o
Says v (Call.resumes w) o = SaysWorker w o
Says v (Call.steers w message priority agent) o =
    HasFields ("worker_id" ∷ "message" ∷ []) ("priority" ∷ "agent_id" ∷ []) o
    × Holds "worker_id" w o
    × Holds "message" message o
    × HoldsOr "priority" "next" (priority_text priority) o
    × MayHold "agent_id" agent o
Says v (Call.cancels w message) o =
    HasFields ("worker_id" ∷ "message_id" ∷ []) [] o
    × Holds "worker_id" w o
    × Holds "message_id" message o
Says v (Call.stops w force agent) o =
    HasFields ("worker_id" ∷ []) ("force" ∷ "agent_id" ∷ []) o
    × Holds "worker_id" w o
    × HoldsFlag "force" force o
    × MayHold "agent_id" agent o
Says v (Call.responds w request response) o =
    HasFields ("worker_id" ∷ "request_id" ∷ "response" ∷ []) [] o
    × Holds "worker_id" w o
    × Holds "request_id" request o
    × ((fs : Fields) × (lookup "response" o ≡ some (obj fs)) × (fields fs ≡ response))
