-- ===== src/Supervisor/Spawn.antt =====
-- `spawn` of src/qworker/supervisor.py.
use Prim.Native.String.{String}
use dogqoder.Prelude.{
  ℕ, suc, Bool, true, false, not, Option, none, some, List, [], ◌∷◌, ◌++◌, ◌&&◌, map, if◌then◌else◌,
}
use dogqoder.Json.{Json, Object, from_fields, from_items}
use dogqoder.Lifecycle.{WorkerRole, WriteCapability, is_terminal}
use dogqoder.Workspace.{
  FileSystem, WorkspaceRelation, same, ancestor, descendant, canonical_workspace,
  classify_workspace_overlap,
}
use dogqoder.Preflight.{
  PreflightDiagnostic, DoctorResult, safe_preflight_failure, normalize_preflight_warnings,
}
use dogqoder.Store.{WorkerRecord, find_worker}
use dogqoder.Store.Operations.{NewWorker, create_worker, number, role_text}
use dogqoder.Store.Queries.{latest_event_cursor}
use dogqoder.Supervisor.{
  supervisor_error, raised, Env, M, ◌>>=◌, ◌>>◌, return, raise, raise_value, ensure, gets, modify,
  settle, put, append, versioned,
}
use dogqoder.Supervisor.Views.{WorkerContract, state_text}

-- What the supervisor was built with, or what its preflight found.
pub record Metadata : Type 0 where
  pub sdk_version : String
  pub runtime_path : String
  pub runtime_version : Option String

abbrev pub contract_cwd : WorkerContract → String
contract_cwd (WorkerContract.audit c) = c.cwd
contract_cwd (WorkerContract.coder c) = c.cwd

abbrev pub contract_model : WorkerContract → String
contract_model (WorkerContract.audit c) = c.requested_model
contract_model (WorkerContract.coder c) = c.requested_model

abbrev pub contract_role : WorkerContract → WorkerRole
contract_role (WorkerContract.audit c) = WorkerRole.auditor
contract_role (WorkerContract.coder c) = WorkerRole.coder

abbrev pub role_capability : WorkerRole → WriteCapability
role_capability WorkerRole.coder = WriteCapability.shared_workspace
role_capability WorkerRole.auditor = WriteCapability.read_only

abbrev pub value_or_raise {ℓ} : {A : Type ℓ} → String → Option A → M A
value_or_raise what none = raise_value what
value_or_raise what (some a) = return a

-- The coder's workspace is made canonical.
unfoldable pub canonical_contract : FileSystem → WorkerContract → M WorkerContract
canonical_contract fs (WorkerContract.audit c) = return (WorkerContract.audit c)
canonical_contract fs (WorkerContract.coder c) =
    value_or_raise "cwd" (canonical_workspace fs c.cwd) >>= λ cwd.
    return (WorkerContract.coder (record c { cwd = cwd }))

unfoldable pub refuse_preflight {ℓ} : {A : Type ℓ} → DoctorResult → Option PreflightDiagnostic → M A
unfolding safe_preflight_failure normalize_preflight_warnings
refuse_preflight d none s = raise "sdk_protocol_error" "Qoder preflight returned no diagnostic." s
refuse_preflight d (some diagnostic) s =
    let safe = safe_preflight_failure diagnostic.code in
    (raised (supervisor_error safe.code safe.message (normalize_preflight_warnings d.warnings)), s)

abbrev pub metadata_of : Option String → Option String → Option String → M Metadata
metadata_of (some sdk) (some path) version =
    return (record { sdk_version = sdk; runtime_path = path; runtime_version = version })
metadata_of (some sdk) none version =
    raise "sdk_protocol_error" "Qoder preflight returned incomplete metadata."
metadata_of none path version =
    raise "sdk_protocol_error" "Qoder preflight returned incomplete metadata."

-- The verdict of the preflight, as `spawn` reads it.
unfoldable pub read_preflight : DoctorResult → M Metadata
unfolding refuse_preflight
read_preflight d =
    if d.ok
    then metadata_of d.sdk_version d.runtime_path d.runtime_version
    else refuse_preflight d d.error

-- The preflight, where there is one; it runs while others may act.
unfoldable pub check_preflight : Metadata → Option (String → M DoctorResult) → String → M Metadata
unfolding read_preflight
check_preflight defaults none cwd = return defaults
check_preflight defaults (some preflight) cwd = preflight cwd >>= read_preflight

abbrev pub relation_text : WorkspaceRelation → String
relation_text same = "same"
relation_text ancestor = "ancestor"
relation_text descendant = "descendant"

abbrev pub is_shared : WriteCapability → Bool
is_shared WriteCapability.shared_workspace = true
is_shared WriteCapability.read_only = false

abbrev pub conflicting : Option WorkerRecord → Option WorkerRecord
conflicting none = none
conflicting (some w) =
    if not (is_terminal w.state) && is_shared w.write_capability then some w else none

abbrev pub conflict_warning : WorkerRecord → WorkspaceRelation → Object
conflict_warning w relation =
    ("code", Json.str "write_conflict_warning")
    ∷ ("worker_id", Json.str w.worker_id)
    ∷ ("cwd", Json.str w.cwd)
    ∷ ("relation", Json.str (relation_text relation))
    ∷ []

abbrev pub warning_of : WorkerRecord → Option WorkspaceRelation → List Object
warning_of w none = []
warning_of w (some relation) = conflict_warning w relation ∷ []

-- What one task contributes to `_shared_workspace_warnings`.
unfoldable pub task_warnings : FileSystem → String → Option WorkerRecord → M (List Object)
unfolding classify_workspace_overlap
task_warnings fs requested none = return []
task_warnings fs requested (some w) =
    value_or_raise "cwd" (classify_workspace_overlap fs requested w.cwd) >>= λ relation.
    return (warning_of w relation)

-- `_shared_workspace_warnings`
unfoldable pub shared_workspace_warnings : FileSystem → String → List (String × ℕ) → M (List Object)
unfolding task_warnings
shared_workspace_warnings fs requested [] = return []
shared_workspace_warnings fs requested (task ∷ tasks) =
    gets (λ s. conflicting (find_worker task.0 s.db)) >>= λ worker.
    task_warnings fs requested worker >>= λ one.
    shared_workspace_warnings fs requested tasks >>= λ more. return (one ++ more)

unfoldable pub overlap_warnings : FileSystem → WorkerContract → M (List Object)
unfolding shared_workspace_warnings
overlap_warnings fs (WorkerContract.audit c) = return []
overlap_warnings fs (WorkerContract.coder c) =
    gets (λ s. s.tasks) >>= λ tasks. shared_workspace_warnings fs c.cwd tasks

abbrev pub store_worker : Env → NewWorker → M WorkerRecord
store_worker env n s = settle s 2 (
    create_worker env.host env.fs (env.draw s.tick) (env.draw (suc s.tick)) (env.clock s.tick) n
      s.db)

unfoldable pub append_conflicts : Env → String → List Object → M (Unit {0})
unfolding append
append_conflicts env worker_id [] = return tt
append_conflicts env worker_id (warning ∷ rest) =
    append env worker_id "worker.warning" (versioned warning) >> append_conflicts env worker_id rest

abbrev pub warning_list : List Object → Object
warning_list [] = []
warning_list (w ∷ ws) =
    ("warnings", Json.arr (from_items (map (λ o. Json.obj (from_fields o)) (w ∷ ws)))) ∷ []

abbrev pub refuse_closed : M (Unit {0})
refuse_closed s = ensure (not s.closed) "supervisor_unavailable" "Supervisor is closed." s

-- The task of a new worker, and what `spawn` returns.
unfoldable pub enter_task : WorkerRecord → List Object → M Object
enter_task worker overlaps = do
  modify (λ s. record s { tasks = put worker.worker_id worker.attempt s.tasks })
  cursor ← gets (λ s. latest_event_cursor worker.worker_id s.db)
  return (
      ("worker_id", Json.str worker.worker_id)
      ∷ ("state", Json.str (state_text worker.state))
      ∷ ("role", Json.str (role_text worker.role))
      ∷ ("cwd", Json.str worker.cwd)
      ∷ ("event_cursor", number cursor)
      ∷ warning_list overlaps)

-- `spawn` under the control lock, up to the task that it creates.
unfoldable pub accept_worker : Env → Metadata → WorkerContract → M Object
unfolding append_conflicts overlap_warnings enter_task
accept_worker env metadata contract = do
  refuse_closed
  overlaps ← overlap_warnings env.fs contract
  worker ← store_worker env (record {
    role = contract_role contract;
    cwd = contract_cwd contract;
    write_capability = role_capability (contract_role contract);
    requested_model = contract_model contract;
    runtime_path = metadata.runtime_path;
    sdk_version = metadata.sdk_version;
    worker_id = none;
    runtime_version = metadata.runtime_version;
  })
  append_conflicts env worker.worker_id overlaps
  enter_task worker overlaps

unfoldable pub spawn : Env → Metadata → Option (String → M DoctorResult) → WorkerContract → M Object
unfolding accept_worker check_preflight canonical_contract
spawn env defaults preflight contract =
    refuse_closed
    >> (canonical_contract env.fs contract >>= λ canonical.
        check_preflight defaults preflight (contract_cwd canonical) >>= λ metadata.
        accept_worker env metadata canonical)
