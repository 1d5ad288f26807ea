-- ===== src/Supervisor/Starting.antt =====
-- `spawn`, `resume` and `status` of src/qworker/supervisor.py keep to the calls of the store.
use dogqoder.Prelude.{
  ℕ, suc, ◌≡◌, refl, Bool, not, Option, none, some, String, List, [], ◌∷◌, ◌++◌, ◌==◌, ◌&&◌,
  is_some,
}
use dogqoder.Json.{Object}
use dogqoder.Lifecycle.{WorkerRole}
use dogqoder.Workspace.{FileSystem, classify_workspace_overlap}
use dogqoder.Preflight.{DoctorResult, PreflightDiagnostic}
use dogqoder.Store.{AttemptRecord, WorkerRecord, find_worker}
use dogqoder.Store.Operations.{NewWorker, create_worker, start_attempt}
use dogqoder.Store.History.{create_worker_op, start_attempt_op, perform, run}
use dogqoder.Supervisor.{Env, M, ensure, modify, put}
use dogqoder.Supervisor.Refinement.{
  Reaches-refl, Keeps, Keeps-bind, Keeps-return, Keeps-raise, Keeps-gets, Keeps-modify,
  Keeps-ensure, Keeps-settle, Keeps-if, Keeps-append, Keeps-require_worker, keeps_rules,
}
use dogqoder.Supervisor.Views.{WorkerContract}
use dogqoder.Supervisor.Spawn.{
  Metadata, canonical_contract, value_or_raise, refuse_preflight, metadata_of, read_preflight,
  check_preflight, conflicting, task_warnings, shared_workspace_warnings, overlap_warnings,
  store_worker, append_conflicts, refuse_closed, enter_task, accept_worker, spawn,
}
use dogqoder.Supervisor.Resume.{
  may_resume, resumes, enter_resumed, found_cwd, store_attempt, resume, status,
}

module _ (env : Env) where
  pub Keeps-value_or_raise :
      {A : Type 0} (what : String) (o : Option A) → Keeps env (value_or_raise what o)
  Keeps-value_or_raise what none = record { reaches = Reaches-refl env }
  Keeps-value_or_raise what (some a) = Keeps-return env a

  pub Keeps-canonical_contract :
      (fs : FileSystem) (c : WorkerContract) → Keeps env (canonical_contract fs c)
  unfolding canonical_contract
  Keeps-canonical_contract fs (WorkerContract.audit c) = Keeps-return env _
  Keeps-canonical_contract fs (WorkerContract.coder c) =
      search (keeps_rules, Keeps-value_or_raise) depth 14

  pub Keeps-metadata_of :
      (sdk path version : Option String) → Keeps env (metadata_of sdk path version)
  Keeps-metadata_of (some sdk) (some path) version = Keeps-return env _
  Keeps-metadata_of (some sdk) none version = Keeps-raise env _ _
  Keeps-metadata_of none path version = Keeps-raise env _ _

  pub Keeps-refuse_preflight :
      {A : Type 0} (d : DoctorResult) (o : Option PreflightDiagnostic)
      → Keeps env (refuse_preflight {A = A} d o)
  unfolding refuse_preflight run
  Keeps-refuse_preflight d none = record { reaches = λ s. ([], refl) }
  Keeps-refuse_preflight d (some diagnostic) = record { reaches = λ s. ([], refl) }

  pub Keeps-check_preflight :
      (defaults : Metadata) (preflight : Option (String → M DoctorResult)) (cwd : String)
      → ((f : String → M DoctorResult) → preflight ≡ some f → Keeps env (f cwd))
      → Keeps env (check_preflight defaults preflight cwd)
  unfolding check_preflight read_preflight
  Keeps-check_preflight defaults none cwd h = Keeps-return env defaults
  Keeps-check_preflight defaults (some f) cwd h =
      Keeps-bind env (h f refl)
        (λ d. Keeps-if env d.ok _ _ (Keeps-metadata_of _ _ _) (Keeps-refuse_preflight d d.error))

  pub Keeps-task_warnings :
      (fs : FileSystem) (requested : String) (o : Option WorkerRecord)
      → Keeps env (task_warnings fs requested o)
  unfolding task_warnings
  Keeps-task_warnings fs requested none = Keeps-return env []
  Keeps-task_warnings fs requested (some w) =
      Keeps-bind env (Keeps-value_or_raise "cwd" (classify_workspace_overlap fs requested w.cwd))
        (λ r. Keeps-return env _)

  pub Keeps-shared_workspace_warnings :
      (fs : FileSystem) (requested : String) (tasks : List (String × ℕ))
      → Keeps env (shared_workspace_warnings fs requested tasks)
  unfolding shared_workspace_warnings
  Keeps-shared_workspace_warnings fs requested [] = Keeps-return env []
  Keeps-shared_workspace_warnings fs requested (task ∷ tasks) =
      Keeps-bind env (Keeps-gets env (λ s. conflicting (find_worker task.0 s.db))) (λ worker.
        Keeps-bind env (Keeps-task_warnings fs requested worker) (λ one.
          Keeps-bind env (Keeps-shared_workspace_warnings fs requested tasks)
            (λ more. Keeps-return env (one ++ more))))

  pub Keeps-overlap_warnings :
      (fs : FileSystem) (c : WorkerContract) → Keeps env (overlap_warnings fs c)
  unfolding overlap_warnings
  Keeps-overlap_warnings fs (WorkerContract.audit c) = Keeps-return env []
  Keeps-overlap_warnings fs (WorkerContract.coder c) =
      search (keeps_rules, Keeps-shared_workspace_warnings) depth 14

  pub Keeps-store_worker : (n : NewWorker) → Keeps env (store_worker env n)
  unfolding perform
  Keeps-store_worker n =
      Keeps-settle env 2
        (λ s. create_worker_op (env.draw s.tick) (env.draw (suc s.tick)) (env.clock s.tick) n)
        (λ s.
          create_worker env.host env.fs (env.draw s.tick) (env.draw (suc s.tick)) (env.clock s.tick)
            n s.db)
        (λ s. refl)

  pub Keeps-append_conflicts :
      (w : String) (os : List Object) → Keeps env (append_conflicts env w os)
  unfolding append_conflicts
  Keeps-append_conflicts w [] = Keeps-return env tt
  Keeps-append_conflicts w (o ∷ os) =
      Keeps-bind env (Keeps-append env w _ _) (λ a. Keeps-append_conflicts w os)

  pub Keeps-refuse_closed : Keeps env refuse_closed
  Keeps-refuse_closed = record { reaches = λ s. (Keeps-ensure env (not s.closed) _ _).reaches s }

  pub Keeps-own_task :
      (w : String) (n : ℕ) → Keeps env (modify (λ s. record s { tasks = put w n s.tasks }))
  Keeps-own_task w n = Keeps-modify env (λ s. record s { tasks = put w n s.tasks }) (λ s. refl)

  pub Keeps-enter_task :
      (worker : WorkerRecord) (overlaps : List Object) → Keeps env (enter_task worker overlaps)
  unfolding enter_task
  Keeps-enter_task worker overlaps = search (keeps_rules, Keeps-own_task) depth 14

  pub Keeps-enter_resumed :
      (w : String) (role : WorkerRole) (cwd : String) (attempt : AttemptRecord)
      → Keeps env (enter_resumed w role cwd attempt)
  unfolding enter_resumed
  Keeps-enter_resumed w role cwd attempt = search (keeps_rules, Keeps-own_task) depth 14

  pub Keeps-accept_worker :
      (metadata : Metadata) (c : WorkerContract) → Keeps env (accept_worker env metadata c)
  unfolding accept_worker
  Keeps-accept_worker metadata c = Keeps-bind env Keeps-refuse_closed (λ a.
      Keeps-bind env (Keeps-overlap_warnings env.fs c) (λ overlaps.
        Keeps-bind env (Keeps-store_worker _) (λ worker.
          Keeps-bind env (Keeps-append_conflicts worker.worker_id overlaps)
            (λ b. Keeps-enter_task worker overlaps))))

  pub Keeps-spawn :
      (defaults : Metadata) (preflight : Option (String → M DoctorResult)) (c : WorkerContract)
      → ((f : String → M DoctorResult) → preflight ≡ some f → (cwd : String) → Keeps env (f cwd))
      → Keeps env (spawn env defaults preflight c)
  unfolding spawn
  Keeps-spawn defaults preflight c h = Keeps-bind env Keeps-refuse_closed (λ a.
      Keeps-bind env (Keeps-canonical_contract env.fs c) (λ canonical.
        Keeps-bind env (Keeps-check_preflight defaults preflight _ (λ f e. h f e _))
          (λ metadata. Keeps-accept_worker metadata canonical)))

  pub Keeps-found_cwd : (o : Option String) → Keeps env (found_cwd o)
  Keeps-found_cwd none = Keeps-raise env _ _
  Keeps-found_cwd (some cwd) = Keeps-return env cwd

  pub Keeps-store_attempt : (w : String) → Keeps env (store_attempt env w)
  unfolding perform
  Keeps-store_attempt w =
      Keeps-settle env 1 (λ s. start_attempt_op (env.draw s.tick) (env.clock s.tick) w)
        (λ s. start_attempt env.host (env.draw s.tick) (env.clock s.tick) w s.db) (λ s. refl)

  pub Keeps-refuse :
      (test : Bool) (message : String) → Keeps env (ensure test "resume_not_possible" message)
  Keeps-refuse test message = Keeps-ensure env test "resume_not_possible" message

  pub Keeps-resume : (w : String) → Keeps env (resume env w)
  unfolding resume
  Keeps-resume w = Keeps-bind env Keeps-refuse_closed (λ a.
      Keeps-bind env (Keeps-require_worker env w) (λ worker.
        Keeps-bind env
          (Keeps-refuse (may_resume worker.state) "Worker state is not eligible for resume.")
          (λ b.
            Keeps-bind env
              (Keeps-refuse (is_some worker.session_id) "Worker has no stored Qoder session.")
              (λ c.
                Keeps-bind env
                  (Keeps-refuse (resumes env worker.role) "Resume transport is unavailable.")
                  (λ d. Keeps-bind env (Keeps-found_cwd (env.fs.resolve worker.cwd)) (λ cwd.
                    Keeps-bind env
                      (Keeps-refuse ((cwd == worker.cwd) && env.fs.is_dir cwd)
                        "Worker's original working directory is invalid.")
                      (λ e.
                        Keeps-bind env (Keeps-store_attempt w)
                          (λ attempt. Keeps-enter_resumed w worker.role cwd attempt))))))))

  pub Keeps-status : (w : String) → Keeps env (status env w)
  unfolding status
  Keeps-status w = search keeps_rules depth 20
