-- ===== src/Lifecycle.antt =====
-- src/qworker/lifecycle.py: the lifecycle states, the table of transitions and the reducer that
-- holds one worker's state.
pub mod Reach
use dogqoder.Prelude.{
  Bool, true, false, ◌||◌, Option, none, some, List, [], ◌∷◌, any, if◌then◌else◌,
}

pub data WorkerRole : Type 0 where
  coder auditor : WorkerRole

pub data WorkerState : Type 0 where
  starting running requires_action completed failed cancelled lost : WorkerState

pub data WorkerHealth : Type 0 where
  unknown healthy quiet stalled exited : WorkerHealth

pub data WriteCapability : Type 0 where
  shared_workspace read_only : WriteCapability

-- The state named `none` in the source is `nothing` here.
pub data NestedState : Type 0 where
  nothing active settled unknown : NestedState

abbrev pub state_eq : WorkerState → WorkerState → Bool
state_eq starting starting = true
state_eq running running = true
state_eq requires_action requires_action = true
state_eq completed completed = true
state_eq failed failed = true
state_eq cancelled cancelled = true
state_eq lost lost = true
state_eq _ _ = false

-- `_TRANSITIONS`
unfoldable pub transitions : WorkerState → List WorkerState
transitions starting = running ∷ failed ∷ cancelled ∷ []
transitions running = requires_action ∷ completed ∷ failed ∷ cancelled ∷ lost ∷ []
transitions requires_action = running ∷ cancelled ∷ lost ∷ []
transitions completed = []
transitions failed = starting ∷ []
transitions cancelled = starting ∷ []
transitions lost = starting ∷ []

-- `WorkerStateReducer(state).transition(target)`; `none` is the `ValueError`.
unfoldable pub transition : WorkerState → WorkerState → Option WorkerState
unfolding transitions
transition state target =
    if any (λ s. state_eq s target) (transitions state) then some target else none

-- `_TERMINAL_STATES` of store.py and supervisor.py.
abbrev pub is_terminal : WorkerState → Bool
is_terminal completed = true
is_terminal failed = true
is_terminal cancelled = true
is_terminal lost = true
is_terminal _ = false
