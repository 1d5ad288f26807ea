-- ===== src/Lifecycle/Reach.antt =====
-- The lifecycle diagram of lifecycle.py as a step relation.
use dogqoder.Prelude.{◌≡◌, refl, ◌≢◌, ◌↔◌, true, some, arith}
use dogqoder.Lifecycle.{
  WorkerState, starting, running, requires_action, completed, failed, cancelled, lost, transition,
  is_terminal,
}

infix 40 ◌⟶◌
pub data ◌⟶◌ : WorkerState → WorkerState → Type 0 where
  begin : starting ⟶ running
  refuse : starting ⟶ failed
  withdraw : starting ⟶ cancelled
  ask : running ⟶ requires_action
  finish : running ⟶ completed
  break : running ⟶ failed
  stop : running ⟶ cancelled
  lose : running ⟶ lost
  answer : requires_action ⟶ running
  stop_asking : requires_action ⟶ cancelled
  lose_asking : requires_action ⟶ lost
  retry_failed : failed ⟶ starting
  retry_cancelled : cancelled ⟶ starting
  retry_lost : lost ⟶ starting

ruleset edges = (
  begin, refuse, withdraw, ask, finish, break, stop, lose, answer, stop_asking, lose_asking,
  retry_failed, retry_cancelled, retry_lost,
)

⟶-of-transition :
    (s t : WorkerState) {u : WorkerState} → transition s t ≡ some u → (u ≡ t) × (s ⟶ t)
unfolding transition
⟶-of-transition s t h = grind (arith, edges)

transition-of-⟶ : {s t : WorkerState} → s ⟶ t → transition s t ≡ some t
unfolding transition
transition-of-⟶ begin = refl
transition-of-⟶ _ = refl

-- The reducer accepts a target exactly along an edge of the diagram, and then moves to that target.
pub transition_iff : (s t u : WorkerState) → (transition s t ≡ some u) ↔ ((u ≡ t) × (s ⟶ t))
transition_iff s t u = (⟶-of-transition s t, λ e. rw (e.0) (transition-of-⟶ e.1))

pub terminal-⟶ : {s t : WorkerState} → is_terminal s ≡ true → s ⟶ t → t ≡ starting
terminal-⟶ h retry_failed = refl
terminal-⟶ h retry_cancelled = refl
terminal-⟶ h retry_lost = refl
terminal-⟶ h _ = cc

pub ⟶-ne-completed : {s t : WorkerState} → s ⟶ t → s ≢ completed
⟶-ne-completed begin = λ p. cc
⟶-ne-completed _ = λ p. cc
