-- ===== src/Store/Lifetimes.antt =====
-- What the calls of src/qworker/store.py can do to a worker that has ended.
use mathlib.Core.Path.{subst}
use dogqoder.Prelude.{ℕ, ◌+◌, ◌≡◌, ◌⊎◌, ◌≢◌, sym, ap, ◌∙◌, true, some, String, arith, inl, inr}
use dogqoder.Patterns.{Host}
use dogqoder.Lifecycle.{WorkerState, starting, completed, is_terminal}
use dogqoder.Lifecycle.Reach.{◌⟶◌, terminal-⟶, ⟶-ne-completed}
use dogqoder.Workspace.{FileSystem}
use dogqoder.Store.{Db}
use dogqoder.Store.Consistency.{View, view}
use dogqoder.Store.Invariant.{IsSound}
use dogqoder.Store.Projection.{Advance, stay, move, restart, create}
use dogqoder.Store.History.{Op, perform, perform-SoundStep}

some-pair :
    {n m : ℕ} {s t : WorkerState} {v : View} → v ≡ some (n, s) → v ≡ some (m, t) → (n ≡ m) × (s ≡ t)
some-pair h k = ground arith

terminal_view :
    (n : ℕ) (s : WorkerState) (v v' : View)
    → is_terminal s ≡ true
    → v ≡ some (n, s)
    → Advance v v'
    → (v' ≡ some (n, s)) ⊎ ((v' ≡ some (n + 1, starting)) × (s ≢ completed))
terminal_view n s v v' final h (stay e) = inl (e ∙ h)
terminal_view n s v v' final h (move m t u k edge plain e) =
    let (same, same') = some-pair h k in absurd (plain (leaves same' edge))
  where
    leaves : {a b : WorkerState} → s ≡ a → a ⟶ b → b ≡ starting
    leaves p edge = terminal-⟶ (subst (λ x. is_terminal x ≡ true) p final) edge
terminal_view n s v v' final h (restart m t k edge e) =
    let (same, same') = some-pair h k in
    inr (e ∙ ap (λ i. some (i + 1, starting)) (sym same), λ c. ⟶-ne-completed edge (sym same' ∙ c))
terminal_view n s v v' final h (create k e) = cc

-- In a sound store a worker in a terminal state keeps its attempt and state under every call, except that a call may
-- start the next attempt, and no call does so after `completed`.
pub terminal_stays :
    (host : Host) (fs : FileSystem) (op : Op) (db : Db) (id : String) (n : ℕ) (s : WorkerState)
    → IsSound db
    → view db id ≡ some (n, s)
    → is_terminal s ≡ true
    → (view (perform host fs op db) id ≡ some (n, s))
      ⊎ ((view (perform host fs op db) id ≡ some (n + 1, starting)) × (s ≢ completed))
terminal_stays host fs op db id n s sound h final =
    terminal_view n s (view db id) _ final h ((perform-SoundStep host fs op db sound).1 id)
