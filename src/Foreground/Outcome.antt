-- ===== src/Foreground/Outcome.antt =====
-- What a result that is not a failure tells of a session of src/qworker/auditor.py or
-- src/qworker/coder.py.
use dogqoder.Prelude.{◌≡◌, refl, ap, Bool, true, false, Option, String, List, [], ◌∷◌, ◌++◌}
use dogqoder.ModelPolicy.{AvailableModel, Resolved, ModelResolution, resolve_model}
use dogqoder.Patterns.{Host}
use dogqoder.Foreground.{
  Step, done, diagnosed, unavailable, raised, Engine, Transport, disconnects, body, caught, closed,
  run, consume, classify_sdk_error,
}
use dogqoder.Foreground.Closing.{body_inv, script}

-- The results that stand for failures are failed.
pub record TellsFailure {C R A : Type 0} (e : Engine C R A) (failed : A → Bool) : Type 0 where
  pub failure :
      (c : C) (summary code : String) (resolved : Option String)
      → failed (e.failure_result c summary code resolved) ≡ true
  pub marked : (code : String) (a : A) → failed (e.mark_failed code a) ≡ true

module _ {C R A : Type 0} (e : Engine C R A) (failed : A → Bool)
    (laws : TellsFailure e failed) where
  never : (b a : A) → done b ≡ done a → failed b ≡ true → failed a ≡ false → ⊥
  never b a h bad good = cc

  caught_inv :
      (host : Host) (c : C) (resolved : Option String) (out : Step A) (a : A)
      → caught e host c resolved out ≡ done a
      → failed a ≡ false
      → out ≡ done a
  unfolding caught
  caught_inv host c resolved (done b) a h good = h
  caught_inv host c resolved (diagnosed d) a h good =
      absurd (never _ a h (laws.failure c (classify_sdk_error host d).message d.code resolved) good)
  caught_inv host c resolved (unavailable text) a h good =
      absurd (never _ a h (laws.failure c text "model_unavailable" resolved) good)
  caught_inv host c resolved (raised what) a h good = cc

  closed_inv :
      (d : Step (Unit {0})) (out : Step A) (a : A)
      → closed e d out ≡ done a
      → failed a ≡ false
      → (d ≡ done tt) × (out ≡ done a)
  unfolding closed
  closed_inv (done x) out a h good = (refl, h)
  closed_inv (diagnosed x) (done b) a h good = absurd (never _ a h (laws.marked x.code b) good)
  closed_inv (diagnosed x) (diagnosed d) a h good = cc
  closed_inv (diagnosed x) (unavailable text) a h good = cc
  closed_inv (diagnosed x) (raised what) a h good = cc
  closed_inv (unavailable text) out a h good = cc
  closed_inv (raised what) out a h good = cc

  -- A result that is no failure comes only from a session that went through: the models were
  -- listed, the requested one resolved, every call of the session was made, its result is the
  -- one that was read, and the transport closed without an error. The engine is to mark the
  -- results that stand for failures.
  pub run-goes_through :
      (host : Host) (t : Transport) (c : C) (a : A)
      → (run e host (done t) c).1 ≡ done a
      → failed a ≡ false
      → (t.disconnect ≡ done tt)
        × (catalog : List AvailableModel) × (m : ModelResolution) × (t.available_models
            ≡ done catalog)
        × (resolve_model (e.requested_model c) catalog ≡ Resolved.model m)
        × ((run e host (done t) c).0 ≡ script e t c m.resolved ++ disconnects ∷ [])
        × (consume e (e.init (e.requested_model c) m.resolved) t.messages ≡ done a)
  unfolding run
  run-goes_through host t c a h good =
      let (left, ended) = closed_inv t.disconnect _ a h good in
      let came = caught_inv host c (body e t c).resolved (body e t c).outcome a ended good in
      let (catalog, m, listed, resolved, calls, consumed) = body_inv e t c came in
      (left, catalog, m, listed, resolved, ap (λ l. l ++ disconnects ∷ []) calls, consumed)
