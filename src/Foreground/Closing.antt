-- ===== src/Foreground/Closing.antt =====
-- The calls that a session of src/qworker/auditor.py or src/qworker/coder.py makes of its transport.
use dogqoder.Prelude.{◌≡◌, refl, ap, ◌∙◌, Option, none, some, String, List, [], ◌∷◌, ◌++◌}
use dogqoder.ModelPolicy.{AvailableModel, Resolved, ModelResolution, resolve_model}
use dogqoder.Patterns.{Host}
use dogqoder.Foreground.{
  Step, done, diagnosed, unavailable, raised, Engine, Transport, TransportCall, connects,
  lists_models, reads, disconnects, selects, observes, sends, Body, step, observed, converse,
  resolved_body, body, run, consume,
}

abbrev pub IsPrefix : List TransportCall → List TransportCall → Type 0
IsPrefix [] ys = Unit
IsPrefix (x ∷ xs) [] = ⊥
IsPrefix (x ∷ xs) (y ∷ ys) = (x ≡ y) × IsPrefix xs ys

abbrev pub observation : {X : Type 0} → String → Option X → List TransportCall
observation model none = []
observation model (some x) = observes model ∷ []

module _ {C R A : Type 0} (e : Engine C R A) where
  -- The calls of a session that goes through, with the model that it uses.
  abbrev pub script : Transport → C → String → List TransportCall
  script t c model =
      connects
      ∷ lists_models
      ∷ selects model
      ∷ (observation model t.observe ++ sends (e.prompt c) ∷ reads ∷ [])

  step-IsPrefix :
      {X : Type 0} (call : TransportCall) (resolved : Option String) (s : Step X) (k : X → Body e)
      (ys : List TransportCall)
      → ((x : X) → IsPrefix (k x).calls ys)
      → IsPrefix (step e call resolved s k).calls (call ∷ ys)
  unfolding step
  step-IsPrefix call resolved (done x) k ys h = (refl, h x)
  step-IsPrefix call resolved (diagnosed d) k ys h = (refl, tt)
  step-IsPrefix call resolved (unavailable text) k ys h = (refl, tt)
  step-IsPrefix call resolved (raised what) k ys h = (refl, tt)

  -- What a step that was done and led to a result has behind it.
  step_inv :
      {X : Type 0} (call : TransportCall) (resolved : Option String) (s : Step X) (k : X → Body e)
      {a : A}
      → (step e call resolved s k).outcome ≡ done a
      → (x : X) × (s ≡ done x)
        × ((k x).outcome ≡ done a)
        × ((step e call resolved s k).calls ≡ call ∷ (k x).calls)
  unfolding step
  step_inv call resolved (done x) k h = (x, refl, h, refl)
  step_inv call resolved (diagnosed d) k h = cc
  step_inv call resolved (unavailable text) k h = cc
  step_inv call resolved (raised what) k h = cc

  observed-IsPrefix :
      (model : String) (o : Option (String → Step (Unit {0}))) (b : Body e)
      (ys : List TransportCall)
      → IsPrefix b.calls ys
      → IsPrefix (observed e model o b).calls (observation model o ++ ys)
  unfolding observed
  observed-IsPrefix model none b ys h = h
  observed-IsPrefix model (some observe) b ys h =
      step-IsPrefix (observes model) (some model) (observe model) (λ x. b) ys (λ x. h)

  observed_inv :
      (model : String) (o : Option (String → Step (Unit {0}))) (b : Body e) {a : A}
      → (observed e model o b).outcome ≡ done a
      → (b.outcome ≡ done a) × ((observed e model o b).calls ≡ observation model o ++ b.calls)
  unfolding observed
  observed_inv model none b h = (h, refl)
  observed_inv model (some observe) b h =
      let (x, was, goes, calls) =
        step_inv (observes model) (some model) (observe model) (λ x. b) h in
      (goes, calls)

  converse-IsPrefix :
      (t : Transport) (c : C) (model : String)
      → IsPrefix
          (converse e t c model).calls
          (selects model ∷ (observation model t.observe ++ sends (e.prompt c) ∷ reads ∷ []))
  unfolding converse
  converse-IsPrefix t c model =
      step-IsPrefix (selects model) (some model) (t.select_model model) _ _ (λ x.
        observed-IsPrefix model t.observe _ _ (
          step-IsPrefix (sends (e.prompt c)) (some model) (t.send (e.prompt c)) _ _
            (λ y. (refl, tt))))

  converse_inv :
      (t : Transport) (c : C) (model : String) {a : A}
      → (converse e t c model).outcome ≡ done a
      → ((converse e t c model).calls
          ≡ selects model ∷ (observation model t.observe ++ sends (e.prompt c) ∷ reads ∷ []))
        × (consume e (e.init (e.requested_model c) model) t.messages ≡ done a)
  unfolding converse
  converse_inv t c model h =
      let (x, was, h1, calls) = step_inv (selects model) (some model) (t.select_model model) _ h in
      let (h2, calls') = observed_inv model t.observe _ h1 in
      let (y, was', h3, calls'') =
        step_inv (sends (e.prompt c)) (some model) (t.send (e.prompt c)) _ h2 in
      (
        calls
            ∙ ap (λ l. selects model ∷ l)
                (calls' ∙ ap (λ l. observation model t.observe ++ l) calls''),
        h3,
      )

  resolved-IsPrefix :
      (t : Transport) (c : C) (r : Resolved)
      → (model : String) × IsPrefix
          (resolved_body e t c r).calls
          (selects model ∷ (observation model t.observe ++ sends (e.prompt c) ∷ reads ∷ []))
  unfolding resolved_body
  resolved-IsPrefix t c (Resolved.unavailable text) = ("", tt)
  resolved-IsPrefix t c (Resolved.model m) = (m.resolved, converse-IsPrefix t c m.resolved)

  listed-IsPrefix :
      (t : Transport) (c : C) (s : Step (List AvailableModel))
      → (model : String) × IsPrefix
          (step e lists_models none s
            (λ catalog. resolved_body e t c (resolve_model (e.requested_model c) catalog))).calls
          (lists_models
            ∷ selects model
            ∷ (observation model t.observe ++ sends (e.prompt c) ∷ reads ∷ []))
  unfolding step
  listed-IsPrefix t c (done catalog) =
      let (model, prefix) = resolved-IsPrefix t c (resolve_model (e.requested_model c) catalog) in
      (model, (refl, prefix))
  listed-IsPrefix t c (diagnosed d) = ("", (refl, tt))
  listed-IsPrefix t c (unavailable text) = ("", (refl, tt))
  listed-IsPrefix t c (raised what) = ("", (refl, tt))

  body-IsPrefix :
      (t : Transport) (c : C) → (model : String) × IsPrefix (body e t c).calls (script t c model)
  unfolding body
  body-IsPrefix t c =
      let (model, prefix) = listed-IsPrefix t c t.available_models in
      (model, step-IsPrefix connects none t.connect _ _ (λ x. prefix))

  resolved_inv :
      (t : Transport) (c : C) (r : Resolved) {a : A}
      → (resolved_body e t c r).outcome ≡ done a
      → (m : ModelResolution) × (r ≡ Resolved.model m)
        × ((converse e t c m.resolved).outcome ≡ done a)
        × ((resolved_body e t c r).calls ≡ (converse e t c m.resolved).calls)
  unfolding resolved_body
  resolved_inv t c (Resolved.unavailable text) h = cc
  resolved_inv t c (Resolved.model m) h = (m, refl, h, refl)

  -- A body that came to a result has gone through.
  pub body_inv :
      (t : Transport) (c : C) {a : A}
      → (body e t c).outcome ≡ done a
      → (catalog : List AvailableModel) × (m : ModelResolution) × (t.available_models
          ≡ done catalog)
        × (resolve_model (e.requested_model c) catalog ≡ Resolved.model m)
        × ((body e t c).calls ≡ script t c m.resolved)
        × (consume e (e.init (e.requested_model c) m.resolved) t.messages ≡ done a)
  unfolding body
  body_inv t c h =
      let (x, connected, h1, calls) = step_inv connects none t.connect _ h in
      let (catalog, listed, h2, calls') = step_inv lists_models none t.available_models _ h1 in
      let (m, resolved, h3, calls'') =
        resolved_inv t c (resolve_model (e.requested_model c) catalog) h2 in
      let (calls''', consumed) = converse_inv t c m.resolved h3 in
      (
        catalog,
        m,
        listed,
        resolved,
        calls ∙ ap (λ l. connects ∷ l) (calls' ∙ ap (λ l. lists_models ∷ l) (calls'' ∙ calls''')),
        consumed,
      )

  -- Once a session has a transport, it closes it exactly once and last, whatever fails; and the
  -- calls before are the first ones of connect, list the models, select the model, report it,
  -- send the prompt and read, in that order.
  pub run-closes :
      (host : Host) (t : Transport) (c : C)
      → (calls : List TransportCall) × ((run e host (done t) c).0 ≡ calls ++ disconnects ∷ [])
        × (model : String) × IsPrefix calls (script t c model)
  unfolding run
  run-closes host t c =
      let (model, prefix) = body-IsPrefix t c in ((body e t c).calls, refl, model, prefix)
