-- ===== src/Reducer/Settlement.antt =====
-- Nested tasks, models and the final result of reducer.py, against the events that arrived.
use dogqoder.Prelude.{
  AllDistinct, String, ◌≡◌, refl, ap, inl, inr, Bool, false, not, ◌&&◌, ◌||◌, Option, none, some,
  List, [], ◌∷◌, ◌++◌, ◌∙◌, ◌==◌, arith, Bool-cases, contains, eq_iff,
}
use dogqoder.Domain.{AdapterEvent}
use dogqoder.Reducer.{ResultReducer, init, add_once, discard, record_models, apply, apply_all}

contains-snoc :
    (xs : List String) (x y : String) → contains (xs ++ x ∷ []) y ≡ (contains xs y || (x == y))
contains-snoc [] x y = ground arith
contains-snoc (z ∷ xs) x y = ground (arith, contains-snoc xs x y)

pub contains-add_once :
    (xs : List String) (x y : String) → contains (add_once xs x) y ≡ (contains xs y || (x == y))
unfolding add_once
contains-add_once xs x y = ground (arith, contains-snoc xs x y, eq_iff x y)

pub contains-discard :
    (x : String) (xs : List String) (y : String)
    → contains (discard x xs) y ≡ (contains xs y && not (x == y))
unfolding discard
contains-discard x [] y = refl
contains-discard x (z ∷ zs) y =
    ground (arith, contains-discard x zs y, eq_iff z x, eq_iff z y, eq_iff x y)

-- A task is open if its last start is after its last terminal event; `was` tells of before.
abbrev pub task_open : String → Bool → List AdapterEvent → Bool
task_open id was [] = was
task_open id was (AdapterEvent.assistant text tools model ∷ es) = task_open id was es
task_open id was (AdapterEvent.task_started j description ∷ es) = task_open id (was || (j == id)) es
task_open id was (AdapterEvent.task_progress j description tool ∷ es) = task_open id was es
task_open id was (AdapterEvent.task_terminal j status ∷ es) = task_open id (was && not (j == id)) es
task_open id was (AdapterEvent.system subtype message ∷ es) = task_open id was es
task_open id was (AdapterEvent.result event ∷ es) = task_open id was es

active-apply_all :
    (id : String) (r : ResultReducer) (es : List AdapterEvent)
    → contains (apply_all r es).active_task_ids id ≡ task_open id (contains r.active_task_ids id) es
unfolding apply_all
active-apply_all id r [] = refl
active-apply_all id r (AdapterEvent.task_started j d ∷ es) =
    active-apply_all id (apply r (AdapterEvent.task_started j d)) es
    ∙ ap (λ was. task_open id was es) (contains-add_once r.active_task_ids j id)
active-apply_all id r (AdapterEvent.task_terminal j d ∷ es) =
    active-apply_all id (apply r (AdapterEvent.task_terminal j d)) es
    ∙ ap (λ was. task_open id was es) (contains-discard j r.active_task_ids id)
active-apply_all id r (e ∷ es) = active-apply_all id (apply r e) es

-- Whatever events arrive, a nested task is held as active exactly when its last start came after
-- its last terminal event.
pub active_iff_open :
    (requested : String) (resolved : Option String) (es : List AdapterEvent) (id : String)
    → contains (apply_all (init requested resolved) es).active_task_ids id ≡ task_open id false es
unfolding init
active_iff_open requested resolved es id = active-apply_all id _ es

-- The models that an event names.
abbrev pub models_of : AdapterEvent → List String
models_of (AdapterEvent.assistant text tools none) = []
models_of (AdapterEvent.assistant text tools (some m)) = m ∷ []
models_of (AdapterEvent.result event) = event.model_usage
models_of _ = []

abbrev pub mentions : String → List AdapterEvent → Bool
mentions m [] = false
mentions m (e ∷ es) = contains (models_of e) m || mentions m es

AllDistinct-snoc :
    (xs : List String) (x : String)
    → contains xs x ≡ false
    → AllDistinct xs
    → AllDistinct (xs ++ x ∷ [])
AllDistinct-snoc [] x h d = (refl, tt)
AllDistinct-snoc (y ∷ ys) x h d = (
  ground (arith, contains-snoc ys x y, eq_iff x y, eq_iff y x),
  AllDistinct-snoc ys x (ground arith) d.1,
)

AllDistinct-add_once :
    (xs : List String) (x : String) → AllDistinct xs → AllDistinct (add_once xs x)
unfolding add_once
AllDistinct-add_once xs x d = elim (Bool-cases (contains xs x)) [
  | inl e ↦ rw e d
  | inr e ↦ rw e (AllDistinct-snoc xs x e d)
]

record_models-AllDistinct :
    (us ms : List String) → AllDistinct ms → AllDistinct (record_models ms us)
unfolding record_models
record_models-AllDistinct [] ms d = d
record_models-AllDistinct (u ∷ us) ms d =
    record_models-AllDistinct us (add_once ms u) (AllDistinct-add_once ms u d)

contains-record_models :
    (us ms : List String) (m : String)
    → contains (record_models ms us) m ≡ (contains ms m || contains us m)
unfolding record_models
contains-record_models [] ms m = ground arith
contains-record_models (u ∷ us) ms m =
    ground (arith, contains-record_models us (add_once ms u) m, contains-add_once ms u m)

models-apply :
    (r : ResultReducer) (e : AdapterEvent)
    → (apply r e).actual_models ≡ record_models r.actual_models (models_of e)
unfolding apply
models-apply r (AdapterEvent.assistant text tools none) = refl
models-apply r (AdapterEvent.assistant text tools (some m)) = refl
models-apply r _ = refl

or_assoc : (a b c : Bool) → ((a || b) || c) ≡ (a || (b || c))
or_assoc a b c = ground arith

models-apply_all :
    (m : String) (r : ResultReducer) (es : List AdapterEvent)
    → AllDistinct r.actual_models
    → AllDistinct (apply_all r es).actual_models
      × (contains (apply_all r es).actual_models m ≡ (contains r.actual_models m || mentions m es))
unfolding apply_all
models-apply_all m r [] d = (d, ground arith)
models-apply_all m r (e ∷ es) d =
    let kept : AllDistinct (apply r e).actual_models =
      rw (models-apply r e) (record_models-AllDistinct (models_of e) r.actual_models d) in
    let (distinct, same) = models-apply_all m (apply r e) es kept in
    (
      distinct,
      same
          ∙ ap (λ ms. contains ms m || mentions m es) (models-apply r e)
          ∙ ap (λ b. b || mentions m es) (contains-record_models (models_of e) r.actual_models m)
          ∙ or_assoc (contains r.actual_models m) (contains (models_of e) m) (mentions m es),
    )

-- The models of a run are those that an assistant message or a result named, each listed once.
pub models_exact :
    (requested : String) (resolved : Option String) (es : List AdapterEvent) (m : String)
    → AllDistinct (apply_all (init requested resolved) es).actual_models
      × (contains (apply_all (init requested resolved) es).actual_models m ≡ mentions m es)
unfolding init
models_exact requested resolved es m = models-apply_all m _ es tt
