-- ===== src/Reducer/Telemetry.antt =====
-- The bounded telemetry of reducer.py against the whole history of events.
use mathlib.Core.List.{append_assoc, append-nil}
use mathlib.Core.Path.{subst}
use dogqoder.Prelude.{
  ◌≤◌, String, ◌≡◌, refl, sym, ap, ◌⊎◌, inl, inr, Option, List, [], ◌∷◌, ◌++◌, ◌∙◌, arith, length,
  length-append, nat_eq, nat_eq_iff, Bool-cases, if◌then◌else◌,
}
use dogqoder.Domain.{AdapterEvent, SemanticKind}
use dogqoder.Reducer.{
  ResultReducer, max_semantic_events, init, semantic_kinds, pop_front, record_kinds, update, apply,
  apply_all,
}

-- All kinds of a run of events, none forgotten.
abbrev pub history : List AdapterEvent → List SemanticKind
history [] = []
history (e ∷ es) = semantic_kinds e ++ history es

-- The buffer is the end of the history: at most 128 kinds, and all of it unless it is full.
pub record IsTail (buffer all : List SemanticKind) : Type 0 where
  pub dropped : List SemanticKind
  pub splits : dropped ++ buffer ≡ all
  pub bounded : length buffer ≤ max_semantic_events
  pub full : (dropped ≡ []) ⊎ (length buffer ≡ max_semantic_events)

join {ℓ} : {A : Type ℓ} (xs ys zs all : List A) → xs ++ ys ≡ all → xs ++ (ys ++ zs) ≡ all ++ zs
join xs ys zs all h = sym (append_assoc xs ys zs) ∙ ap (λ l. l ++ zs) h

push-IsTail :
    (buffer all : List SemanticKind) (k : SemanticKind)
    → IsTail buffer all
    → IsTail
        ((if nat_eq (length buffer) max_semantic_events then pop_front buffer else buffer)
          ++ k ∷ [])
        (all ++ k ∷ [])
push-IsTail [] all k t = record {
  dropped = t.dropped;
  splits = join t.dropped [] (k ∷ []) all t.splits;
  bounded = omega arith;
  full = elim t.full [ inl e ↦ inl e | inr e ↦ absurd (omega arith) ];
}
push-IsTail (b ∷ bs) all k t = elim (Bool-cases (nat_eq (length (b ∷ bs)) max_semantic_events)) [
  | inl e ↦ rw e (record {
    dropped = t.dropped ++ b ∷ [];
    splits =
        append_assoc t.dropped (b ∷ []) (bs ++ k ∷ [])
        ∙ join t.dropped (b ∷ bs) (k ∷ []) all t.splits;
    bounded = omega (arith, length-append bs (k ∷ []), t.bounded);
    full = inr (omega (arith, length-append bs (k ∷ []), (nat_eq_iff (length (b ∷ bs)) 128).0 e));
  })
  | inr e ↦ rw e (record {
    dropped = t.dropped;
    splits = join t.dropped (b ∷ bs) (k ∷ []) all t.splits;
    bounded = ground (arith, length-append bs (k ∷ []));
    full = elim t.full [ inl e' ↦ inl e' | inr e' ↦ absurd (ground arith) ];
  })
]

record_kinds-IsTail :
    (kinds buffer all : List SemanticKind)
    → IsTail buffer all
    → IsTail (record_kinds buffer kinds) (all ++ kinds)
unfolding record_kinds
record_kinds-IsTail [] buffer all t = subst (IsTail buffer) (sym (append-nil all)) t
record_kinds-IsTail (k ∷ ks) buffer all t =
    subst (IsTail _) (append_assoc all (k ∷ []) ks)
      (record_kinds-IsTail ks _ (all ++ k ∷ []) (push-IsTail buffer all k t))

semantic_events-update :
    (r : ResultReducer) (e : AdapterEvent) → (update r e).semantic_events ≡ r.semantic_events
unfolding update
semantic_events-update r (AdapterEvent.system subtype message) = refl
semantic_events-update r _ = refl

apply_all-IsTail :
    (r : ResultReducer) (all : List SemanticKind) (es : List AdapterEvent)
    → IsTail r.semantic_events all
    → IsTail (apply_all r es).semantic_events (all ++ history es)
unfolding apply_all
apply_all-IsTail r all [] t = subst (IsTail r.semantic_events) (sym (append-nil all)) t
apply_all-IsTail r all (e ∷ es) t =
    subst (IsTail _) (append_assoc all (semantic_kinds e) (history es)) (
      apply_all-IsTail (apply r e) (all ++ semantic_kinds e) es (
        subst (λ b. IsTail b (all ++ semantic_kinds e)) (sym (semantic_events-update _ e))
          (record_kinds-IsTail (semantic_kinds e) r.semantic_events all t)))

-- Whatever events arrive, the retained telemetry is the end of the whole history of kinds, in
-- receive order, never longer than 128, and nothing was dropped unless it is exactly that long.
pub telemetry-IsTail :
    (requested : String) (resolved : Option String) (es : List AdapterEvent)
    → IsTail (apply_all (init requested resolved) es).semantic_events (history es)
unfolding init
telemetry-IsTail requested resolved es =
    apply_all-IsTail _ [] es
      (record { dropped = []; splits = refl; bounded = omega arith; full = inl refl })
