-- ===== src/AuditReport/Readers.antt =====
-- The readers of audit_report.py accept exactly the described values.
use mathlib.Core.Path.{subst}
use dogqoder.Prelude.{
  String, ◌≡◌, refl, ◌≢◌, Option, none, some, List, [], ◌∷◌, arith, eq_iff, lookup, keys, same_set,
  ◌>>=◌, inl, inr, Option-cases, >>=-eq-some, guard-eq-some,
}
use dogqoder.Json.{
  Json, Items, Object, null, str, arr, obj, fields, items, as_str, strings, str_list,
}
use dogqoder.Domain.{Outcome, AuditFinding}
use dogqoder.AuditReport.{
  finding_keys, report_outcome, string_list, optional_str, parse_finding, parse_finding_list,
  parse_findings,
}
use dogqoder.Domain.{outcome_text}
use dogqoder.AuditReport.Describe.{IsStrings, At, IsAffected, IsFinding, AreFindings}

-- Each reader of a value, inverted.
pub as_str_inv : (v : Json) (s : String) → as_str v ≡ some s → v ≡ str s
as_str_inv (str t) s h = ground arith
as_str_inv _ s h = cc

pub report_outcome_inv :
    (s : String) (o : Outcome)
    → report_outcome s ≡ some o
    → (s ≡ outcome_text o) × (o ≢ Outcome.failed)
unfolding report_outcome
report_outcome_inv s o h =
    ground (arith, eq_iff s "completed", eq_iff s "partial", eq_iff s "blocked")

strings_inv : (xs : List Json) (ss : List String) → strings xs ≡ some ss → xs ≡ str_list ss
strings_inv [] ss h = ground arith
strings_inv (str s ∷ xs) ss h = elim (Option-cases (strings xs)) [
  | inl e ↦ ground arith
  | inr (ts, e) ↦ cc (strings_inv xs ts e, rw e at h)
]
strings_inv (_ ∷ xs) ss h = cc

pub string_list_inv : (v : Json) (ss : List String) → string_list v ≡ some ss → IsStrings ss v
unfolding string_list
string_list_inv (arr xs) ss h = (xs, refl, strings_inv (items xs) ss h)
string_list_inv _ ss h = cc

-- What is read at a key, inverted.
pub at_inv {ℓ} :
    {A : Type ℓ} (k : String) (fs : Object) (read : Json → Option A) (P : Json → Type 0) (a : A)
    → ((v : Json) → read v ≡ some a → P v)
    → (lookup k fs >>= read) ≡ some a
    → At k fs P
at_inv k fs read P a inv h =
    let (v, found, good) = >>=-eq-some (lookup k fs) read h in (v, found, inv v good)

pub str_at_inv :
    (k : String) (fs : Object) (s : String)
    → (lookup k fs >>= as_str) ≡ some s
    → lookup k fs ≡ some (str s)
str_at_inv k fs s h =
    let (v, found, good) = >>=-eq-some (lookup k fs) as_str h in cc (found, as_str_inv v s good)

optional_str_inv : (v : Json) (s : Option String) → optional_str v ≡ some s → IsAffected s v
optional_str_inv null none h = refl
optional_str_inv null (some t) h = cc
optional_str_inv (str s) none h = cc
optional_str_inv (str s) (some t) h = ground arith
optional_str_inv _ s h = cc

-- The statements of one round after the test of the keys.
abbrev finding : Option String → Option String → Option (Option String) → Option AuditFinding
finding s e a = do
  severity ← s
  evidence ← e
  affected ← a
  some (record {
    severity = severity;
    evidence = evidence;
    affected_requirement_or_location = affected;
  })

finding_parts :
    (s e : Option String) (a : Option (Option String)) (f : AuditFinding)
    → finding s e a ≡ some f
    → (s ≡ some f.severity) × (e ≡ some f.evidence) × (a ≡ some f.affected_requirement_or_location)
finding_parts s e a f h = ground arith

IsFinding-inv : (v : Json) (f : AuditFinding) → parse_finding v ≡ some f → IsFinding f v
unfolding parse_finding
IsFinding-inv (obj fs) f h =
    let (same, rest) = guard-eq-some (same_set (keys (fields fs)) finding_keys) _ h in
    let (s, e, a) = finding_parts _ _ _ f rest in
    record {
      object = fs;
      is_object = refl;
      exact_keys = same;
      severity = str_at_inv "severity" (fields fs) f.severity s;
      evidence = str_at_inv "evidence" (fields fs) f.evidence e;
      affected =
          at_inv "affected_requirement_or_location" (fields fs) optional_str
            (IsAffected f.affected_requirement_or_location) f.affected_requirement_or_location
            (λ v. optional_str_inv v f.affected_requirement_or_location) a;
    }
IsFinding-inv _ f h = cc

findings_inv :
    (xs : List Json) (fs : List AuditFinding) → parse_finding_list xs ≡ some fs → AreFindings fs xs
unfolding parse_finding_list
findings_inv [] [] h = tt
findings_inv [] (f ∷ fs) h = cc
findings_inv (x ∷ xs) fs h =
    let (f, found, h') = >>=-eq-some (parse_finding x) _ h in
    let (gs, rest, e) = >>=-eq-some (parse_finding_list xs) _ h' in
    let same : f ∷ gs ≡ fs = cc in
    subst (λ r. AreFindings r (x ∷ xs)) same (IsFinding-inv x f found, findings_inv xs gs rest)

pub parse_findings_inv :
    (v : Json) (fs : List AuditFinding)
    → parse_findings v ≡ some fs
    → (xs : Items) × (v ≡ arr xs) × AreFindings fs (items xs)
unfolding parse_findings
parse_findings_inv (arr xs) fs h = (xs, refl, findings_inv (items xs) fs h)
parse_findings_inv _ fs h = cc

-- The same readers, the other way round.
strings-str_list : (ss : List String) → strings (str_list ss) ≡ some ss
strings-str_list [] = refl
strings-str_list (s ∷ ss) = rw (strings-str_list ss)

pub string_list_of :
    (k : String) (fs : Object) (ss : List String)
    → At k fs (IsStrings ss)
    → (lookup k fs >>= string_list) ≡ some ss
unfolding string_list
string_list_of k fs ss (v, found, (xs, e, same)) = rw (found, e, same) (strings-str_list ss)

pub str_of :
    (k : String) (fs : Object) (s : String)
    → lookup k fs ≡ some (str s)
    → (lookup k fs >>= as_str) ≡ some s
str_of k fs s found = rw found

pub outcome_of :
    (k : String) (fs : Object) (o : Outcome)
    → lookup k fs ≡ some (str (outcome_text o))
    → o ≢ Outcome.failed
    → (lookup k fs >>= as_str >>= report_outcome) ≡ some o
unfolding report_outcome
outcome_of k fs Outcome.completed found h = rw found
outcome_of k fs Outcome.partial found h = rw found
outcome_of k fs Outcome.blocked found h = rw found
outcome_of k fs Outcome.failed found h = absurd (h refl)

affected_of :
    (k : String) (fs : Object) (a : Option String)
    → At k fs (IsAffected a)
    → (lookup k fs >>= optional_str) ≡ some a
affected_of k fs none (v, found, e) = rw (found, e)
affected_of k fs (some s) (v, found, e) = rw (found, e)

finding_of : (v : Json) (f : AuditFinding) → IsFinding f v → parse_finding v ≡ some f
unfolding parse_finding
finding_of v f h = rw h.is_object (
    rw h.exact_keys (
      rw (h.severity, h.evidence)
        (rw (
          affected_of "affected_requirement_or_location" (fields h.object)
            f.affected_requirement_or_location h.affected))))

findings_of :
    (xs : List Json) (fs : List AuditFinding) → AreFindings fs xs → parse_finding_list xs ≡ some fs
unfolding parse_finding_list
findings_of [] [] h = refl
findings_of [] (f ∷ fs) h = absurd h
findings_of (x ∷ xs) [] h = absurd h
findings_of (x ∷ xs) (f ∷ fs) h = rw (finding_of x f h.0, findings_of xs fs h.1)

pub parse_findings_of :
    (k : String) (o : Object) (fs : List AuditFinding)
    → At k o (λ v. (xs : Items) × (v ≡ arr xs) × AreFindings fs (items xs))
    → (lookup k o >>= parse_findings) ≡ some fs
unfolding parse_findings
parse_findings_of k o fs (v, found, (xs, e, h)) = rw (found, e) (findings_of (items xs) fs h)
