-- ===== src/AuditReport/Describe.antt =====
-- What audit_report.py accepts, said without its parser: the objects that a report describes.
use dogqoder.Prelude.{
  String, ◌≡◌, ◌≢◌, true, Option, none, some, List, [], ◌∷◌, lookup, keys, same_set,
}
use dogqoder.Json.{Json, Items, Fields, Object, null, str, arr, obj, fields, items, str_list}
use dogqoder.Domain.{Outcome, outcome_text, AuditFinding}
use dogqoder.AuditReport.{ParsedAuditReport, report_keys, finding_keys}

-- The value is an array of just these strings.
abbrev pub IsStrings : List String → Json → Type 0
IsStrings ss value = (xs : Items) × (value ≡ arr xs) × (items xs ≡ str_list ss)

-- The value at a key.
abbrev pub At : String → Object → (Json → Type 0) → Type 0
At k fs P = (v : Json) × (lookup k fs ≡ some v) × P v

abbrev pub IsAffected : Option String → Json → Type 0
IsAffected none v = v ≡ null
IsAffected (some s) v = v ≡ str s

pub record IsFinding (f : AuditFinding) (value : Json) : Type 0 where
  pub object : Fields
  pub is_object : value ≡ obj object
  pub exact_keys : same_set (keys (fields object)) finding_keys ≡ true
  pub severity : lookup "severity" (fields object) ≡ some (str f.severity)
  pub evidence : lookup "evidence" (fields object) ≡ some (str f.evidence)
  pub affected :
      At "affected_requirement_or_location"
        (fields object)
        (IsAffected f.affected_requirement_or_location)

abbrev pub AreFindings : List AuditFinding → List Json → Type 0
AreFindings [] [] = Unit
AreFindings (f ∷ fs) (x ∷ xs) = IsFinding f x × AreFindings fs xs
AreFindings _ _ = ⊥

pub record IsReport (r : ParsedAuditReport) (value : Json) : Type 0 where
  pub object : Fields
  pub is_object : value ≡ obj object
  pub exact_keys : same_set (keys (fields object)) report_keys ≡ true
  pub outcome : lookup "outcome" (fields object) ≡ some (str (outcome_text r.outcome))
  pub not_failed : r.outcome ≢ Outcome.failed
  pub summary : lookup "summary" (fields object) ≡ some (str r.summary)
  pub files : At "files" (fields object) (IsStrings r.files)
  pub validation : At "validation" (fields object) (IsStrings r.validation)
  pub risks : At "risks" (fields object) (IsStrings r.risks)
  pub verdict : lookup "verdict" (fields object) ≡ some (str r.verdict)
  pub confirmed : At "confirmed" (fields object) (IsStrings r.confirmed)
  pub findings :
      At "findings"
        (fields object)
        (λ v. (xs : Items) × (v ≡ arr xs) × AreFindings r.findings (items xs))
  pub required_changes : At "required_changes" (fields object) (IsStrings r.required_changes)
