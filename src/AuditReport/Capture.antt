-- ===== src/AuditReport/Capture.antt =====
-- `AuditReportCapture` of src/qworker/audit_report.py, which holds the text of the latest valid report.
use dogqoder.Prelude.{
  ℕ, ◌≡◌, refl, ◌∙◌, Bool, true, false, Option, none, some, List, [], ◌∷◌, is_some, if◌then◌else◌,
  arith,
}
use dogqoder.Json.{Json}
use dogqoder.AuditReport.{parse_audit_report_payload}

-- The last payload that is a report.
abbrev pub last_report : List Json → Option Json
last_report [] = none
last_report (payload ∷ rest) = elim (last_report rest) [
  | some later ↦ some later
  | none ↦ if is_some (parse_audit_report_payload payload) then some payload else none
]

-- `dumps` stands for `json.dumps` with sorted keys and compact separators.
module _ (dumps : Json → List ℕ) where
  -- `record`, on the text held; `true` tells that the report was valid.
  unfoldable pub record_report : Json → Option (List ℕ) → Bool × Option (List ℕ)
  record_report payload report_text =
      if is_some (parse_audit_report_payload payload)
      then (true, some (dumps payload))
      else (false, report_text)

  unfoldable pub record_reports : List Json → Option (List ℕ) → Option (List ℕ)
  unfolding record_report
  record_reports [] report_text = report_text
  record_reports (payload ∷ rest) report_text =
      record_reports rest (record_report payload report_text).1

  abbrev pub text_of : Option Json → Option (List ℕ) → Option (List ℕ)
  text_of none before = before
  text_of (some payload) before = some (dumps payload)

  -- After any submissions, the text held is that of the last one that is a report, and the text held
  -- before where none is.
  pub record_reports-last :
      (payloads : List Json) (before : Option (List ℕ))
      → record_reports payloads before ≡ text_of (last_report payloads) before
  unfolding record_reports record_report
  record_reports-last [] before = refl
  record_reports-last (payload ∷ rest) before =
      record_reports-last rest (record_report payload before).1 ∙ latest (last_report rest)
    where
      latest :
          (later : Option Json)
          → text_of later (record_report payload before).1
            ≡ text_of
                (elim later [
                  | some p ↦ some p
                  | none ↦
                      if is_some (parse_audit_report_payload payload) then some payload else none
                ])
                before
      latest none = ground arith
      latest (some p) = refl
