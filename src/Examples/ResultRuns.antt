-- ===== src/Examples/ResultRuns.antt =====
-- Runs of the result summaries of src/qworker/store.py and of `AuditReportCapture`.
use Prim.Native.String.{String}
use dogqoder.Prelude.{ℕ, ◌≡◌, refl, false, none, List, [], ◌∷◌, contains, arith}
use dogqoder.Chars.{fold, is_alnum, is_space, codes}
use dogqoder.Regex.{substitute, found, fullmatch}
use dogqoder.Json.{Json, Fields, from_fields, str}
use dogqoder.Patterns.{
  inline_credential, keyed_credential, credential_key, contains_sensitive_marker,
}
use dogqoder.PatternTests.{bare_host}
use dogqoder.Redaction.{unique_result_key, safe_result_summary, credential_result_key}
use dogqoder.Redaction.Keys.{contains-unique_result_key}
use dogqoder.Redaction.Summary.{IsBounded, safe_result_summary-IsBounded}
use dogqoder.AuditReport.Capture.{record_reports, last_report, text_of, record_reports-last}
use dogqoder.Examples.AuditRuns.{report_json}

abbrev taken : List String
taken = "note" ∷ "note#2" ∷ "note#3" ∷ []

third : unique_result_key "note" taken ≡ "note#4"
unfolding unique_result_key
third = refl

contains-unique_result_key_example : contains taken (unique_result_key "note" taken) ≡ false
contains-unique_result_key_example = contains-unique_result_key "note" taken

abbrev summary : Fields
summary =
    from_fields
      (("note", str "used sk-abc123") ∷ ("api_key", str "plain") ∷ ("outcome", str "partial") ∷ [])

-- The outcome given wins, the value of a credential key is replaced, and so is a key in a text.
redacts :
    safe_result_summary bare_host "completed" summary
    ≡ ("note", str "used [REDACTED]")
      ∷ ("api_key", str "[REDACTED]")
      ∷ ("outcome", str "completed")
      ∷ []
unfolding safe_result_summary substitute inline_credential keyed_credential fold is_alnum is_space
    credential_result_key found fullmatch credential_key contains_sensitive_marker
redacts = refl

safe_result_summary-IsBounded_example :
    IsBounded "completed" (safe_result_summary bare_host "completed" summary)
safe_result_summary-IsBounded_example =
    safe_result_summary-IsBounded bare_host "completed" summary (omega arith)

-- An encoder that tells just reports from nothing.
abbrev dumps : Json → List ℕ
dumps _ = codes "{}"

abbrev submissions : List Json
submissions = report_json ∷ Json.null ∷ []

record_reports-last_example :
    record_reports dumps submissions none ≡ text_of dumps (last_report submissions) none
record_reports-last_example = record_reports-last dumps submissions none
