-- ===== src/AuditReport.antt =====
-- src/qworker/audit_report.py: the validation of a submitted audit report.
pub mod Describe
pub mod Readers
pub mod Exact
pub mod Fence
pub mod Capture
use dogqoder.Prelude.{
  String, Bool, true, false, Option, none, some, List, [], ◌∷◌, ◌==◌, lookup, keys, same_set, ◌>>=◌,
  ◌>>◌, guard, if◌then◌else◌,
}
use dogqoder.Json.{
  Json, Object, null, bool, int, float, str, arr, obj, as_str, as_object, as_list, strings,
}
use dogqoder.Domain.{Outcome, AuditFinding}

-- `AUDIT_REPORT_KEYS`
abbrev pub report_keys : List String
report_keys =
    "outcome" ∷ "summary" ∷ "files" ∷ "validation" ∷ "risks" ∷ "verdict" ∷ "confirmed" ∷ "findings"
    ∷ "required_changes" ∷ []

-- `AUDIT_FINDING_KEYS`
abbrev pub finding_keys : List String
finding_keys = "severity" ∷ "evidence" ∷ "affected_requirement_or_location" ∷ []

pub record ParsedAuditReport : Type 0 where
  pub outcome : Outcome
  pub summary : String
  pub files : List String
  pub validation : List String
  pub risks : List String
  pub verdict : String
  pub confirmed : List String
  pub findings : List AuditFinding
  pub required_changes : List String

-- Membership in `AUDIT_REPORT_OUTCOMES`, with the outcome that the text names.
unfoldable pub report_outcome : String → Option Outcome
report_outcome s =
    if s == "completed"
    then some Outcome.completed
    else if s == "partial"
    then some Outcome.partial
    else if s == "blocked"
    then some Outcome.blocked
    else none

-- `_is_string_list`, with the list.
unfoldable pub string_list : Json → Option (List String)
string_list value = do xs ← as_list value; strings xs

-- A string or null, as `affected` must be.
abbrev pub optional_str : Json → Option (Option String)
optional_str null = some none
optional_str (str s) = some (some s)
optional_str _ = none

-- One round of the loop of `_parse_findings`.
unfoldable pub parse_finding : Json → Option AuditFinding
parse_finding value = do
  item ← as_object value
  guard (same_set (keys item) finding_keys)
  severity ← lookup "severity" item >>= as_str
  evidence ← lookup "evidence" item >>= as_str
  affected ← lookup "affected_requirement_or_location" item >>= optional_str
  some (record {
    severity = severity;
    evidence = evidence;
    affected_requirement_or_location = affected;
  })

unfoldable pub parse_finding_list : List Json → Option (List AuditFinding)
unfolding parse_finding
parse_finding_list [] = some []
parse_finding_list (x ∷ xs) =
    let rest = parse_finding_list xs in
    do found ← parse_finding x; findings ← rest; some (found ∷ findings)

unfoldable pub parse_findings : Json → Option (List AuditFinding)
unfolding parse_finding_list
parse_findings value = do xs ← as_list value; parse_finding_list xs

unfoldable pub parse_audit_report_payload : Json → Option ParsedAuditReport
unfolding report_outcome string_list parse_findings
parse_audit_report_payload payload = do
  report ← as_object payload
  guard (same_set (keys report) report_keys)
  outcome ← lookup "outcome" report >>= as_str >>= report_outcome
  summary ← lookup "summary" report >>= as_str
  files ← lookup "files" report >>= string_list
  validation ← lookup "validation" report >>= string_list
  risks ← lookup "risks" report >>= string_list
  verdict ← lookup "verdict" report >>= as_str
  confirmed ← lookup "confirmed" report >>= string_list
  findings ← lookup "findings" report >>= parse_findings
  required_changes ← lookup "required_changes" report >>= string_list
  some (record {
    outcome = outcome;
    summary = summary;
    files = files;
    validation = validation;
    risks = risks;
    verdict = verdict;
    confirmed = confirmed;
    findings = findings;
    required_changes = required_changes;
  })
