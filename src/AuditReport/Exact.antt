-- ===== src/AuditReport/Exact.antt =====
-- The accepted audit reports of audit_report.py are exactly the described objects.
use mathlib.Core.Path.{subst}
use dogqoder.Prelude.{
  String, ◌≡◌, refl, ◌↔◌, true, Option, some, List, arith, lookup, keys, same_set, ◌>>=◌,
  >>=-eq-some, guard-eq-some,
}
use dogqoder.Json.{Json, Fields, Object, str, obj, fields, as_str}
use dogqoder.Domain.{Outcome, AuditFinding}
use dogqoder.AuditReport.{
  ParsedAuditReport, report_keys, report_outcome, string_list, parse_findings,
  parse_audit_report_payload,
}
use dogqoder.AuditReport.Describe.{IsStrings, At, IsReport}
use dogqoder.AuditReport.Readers.{
  report_outcome_inv, string_list_inv, at_inv, str_at_inv, parse_findings_inv, string_list_of,
  str_of, outcome_of, parse_findings_of,
}

record Parts (r : ParsedAuditReport) (fs : Object) : Type 0 where
  exact_keys : same_set (keys fs) report_keys ≡ true
  outcome : (lookup "outcome" fs >>= as_str >>= report_outcome) ≡ some r.outcome
  summary : (lookup "summary" fs >>= as_str) ≡ some r.summary
  files : (lookup "files" fs >>= string_list) ≡ some r.files
  validation : (lookup "validation" fs >>= string_list) ≡ some r.validation
  risks : (lookup "risks" fs >>= string_list) ≡ some r.risks
  verdict : (lookup "verdict" fs >>= as_str) ≡ some r.verdict
  confirmed : (lookup "confirmed" fs >>= string_list) ≡ some r.confirmed
  findings : (lookup "findings" fs >>= parse_findings) ≡ some r.findings
  required_changes : (lookup "required_changes" fs >>= string_list) ≡ some r.required_changes

-- The statements after the test of the keys, over what is read at each key.
abbrev assemble :
    Option Outcome
    → Option String
    → Option (List String)
    → Option (List String)
    → Option (List String)
    → Option String
    → Option (List String)
    → Option (List AuditFinding)
    → Option (List String)
    → Option ParsedAuditReport
assemble o s f v r d c g q = do
  outcome ← o
  summary ← s
  files ← f
  validation ← v
  risks ← r
  verdict ← d
  confirmed ← c
  findings ← g
  required_changes ← q
  some (record {
    outcome = outcome;
    summary = summary;
    files = files;
    validation = validation;
    risks = risks;
    verdict = verdict;
    confirmed = confirmed;
    findings = findings;
    required_changes = required_changes;
  })

assemble_inv :
    (o : Option Outcome) (s : Option String) (f v k : Option (List String)) (d : Option String)
    (c : Option (List String)) (g : Option (List AuditFinding)) (q : Option (List String))
    (r : ParsedAuditReport)
    → assemble o s f v k d c g q ≡ some r
    → (o ≡ some r.outcome)
      × (s ≡ some r.summary)
      × (f ≡ some r.files)
      × (v ≡ some r.validation)
      × (k ≡ some r.risks)
      × (d ≡ some r.verdict)
      × (c ≡ some r.confirmed)
      × (g ≡ some r.findings)
      × (q ≡ some r.required_changes)
assemble_inv o s f v k d c g q r h = ground arith

Parts-of-parse :
    (fs : Fields) (r : ParsedAuditReport)
    → parse_audit_report_payload (obj fs) ≡ some r
    → Parts r (fields fs)
unfolding parse_audit_report_payload
Parts-of-parse fs r h =
    let (same, rest) = guard-eq-some (same_set (keys (fields fs)) report_keys) _ h in
    let (o, s, f, v, k, d, c, g, q) = assemble_inv _ _ _ _ _ _ _ _ _ r rest in
    record {
      exact_keys = same;
      outcome = o;
      summary = s;
      files = f;
      validation = v;
      risks = k;
      verdict = d;
      confirmed = c;
      findings = g;
      required_changes = q;
    }

IsReport-of-parse :
    (j : Json) (r : ParsedAuditReport) → parse_audit_report_payload j ≡ some r → IsReport r j
unfolding parse_audit_report_payload
IsReport-of-parse (obj fs) r h = from_parts (Parts-of-parse fs r h)
  where
    list_at :
        (k : String) (ss : List String)
        → (lookup k (fields fs) >>= string_list) ≡ some ss
        → At k (fields fs) (IsStrings ss)
    list_at k ss = at_inv k (fields fs) string_list (IsStrings ss) ss (λ v. string_list_inv v ss)

    from_parts : Parts r (fields fs) → IsReport r (obj fs)
    from_parts p =
        let (text, found, named) =
          >>=-eq-some (lookup "outcome" (fields fs) >>= as_str) report_outcome p.outcome in
        let (named', honest) = report_outcome_inv text r.outcome named in
        record {
          object = fs;
          is_object = refl;
          exact_keys = p.exact_keys;
          outcome =
              subst (λ t. lookup "outcome" (fields fs) ≡ some (str t)) named'
                (str_at_inv "outcome" (fields fs) text found);
          not_failed = honest;
          summary = str_at_inv "summary" (fields fs) r.summary p.summary;
          files = list_at "files" r.files p.files;
          validation = list_at "validation" r.validation p.validation;
          risks = list_at "risks" r.risks p.risks;
          verdict = str_at_inv "verdict" (fields fs) r.verdict p.verdict;
          confirmed = list_at "confirmed" r.confirmed p.confirmed;
          findings =
              at_inv "findings" (fields fs) parse_findings _ r.findings
                (λ v. parse_findings_inv v r.findings) p.findings;
          required_changes = list_at "required_changes" r.required_changes p.required_changes;
        }
IsReport-of-parse _ r h = cc

parse-of-IsReport :
    (j : Json) (r : ParsedAuditReport) → IsReport r j → parse_audit_report_payload j ≡ some r
unfolding parse_audit_report_payload
parse-of-IsReport j r h = rw h.is_object (
    rw h.exact_keys (
      rw (
        outcome_of "outcome" (fields h.object) r.outcome h.outcome h.not_failed,
        str_of "summary" (fields h.object) r.summary h.summary,
        string_list_of "files" (fields h.object) r.files h.files,
        string_list_of "validation" (fields h.object) r.validation h.validation,
        string_list_of "risks" (fields h.object) r.risks h.risks,
        str_of "verdict" (fields h.object) r.verdict h.verdict,
        string_list_of "confirmed" (fields h.object) r.confirmed h.confirmed,
        parse_findings_of "findings" (fields h.object) r.findings h.findings,
        string_list_of "required_changes" (fields h.object) r.required_changes h.required_changes,
      )))

-- A value is accepted as a report exactly when it is an object with the contract's nine keys and
-- no other, whose values have the contract's types, every finding exactly its three keys, and whose
-- outcome is completed, partial or blocked; the report read holds exactly those values.
pub parse_iff :
    (j : Json) (r : ParsedAuditReport) → (parse_audit_report_payload j ≡ some r) ↔ IsReport r j
parse_iff j r = (IsReport-of-parse j r, parse-of-IsReport j r)
