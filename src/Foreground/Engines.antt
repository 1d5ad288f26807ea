-- ===== src/Foreground/Engines.antt =====
-- The two engines: `ForegroundAuditor` with `ResultReducer`, and `ForegroundCoder` with
-- `_CoderResultReducer`.
use dogqoder.Prelude.{ℕ, Option, none, some, String, List, [], ◌∷◌, ◌++◌}
use dogqoder.Json.{Json}
use dogqoder.Lifecycle.{NestedState}
use dogqoder.Domain.{Outcome, AuditContract, AuditResult}
use dogqoder.Reducer
use dogqoder.Reducer.{ResultReducer}
use dogqoder.Coder
use dogqoder.Coder.{CoderContract, CoderResult, CoderReducer}
use dogqoder.Foreground.{Engine}
use dogqoder.Foreground.Prompts.{render_audit_prompt, render_coder_prompt}

-- `_failure_result` of the auditor.
unfoldable pub audit_failure : AuditContract → String → String → Option String → AuditResult
audit_failure contract summary error_code resolved = record {
  outcome = Outcome.failed;
  summary = summary;
  files = [];
  validation = [];
  risks = [];
  requested_model = contract.requested_model;
  resolved_model = resolved;
  verdict = none;
  confirmed = [];
  findings = [];
  required_changes = [];
  actual_models = [];
  session_id = none;
  nested_state = NestedState.nothing;
  warnings = [];
  errors = error_code ∷ [];
}

-- The result after a `disconnect` that failed.
unfoldable pub audit_marked : String → AuditResult → AuditResult
audit_marked code a = record a {
  outcome = Outcome.failed;
  warnings = a.warnings ++ "disconnect_failed" ∷ [];
  errors = a.errors ++ code ∷ [];
}

unfoldable pub coder_marked : String → CoderResult → CoderResult
coder_marked code a = record a {
  outcome = Outcome.failed;
  warnings = a.warnings ++ "disconnect_failed" ∷ [];
  errors = a.errors ++ code ∷ [];
}

-- `ForegroundAuditor`
unfoldable pub auditor : (List ℕ → Option Json) → Engine AuditContract ResultReducer AuditResult
unfolding audit_failure audit_marked render_audit_prompt
auditor loads = record {
  requested_model = λ c. c.requested_model;
  prompt = render_audit_prompt;
  init = λ requested resolved. Reducer.init requested (some resolved);
  apply = Reducer.apply;
  needs_settlement = Reducer.needs_settlement;
  finish = Reducer.finish loads;
  failure_result = audit_failure;
  mark_failed = audit_marked;
}

-- `ForegroundCoder`
unfoldable pub coder : (String → Option Json) → Engine CoderContract CoderReducer CoderResult
unfolding coder_marked render_coder_prompt
coder loads = record {
  requested_model = λ c. c.requested_model;
  prompt = render_coder_prompt;
  init = Coder.init;
  apply = Coder.apply;
  needs_settlement = Coder.needs_settlement;
  finish = Coder.finish loads;
  failure_result = Coder.failure_result;
  mark_failed = coder_marked;
}
