-- ===== src/Foreground/Prompts.antt =====
-- `_render_prompt` of src/qworker/auditor.py and src/qworker/coder.py.
use Prim.Native.String.{String, ◌++◌}
use dogqoder.Prelude.{List, [], ◌∷◌}
use dogqoder.Domain.{AuditContract}
use dogqoder.Coder.{CoderContract}

-- The strings, each but the last followed by the separator.
abbrev pub joined : String → List String → String
joined separator [] = ""
joined separator (s ∷ []) = s
joined separator (s ∷ t ∷ ss) = s ++ separator ++ joined separator (t ∷ ss)

abbrev pub dashed : List String → List String
dashed [] = []
dashed (s ∷ ss) = ("- " ++ s) ∷ dashed ss

-- `_render_items`
unfoldable pub render_items : List String → String
render_items [] = "- none"
render_items (s ∷ ss) = joined "\n" (dashed (s ∷ ss))

abbrev pub section_texts : List (String × String) → List String
section_texts [] = []
section_texts ((heading, body) ∷ rest) = (heading ++ "\n" ++ body) ∷ section_texts rest

unfoldable pub render_sections : List (String × String) → String
render_sections sections = joined "\n\n" (section_texts sections)

-- The last section of the prompt.
abbrev audit_contract_text : String
audit_contract_text =
    "Prepare exactly one object with keys outcome, summary, files, validation, risks, "
    ++ "verdict, confirmed, findings, and required_changes. outcome must be completed, "
    ++ "partial, or blocked; summary and verdict are strings; files, validation, risks, "
    ++ "confirmed, and required_changes are arrays of strings. findings is an array of "
    ++ "objects with exactly severity, evidence, and affected_requirement_or_location; the "
    ++ "first two are strings and the last is a string or null. Use these audit "
    ++ "destinations: VERDICT -> verdict; CONFIRMED -> confirmed; FINDINGS -> findings; "
    ++ "RISKS -> risks; REQUIRED_CHANGES -> required_changes. Call "
    ++ "mcp__qworker_audit__submit_audit exactly once with that object and do not repeat the"
    ++ " report as prose. If that tool is unavailable, return the object as exact JSON with "
    ++ "no surrounding text."

-- `_render_prompt` of the audit.
unfoldable pub render_audit_prompt : AuditContract → String
unfolding render_items render_sections
render_audit_prompt c = render_sections (
    ("ROLE", "Independent read-only auditor")
    ∷ ("OBJECTIVE", c.objective)
    ∷ ("WORKSPACE", c.cwd)
    ∷ ("CONTEXT", render_items c.context)
    ∷ (
      "CONSTRAINTS",
      render_items ("Do not modify the workspace or run shell commands." ∷ c.constraints),
    )
    ∷ ("ACCEPTANCE CRITERIA", render_items c.acceptance_criteria)
    ∷ ("REPORT CONTRACT", audit_contract_text)
    ∷ [])

-- The last section of the prompt.
abbrev coder_contract_text : String
coder_contract_text =
    "Return exactly one JSON object with keys outcome, summary, files, validation, and "
    ++ "risks. outcome must be completed, partial, or blocked; summary is a string; files is"
    ++ " an array of changed path strings; validation is an array of commands/checks and "
    ++ "outcomes; risks is an array of unresolved risk or blocker strings."

-- `_render_prompt` of the coder.
unfoldable pub render_coder_prompt : CoderContract → String
unfolding render_items render_sections
render_coder_prompt c = render_sections (
    ("ROLE", "Qoder shared-workspace coder")
    ∷ ("OBJECTIVE", c.objective)
    ∷ ("WORKSPACE", c.cwd)
    ∷ ("CONTEXT", render_items c.context)
    ∷ (
      "CONSTRAINTS",
      render_items (
          "Work directly in the caller workspace; do not create a worktree."
          ∷ "Preserve unrelated caller changes."
          ∷ "Do not reset, clean, stash, or roll back workspace state."
          ∷ "Do not commit, push, publish, deploy, or release changes."
          ∷ "Run relevant project validation and report its exact outcome." ∷ c.constraints),
    )
    ∷ ("ACCEPTANCE CRITERIA", render_items c.acceptance_criteria)
    ∷ ("REPORT CONTRACT", coder_contract_text)
    ∷ [])
