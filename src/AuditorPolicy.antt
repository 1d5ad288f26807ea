-- ===== src/AuditorPolicy.antt =====
-- src/qworker/auditor_policy.py: which tools an auditor and its nested agents may use.
use mathlib.Core.Path.{sym, subst}
use dogqoder.Prelude.{
  String, ◌≡◌, refl, ◌↔◌, ◌⊎◌, Bool-cases, Bool, true, false, not, ◌&&◌, Option, none, some, List,
  [], ◌∷◌, ◌==◌, arith, contains, is_some, inl, inr, Contains, Contains-of-contains, if◌then◌else◌,
  eq_iff,
}

-- `SUBMIT_AUDIT_TOOL` of audit_report.py.
abbrev pub submit_audit_tool : String
submit_audit_tool = "mcp__qworker_audit__submit_audit"

pub record PolicyDecision : Type 0 where
  pub allowed : Bool
  pub reason : String

abbrev pub visible_tools : List String
visible_tools = "Read" ∷ "Glob" ∷ "Grep" ∷ "WebFetch" ∷ "WebSearch" ∷ "Agent" ∷ []

abbrev pub denied_tools : List String
denied_tools = "Write" ∷ "Edit" ∷ "Bash" ∷ "NotebookEdit" ∷ []

unfoldable pub decide : String → Option String → PolicyDecision
decide tool_name agent_id =
    let allowed =
      if tool_name == submit_audit_tool
      then not (is_some agent_id)
      else contains visible_tools tool_name && not (is_some agent_id && (tool_name == "Agent")) in
    record {
      allowed = allowed;
      reason = if allowed then "auditor_tool_allowed" else "auditor_tool_denied";
    }

-- The tools that only read.
abbrev pub reading_tools : List String
reading_tools = "Read" ∷ "Glob" ∷ "Grep" ∷ "WebFetch" ∷ "WebSearch" ∷ []

-- What the auditor itself (`none`) and a nested agent may use.
abbrev pub IsPermitted : String → Option String → Type 0
IsPermitted tool none =
    Contains tool reading_tools ⊎ ((tool ≡ "Agent") ⊎ (tool ≡ submit_audit_tool))
IsPermitted tool (some agent) = Contains tool reading_tools

reason_iff :
    (tool : String) (agent_id : Option String)
    → ((decide tool agent_id).reason ≡ "auditor_tool_allowed")
      ↔ ((decide tool agent_id).allowed ≡ true)
unfolding decide
reason_iff tool agent_id = told _
  where
    told :
        (b : Bool)
        → (◌≡◌ {A = String}
            (if b then "auditor_tool_allowed" else "auditor_tool_denied")
            "auditor_tool_allowed")
          ↔ (b ≡ true)
    told true = (λ h. refl, λ h. refl)
    told false = (λ h. cc, λ h. cc)

allowed-IsPermitted :
    (tool : String) (agent_id : Option String)
    → (decide tool agent_id).allowed ≡ true
    → IsPermitted tool agent_id
unfolding decide
allowed-IsPermitted tool none h = elim (Bool-cases (tool == submit_audit_tool)) [
  | inl e ↦ inr (inr ((eq_iff tool submit_audit_tool).0 e))
  | inr e ↦ elim (Contains-of-contains tool visible_tools (ground arith)) [
    | inl m ↦ inl (inl m)
    | inr (inl m) ↦ inl (inr (inl m))
    | inr (inr (inl m)) ↦ inl (inr (inr (inl m)))
    | inr (inr (inr (inl m))) ↦ inl (inr (inr (inr (inl m))))
    | inr (inr (inr (inr (inl m)))) ↦ inl (inr (inr (inr (inr (inl m)))))
    | inr (inr (inr (inr (inr (inl m))))) ↦ inr (inl (sym m))
    | inr (inr (inr (inr (inr (inr m))))) ↦ absurd m
  ]
]
allowed-IsPermitted tool (some agent) h = elim (Bool-cases (tool == submit_audit_tool)) [
  | inl e ↦ absurd (no (rw e at h))
  | inr e ↦ elim (Contains-of-contains tool visible_tools (ground arith)) [
    | inl m ↦ inl m
    | inr (inl m) ↦ inr (inl m)
    | inr (inr (inl m)) ↦ inr (inr (inl m))
    | inr (inr (inr (inl m))) ↦ inr (inr (inr (inl m)))
    | inr (inr (inr (inr (inl m)))) ↦ inr (inr (inr (inr (inl m))))
    | inr (inr (inr (inr (inr (inl m))))) ↦ absurd (no (spawns (sym m)))
    | inr (inr (inr (inr (inr (inr m))))) ↦ absurd m
  ]
]
  where
    no : ◌≡◌ {A = Bool} false true → ⊥
    no h = cc

    spawns : tool ≡ "Agent" → false ≡ true
    spawns m = subst (λ t. (decide t (some agent)).allowed ≡ true) m h

reads :
    (tool : String) (agent_id : Option String)
    → Contains tool reading_tools
    → (decide tool agent_id).allowed ≡ true
unfolding decide
reads tool agent_id h = elim h [
  | inl e ↦ subst allows e (any_agent agent_id)
  | inr (inl e) ↦ subst allows e (any_agent agent_id)
  | inr (inr (inl e)) ↦ subst allows e (any_agent agent_id)
  | inr (inr (inr (inl e))) ↦ subst allows e (any_agent agent_id)
  | inr (inr (inr (inr (inl e)))) ↦ subst allows e (any_agent agent_id)
  | inr (inr (inr (inr (inr e)))) ↦ absurd e
]
  where
    allows : String → Type 0
    allows t = (decide t agent_id).allowed ≡ true

    any_agent : (o : Option String) → not (is_some o && false) ≡ true
    any_agent none = refl
    any_agent (some agent) = refl

permitted-allowed :
    (tool : String) (agent_id : Option String)
    → IsPermitted tool agent_id
    → (decide tool agent_id).allowed ≡ true
unfolding decide
permitted-allowed tool none (inl m) = reads tool none m
permitted-allowed tool none (inr (inl e)) = rw e
permitted-allowed tool none (inr (inr e)) = rw e
permitted-allowed tool (some agent) m = reads tool (some agent) m

-- A decision allows exactly what is permitted: the five tools that only read, and for the auditor itself
-- the spawning of an agent and the submission of its report. Every other tool is denied, known or not, and
-- the reason says which.
pub decide_iff :
    (tool : String) (agent_id : Option String)
    → (((decide tool agent_id).allowed ≡ true) ↔ IsPermitted tool agent_id)
      × (((decide tool agent_id).reason ≡ "auditor_tool_allowed") ↔ IsPermitted tool agent_id)
decide_iff tool agent_id = (
  (allowed-IsPermitted tool agent_id, permitted-allowed tool agent_id),
  (
    λ h. allowed-IsPermitted tool agent_id ((reason_iff tool agent_id).0 h),
    λ p. (reason_iff tool agent_id).1 (permitted-allowed tool agent_id p),
  ),
)
