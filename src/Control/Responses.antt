-- ===== src/Control/Responses.antt =====
-- The responses that `parse_approval_response` of src/qworker/control.py takes, said without it.
use dogqoder.Prelude.{
  ◌≡◌, ◌↔◌, refl, Bool, true, Option, none, some, String, List, [], ◌∷◌, arith, eq_iff, same_set,
  lookup, keys, guard, ◌>>◌, >>=-eq-some, guard-eq-some,
}
use dogqoder.Json.{Object}
use dogqoder.Control.{
  PermissionAction, ElicitationAction, Mode, ApprovalRequest, ApprovalDecision, parse_permission,
  parse_elicitation, object_of, action_of, elicitation_response, parse_approval_response,
}

abbrev pub permission_text : PermissionAction → String
permission_text PermissionAction.allow = "allow"
permission_text PermissionAction.deny = "deny"

abbrev pub elicitation_text : ElicitationAction → String
elicitation_text ElicitationAction.accept = "accept"
elicitation_text ElicitationAction.decline = "decline"
elicitation_text ElicitationAction.cancel = "cancel"

-- The response has these keys and no other.
abbrev pub HasKeys : Object → List String → Type 0
HasKeys response names = same_set (keys response) names ≡ true

-- What an elicitation's response carries besides its action.
abbrev pub Carries : (Object → Bool) → Mode → ElicitationAction → Object → Option Object → Type 0
Carries matches Mode.form ElicitationAction.accept response (some content) =
    HasKeys response ("action" ∷ "content" ∷ [])
    × (object_of (lookup "content" response) ≡ some content)
    × (matches content ≡ true)
Carries matches Mode.form ElicitationAction.accept response none = ⊥
Carries matches mode action response (some content) = ⊥
Carries matches mode action response none = HasKeys response ("action" ∷ [])

-- The response says that decision, in the request's terms.
abbrev pub Answers : (Object → Bool) → ApprovalRequest → Object → ApprovalDecision → Type 0
Answers matches (ApprovalRequest.permission tool agent message) response
      (ApprovalDecision.permission action) =
    HasKeys response ("action" ∷ []) × (action_of response ≡ some (permission_text action))
Answers matches (ApprovalRequest.elicitation server mode message schema) response
      (ApprovalDecision.elicitation action content) =
    (action_of response ≡ some (elicitation_text action))
    × Carries matches mode action response content
Answers matches request response decision = ⊥

parse_permission_of :
    (o : Option String) (a : PermissionAction)
    → o ≡ some (permission_text a)
    → parse_permission o ≡ some a
parse_permission_of o PermissionAction.allow h = rw h refl
parse_permission_of o PermissionAction.deny h = rw h refl

parse_permission_iff :
    (o : Option String) (a : PermissionAction)
    → (parse_permission o ≡ some a) ↔ (o ≡ some (permission_text a))
parse_permission_iff none a = (λ h. cc, λ h. cc)
parse_permission_iff (some s) a =
    (λ h. ground (arith, eq_iff s "allow", eq_iff s "deny"), parse_permission_of (some s) a)

parse_elicitation_of :
    (o : Option String) (a : ElicitationAction)
    → o ≡ some (elicitation_text a)
    → parse_elicitation o ≡ some a
parse_elicitation_of o ElicitationAction.accept h = rw h refl
parse_elicitation_of o ElicitationAction.decline h = rw h refl
parse_elicitation_of o ElicitationAction.cancel h = rw h refl

parse_elicitation_iff :
    (o : Option String) (a : ElicitationAction)
    → (parse_elicitation o ≡ some a) ↔ (o ≡ some (elicitation_text a))
parse_elicitation_iff none a = (λ h. cc, λ h. cc)
parse_elicitation_iff (some s) a = (
  λ h. ground (arith, eq_iff s "accept", eq_iff s "decline", eq_iff s "cancel"),
  parse_elicitation_of (some s) a,
)

-- A response that must hold its action only.
bare_inv :
    (response : Object) (d e : ApprovalDecision)
    → (guard (same_set (keys response) ("action" ∷ [])) >> some d) ≡ some e
    → HasKeys response ("action" ∷ []) × (d ≡ e)
bare_inv response d e h =
    let (only, k) = guard-eq-some (same_set (keys response) ("action" ∷ [])) _ h in (only, cc)

Carries-inv :
    (matches : Object → Bool) (mode : Mode) (a b : ElicitationAction) (response : Object)
    (content : Option Object)
    → elicitation_response matches mode a response ≡ some (ApprovalDecision.elicitation b content)
    → (a ≡ b) × Carries matches mode a response content
unfolding elicitation_response
Carries-inv matches Mode.form ElicitationAction.accept b response (some content) h =
    let (both, h1) = guard-eq-some (same_set (keys response) ("action" ∷ "content" ∷ [])) _ h in
    let (c, found, h2) = >>=-eq-some (object_of (lookup "content" response)) _ h1 in
    let (valid, h3) = guard-eq-some (matches c) _ h2 in
    let same : c ≡ content = cc in (cc, (both, rw same at found, rw same at valid))
Carries-inv matches Mode.form ElicitationAction.accept b response none h =
    let (both, h1) = guard-eq-some (same_set (keys response) ("action" ∷ "content" ∷ [])) _ h in
    let (c, found, h2) = >>=-eq-some (object_of (lookup "content" response)) _ h1 in
    let (valid, h3) = guard-eq-some (matches c) _ h2 in cc
Carries-inv matches Mode.url ElicitationAction.accept b response none h =
    let (only, same) = bare_inv response _ _ h in (cc, only)
Carries-inv matches Mode.form ElicitationAction.decline b response none h =
    let (only, same) = bare_inv response _ _ h in (cc, only)
Carries-inv matches Mode.form ElicitationAction.cancel b response none h =
    let (only, same) = bare_inv response _ _ h in (cc, only)
Carries-inv matches Mode.url ElicitationAction.decline b response none h =
    let (only, same) = bare_inv response _ _ h in (cc, only)
Carries-inv matches Mode.url ElicitationAction.cancel b response none h =
    let (only, same) = bare_inv response _ _ h in (cc, only)
Carries-inv matches Mode.form ElicitationAction.decline b response (some content) h =
    let (only, same) = bare_inv response _ _ h in cc
Carries-inv matches Mode.form ElicitationAction.cancel b response (some content) h =
    let (only, same) = bare_inv response _ _ h in cc
Carries-inv matches Mode.url a b response (some content) h = refused a h
  where
    refused :
        (x : ElicitationAction)
        → elicitation_response matches Mode.url x response
          ≡ some (ApprovalDecision.elicitation b (some content))
        → (x ≡ b) × Carries matches Mode.url x response (some content)
    refused ElicitationAction.accept k = let (only, same) = bare_inv response _ _ k in cc
    refused ElicitationAction.decline k = let (only, same) = bare_inv response _ _ k in cc
    refused ElicitationAction.cancel k = let (only, same) = bare_inv response _ _ k in cc

response_of_Carries :
    (matches : Object → Bool) (mode : Mode) (a : ElicitationAction) (response : Object)
    (content : Option Object)
    → Carries matches mode a response content
    → elicitation_response matches mode a response ≡ some (ApprovalDecision.elicitation a content)
unfolding elicitation_response
response_of_Carries matches Mode.form ElicitationAction.accept response (some content)
      (both, found, valid) =
    rw both (rw found (rw valid refl))
response_of_Carries matches Mode.url ElicitationAction.accept response none only = rw only refl
response_of_Carries matches Mode.form ElicitationAction.decline response none only = rw only refl
response_of_Carries matches Mode.form ElicitationAction.cancel response none only = rw only refl
response_of_Carries matches Mode.url ElicitationAction.decline response none only = rw only refl
response_of_Carries matches Mode.url ElicitationAction.cancel response none only = rw only refl
response_of_Carries matches _ _ response _ only = absurd only

not_permission :
    (matches : Object → Bool) (mode : Mode) (a : ElicitationAction) (response : Object)
    (action : PermissionAction)
    → elicitation_response matches mode a response ≡ some (ApprovalDecision.permission action)
    → ⊥
unfolding elicitation_response
not_permission matches Mode.form ElicitationAction.accept response action h =
    let (both, h1) = guard-eq-some (same_set (keys response) ("action" ∷ "content" ∷ [])) _ h in
    let (c, found, h2) = >>=-eq-some (object_of (lookup "content" response)) _ h1 in
    let (valid, h3) = guard-eq-some (matches c) _ h2 in cc
not_permission matches Mode.url ElicitationAction.accept response action h =
    let (only, same) = bare_inv response _ _ h in cc
not_permission matches Mode.form ElicitationAction.decline response action h =
    let (only, same) = bare_inv response _ _ h in cc
not_permission matches Mode.form ElicitationAction.cancel response action h =
    let (only, same) = bare_inv response _ _ h in cc
not_permission matches Mode.url ElicitationAction.decline response action h =
    let (only, same) = bare_inv response _ _ h in cc
not_permission matches Mode.url ElicitationAction.cancel response action h =
    let (only, same) = bare_inv response _ _ h in cc

Answers-of-parse :
    (matches : Object → Bool) (request : ApprovalRequest) (response : Object)
    (decision : ApprovalDecision)
    → parse_approval_response matches request response ≡ some decision
    → Answers matches request response decision
unfolding parse_approval_response
Answers-of-parse matches (ApprovalRequest.permission tool agent message) response
      (ApprovalDecision.permission action) h =
    let (only, h1) = guard-eq-some (same_set (keys response) ("action" ∷ [])) _ h in
    let (a, parsed, h2) = >>=-eq-some (parse_permission (action_of response)) _ h1 in
    let same : a ≡ action = cc in
    (only, (parse_permission_iff (action_of response) action).0 (rw same at parsed))
Answers-of-parse matches (ApprovalRequest.permission tool agent message) response
      (ApprovalDecision.elicitation action content) h =
    let (only, h1) = guard-eq-some (same_set (keys response) ("action" ∷ [])) _ h in
    let (a, parsed, h2) = >>=-eq-some (parse_permission (action_of response)) _ h1 in cc
Answers-of-parse matches (ApprovalRequest.elicitation server mode message schema) response
      (ApprovalDecision.elicitation action content) h =
    let (a, parsed, h1) = >>=-eq-some (parse_elicitation (action_of response)) _ h in
    let (same, carried) = Carries-inv matches mode a action response content h1 in
    ((parse_elicitation_iff (action_of response) action).0 (rw same at parsed), rw same at carried)
Answers-of-parse matches (ApprovalRequest.elicitation server mode message schema) response
      (ApprovalDecision.permission action) h =
    let (a, parsed, h1) = >>=-eq-some (parse_elicitation (action_of response)) _ h in
    absurd (not_permission matches mode a response action h1)

parse-of-Answers :
    (matches : Object → Bool) (request : ApprovalRequest) (response : Object)
    (decision : ApprovalDecision)
    → Answers matches request response decision
    → parse_approval_response matches request response ≡ some decision
unfolding parse_approval_response
parse-of-Answers matches (ApprovalRequest.permission tool agent message) response
      (ApprovalDecision.permission action) (only, said) =
    rw only (rw ((parse_permission_iff (action_of response) action).1 said) refl)
parse-of-Answers matches (ApprovalRequest.elicitation server mode message schema) response
      (ApprovalDecision.elicitation action content) (said, carried) =
    rw ((parse_elicitation_iff (action_of response) action).1 said)
      (response_of_Carries matches mode action response content carried)
parse-of-Answers matches _ response _ wrong = absurd wrong

-- A response is taken for a decision exactly when it says it in the request's terms: a permission by its
-- action alone, a refused elicitation or one by URL by its action alone, and an accepted form by its
-- action and a content that the validation passes; it has no other key.
pub parse_approval_response_iff :
    (matches : Object → Bool) (request : ApprovalRequest) (response : Object)
    (decision : ApprovalDecision)
    → (parse_approval_response matches request response ≡ some decision)
      ↔ Answers matches request response decision
parse_approval_response_iff matches request response decision = (
  Answers-of-parse matches request response decision,
  parse-of-Answers matches request response decision,
)
