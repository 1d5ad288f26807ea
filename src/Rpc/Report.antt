-- ===== src/Rpc/Report.antt =====
-- What the server of src/qworker/rpc.py reads from a connection, and how it writes a result or a failure.
use dogqoder.Prelude.{Bool, true, false, Option, String, List, [], ◌∷◌, if◌then◌else◌}
use dogqoder.Json.{Json, Object}
use dogqoder.Rpc.Size.{fits}
use dogqoder.Rpc.Requests.{success, failure, frame_limit_message}
use dogqoder.Rpc.Dispatch.{Fault, Answer}

-- What a reader of the connection finds before its end: a line with its value, if that is JSON; a
-- frame beyond the limit, with the identifier found in its beginning or null; or a lost connection.
pub data Line : Type 0 where
  line : Option Json → Line
  oversized : Json → Line
  interrupted : Line

-- The frames that answer one request, and whether the next one is read.
pub record Handled : Type 0 where
  pub written : List Object
  pub goes_on : Bool

-- An answer that is itself beyond the limit raises in its handler, which ends the connection.
unfoldable pub write_failure : Json → String → String → List String → Bool → Handled
unfolding fits
write_failure id code message warnings goes_on =
    if fits (failure id code message warnings)
    then record { written = failure id code message warnings ∷ []; goes_on = goes_on }
    else record { written = []; goes_on = false }

abbrev pub code_of : Fault → String
code_of (Fault.supervisor_failure code message warnings) = code
code_of (Fault.invalid message) = "invalid_request"
code_of Fault.unforeseen = "sdk_protocol_error"

abbrev pub text_of_fault : Fault → String
text_of_fault (Fault.supervisor_failure code message warnings) = message
text_of_fault (Fault.invalid message) = message
text_of_fault Fault.unforeseen = "Supervisor request failed."

abbrev pub warnings_of : Fault → List String
warnings_of (Fault.supervisor_failure code message warnings) = warnings
warnings_of (Fault.invalid message) = []
warnings_of Fault.unforeseen = []

-- The `except` clauses for what a request raises.
unfoldable pub report : Json → Fault → Handled
unfolding write_failure
report id f = write_failure id (code_of f) (text_of_fault f) (warnings_of f) true

-- The clause for a frame beyond the limit.
unfoldable pub report_oversized : Json → Handled
unfolding write_failure
report_oversized id = write_failure id "frame_too_large" frame_limit_message [] false

unfoldable pub write_answer : Json → Answer → Handled
unfolding report report_oversized
write_answer id (Answer.answered v) =
    if fits (success id v)
    then record { written = success id v ∷ []; goes_on = true }
    else report_oversized id
write_answer id (Answer.faulted f) = report id f
