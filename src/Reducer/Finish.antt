-- ===== src/Reducer/Finish.antt =====
-- What `finish` of reducer.py says of a run, on every path.
use mathlib.Core.Option
use dogqoder.Prelude.{
  ℕ, ◌≡◌, refl, ◌↔◌, Bool, true, false, not, ◌&&◌, Option, none, some, List, ◌∙◌, arith, contains,
  is_some,
}
use dogqoder.Chars.{codes}
use dogqoder.Json.{Json}
use dogqoder.Lifecycle.{NestedState}
use dogqoder.Domain.{Outcome, ResultEvent}
use dogqoder.AuditReport.{ParsedAuditReport}
use dogqoder.AuditReport.Fence.{parse_audit_report_text}
use dogqoder.Reducer.{
  ResultReducer, nested_state, needs_settlement, finish, finish_event, finish_report,
}

report_completed :
    (r : ResultReducer) (nested : NestedState) (event : ResultEvent) (o : Option ParsedAuditReport)
    → (finish_report r nested event o).outcome ≡ Outcome.completed
    → (report : ParsedAuditReport) × (event.is_error ≡ false)
      × (o ≡ some report)
      × (report.outcome ≡ Outcome.completed)
unfolding finish_report
report_completed r nested event none h = absurd (ground arith)
report_completed r nested event (some report) h = (report, ground arith, refl, ground arith)

warned : NestedState → Bool
warned NestedState.unknown = true
warned _ = false

report_warns :
    (r : ResultReducer) (nested : NestedState) (event : ResultEvent) (o : Option ParsedAuditReport)
    → (contains (finish_report r nested event o).warnings "nested_terminal_event_missing"
        ≡ warned nested)
      × (contains (finish_report r nested event o).warnings "report_contract_unparseable"
          ≡ not (is_some o))
unfolding finish_report warned
report_warns r NestedState.unknown event none = (refl, refl)
report_warns r nested event none = (refl, refl)
report_warns r NestedState.unknown event (some report) = (refl, refl)
report_warns r nested event (some report) = (refl, refl)

module _ (loads : List ℕ → Option Json) (r : ResultReducer) (expired : Bool) where
  abbrev report_of : ResultEvent → Option ParsedAuditReport
  report_of event = parse_audit_report_text loads (Option.map codes event.result)

  event_completed :
      (o : Option ResultEvent)
      → (finish_event loads r expired o).outcome ≡ Outcome.completed
      → (event : ResultEvent) × (report : ParsedAuditReport) × (o ≡ some event)
        × (event.is_error ≡ false)
        × (report_of event ≡ some report)
        × (report.outcome ≡ Outcome.completed)
  unfolding finish_event
  event_completed none h = absurd (ground arith)
  event_completed (some event) h =
      let (report, fine, parsed, done) = report_completed r _ event _ h in
      (event, report, refl, fine, parsed, done)

  -- A run is reported completed only if a main result without error arrived, its text parses as an
  -- audit report, and that report claims completion.
  pub finish_completed :
      (finish loads r expired).outcome ≡ Outcome.completed
      → (event : ResultEvent) × (report : ParsedAuditReport) × (r.result ≡ some event)
        × (event.is_error ≡ false)
        × (report_of event ≡ some report)
        × (report.outcome ≡ Outcome.completed)
  unfolding finish
  finish_completed h = event_completed r.result h

  nested_state_unknown :
      (nested_state r expired ≡ NestedState.unknown)
      ↔ ((needs_settlement r ≡ true) × (expired ≡ true))
  unfolding nested_state needs_settlement
  nested_state_unknown = (λ h. ground arith, λ h. ground arith)

  nested_report :
      (event : ResultEvent) (o : Option ParsedAuditReport)
      → (finish_report r (nested_state r expired) event o).nested_state ≡ nested_state r expired
  unfolding finish_report
  nested_report event none = refl
  nested_report event (some report) = refl

  nested_event :
      (o : Option ResultEvent)
      → (finish_event loads r expired o).nested_state ≡ nested_state r expired
  unfolding finish_event
  nested_event none = refl
  nested_event (some event) = nested_report event (report_of event)

  warned-nested_state : warned (nested_state r expired) ≡ (needs_settlement r && expired)
  unfolding nested_state needs_settlement warned
  warned-nested_state = ground arith

  warns_event :
      (o : Option ResultEvent)
      → r.result ≡ o
      → contains (finish_event loads r expired o).warnings "nested_terminal_event_missing"
        ≡ (needs_settlement r && expired)
  unfolding finish_event
  warns_event none e = unfold needs_settlement in ground arith
  warns_event (some event) e =
      (report_warns r (nested_state r expired) event (report_of event)).0 ∙ warned-nested_state

  -- The nested state of a result is unknown exactly when the settlement time ran out on a main
  -- result with active nested tasks, and exactly then the missing terminal event is warned of.
  pub finish_unknown :
      (((finish loads r expired).nested_state ≡ NestedState.unknown)
        ↔ ((needs_settlement r ≡ true) × (expired ≡ true)))
      × (contains (finish loads r expired).warnings "nested_terminal_event_missing"
          ≡ (needs_settlement r && expired))
  unfolding finish
  finish_unknown =
      let (to, from) = nested_state_unknown in
      (
        (λ h. to (rw (nested_event r.result) at h), λ h. rw (nested_event r.result) (from h)),
        warns_event r.result refl,
      )
