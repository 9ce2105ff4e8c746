-- ===== src/Tests/Resolution.antt =====
-- The processor and the operator, at concrete items.
use ml_template.Prelude.{
  ◌≡◌, refl, some, none, ok, filter, ◌<◌, ◌≤◌, ◌∷◌, [], ◌+◌, ◌⊎◌, find, not, ◌*◌, last_n, ◌↔◌, ◌≢◌,
  List, ◌++◌,
}
use ml_template.Release.Processor.{apply_outcome, commit_outcome, failed_attempt, has_event, failed}
use ml_template.Release.Types.{
  State, PendingItem, resolution_retry, resolution_blocked, text, number, AuditEntry,
}
use ml_template.Release.Operator.{recover_resolution, is_note, retry_item, retry_version}
use ml_template.Tests.Data.{waiting, blocked_state, promotion}
use ml_template.Runtime.Requirements.{is_space}
use ml_template.Release.Authorization.{has_version}
use ml_template.Release.State.{audit, history}
use ml_template.Release.Operator.Retry.{recover_resolution_lem}
use ml_template.Release.Processor.Commits.{failed_attempt_lem, commit_outcome_cases}
use ml_template.Tests.Opening.{state_checks}

failed_attempt_lem_example :
    let next = apply_outcome (failed_attempt 5 waiting 100 "Busy") waiting in
    (next.attempts ≡ 6)
    × (100 < next.next_attempt)
    × (next.next_attempt ≤ 100 + 900 * 1000000)
    × ((next.status ≡ resolution_blocked) ↔ (5 ≤ 6))
    × (next.event ≡ waiting.event)
failed_attempt_lem_example = failed_attempt_lem 5 waiting 100 "Busy"

commit_outcome_cases_example :
    let (said, next) =
      commit_outcome waiting (failed 6 resolution_blocked 100 "Busy") 100 blocked_state in
    ((find (has_event promotion) blocked_state.pending ≢ some waiting)
      × (said ≡ "superseded")
      × (next ≡ blocked_state))
    ⊎ (before : List PendingItem) × (after : List PendingItem) × (entry : AuditEntry)
      × (blocked_state.pending ≡ before ++ waiting ∷ after)
      × (find (has_event promotion) before ≡ none)
      × (entry.time ≡ 100)
      × (entry.reason ≡ said)
      × (next ≡ record blocked_state {
        pending = before ++ apply_outcome (failed 6 resolution_blocked 100 "Busy") waiting ∷ after;
        audit = last_n history (blocked_state.audit ++ entry ∷ []);
      })
commit_outcome_cases_example =
    commit_outcome_cases waiting (failed 6 resolution_blocked 100 "Busy") 100 blocked_state

abbrev retried : State
retried = record blocked_state {
  pending =
      (record waiting {
        status = resolution_retry;
        attempts = 0;
        next_attempt = 70;
        error_type = none;
      })
      ∷ [];
  audit =
      (record {
        time = 70;
        reason = "operator_resolution_retry";
        fields =
            ("model_version", text "2")
            ∷ ("operator", text "ops")
            ∷ ("note", text "fixed")
            ∷ ("previous_status", text "RESOLUTION_BLOCKED")
            ∷ ("previous_attempts", number 5)
            ∷ ("previous_error_type", text "ValueError")
            ∷ [];
      })
      ∷ [];
}

retries_it : recover_resolution "2" "ops" "fixed" 70 blocked_state ≡ ok ("2", retried)
unfolding recover_resolution is_note is_space retry_item retry_version has_version audit last_n
    state_checks
retries_it = refl

recover_resolution_lem_example :
    (item : PendingItem) × (filter (has_version "2") blocked_state.pending ≡ item ∷ [])
    × (item.status ≡ resolution_blocked)
    × (filter (has_version "2") retried.pending ≡ retry_item 70 item ∷ [])
    × (filter (λ x. not (has_version "2" x)) retried.pending
        ≡ filter (λ x. not (has_version "2" x)) blocked_state.pending)
    × (retried.route ≡ blocked_state.route)
    × (retried.active ≡ blocked_state.active)
    × (retried.stable ≡ blocked_state.stable)
    × (retried.lease ≡ blocked_state.lease)
recover_resolution_lem_example =
    recover_resolution_lem "2" "ops" "fixed" 70 blocked_state retries_it
