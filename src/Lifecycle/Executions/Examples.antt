-- ===== src/Lifecycle/Executions/Examples.antt =====
-- The theorems about execution attempts (backend/app/services/lifecycle_rules.py) at concrete
-- inputs.
use codex_trading_app.Prelude.{◌≡◌, refl, ◌↔◌, ◌≤◌, true, List, [], ◌∷◌, ok, raised}
use codex_trading_app.Lifecycle.ExecutionStatus.{
  ExecutionStatus, submission_pending, order_submitted, needs_manual_review, position_opened,
  signal_generated, failed, is_in, value,
}
use codex_trading_app.Lifecycle.Errors.{legacy_write}
use codex_trading_app.Lifecycle.Executions.{
  terminal_statuses, legacy_compatibility_statuses, member, text, check_transition,
  validate_execution_transition,
}
use codex_trading_app.Lifecycle.Executions.Table.{
  Allowed, IsStuck, IsCourse, changes, Validated, validation_never_legacy, terminal_iff_absorbing,
  course_settles,
}

legacy_refused :
    validate_execution_transition (text "SUBMISSION_PENDING") (member signal_generated)
    ≡ raised
        (legacy_write (record { entity_name = "Execution"; target_state = "SIGNAL_GENERATED" }))
unfolding validate_execution_transition value
legacy_refused = refl

submission_validated :
    validate_execution_transition (text "SUBMISSION_PENDING") (member order_submitted)
    ≡ ok order_submitted
unfolding validate_execution_transition value
submission_validated = refl

abbrev reviewed : List ExecutionStatus
reviewed =
    submission_pending ∷ order_submitted ∷ needs_manual_review ∷ position_opened ∷ position_opened
    ∷ []

reviewed-IsCourse : IsCourse submission_pending reviewed
unfolding check_transition is_in
reviewed-IsCourse = (refl, (refl, (refl, (refl, (refl, tt)))))

validation_never_legacy_example :
    Validated (text "SUBMISSION_PENDING") (member order_submitted) order_submitted
validation_never_legacy_example =
    validation_never_legacy (text "SUBMISSION_PENDING") (member order_submitted) order_submitted
      submission_validated

terminal_iff_absorbing_example :
    ((is_in failed terminal_statuses ≡ true) ↔ (Allowed failed failed × IsStuck failed))
    × (is_in failed legacy_compatibility_statuses ≡ true
        → (t : ExecutionStatus) → ¬ (Allowed failed t))
terminal_iff_absorbing_example = terminal_iff_absorbing failed

course_settles_example : changes submission_pending reviewed ≤ 5
course_settles_example = course_settles reviewed reviewed-IsCourse
