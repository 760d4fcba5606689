-- ===== src/Orders/Resend.antt =====
-- When `_prepare_execution` of backend/app/services/strategy_service.py lets an order be sent.
use codex_trading_app.Prelude.{
  ℕ, String, str_eq, ◌≡◌, refl, Bool, true, false, not, ◌&&◌, ◌⊎◌, inl, inr, Option, none, some,
  List, Bool-cases, Attempt, ok, raised, ◌>>=◌,
}
use codex_trading_app.Lifecycle.ExecutionStatus.{ExecutionStatus, submission_pending, value}
use codex_trading_app.Lifecycle.Errors.{LifecycleError}
use codex_trading_app.Lifecycle.Executions.{validate_new_execution_status}
use codex_trading_app.Redaction.Payload.{Payload}
use codex_trading_app.Trades.Executions.Record.{Execution, sanitize_execution}
use codex_trading_app.Trades.Executions.Events.{ExecutionEvent, created_event}
use codex_trading_app.Trades.Executions.Store.{new_execution, stored}
use codex_trading_app.Trades.Executions.Runs.{status-after_event}
use codex_trading_app.Orders.Request.{
  ExecutionRequest, status_in, retryable_execution_statuses, find_latest_execution_for_action,
  entry_phase, close_phase, unsafe_entry_retry_statuses, safe_close_retry_statuses,
}
use codex_trading_app.Orders.Prepare.{
  block_entry, block_close, first_attempt, resume, begin, prepare_from, prepare_execution,
}
use codex_trading_app.Orders.Retry.{is_open, Resumes, identity-after_event, retry_sends}

module _ {F : Type 0} (lower substitute : String → String) (shown : Payload F → String)
    (is_recorded : ExecutionEvent F → Bool) (number_of : ℕ → F)
    (attempts_of : Option (Payload F) → ℕ) where
  -- A blocked request is answered with false.
  answered_false :
      (first : Attempt LifecycleError (Execution F × Option (ExecutionEvent F))) (e : Execution F)
      → (let unsent : Execution F × Option (ExecutionEvent F)
              → Attempt LifecycleError (Execution F × Bool) =
            λ result. ok (result.0, false) in
          (first >>= unsent) ≡ ok (e, true))
      → ⊥
  answered_false (raised problem) e h = cc
  answered_false (ok result) e h = cc

  entry_unsent :
      (request : ExecutionRequest F) (prior e : Execution F)
      → block_entry lower substitute shown is_recorded number_of attempts_of request prior
        ≡ ok (e, true)
      → ⊥
  unfolding block_entry
  entry_unsent request prior e h = answered_false _ e h

  close_unsent :
      (request : ExecutionRequest F) (prior e : Execution F)
      → block_close lower substitute shown is_recorded number_of attempts_of request prior
        ≡ ok (e, true)
      → ⊥
  unfolding block_close
  close_unsent request prior e h = answered_false _ e h

  resume_sends :
      (request : ExecutionRequest F) (prior e : Execution F)
      → status_in prior.status retryable_execution_statuses ≡ true
      → resume lower substitute shown is_recorded number_of attempts_of request prior ≡ ok (e, true)
      → (e.status ≡ value submission_pending) × Resumes e prior
  unfolding resume
  resume_sends request prior e retryable h =
      elim (Bool-cases
        (str_eq request.phase entry_phase && status_in prior.status unsafe_entry_retry_statuses)) [
          | inl unsafe ↦ absurd (entry_unsent request prior e (rw unsafe at h))
          | inr other ↦
              elim (Bool-cases (
                str_eq request.phase close_phase
                && not (status_in prior.status safe_close_retry_statuses))) [
                  | inl unsafe ↦ absurd (close_unsent request prior e (rw (other, unsafe) at h))
                  | inr safe ↦
                      retry_sends lower substitute shown is_recorded number_of attempts_of request
                        prior e retryable (rw (other, safe) at h)
                ]
        ]

  -- What is stored for a first attempt.
  stored_first :
      (new_id : ℕ) (row : Execution F) (s : ExecutionStatus)
      → (let kept =
            (stored lower substitute shown is_recorded new_id
              (new_execution lower substitute shown is_recorded row s)).0 in
          (kept.status ≡ value s) × (kept.id ≡ some new_id))
  unfolding stored new_execution sanitize_execution
  stored_first new_id row s =
      let kept : Execution F = record (new_execution lower substitute shown is_recorded row s) {
        id = some new_id;
      } in
      (
        status-after_event lower substitute shown is_recorded (created_event kept) kept,
        (identity-after_event lower substitute shown is_recorded number_of attempts_of
            (created_event kept) kept).0,
      )

  begin-stored :
      (new_id : ℕ) (request : ExecutionRequest F)
      → (let row = first_attempt lower substitute shown is_recorded number_of attempts_of request in
          let kept =
            (stored lower substitute shown is_recorded new_id
              (new_execution lower substitute shown is_recorded row submission_pending)).0 in
          begin lower substitute shown is_recorded number_of attempts_of new_id request
          ≡ ok (kept, true))
  unfolding begin validate_new_execution_status
  begin-stored new_id request = refl

  begin_sends :
      (new_id : ℕ) (request : ExecutionRequest F) (e : Execution F)
      → begin lower substitute shown is_recorded number_of attempts_of new_id request ≡ ok (e, true)
      → (e.status ≡ value submission_pending) × (e.id ≡ some new_id)
  begin_sends new_id request e h =
      let row = first_attempt lower substitute shown is_recorded number_of attempts_of request in
      let kept = stored_first new_id row submission_pending in
      let after : (stored lower substitute shown is_recorded new_id
            (new_execution lower substitute shown is_recorded row submission_pending)).0
          ≡ e =
        cc (begin-stored new_id request) in
      rw (← after) kept

  begin_or_resume :
      (new_id : ℕ) (request : ExecutionRequest F) (found : Option (Execution F)) (e : Execution F)
      → prepare_from lower substitute shown is_recorded number_of attempts_of new_id request found
        ≡ ok (e, true)
      → (e.status ≡ value submission_pending)
        × (((prior : Execution F) × (found ≡ some prior) × Resumes e prior)
            ⊎ ((e.id ≡ some new_id) × (is_open found ≡ false)))
  unfolding prepare_from
  begin_or_resume new_id request none e h =
      let (pending, new) = begin_sends new_id request e h in (pending, inr (new, refl))
  begin_or_resume new_id request (some prior) e h =
      elim (Bool-cases (status_in prior.status retryable_execution_statuses)) [
        | inl retryable ↦
            let (pending, resumes) = resume_sends request prior e retryable (rw retryable at h) in
            (pending, inl (prior, refl, resumes))
        | inr settled ↦
            let (pending, new) = begin_sends new_id request e (rw settled at h) in
            (pending, inr (new, settled))
      ]

  -- An order is sent only where nothing has been sent: when a request is answered with true, the
  -- execution is in SUBMISSION_PENDING, and it is either the latest one of the same action, which was
  -- in SUBMISSION_PENDING, under its key and its request id, or a new one, and then the latest one of
  -- the action, if any, is in none of the retryable statuses.
  pub only_unsent_is_sent :
      (new_id : ℕ) (request : ExecutionRequest F) (executions : List (Execution F))
      (e : Execution F)
      → prepare_execution lower substitute shown is_recorded number_of attempts_of new_id request
          executions
        ≡ ok (e, true)
      → (let found =
            find_latest_execution_for_action request.strategy_name request.instrument request.phase
              request.action_key executions in
          (e.status ≡ value submission_pending)
          × (((prior : Execution F) × (found ≡ some prior) × Resumes e prior)
              ⊎ ((e.id ≡ some new_id) × (is_open found ≡ false))))
  unfolding prepare_execution
  only_unsent_is_sent new_id request executions e h =
      begin_or_resume new_id request
        (find_latest_execution_for_action request.strategy_name request.instrument request.phase
          request.action_key executions)
        e h
