-- ===== src/Orders/Review.antt =====
-- Repeated requests that `_prepare_execution` of backend/app/services/strategy_service.py blocks.
use codex_trading_app.Prelude.{
  ℕ, String, str_eq, ◌≡◌, refl, Bool, true, false, not, ◌&&◌, ◌⊎◌, inl, inr, Option, some, List, [],
  ◌∷◌, Bool-cases, Attempt, ok, raised,
}
use codex_trading_app.Lifecycle.ExecutionStatus.{
  ExecutionStatus, order_submitted, order_acknowledged, fill_partial, needs_manual_review, value,
  is_in,
}
use codex_trading_app.Lifecycle.Errors.{LifecycleError, refused}
use codex_trading_app.Lifecycle.Executions.{text, member, refusal, validate_execution_transition}
use codex_trading_app.Redaction.Payload.{Payload}
use codex_trading_app.Trades.Executions.Record.{Execution}
use codex_trading_app.Trades.Executions.Events.{ExecutionEvent}
use codex_trading_app.Trades.Executions.Store.{changed_execution, transition_execution, stored}
use codex_trading_app.Trades.Executions.Runs.{status-changed}
use codex_trading_app.Orders.Request.{
  ExecutionRequest, status_in, retryable_execution_statuses, find_latest_execution_for_action,
  entry_phase, close_phase, unsafe_entry_retry_statuses, safe_close_retry_statuses,
}
use codex_trading_app.Orders.Prepare.{
  block_entry, block_close, blocked_entry_update, blocked_close_update, retry, resume, prepare_from,
  prepare_execution,
}

refused_member :
    (given : String)
    → given ≡ value needs_manual_review
    → validate_execution_transition (text given) (member needs_manual_review)
      ≡ raised (refused (refusal needs_manual_review needs_manual_review))
unfolding validate_execution_transition value refusal
refused_member given e = rw e refl

refused_text :
    (given : String)
    → given ≡ value needs_manual_review
    → validate_execution_transition (text given) (text given)
      ≡ raised (refused (refusal needs_manual_review needs_manual_review))
unfolding validate_execution_transition value refusal
refused_text given e = rw e refl

-- The statuses of an attempt that may have reached the broker and is not in review.
abbrev pub sent_statuses : List ExecutionStatus
sent_statuses = order_submitted ∷ order_acknowledged ∷ fill_partial ∷ []

sent_reviewed :
    (given : String) (s : ExecutionStatus)
    → given ≡ value s
    → is_in s sent_statuses ≡ true
    → validate_execution_transition (text given) (member needs_manual_review)
      ≡ ok needs_manual_review
unfolding validate_execution_transition value is_in
sent_reviewed given order_submitted e sent = rw e refl
sent_reviewed given order_acknowledged e sent = rw e refl
sent_reviewed given fill_partial e sent = rw e refl
sent_reviewed given _ e sent = cc

sent_guards :
    (given : String) (s : ExecutionStatus)
    → given ≡ value s
    → is_in s sent_statuses ≡ true
    → (status_in given retryable_execution_statuses ≡ true)
      × (status_in given unsafe_entry_retry_statuses ≡ true)
      × (status_in given safe_close_retry_statuses ≡ false)
unfolding value is_in
sent_guards given order_submitted e sent = rw e (refl, refl, refl)
sent_guards given order_acknowledged e sent = rw e (refl, refl, refl)
sent_guards given fill_partial e sent = rw e (refl, refl, refl)
sent_guards given _ e sent = cc

module _ {F : Type 0} (lower substitute : String → String) (shown : Payload F → String)
    (is_recorded : ExecutionEvent F → Bool) (number_of : ℕ → F)
    (attempts_of : Option (Payload F) → ℕ) where
  module _ (request : ExecutionRequest F) (prior : Execution F)
      (reviewed : prior.status ≡ value needs_manual_review) where
    block_entry_raises :
        block_entry lower substitute shown is_recorded number_of attempts_of request prior
        ≡ raised (refused (refusal needs_manual_review needs_manual_review))
    unfolding block_entry transition_execution
    block_entry_raises = rw (refused_member prior.status reviewed) refl

    block_close_raises :
        block_close lower substitute shown is_recorded number_of attempts_of request prior
        ≡ raised (refused (refusal needs_manual_review needs_manual_review))
    unfolding block_close transition_execution
    block_close_raises = rw (refused_member prior.status reviewed) refl

    retry_raises :
        retry lower substitute shown is_recorded number_of attempts_of request prior
        ≡ raised (refused (refusal needs_manual_review needs_manual_review))
    unfolding retry transition_execution
    retry_raises = rw (refused_text prior.status reviewed) refl

    resume_raises :
        resume lower substitute shown is_recorded number_of attempts_of request prior
        ≡ raised (refused (refusal needs_manual_review needs_manual_review))
    unfolding resume
    resume_raises =
        elim (Bool-cases (
          str_eq request.phase entry_phase && status_in prior.status unsafe_entry_retry_statuses)) [
            | inl unsafe ↦ rw unsafe block_entry_raises
            | inr other ↦
                elim (Bool-cases (
                  str_eq request.phase close_phase
                  && not (status_in prior.status safe_close_retry_statuses))) [
                    | inl unsafe ↦ rw (other, unsafe) block_close_raises
                    | inr safe ↦ rw (other, safe) retry_raises
                  ]
          ]

    retryable_review : status_in prior.status retryable_execution_statuses ≡ true
    unfolding value
    retryable_review = rw reviewed refl

  -- A repeated request never gets past a manual review, but not in the way that is written: where the
  -- latest execution of the action is in NEEDS_MANUAL_REVIEW, the marking of the duplicate is itself
  -- refused by the state machine, so the call raises in place of returning a blocked execution.
  pub review_raises :
      (new_id : ℕ) (request : ExecutionRequest F) (executions : List (Execution F))
      (prior : Execution F)
      → find_latest_execution_for_action request.strategy_name request.instrument request.phase
          request.action_key executions
        ≡ some prior
      → prior.status ≡ value needs_manual_review
      → prepare_execution lower substitute shown is_recorded number_of attempts_of new_id request
          executions
        ≡ raised (refused (refusal needs_manual_review needs_manual_review))
  unfolding prepare_execution prepare_from
  review_raises new_id request executions prior found reviewed =
      rw (found, retryable_review request prior reviewed) (resume_raises request prior reviewed)

  module _ (request : ExecutionRequest F) (prior : Execution F) (s : ExecutionStatus)
      (stored : prior.status ≡ value s) (sent : is_in s sent_statuses ≡ true) where
    -- The answer that blocks: the prior execution under review.
    abbrev Blocks : Attempt LifecycleError (Execution F × Bool) → Type 0
    Blocks answer =
        (e : Execution F) × (answer ≡ ok (e, false)) × (e.status ≡ value needs_manual_review)

    block_entry-Blocks :
        Blocks (block_entry lower substitute shown is_recorded number_of attempts_of request prior)
    unfolding block_entry transition_execution
    block_entry-Blocks =
        let u =
          blocked_entry_update lower substitute shown is_recorded number_of attempts_of request
            prior in
        (
          (changed_execution lower substitute shown is_recorded u request.now request.later prior
              needs_manual_review).0,
          rw (sent_reviewed prior.status s stored sent) refl,
          status-changed lower substitute shown is_recorded u request.now request.later prior
              needs_manual_review,
        )

    block_close-Blocks :
        Blocks (block_close lower substitute shown is_recorded number_of attempts_of request prior)
    unfolding block_close transition_execution
    block_close-Blocks =
        let u =
          blocked_close_update lower substitute shown is_recorded number_of attempts_of request
            prior in
        (
          (changed_execution lower substitute shown is_recorded u request.now request.later prior
              needs_manual_review).0,
          rw (sent_reviewed prior.status s stored sent) refl,
          status-changed lower substitute shown is_recorded u request.now request.later prior
              needs_manual_review,
        )

    resume-Blocks :
        (request.phase ≡ entry_phase) ⊎ (request.phase ≡ close_phase)
        → Blocks (resume lower substitute shown is_recorded number_of attempts_of request prior)
    unfolding resume
    resume-Blocks (inl entry) =
        rw (entry, (sent_guards prior.status s stored sent).1) block_entry-Blocks
    resume-Blocks (inr close) =
        rw (close, (sent_guards prior.status s stored sent).2) block_close-Blocks

  -- A duplicate of an entry or a close that may have reached the broker is blocked: where the latest
  -- execution of the action is submitted, acknowledged or partly filled, the answer is not to send,
  -- and that execution goes to NEEDS_MANUAL_REVIEW.
  pub duplicate_blocked :
      (new_id : ℕ) (request : ExecutionRequest F) (executions : List (Execution F))
      (prior : Execution F) (s : ExecutionStatus)
      → (request.phase ≡ entry_phase) ⊎ (request.phase ≡ close_phase)
      → find_latest_execution_for_action request.strategy_name request.instrument request.phase
          request.action_key executions
        ≡ some prior
      → prior.status ≡ value s
      → is_in s sent_statuses ≡ true
      → (e : Execution F) × (prepare_execution lower substitute shown is_recorded number_of
            attempts_of new_id request executions
          ≡ ok (e, false))
        × (e.status ≡ value needs_manual_review)
  unfolding prepare_execution prepare_from
  duplicate_blocked new_id request executions prior s phase found stored sent =
      rw (found, (sent_guards prior.status s stored sent).0)
        (resume-Blocks request prior s stored sent phase)
