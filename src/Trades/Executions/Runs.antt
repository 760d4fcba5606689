-- ===== src/Trades/Executions/Runs.antt =====
-- Transitions of one execution attempt one after another, by `transition_execution` of
-- backend/app/services/trade_service.py, and the events that they hand over.
use codex_trading_app.Prelude.{
  ℕ, ◌+◌, ◌≤◌, ◌<◌, ◌⊎◌, String, eq_refl, ◌≡◌, refl, sym, ap, ◌∙◌, Bool, true, Option, none, some,
  List, [], ◌∷◌, length, arith, inl, inr, Attempt, ok, raised, returned_first,
}
use codex_trading_app.Lifecycle.ExecutionStatus.{ExecutionStatus, value, is_in, of_value}
use codex_trading_app.Lifecycle.Errors.{LifecycleError}
use codex_trading_app.Lifecycle.Executions.{
  StatusInput, text, terminal_statuses, validate_execution_transition,
}
use codex_trading_app.Lifecycle.Executions.Table.{
  validation_never_legacy, stage, stage-step, terminal_absorbs,
}
use codex_trading_app.Redaction.Payload.{Payload}
use codex_trading_app.Trades.Executions.Record.{Execution, ExecutionUpdate, transitioned_execution}
use codex_trading_app.Trades.Executions.Events.{
  ExecutionEvent, transition_event, after_event, mark_audit_failure,
}
use codex_trading_app.Trades.Executions.Store.{changed_execution, transition_execution}
use codex_trading_app.Trades.Executions.Stages.{
  of_value-value, parsed_text, stage_of, stage_of-le-five, stage_of_terminal, weight, weight-le-one,
}

-- The arguments of one call, with its two readings of the clock.
pub record TransitionCall (F : Type 0) : Type 0 where
  pub target : StatusInput
  pub update : ExecutionUpdate F
  pub now : ℕ
  pub later : ℕ

module _ {F : Type 0} (lower substitute : String → String) (shown : Payload F → String)
    (is_recorded : ExecutionEvent F → Bool) where
  -- What a call leaves: a refusal changes nothing and hands over no event.
  unfoldable pub outcome :
      Execution F
      → Attempt LifecycleError (Execution F × Option (ExecutionEvent F))
      → Execution F × Option (ExecutionEvent F)
  outcome e (raised problem) = (e, none)
  outcome e (ok result) = result

  unfoldable pub call_transition :
      TransitionCall F → Execution F → Execution F × Option (ExecutionEvent F)
  unfolding outcome transition_execution
  call_transition c e =
      outcome e
        (transition_execution lower substitute shown is_recorded c.target c.update c.now c.later e)

  abbrev prepend : {A : Type 0} → Option A → List A → List A
  prepend none events = events
  prepend (some event) events = event ∷ events

  unfoldable pub last_execution : List (TransitionCall F) → Execution F → Execution F
  unfolding call_transition
  last_execution [] e = e
  last_execution (c ∷ cs) e = last_execution cs (call_transition c e).0

  unfoldable pub events_of : List (TransitionCall F) → Execution F → List (ExecutionEvent F)
  unfolding call_transition
  events_of [] e = []
  events_of (c ∷ cs) e = prepend (call_transition c e).1 (events_of cs (call_transition c e).0)

  pub status-after_event :
      (event : Option (ExecutionEvent F)) (e : Execution F)
      → (after_event is_recorded event e).status ≡ e.status
  unfolding after_event mark_audit_failure
  status-after_event none e = refl
  status-after_event (some event) e = ground arith

  -- No event where the status stays.
  weight-same_status :
      (previous : String) (e : Execution F)
      → previous ≡ e.status
      → weight (transition_event previous e) ≡ 0
  unfolding transition_event
  weight-same_status previous e same = rw same (rw (eq_refl e.status) refl)

  pub status-changed :
      (u : ExecutionUpdate F) (now later : ℕ) (e : Execution F) (t : ExecutionStatus)
      → (changed_execution lower substitute shown is_recorded u now later e t).0.status ≡ value t
  unfolding changed_execution
  status-changed u now later e t =
      status-after_event
        (transition_event e.status (transitioned_execution lower substitute shown t u now later e))
        (transitioned_execution lower substitute shown t u now later e)

  weight-changed :
      (u : ExecutionUpdate F) (now later : ℕ) (e : Execution F) (s t : ExecutionStatus)
      → value s ≡ e.status
      → (s ≡ t) ⊎ (stage s < stage t)
      → weight (changed_execution lower substitute shown is_recorded u now later e t).1 + stage s
        ≤ stage t
  unfolding changed_execution
  weight-changed u now later e s t named (inr further) = omega (
    arith,
    weight-le-one
        (transition_event e.status (transitioned_execution lower substitute shown t u now later e)),
  )
  weight-changed u now later e s t named (inl same) = omega (
    arith,
    ap stage same,
    weight-same_status e.status (transitioned_execution lower substitute shown t u now later e)
        (sym named ∙ ap value same),
  )

  changed_progress :
      (u : ExecutionUpdate F) (now later : ℕ) (e : Execution F) (target : StatusInput)
      (t : ExecutionStatus)
      → validate_execution_transition (text e.status) target ≡ ok t
      → weight (changed_execution lower substitute shown is_recorded u now later e t).1
          + stage_of (of_value e.status)
        ≤ stage_of (
            of_value
              (changed_execution lower substitute shown is_recorded u now later e t).0.status)
  changed_progress u now later e target t valid =
      let v = validation_never_legacy (text e.status) target t valid in
      let (parsed, named) = parsed_text e.status v.current v.parsed_current in
      rw (parsed, status-changed u now later e t, of_value-value t)
        (weight-changed u now later e v.current t named (stage-step v.current t v.allowed))

  outcome_progress :
      (c : TransitionCall F) (e : Execution F)
      (result : Attempt LifecycleError (Execution F × Option (ExecutionEvent F)))
      → transition_execution lower substitute shown is_recorded c.target c.update c.now c.later e
        ≡ result
      → weight (outcome e result).1 + stage_of (of_value e.status)
        ≤ stage_of (of_value (outcome e result).0.status)
  unfolding outcome transition_execution
  outcome_progress c e (raised problem) h = omega arith
  outcome_progress c e (ok result) h =
      let (t, valid, made) =
        returned_first (validate_execution_transition (text e.status) c.target) _ h in
      let made' : changed_execution lower substitute shown is_recorded c.update c.now c.later e t
          ≡ result =
        cc made in
      rw (← made') (changed_progress c.update c.now c.later e c.target t valid)

  -- A call hands over an event only where the attempt gets further.
  call_progress :
      (c : TransitionCall F) (e : Execution F)
      → weight (call_transition c e).1 + stage_of (of_value e.status)
        ≤ stage_of (of_value (call_transition c e).0.status)
  unfolding call_transition
  call_progress c e =
      outcome_progress c e
        (transition_execution lower substitute shown is_recorded c.target c.update c.now c.later e)
        refl

  length-prepend :
      {A : Type 0} (event : Option A) (events : List A)
      → length (prepend event events) ≡ weight event + length events
  length-prepend none events = omega arith
  length-prepend (some event) events = omega arith

  events_within :
      (cs : List (TransitionCall F)) (e : Execution F)
      → length (events_of cs e) + stage_of (of_value e.status) ≤ 5
  unfolding events_of
  events_within [] e = omega (arith, stage_of-le-five (of_value e.status))
  events_within (c ∷ cs) e = omega (
    arith,
    length-prepend (call_transition c e).1 (events_of cs (call_transition c e).0),
    call_progress c e,
    events_within cs (call_transition c e).0,
  )

  -- However long the sequence of transition calls on one execution, whatever their targets and
  -- whatever status is stored, at most five events are handed over.
  pub events_at_most_five :
      (cs : List (TransitionCall F)) (e : Execution F) → length (events_of cs e) ≤ 5
  events_at_most_five cs e = omega (arith, events_within cs e)

  outcome_settled :
      (c : TransitionCall F) (e : Execution F) (s : ExecutionStatus)
      (result : Attempt LifecycleError (Execution F × Option (ExecutionEvent F)))
      → of_value e.status ≡ some s
      → is_in s terminal_statuses ≡ true
      → transition_execution lower substitute shown is_recorded c.target c.update c.now c.later e
        ≡ result
      → (outcome e result).0.status ≡ e.status
  unfolding outcome transition_execution
  outcome_settled c e s (raised problem) stored settled h = refl
  outcome_settled c e s (ok result) stored settled h =
      let (t, valid, made) =
        returned_first (validate_execution_transition (text e.status) c.target) _ h in
      let made' : changed_execution lower substitute shown is_recorded c.update c.now c.later e t
          ≡ result =
        cc made in
      let v = validation_never_legacy (text e.status) c.target t valid in
      let (parsed, named) = parsed_text e.status v.current v.parsed_current in
      let same : s ≡ v.current = cc (stored, parsed) in
      let stays = (terminal_absorbs v.current (rw (← same) settled)).1 t v.allowed in
      rw (← made') (status-changed c.update c.now c.later e t ∙ sym (ap value stays) ∙ named)

  call_settled :
      (c : TransitionCall F) (e : Execution F) (s : ExecutionStatus)
      → of_value e.status ≡ some s
      → is_in s terminal_statuses ≡ true
      → (call_transition c e).0.status ≡ e.status
  unfolding call_transition
  call_settled c e s stored settled =
      outcome_settled c e s
        (transition_execution lower substitute shown is_recorded c.target c.update c.now c.later e)
        stored settled refl

  status_settled :
      (cs : List (TransitionCall F)) (e : Execution F) (s : ExecutionStatus)
      → of_value e.status ≡ some s
      → is_in s terminal_statuses ≡ true
      → (last_execution cs e).status ≡ e.status
  unfolding last_execution
  status_settled [] e s stored settled = refl
  status_settled (c ∷ cs) e s stored settled =
      let same = call_settled c e s stored settled in
      status_settled cs (call_transition c e).0 s (ap of_value same ∙ stored) settled ∙ same

  -- A settled attempt stays as it is: where the stored status is the text of a terminal one, no
  -- sequence of transition calls changes the status or hands over an event.
  pub settled_for_good :
      (cs : List (TransitionCall F)) (e : Execution F) (s : ExecutionStatus)
      → of_value e.status ≡ some s
      → is_in s terminal_statuses ≡ true
      → ((last_execution cs e).status ≡ e.status) × (length (events_of cs e) ≡ 0)
  settled_for_good cs e s stored settled = (
    status_settled cs e s stored settled,
    omega (arith, events_within cs e, ap stage_of stored, stage_of_terminal s settled),
  )
