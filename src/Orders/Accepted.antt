-- ===== src/Orders/Accepted.antt =====
-- Single moves of `_transition_execution_from_broker_result` of
-- backend/app/services/strategy_service.py that the state machines allow: they succeed.
use codex_trading_app.Prelude.{
  ℕ, String, ◌≡◌, refl, sym, Bool, Option, none, some, Attempt, ok, ◌>>=◌,
}
use mathlib.Core.Path.{subst}
use codex_trading_app.Allocation.Floats.{Floats}
use codex_trading_app.Lifecycle.ExecutionStatus.{ExecutionStatus, value}
use codex_trading_app.Lifecycle.IntentState.{TradeIntentState}
use codex_trading_app.Lifecycle.IntentState
use codex_trading_app.Lifecycle.Executions.{text, member, check_new, validate_execution_transition}
use codex_trading_app.Lifecycle.Executions.Table.{Allowed}
use codex_trading_app.Lifecycle.Intents
use codex_trading_app.Lifecycle.Intents.{validate_trade_intent_transition}
use codex_trading_app.Lifecycle.Intents.Table
use codex_trading_app.Lifecycle.Parsing.{parse_iff_value}
use codex_trading_app.Redaction.Payload.{Payload}
use codex_trading_app.Redaction.Text.{sanitize_text}
use codex_trading_app.Trades.Intent.{TradeIntent, IntentUpdate}
use codex_trading_app.Trades.Table.{IntentTable}
use codex_trading_app.Trades.Service.{StoreError}
use codex_trading_app.Trades.Held.{Held, transition-Moved}
use codex_trading_app.Trades.Executions.Record.{ExecutionUpdate}
use codex_trading_app.Trades.Executions.Events.{ExecutionEvent}
use codex_trading_app.Trades.Executions.Store.{changed_execution, transition_execution}
use codex_trading_app.Trades.Executions.Stages.{of_value-value}
use codex_trading_app.Trades.Executions.Runs.{status-changed}
use codex_trading_app.Orders.Outcome.{
  OrderState, lifted, move_execution, move_given, move_if_given, move_intent, move_both,
}

valid_execution :
    (given : String) (s t : ExecutionStatus)
    → given ≡ value s
    → Allowed s t
    → check_new t ≡ ok t
    → validate_execution_transition (text given) (member t) ≡ ok t
unfolding validate_execution_transition
valid_execution given s t e allowed new = rw (e, of_value-value s, new) allowed

valid_intent :
    (given : String) (s t : TradeIntentState)
    → given ≡ IntentState.value s
    → Table.Allowed s t
    → validate_trade_intent_transition (Intents.text given) (Intents.member t) ≡ ok t
unfolding validate_trade_intent_transition
valid_intent given s t e allowed = rw ((parse_iff_value given s).1 (sym e)) allowed

module _ (fl : Floats) (table : IntentTable fl.F) (lower substitute : String → String)
    (shown : Payload fl.F → String) (is_recorded : ExecutionEvent fl.F → Bool)
    (isoformat : ℕ → String) (clock : ℕ → ℕ) where
  open fl use {F}
  open table use {Db}

  -- An intent, if there is one, is in a state and as the table has it.
  abbrev pub IntentIn : TradeIntentState → Option (TradeIntent F) → Db → Type 0
  IntentIn i none db = Unit
  IntentIn i (some intent) db =
      Held table (sanitize_text substitute) intent db × (intent.state ≡ IntentState.value i)

  -- The execution is in a status, and so is the intent in a state.
  abbrev pub In : ExecutionStatus → TradeIntentState → OrderState fl table → Type 0
  In s i st = (st.execution.status ≡ value s) × IntentIn i st.intent st.db

  -- An answer is a result, and there they are.
  abbrev pub EndsIn :
      ExecutionStatus → TradeIntentState → Attempt StoreError (OrderState fl table) → Type 0
  EndsIn s i answer = (after : OrderState fl table) × (answer ≡ ok after) × In s i after

  pub chain-EndsIn :
      (s s' : ExecutionStatus) (i i' : TradeIntentState)
      (first : Attempt StoreError (OrderState fl table))
      (next : OrderState fl table → Attempt StoreError (OrderState fl table))
      → EndsIn s i first
      → ((st : OrderState fl table) → In s i st → EndsIn s' i' (next st))
      → EndsIn s' i' (first >>= next)
  chain-EndsIn s s' i i' first next (after, done, there) rest = rw done (rest after there)

  pub move_execution-EndsIn :
      (s t : ExecutionStatus) (i : TradeIntentState) (u : ExecutionUpdate F) (n : ℕ)
      (st : OrderState fl table)
      → Allowed s t
      → check_new t ≡ ok t
      → In s i st
      → EndsIn t i
          (move_execution fl table lower substitute shown is_recorded isoformat clock t u n st)
  unfolding move_execution transition_execution lifted
  move_execution-EndsIn s t i u n st allowed new (status, intent) =
      let after =
        (changed_execution lower substitute shown is_recorded u (clock n) (clock n) st.execution
          t).0 in
      (
        record st { execution = after },
        rw (valid_execution st.execution.status s t status allowed new) refl,
        (
          status-changed lower substitute shown is_recorded u (clock n) (clock n) st.execution t,
          intent,
        ),
      )

  move_if_given-EndsIn :
      (s : ExecutionStatus) (i j : TradeIntentState) (changes : IntentUpdate F) (n : ℕ)
      (st : OrderState fl table) (intent : Option (TradeIntent F))
      → st.intent ≡ intent
      → Table.Allowed i j
      → st.execution.status ≡ value s
      → IntentIn i intent st.db
      → EndsIn s j (
          move_if_given fl table lower substitute shown is_recorded isoformat clock j changes n st
            intent)
  unfolding move_if_given move_given
  move_if_given-EndsIn s i j changes n st none e allowed status there =
      (st, refl, (status, subst (λ o. IntentIn j o st.db) (sym e) tt))
  move_if_given-EndsIn s i j changes n st (some intent) e allowed status (held, state) =
      let (row, after, event, done, kept, moved) =
        transition-Moved table (sanitize_text substitute) (Intents.member j) changes (clock n)
          intent st.db j held (valid_intent intent.state i j state allowed) in
      (record st { intent = some row; db = after }, rw done refl, (status, (kept, moved)))

  pub move_intent-EndsIn :
      (s : ExecutionStatus) (i j : TradeIntentState) (changes : IntentUpdate F) (n : ℕ)
      (st : OrderState fl table)
      → Table.Allowed i j
      → In s i st
      → EndsIn s j
          (move_intent fl table lower substitute shown is_recorded isoformat clock j changes n st)
  unfolding move_intent
  move_intent-EndsIn s i j changes n st allowed (status, there) =
      move_if_given-EndsIn s i j changes n st st.intent refl allowed status there

  pub move_both-EndsIn :
      (s t : ExecutionStatus) (i j : TradeIntentState) (u : ExecutionUpdate F) (n : ℕ)
      (changes : IntentUpdate F) (m : ℕ) (st : OrderState fl table)
      → Allowed s t
      → check_new t ≡ ok t
      → Table.Allowed i j
      → In s i st
      → EndsIn t j (
          move_both fl table lower substitute shown is_recorded isoformat clock t u n j changes m
            st)
  unfolding move_both
  move_both-EndsIn s t i j u n changes m st allowed new allowed' there =
      chain-EndsIn t t i j
        (move_execution fl table lower substitute shown is_recorded isoformat clock t u n st)
        (λ moved.
          move_intent fl table lower substitute shown is_recorded isoformat clock j changes m moved)
        (move_execution-EndsIn s t i u n st allowed new there)
        (λ moved at. move_intent-EndsIn t i j changes m moved allowed' at)
