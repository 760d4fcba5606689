-- ===== src/Trades/Service.antt =====
-- `create_trade_intent`, `transition_trade_intent` and `get_trade_intent` of
-- backend/app/services/trade_service.py.
use codex_trading_app.Prelude.{
  ℕ, String, str_eq, Bool, false, not, ◌&&◌, Option, none, some, List, [], ◌∷◌, filter, Attempt, ok,
  raised, ltb, if◌then◌else◌,
}
use codex_trading_app.Lifecycle.IntentState.{TradeIntentState}
use codex_trading_app.Lifecycle.Errors.{LifecycleError}
use codex_trading_app.Lifecycle.Intents.{StateInput, text, validate_trade_intent_transition}
use codex_trading_app.Trades.Intent.{
  TradeIntent, IntentUpdate, owns, owns_instrument, same_id, sanitize_trade_intent, transitioned,
  trade_intent_event_severity,
}
use codex_trading_app.Trades.Table.{find_row, IntentTable}

-- The exceptions; `integrity_error` is the database's, raised on.
pub data StoreError : Type 0 where
  transition_refused : LifecycleError → StoreError
  active_trade_intent_conflict : String → Option ℕ → StoreError
  integrity_error : StoreError

-- `trade_intent.state_changed`
pub record StateChange : Type 0 where
  pub previous_state : String
  pub new_state : String
  pub severity : String

-- `_record_trade_intent_transition_domain_event`: no event where the state is the same.
unfoldable pub state_change : String → String → Option StateChange
unfolding trade_intent_event_severity
state_change previous new =
    if str_eq previous new
    then none
    else some (record {
      previous_state = previous;
      new_state = new;
      severity = trade_intent_event_severity new;
    })

module _ {F : Type 0} where
  -- `exclude_intent_id is None or TradeIntent.id != exclude_intent_id`
  abbrev kept_out : Option ℕ → TradeIntent F → Bool
  kept_out none r = false
  kept_out (some id) r = same_id r.id (some id)

  -- The first of the most recently updated rows.
  latest_row : Option (TradeIntent F) → List (TradeIntent F) → Option (TradeIntent F)
  latest_row best [] = best
  latest_row none (r ∷ rs) = latest_row (some r) rs
  latest_row (some b) (r ∷ rs) =
      latest_row (some (if ltb b.updated_at r.updated_at then r else b)) rs

  -- `find_active_trade_intent_for_instrument_excluding`
  unfoldable pub find_active_excluding :
      String → Option ℕ → List (TradeIntent F) → Option (TradeIntent F)
  unfolding latest_row owns_instrument
  find_active_excluding instrument exclude rows =
      latest_row none (filter (λ r. owns_instrument instrument r && not (kept_out exclude r)) rows)

  abbrev id_of : Option (TradeIntent F) → Option ℕ
  id_of none = none
  id_of (some r) = r.id

  -- The handling of an IntegrityError, on the intent as it is after the rollback.
  unfoldable pub conflict : TradeIntent F → List (TradeIntent F) → StoreError
  unfolding owns find_active_excluding
  conflict r rows =
      if owns r.state
      then active_trade_intent_conflict r.instrument
          (id_of (find_active_excluding r.instrument r.id rows))
      else integrity_error

  module _ (table : IntentTable F) (sanitize_text : String → String) where
    open table use {Db, rows, new_id, insert, update}

    -- `get_trade_intent`
    unfoldable pub get_trade_intent : ℕ → Db → Option (TradeIntent F)
    get_trade_intent id db = find_row (some id) (rows db)

    -- The result of an INSERT, or of its IntegrityError.
    unfoldable pub created :
        TradeIntent F → Db → Option Db → Attempt StoreError (TradeIntent F × Db)
    created row db none = raised (conflict row (rows db))
    created row db (some after) = ok (record row { id = some (new_id db) }, after)

    -- `create_trade_intent`: the stored intent and the database, or the error on the same database.
    unfoldable pub create_trade_intent :
        TradeIntent F → Db → Attempt StoreError (TradeIntent F × Db)
    create_trade_intent intent db =
        let row = sanitize_trade_intent sanitize_text intent in created row db (insert row db)

    -- The result of an UPDATE, or of its IntegrityError, after which the intent is as before.
    unfoldable pub changed :
        TradeIntent F
        → TradeIntent F
        → Db
        → Option Db
        → Attempt StoreError (TradeIntent F × Db × Option StateChange)
    changed row intent db none = raised (conflict intent (rows db))
    changed row intent db (some after) = ok (row, after, state_change intent.state row.state)

    -- The commit of a transition, where the validation returns a state.
    unfoldable pub commit_transition :
        IntentUpdate F
        → ℕ
        → TradeIntent F
        → Db
        → Attempt LifecycleError TradeIntentState
        → Attempt StoreError (TradeIntent F × Db × Option StateChange)
    commit_transition changes now intent db (raised e) = raised (transition_refused e)
    commit_transition changes now intent db (ok next) =
        let row = transitioned sanitize_text next changes now intent in
        changed row intent db (update row db)

    -- `transition_trade_intent`, on an intent as the database has it.
    unfoldable pub transition_trade_intent :
        StateInput
        → IntentUpdate F
        → ℕ
        → TradeIntent F
        → Db
        → Attempt StoreError (TradeIntent F × Db × Option StateChange)
    transition_trade_intent target changes now intent db =
        commit_transition changes now intent db
          (validate_trade_intent_transition (text intent.state) target)
