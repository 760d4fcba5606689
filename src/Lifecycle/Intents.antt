-- ===== src/Lifecycle/Intents.antt =====
-- The trade-intent transition table and its validation:
-- backend/app/services/lifecycle_rules.py.
pub mod Table
pub mod Paths
mod Examples
use codex_trading_app.Prelude.{
  String, ◌≡◌, refl, Bool, Option, none, some, List, [], ◌∷◌, map, Attempt, ok, raised, ◌>>=◌,
  str_ltb, if◌then◌else◌,
}
use codex_trading_app.Prelude.Sort.{sorted}
use codex_trading_app.Lifecycle.IntentState.{
  TradeIntentState, proposed, rejected, approved, submitted, acknowledged, partially_filled, filled,
  position_opened, close_requested, closed, failed, cancelled, external_position_adopted,
  recovered_position_attached, forced_reconciliation_close, value, is_in, of_value,
}
use codex_trading_app.Lifecycle.Errors.{
  LifecycleTransitionError, LifecycleError, unknown_value, refused,
}

-- `TRADE_INTENT_TERMINAL_STATES`
abbrev pub terminal_states : List TradeIntentState
terminal_states = rejected ∷ closed ∷ failed ∷ cancelled ∷ forced_reconciliation_close ∷ []

-- `TRADE_INTENT_TRANSITIONS`
unfoldable pub transitions : TradeIntentState → List TradeIntentState
transitions proposed = approved ∷ rejected ∷ []
transitions rejected = rejected ∷ []
transitions approved = approved ∷ submitted ∷ failed ∷ []
transitions submitted =
    acknowledged ∷ failed ∷ cancelled ∷ close_requested ∷ forced_reconciliation_close ∷ []
transitions acknowledged =
    acknowledged ∷ filled ∷ partially_filled ∷ position_opened ∷ close_requested ∷ failed
    ∷ cancelled ∷ forced_reconciliation_close ∷ []
transitions partially_filled = partially_filled ∷ close_requested ∷ forced_reconciliation_close ∷ []
transitions filled = position_opened ∷ closed ∷ []
transitions position_opened = position_opened ∷ close_requested ∷ forced_reconciliation_close ∷ []
transitions close_requested = submitted ∷ forced_reconciliation_close ∷ []
transitions closed = closed ∷ []
transitions failed = failed ∷ []
transitions cancelled = cancelled ∷ []
transitions external_position_adopted =
    external_position_adopted ∷ close_requested ∷ forced_reconciliation_close ∷ []
transitions recovered_position_attached =
    recovered_position_attached ∷ close_requested ∷ forced_reconciliation_close ∷ []
transitions forced_reconciliation_close = forced_reconciliation_close ∷ []

-- `TRADE_INTENT_PROVENANCE_STATES`
abbrev pub provenance_states : List TradeIntentState
provenance_states = external_position_adopted ∷ recovered_position_attached ∷ []

-- `TradeIntentState | str`
pub data StateInput : Type 0 where
  member : TradeIntentState → StateInput
  text : String → StateInput

-- The lookup by value, with its ValueError reported.
unfoldable pub known : String → Option TradeIntentState → Attempt LifecycleError TradeIntentState
known given none = raised (unknown_value given)
known given (some s) = ok s

unfoldable pub parse_trade_intent_state : StateInput → Attempt LifecycleError TradeIntentState
unfolding known of_value
parse_trade_intent_state (member s) = ok s
parse_trade_intent_state (text given) = known given (of_value given)

-- The two reasons of a refusal.
unfoldable pub refusal_reason : TradeIntentState → String
unfolding is_in
refusal_reason current =
    if is_in current terminal_states
    then "terminal trade intents cannot reactivate"
    else "transition is not classified as valid"

-- `sorted(allowed, key=str)`: the names behind one prefix, so by value.
sorted_values : List TradeIntentState → List String
unfolding sorted value
sorted_values states = sorted str_ltb (map value states)

-- The error of a refusal.
unfoldable pub refusal : TradeIntentState → TradeIntentState → LifecycleTransitionError
unfolding refusal_reason sorted_values
refusal current target = record {
  entity_name = "TradeIntent";
  current_state = value current;
  target_state = value target;
  allowed_targets = sorted_values (transitions current);
  reason = refusal_reason current;
}

-- The check of `validate_trade_intent_transition`, on parsed states.
unfoldable pub check_transition :
    TradeIntentState → TradeIntentState → Attempt LifecycleError TradeIntentState
unfolding transitions is_in
check_transition current target =
    if is_in target (transitions current)
    then ok target
    else raised (refused (refusal current target))

unfoldable pub validate_trade_intent_transition :
    StateInput → StateInput → Attempt LifecycleError TradeIntentState
unfolding parse_trade_intent_state check_transition
validate_trade_intent_transition current_state target_state = do
  current ← parse_trade_intent_state current_state
  target ← parse_trade_intent_state target_state
  check_transition current target
