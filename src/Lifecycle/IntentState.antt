-- ===== src/Lifecycle/IntentState.antt =====
-- `TradeIntentState` of backend/app/models/trade.py, its values, and the sets of states that the
-- code names.
use codex_trading_app.Prelude.{
  ℕ, String, str_eq, Bool, Option, none, some, List, [], ◌∷◌, any, ◌==◌, if◌then◌else◌,
}

pub data TradeIntentState : Type 0 where
  proposed rejected approved submitted acknowledged partially_filled : TradeIntentState
  filled position_opened close_requested closed failed cancelled : TradeIntentState
  external_position_adopted recovered_position_attached : TradeIntentState
  forced_reconciliation_close : TradeIntentState

unfoldable pub value : TradeIntentState → String
value proposed = "PROPOSED"
value rejected = "REJECTED"
value approved = "APPROVED"
value submitted = "SUBMITTED"
value acknowledged = "ACKNOWLEDGED"
value partially_filled = "PARTIALLY_FILLED"
value filled = "FILLED"
value position_opened = "POSITION_OPENED"
value close_requested = "CLOSE_REQUESTED"
value closed = "CLOSED"
value failed = "FAILED"
value cancelled = "CANCELLED"
value external_position_adopted = "EXTERNAL_POSITION_ADOPTED"
value recovered_position_attached = "RECOVERED_POSITION_ATTACHED"
value forced_reconciliation_close = "FORCED_RECONCILIATION_CLOSE"

-- `for state in TradeIntentState`: the members in the order of their definition.
abbrev pub members : List TradeIntentState
members =
    proposed ∷ rejected ∷ approved ∷ submitted ∷ acknowledged ∷ partially_filled ∷ filled
    ∷ position_opened ∷ close_requested ∷ closed ∷ failed ∷ cancelled ∷ external_position_adopted
    ∷ recovered_position_attached ∷ forced_reconciliation_close ∷ []

-- The place of a member in the definition, by which members are told apart.
unfoldable pub place : TradeIntentState → ℕ
place proposed = 0
place rejected = 1
place approved = 2
place submitted = 3
place acknowledged = 4
place partially_filled = 5
place filled = 6
place position_opened = 7
place close_requested = 8
place closed = 9
place failed = 10
place cancelled = 11
place external_position_adopted = 12
place recovered_position_attached = 13
place forced_reconciliation_close = 14

-- `state in states`
unfoldable pub is_in : TradeIntentState → List TradeIntentState → Bool
unfolding place
is_in s states = any (λ t. place s == place t) states

-- `TradeIntentState(value)`: the member with that value, or `none` for the ValueError.
unfoldable pub find_value : String → List TradeIntentState → Option TradeIntentState
find_value text [] = none
find_value text (s ∷ rest) = if str_eq (value s) text then some s else find_value text rest

unfoldable pub of_value : String → Option TradeIntentState
unfolding find_value
of_value text = find_value text members

-- `ACTIVE_INSTRUMENT_OWNERSHIP_STATES`
abbrev pub active_instrument_ownership_states : List TradeIntentState
active_instrument_ownership_states =
    proposed ∷ approved ∷ submitted ∷ acknowledged ∷ partially_filled ∷ filled ∷ position_opened
    ∷ close_requested ∷ external_position_adopted ∷ recovered_position_attached ∷ []
