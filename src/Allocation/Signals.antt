-- ===== src/Allocation/Signals.antt =====
-- Signals and candidates (backend/app/core/signals.py), what the allocator reads of positions and
-- intents (backend/app/models/trade.py) and the broker contract (backend/app/core/broker.py).
-- `F` is the type of floats, `E` that of trading engines, of which the allocator uses the broker.
use codex_trading_app.Prelude.{ℕ, String, Bool, Option, none, some, str_eq, List, if◌then◌else◌}

-- `OrderDirection`
pub data OrderDirection : Type 0 where
  buy sell : OrderDirection

-- `OrderDirection.value`
abbrev pub direction_value : OrderDirection → String
direction_value buy = "BUY"
direction_value sell = "SELL"

-- The fields of `EntrySignal` that the allocator and the risk controls read.
pub record EntrySignal (F : Type 0) : Type 0 where
  pub strategy_name : String
  pub instrument : String
  pub observed_price : F
  pub signal_at : ℕ
  pub direction : OrderDirection
  pub size : F
  pub risk_percent : F
  pub stop_loss_price : Option F
  pub expected_reward_risk : Option F
  pub bid : Option F
  pub ask : Option F
  pub market_status : Option String
  pub tradable : Option Bool

-- `EntrySignal | ExitSignal | None`; of the last two the allocator reads nothing.
pub data Signal (F : Type 0) : Type 0 where
  entry : EntrySignal F → Signal F
  exit : Signal F
  absent : Signal F

-- `SignalCandidate`; `family_name` is `metadata.family_name`, where there is one.
pub record SignalCandidate (F E : Type 0) : Type 0 where
  pub strategy_name : String
  pub instrument : String
  pub signal : Signal F
  pub engine : E
  pub source_tier : String
  pub confidence : Option F
  pub family_name : Option String

-- The fields of `Position` and `TradeIntent` that `_build_open_state` reads.
pub record PositionRisk (F : Type 0) : Type 0 where
  pub trade_intent_id : Option ℕ
  pub strategy_name : String
  pub family_name : Option String
  pub instrument : String
  pub size : F
  pub open_price : F
  pub current_price : Option F
  pub risk_percent : Option F

pub record IntentRisk (F : Type 0) : Type 0 where
  pub id : Option ℕ
  pub position_id : Option ℕ
  pub strategy_name : String
  pub family_name : Option String
  pub instrument : String
  pub allocated_risk_percent : Option F
  pub proposed_risk_percent : Option F
  pub allocated_size : Option F
  pub proposed_size : Option F
  pub average_fill_price : Option F
  pub observed_price : Option F

-- `BrokerSizingPrecision`
pub data BrokerSizingPrecision : Type 0 where
  exact approximate unsupported : BrokerSizingPrecision

-- The currencies of `BrokerMarketDetails`.
pub record BrokerMarketDetails : Type 0 where
  pub base_currency : Option String
  pub quote_currency : Option String

-- The fields of `BrokerRiskSizingQuote` that decide.
pub record BrokerRiskSizingQuote (F : Type 0) : Type 0 where
  pub precision : BrokerSizingPrecision
  pub sizing_available : Bool
  pub entry_price : F
  pub risk_amount : F
  pub requested_size : F

-- The fields of `BrokerSizeNormalization` that decide.
pub record BrokerSizeNormalization (F : Type 0) : Type 0 where
  pub normalized_size : F
  pub accepted : Bool
  pub reason_code : String
  pub min_deal_size : Option F
  pub size_step : Option F

-- The broker of an engine, as the allocator calls it. `none` is a call that raises.
pub record Brokers (F E : Type 0) : Type 0 where
  -- `account_type.value == "LIVE"`
  pub is_live : E → Bool
  -- `get_account_summary().equity`
  pub account_equity : E → Option F
  pub get_market_details : E → String → Option BrokerMarketDetails
  -- instrument, entry price, risk amount, stop-loss price, fallback stop distance
  pub quote_risk_sized_order : E → String → F → F → Option F → F → Option (BrokerRiskSizingQuote F)
  pub normalize_order_size : E → String → F → BrokerSizeNormalization F
  -- `_currency_buckets`, of an instrument and the details at hand
  pub currency_buckets : String → Option BrokerMarketDetails → List String

-- `str(family_name or strategy_name)`: an empty name is false too.
abbrev pub family_or : Option String → String → String
family_or none strategy = strategy
family_or (some family) strategy = if str_eq family "" then strategy else family
