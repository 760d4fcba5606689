-- ===== src/Runtimes/Strategy.antt =====
-- The contract of strategies: backend/app/strategies/base.py.
use codex_trading_app.Prelude.{ℕ, String, Bool, Option}
use codex_trading_app.Allocation.Signals.{OrderDirection}
use codex_trading_app.Redaction.Payload.{Payload, Fields}

-- `PriceUpdate`
pub record PriceUpdate (F : Type 0) : Type 0 where
  pub instrument : String
  pub price : F
  pub bid : Option F
  pub ask : Option F
  pub high : Option F
  pub low : Option F
  pub market_status : Option String
  pub tradable : Option Bool
  pub received_at : Option ℕ

-- `Strategy`, for all the strategies there are: `State` is what an instance keeps, of whatever class,
-- and a method may change it. Each method returns. A method of no hints answers the empty mapping.
-- `Position` is the type of positions, which engines only hold, and `to_float` and `to_str` are the
-- conversions of hints.
pub record Strategies : Type 1 where
  pub F : Type 0
  pub zero_size : F
  pub Position : Type 0
  pub State : Type 0
  pub on_price_update : PriceUpdate F → State → State
  pub should_enter_trade : State → Bool × State
  pub should_exit_trade : State → Bool × State
  pub entry_direction : State → OrderDirection × State
  pub entry_signal_hints : State → Fields F × State
  pub restore_state_snapshot : Fields F → State → State
  pub to_float : Payload F → F
  pub to_str : Payload F → String

-- An instance: the name of its class, which no instance changes, and its state.
pub record Strategy (St : Type 0) : Type 0 where
  pub name : String
  pub state : St
