-- ===== src/Runtimes/Engine.antt =====
-- The trading engine: backend/app/core/trading_engine.py, and the signals that it emits, of
-- backend/app/core/signals.py.
use codex_trading_app.Prelude.{
  ℕ, String, str_eq, Bool, true, false, not, Option, none, some, if◌then◌else◌,
}
use codex_trading_app.Allocation.Signals.{OrderDirection, EntrySignal}
use codex_trading_app.Redaction.Payload.{Payload, null, Fields, end, field}
use codex_trading_app.Trades.Executions.Record.{put, given_or}
use codex_trading_app.Runtimes.Strategy.{PriceUpdate, Strategies, Strategy}

module _ (st : Strategies) where
  open st use {F, Position, State}

  -- `EntrySignal`: what the allocator reads of it, and the fields of hints that it does not read.
  pub record EntryProposal : Type 0 where
    pub signal : EntrySignal F
    pub take_profit_price : Option F
    pub volatility_estimate : Option F
    pub thesis : Option String
    pub strategy_metadata : Fields F

  pub record ExitSignal : Type 0 where
    pub strategy_name : String
    pub instrument : String
    pub observed_price : F
    pub signal_at : ℕ
    pub position : Position
    pub bid : Option F
    pub ask : Option F
    pub market_status : Option String
    pub tradable : Option Bool

  -- `EntrySignal | ExitSignal`
  pub data EngineSignal : Type 0 where
    entry_signal : EntryProposal → EngineSignal
    exit_signal : ExitSignal → EngineSignal

  -- `TradingEngine`, without the broker, which it only holds.
  pub record TradingEngine : Type 0 where
    pub strategy : Strategy State
    pub instrument : String
    pub runtime_id : String
    pub active_profile_name : Option String
    pub strategy_parameters : Fields F
    pub startup_context : Fields F
    pub runtime_mode : String
    pub active : Bool
    pub current_position : Option Position
    pub last_heartbeat_at : Option ℕ

module _ (st : Strategies) where
  open st use {
    F, zero_size, Position, State, on_price_update, should_enter_trade, should_exit_trade,
    entry_direction, entry_signal_hints, to_float, to_str,
  }

  -- `start`, at an instant
  unfoldable pub start_engine : ℕ → TradingEngine st → TradingEngine st
  start_engine now engine = record engine { active = true; last_heartbeat_at = some now }

  -- `stop`
  unfoldable pub stop_engine : ℕ → TradingEngine st → TradingEngine st
  stop_engine now engine = record engine { active = false; last_heartbeat_at = some now }

  -- `float(value) if value is not None else None`
  abbrev float_hint : Payload F → Option F
  float_hint null = none
  float_hint value = some (to_float value)

  abbrev text_hint : Payload F → Option String
  text_hint null = none
  text_hint value = some (to_str value)

  abbrev with_metadata : String → Payload F → Fields F → Fields F
  with_metadata key null entries = entries
  with_metadata key value entries = put key value entries

  -- One pass of the loop of `_apply_entry_signal_hints`.
  unfoldable pub apply_hint : String → Payload F → EntryProposal st → EntryProposal st
  unfolding put
  apply_hint key value p =
      if str_eq key "stop_loss_price"
      then record p { signal = record (p.signal) { stop_loss_price = float_hint value } }
      else if str_eq key "take_profit_price"
      then record p { take_profit_price = float_hint value }
      else if str_eq key "expected_reward_risk"
      then record p { signal = record (p.signal) { expected_reward_risk = float_hint value } }
      else if str_eq key "volatility_estimate"
      then record p { volatility_estimate = float_hint value }
      else if str_eq key "thesis"
      then record p { thesis = text_hint value }
      else record p { strategy_metadata = with_metadata key value p.strategy_metadata }

  -- `_apply_entry_signal_hints`
  unfoldable pub apply_entry_signal_hints : Fields F → EntryProposal st → EntryProposal st
  unfolding apply_hint
  apply_entry_signal_hints end p = p
  apply_entry_signal_hints (field key value hints) p =
      apply_entry_signal_hints hints (apply_hint key value p)

  abbrev with_state : State → TradingEngine st → TradingEngine st
  with_state state engine = record engine {
    strategy = record { name = engine.strategy.name; state = state };
  }

  -- The signal of an entry before the hints.
  abbrev pub raw_entry : TradingEngine st → PriceUpdate F → ℕ → OrderDirection → EntryProposal st
  raw_entry engine update signal_time direction = record {
    signal = record {
      strategy_name = engine.strategy.name;
      instrument = engine.instrument;
      observed_price = update.price;
      signal_at = signal_time;
      direction = direction;
      size = zero_size;
      risk_percent = zero_size;
      stop_loss_price = none;
      expected_reward_risk = none;
      bid = update.bid;
      ask = update.ask;
      market_status = update.market_status;
      tradable = update.tradable;
    };
    take_profit_price = none;
    volatility_estimate = none;
    thesis = none;
    strategy_metadata = end;
  }

  abbrev exit_of : TradingEngine st → PriceUpdate F → ℕ → Position → ExitSignal st
  exit_of engine update signal_time position = record {
    strategy_name = engine.strategy.name;
    instrument = engine.instrument;
    observed_price = update.price;
    signal_at = signal_time;
    position = position;
    bid = update.bid;
    ask = update.ask;
    market_status = update.market_status;
    tradable = update.tradable;
  }

  -- The answer of `should_enter_trade` in the first test.
  unfoldable pub enter_if :
      TradingEngine st
      → PriceUpdate F
      → ℕ
      → Bool × State
      → Option (EngineSignal st) × TradingEngine st
  unfolding apply_entry_signal_hints
  enter_if engine update signal_time (false, state) = (none, with_state state engine)
  enter_if engine update signal_time (true, state) =
      let (direction, chosen) = entry_direction state in
      let (hints, hinted) = entry_signal_hints chosen in
      (
        some (
            entry_signal
              (apply_entry_signal_hints hints (raw_entry engine update signal_time direction))),
        with_state hinted engine,
      )

  -- The answer of `should_exit_trade` in the second test.
  unfoldable pub exit_if :
      TradingEngine st
      → PriceUpdate F
      → ℕ
      → Position
      → Bool × State
      → Option (EngineSignal st) × TradingEngine st
  exit_if engine update signal_time position (false, state) = (none, with_state state engine)
  exit_if engine update signal_time position (true, state) =
      (some (exit_signal (exit_of engine update signal_time position)), with_state state engine)

  -- The two tests, by whether a position is held; a strategy is asked only where it is its turn.
  unfoldable pub ask_strategy :
      TradingEngine st
      → PriceUpdate F
      → ℕ
      → Option Position
      → Option (EngineSignal st) × TradingEngine st
  unfolding enter_if exit_if
  ask_strategy engine update signal_time none =
      if str_eq engine.runtime_mode "EXITS_ONLY"
      then (none, engine)
      else enter_if engine update signal_time (should_enter_trade engine.strategy.state)
  ask_strategy engine update signal_time (some position) =
      exit_if engine update signal_time position (should_exit_trade engine.strategy.state)

  abbrev pub heard : TradingEngine st → PriceUpdate F → ℕ → TradingEngine st
  heard engine update signal_time =
      record (with_state (on_price_update update engine.strategy.state) engine) {
        last_heartbeat_at = some signal_time;
      }

  -- `process_price_update`; `now` is the reading of the clock.
  unfoldable pub process_price_update :
      ℕ → PriceUpdate F → TradingEngine st → Option (EngineSignal st) × TradingEngine st
  unfolding ask_strategy
  process_price_update now update engine =
      let signal_time = given_or update.received_at now in
      if not engine.active
      then (none, engine)
      else ask_strategy (heard engine update signal_time) update signal_time engine.current_position
