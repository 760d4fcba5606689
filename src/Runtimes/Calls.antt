-- ===== src/Runtimes/Calls.antt =====
-- Calls of the manager of engines (backend/app/core/runtime.py) in any order, with what other code
-- writes to an engine in between, and what they do to the engine of one key.
use codex_trading_app.Prelude.{
  ℕ, String, str_eq, Bool, false, ◌&&◌, Option, none, some, List, [], ◌∷◌, map, Attempt, ok, raised,
  if◌then◌else◌,
}
use mathlib.Core.Option
use codex_trading_app.Trades.Executions.Record.{given_or}
use codex_trading_app.Runtimes.Strategy.{PriceUpdate, Strategies}
use codex_trading_app.Runtimes.Registry.{RuntimeError, Registered}
use codex_trading_app.Runtimes.Engine.{TradingEngine, process_price_update}
use codex_trading_app.Runtimes.Manager.{
  RuntimeKey, is_same_key, StrategyRuntimeManager, StartRequest, key_of, build_engine, start, stop,
  process_price, set_price_error, load_cached_price,
}

-- Whether a stop is for a key: a name that is not given leaves every name in, and with neither
-- given there is no stop.
abbrev pub stops : Option String → Option String → RuntimeKey → Bool
stops none none key = false
stops none (some instrument) key = str_eq key.instrument instrument
stops (some strategy_name) none key = str_eq key.strategy_name strategy_name
stops (some strategy_name) (some instrument) key =
    str_eq key.strategy_name strategy_name && str_eq key.instrument instrument

module _ (st : Strategies) where
  open st use {F, Position, State}

  -- A call with its readings of the clock, or an assignment of backend/app/services to an engine: of
  -- its position, its mode and, by a hook, its strategy's state.
  pub data ManagerCall : Type 0 where
    starting : ℕ → StartRequest st → ManagerCall
    stopping : ℕ → Option String → Option String → ManagerCall
    pricing : ℕ → ℕ → PriceUpdate F → ManagerCall
    failing : String → String → ManagerCall
    caching : String → Option F → Option ℕ → ManagerCall
    writing : RuntimeKey → Option Position → String → State → ManagerCall

module _ (st : Strategies) where
  open st use {F, Position, State}

  abbrev pub written_engine : Option Position → String → State → TradingEngine st → TradingEngine st
  written_engine position mode state engine = record engine {
    strategy = record { name = engine.strategy.name; state = state };
    current_position = position;
    runtime_mode = mode;
  }

  abbrev pub written :
      RuntimeKey
      → Option Position
      → String
      → State
      → RuntimeKey × TradingEngine st
      → RuntimeKey × TradingEngine st
  written key position mode state e =
      if is_same_key (e.0) key then (e.0, written_engine position mode state (e.1)) else e

  -- An exception leaves the manager as it was.
  abbrev pub manager_after :
      {A : Type 0}
      → StrategyRuntimeManager st
      → Attempt RuntimeError (A × StrategyRuntimeManager st)
      → StrategyRuntimeManager st
  manager_after m (raised problem) = m
  manager_after m (ok (answer, after)) = after

  module _ (registry : List (Registered F State)) where
    unfoldable pub perform_call :
        ManagerCall st → StrategyRuntimeManager st → StrategyRuntimeManager st
    unfolding start stop process_price set_price_error load_cached_price
    perform_call (starting now r) m = manager_after m (start st now registry r m)
    perform_call (stopping now strategy_name instrument) m =
        manager_after m (stop st now strategy_name instrument m)
    perform_call (pricing now later update) m =
        manager_after m (process_price st now later update m)
    perform_call (failing instrument error) m = set_price_error st instrument error m
    perform_call (caching instrument price updated_at) m =
        load_cached_price st instrument price updated_at m
    perform_call (writing key position mode state) m = record m {
      engines = map (written key position mode state) m.engines;
    }

    unfoldable pub run_calls :
        List (ManagerCall st) → StrategyRuntimeManager st → StrategyRuntimeManager st
    unfolding perform_call
    run_calls [] m = m
    run_calls (c ∷ calls) m = run_calls calls (perform_call c m)

    abbrev pub built : Attempt RuntimeError (TradingEngine st) → Option (TradingEngine st)
    built (raised problem) = none
    built (ok engine) = some engine

    -- What a start does where no engine runs under the key, and where one does.
    abbrev pub start_if_free :
        ℕ → StartRequest st → Option (TradingEngine st) → Option (TradingEngine st)
    start_if_free now r none = built (build_engine st now r registry)
    start_if_free now r (some engine) = some engine

    abbrev pub left_by_stop :
        Option String
        → Option String
        → RuntimeKey
        → Option (TradingEngine st)
        → Option (TradingEngine st)
    left_by_stop strategy_name instrument key engine =
        if stops strategy_name instrument key then none else engine

    -- The instant at which an engine hears a price.
    abbrev pub heard_update : ℕ → PriceUpdate F → PriceUpdate F
    heard_update later update = record update {
      received_at = some (given_or update.received_at later);
    }

    -- The life of the engine of one key: what a call makes of it, or of there being none.
    unfoldable pub follow_call :
        RuntimeKey → ManagerCall st → Option (TradingEngine st) → Option (TradingEngine st)
    unfolding build_engine process_price_update
    follow_call key (starting now r) engine =
        if is_same_key (key_of st r) key then start_if_free now r engine else engine
    follow_call key (stopping now strategy_name instrument) engine =
        left_by_stop strategy_name instrument key engine
    follow_call key (pricing now later update) engine =
        if str_eq key.instrument update.instrument
        then Option.map
            (λ (e : TradingEngine st).
              (process_price_update st later (heard_update later update) e).1)
            engine
        else engine
    follow_call key (failing instrument error) engine = engine
    follow_call key (caching instrument price updated_at) engine = engine
    follow_call key (writing k position mode state) engine =
        if is_same_key key k then Option.map (written_engine position mode state) engine else engine

    unfoldable pub follow_calls :
        RuntimeKey → List (ManagerCall st) → Option (TradingEngine st) → Option (TradingEngine st)
    unfolding follow_call
    follow_calls key [] engine = engine
    follow_calls key (c ∷ calls) engine = follow_calls key calls (follow_call key c engine)
