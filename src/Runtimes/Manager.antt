-- ===== src/Runtimes/Manager.antt =====
-- The manager of the running engines: backend/app/core/runtime.py.
use codex_trading_app.Prelude.{
  ℕ, String, str_eq, Bool, true, false, not, ◌&&◌, Option, none, some, List, [], ◌∷◌, any, filter,
  map, Attempt, ok, raised, ◌>>=◌, if◌then◌else◌,
}
use mathlib.Core.Option
use codex_trading_app.Prelude.Rows.{find_first}
use codex_trading_app.Redaction.Payload.{number, Fields, end}
use codex_trading_app.Trades.Executions.Record.{put, merged, given_or}
use codex_trading_app.Runtimes.Strategy.{PriceUpdate, Strategies, Strategy}
use codex_trading_app.Runtimes.Registry.{
  RuntimeError, nothing_named, already_running, not_active, no_active_strategy, name_or,
  StrategyParameterDefinition, ResolvedStrategyProfile, Registered, registered, create,
  resolve_profile, value_in,
}
use codex_trading_app.Runtimes.Engine.{
  EngineSignal, TradingEngine, start_engine, stop_engine, process_price_update,
}

-- `RuntimeKey`: the names of the strategy and the instrument.
pub record RuntimeKey : Type 0 where
  pub strategy_name : String
  pub instrument : String

abbrev pub is_same_key : RuntimeKey → RuntimeKey → Bool
is_same_key k l = str_eq k.strategy_name l.strategy_name && str_eq k.instrument l.instrument

-- The test of `find_engine_keys`.
abbrev pub is_given : Option String → String → Bool
is_given none name = true
is_given (some given) name = str_eq name given

abbrev pub key_matches : Option String → Option String → RuntimeKey → Bool
key_matches strategy_name instrument key =
    is_given strategy_name key.strategy_name && is_given instrument key.instrument

module _ {A : Type 0} where
  -- `entries[key] = value` and `entries.pop(key, None)`, on a dict with names for keys.
  unfoldable pub set_item : String → A → List (String × A) → List (String × A)
  set_item key value [] = (key, value) ∷ []
  set_item key value (entry ∷ entries) =
      let rest = set_item key value entries in
      if str_eq (entry.0) key then (key, value) ∷ entries else entry ∷ rest

  unfoldable pub pop_item : String → List (String × A) → List (String × A)
  pop_item key entries = filter (λ entry. not (str_eq (entry.0) key)) entries

-- `engines[key] = engine`: the entry of the key is replaced, or a new one comes last.
unfoldable pub set_engine :
    {A : Type 0} → RuntimeKey → A → List (RuntimeKey × A) → List (RuntimeKey × A)
set_engine key engine [] = (key, engine) ∷ []
set_engine key engine (entry ∷ entries) =
    let rest = set_engine key engine entries in
    if is_same_key (entry.0) key then (key, engine) ∷ entries else entry ∷ rest

-- The loop of `resolve_profile` over the definitions.
unfoldable pub override_parameters :
    {F : Type 0} → List (StrategyParameterDefinition F) → Fields F × Fields F → Fields F × Fields F
unfolding put
override_parameters [] so_far = so_far
override_parameters (d ∷ definitions) (values, kwargs) =
    let value = value_in values d.key (number d.value) in
    override_parameters definitions
      (put d.key value values, put (name_or d.constructor_key d.key) value kwargs)

module _ (st : Strategies) where
  open st use {F, Position, State, restore_state_snapshot}

  pub record StrategyRuntimeManager : Type 0 where
    pub engines : List (RuntimeKey × TradingEngine st)
    pub last_prices : List (String × F)
    pub last_price_updated_at : List (String × ℕ)
    pub last_price_errors : List (String × String)

  -- `EngineUpdateResult`
  pub record EngineUpdateResult : Type 0 where
    pub key : RuntimeKey
    pub engine : TradingEngine st
    pub signal : Option (EngineSignal st)

  -- The arguments of `start`; `runtime_id` is the given one or the new one.
  pub record StartRequest : Type 0 where
    pub strategy_name : String
    pub instrument : String
    pub profile_name : Option String
    pub strategy_parameters : Fields F
    pub runtime_id : String
    pub strategy_snapshot : Fields F
    pub startup_context : Fields F
    pub current_position : Option Position
    pub runtime_mode : String
    pub activate : Bool

module _ (st : Strategies) where
  open st use {F, Position, State, restore_state_snapshot}

  abbrev pub empty_manager : StrategyRuntimeManager st
  empty_manager = record {
    engines = [];
    last_prices = [];
    last_price_updated_at = [];
    last_price_errors = [];
  }

  abbrev with_overrides :
      Fields F
      → List (StrategyParameterDefinition F)
      → ResolvedStrategyProfile F
      → ResolvedStrategyProfile F
  with_overrides end definitions resolved = resolved
  with_overrides parameters definitions resolved =
      let (values, kwargs) =
        override_parameters definitions (merged resolved.parameter_values parameters, end) in
      record resolved { parameter_values = values; constructor_kwargs = kwargs }

  -- `resolve_profile`
  unfoldable pub resolve_with_parameters :
      String
      → Option String
      → Fields F
      → List (Registered F State)
      → Attempt RuntimeError (ResolvedStrategyProfile F)
  unfolding resolve_profile registered override_parameters merged
  resolve_with_parameters name profile_name parameters registry = do
    resolved ← resolve_profile name profile_name registry
    r ← registered name registry
    ok (with_overrides parameters r.metadata.parameters resolved)

  abbrev restored : Fields F → State → State
  restored end state = state
  restored snapshot state = restore_state_snapshot snapshot state

  abbrev pub key_of : StartRequest st → RuntimeKey
  key_of r = record { strategy_name = r.strategy_name; instrument = r.instrument }

  -- The engine that `start` builds; `current_position` is the clone of the given one.
  abbrev idle_engine :
      StartRequest st → ResolvedStrategyProfile F → Strategy State → TradingEngine st
  idle_engine r profile strategy = record {
    strategy = record { name = strategy.name; state = restored r.strategy_snapshot strategy.state };
    instrument = r.instrument;
    runtime_id = r.runtime_id;
    active_profile_name = some profile.profile_name;
    strategy_parameters = profile.parameter_values;
    startup_context = r.startup_context;
    runtime_mode = r.runtime_mode;
    active = false;
    current_position = r.current_position;
    last_heartbeat_at = none;
  }

  -- It is start_if_free if the request says so.
  abbrev pub new_engine :
      ℕ → StartRequest st → ResolvedStrategyProfile F → Strategy State → TradingEngine st
  new_engine now r profile strategy =
      let engine = idle_engine r profile strategy in
      if r.activate then start_engine st now engine else engine

  -- The engine for a request, by the registry.
  unfoldable pub build_engine :
      ℕ → StartRequest st → List (Registered F State) → Attempt RuntimeError (TradingEngine st)
  unfolding resolve_with_parameters create start_engine
  build_engine now r registry = do
    profile ← resolve_with_parameters r.strategy_name r.profile_name r.strategy_parameters registry
    strategy ← create r.strategy_name profile.constructor_kwargs registry
    ok (new_engine now r profile strategy)

  -- `start`
  unfoldable pub start :
      ℕ
      → List (Registered F State)
      → StartRequest st
      → StrategyRuntimeManager st
      → Attempt RuntimeError (TradingEngine st × StrategyRuntimeManager st)
  unfolding build_engine set_engine
  start now registry r m =
      if any (λ e. is_same_key (e.0) (key_of r)) m.engines
      then raised (already_running r.strategy_name r.instrument)
      else do
        engine ← build_engine now r registry
        ok (engine, record m { engines = set_engine (key_of r) engine m.engines })

  abbrev pub is_for : String → RuntimeKey × TradingEngine st → Bool
  is_for instrument e = str_eq (e.0).instrument instrument

  -- The errors of prices that a stop leaves.
  unfoldable pub errors_left :
      Option String
      → List (RuntimeKey × TradingEngine st)
      → List (String × String)
      → List (String × String)
  unfolding pop_item
  errors_left none engines errors = errors
  errors_left (some instrument) engines errors =
      if any (is_for instrument) engines then errors else pop_item instrument errors

  -- The loop of `stop` over the keys that match, which are those of the engines that match.
  unfoldable pub stop_matching :
      ℕ
      → Option String
      → Option String
      → StrategyRuntimeManager st
      → Attempt RuntimeError (List (TradingEngine st) × StrategyRuntimeManager st)
  unfolding stop_engine errors_left
  stop_matching now strategy_name instrument m =
      let matching =
        λ (e : RuntimeKey × TradingEngine st). key_matches strategy_name instrument (e.0) in
      let left = filter (λ e. not (matching e)) m.engines in
      if not (any matching m.engines)
      then raised (not_active strategy_name instrument)
      else ok (
        map (λ e. stop_engine st now (e.1)) (filter matching m.engines),
        record m {
          engines = left;
          last_price_errors = errors_left instrument left m.last_price_errors;
        },
      )

  -- `stop`
  unfoldable pub stop :
      ℕ
      → Option String
      → Option String
      → StrategyRuntimeManager st
      → Attempt RuntimeError (List (TradingEngine st) × StrategyRuntimeManager st)
  unfolding stop_matching
  stop now none none m = raised nothing_named
  stop now strategy_name instrument m = stop_matching now strategy_name instrument m

  -- The loop of `process_price_update`: the engines of the instrument hear the price, in their order.
  unfoldable pub update_engines :
      ℕ
      → PriceUpdate F
      → List (RuntimeKey × TradingEngine st)
      → List (EngineUpdateResult st) × List (RuntimeKey × TradingEngine st)
  unfolding process_price_update
  update_engines now update [] = ([], [])
  update_engines now update (e ∷ engines) =
      let (results, rest) = update_engines now update engines in
      let (signal, engine) = process_price_update st now update (e.1) in
      if is_for update.instrument e
      then (record { key = e.0; engine = engine; signal = signal } ∷ results, (e.0, engine) ∷ rest)
      else (results, e ∷ rest)

  -- `process_price_update`, whose arguments are those of a `PriceUpdate`; `now` and `later` are its
  -- readings of the clock.
  unfoldable pub process_price :
      ℕ
      → ℕ
      → PriceUpdate F
      → StrategyRuntimeManager st
      → Attempt RuntimeError (List (EngineUpdateResult st) × StrategyRuntimeManager st)
  unfolding update_engines set_item pop_item
  process_price now later update m =
      let heard = record update { received_at = some (given_or update.received_at later) } in
      let (results, engines) = update_engines later heard m.engines in
      if not (any (is_for update.instrument) m.engines)
      then raised (no_active_strategy update.instrument)
      else ok (
        results,
        record {
          engines = engines;
          last_prices = set_item update.instrument update.price m.last_prices;
          last_price_updated_at =
              set_item update.instrument (given_or update.received_at now) m.last_price_updated_at;
          last_price_errors = pop_item update.instrument m.last_price_errors;
        },
      )

  -- `set_price_error`
  unfoldable pub set_price_error :
      String → String → StrategyRuntimeManager st → StrategyRuntimeManager st
  unfolding set_item
  set_price_error instrument error m = record m {
    last_price_errors = set_item instrument error m.last_price_errors;
  }

  abbrev stamped : String → Option ℕ → List (String × ℕ) → List (String × ℕ)
  stamped instrument none instants = instants
  stamped instrument (some t) instants = set_item instrument t instants

  -- `load_cached_price`
  unfoldable pub load_cached_price :
      String → Option F → Option ℕ → StrategyRuntimeManager st → StrategyRuntimeManager st
  unfolding set_item
  load_cached_price instrument none updated_at m = m
  load_cached_price instrument (some price) updated_at m = record m {
    last_prices = set_item instrument price m.last_prices;
    last_price_updated_at = stamped instrument updated_at m.last_price_updated_at;
  }

  -- `get_engine`
  unfoldable pub get_engine : RuntimeKey → StrategyRuntimeManager st → Option (TradingEngine st)
  unfolding find_first
  get_engine key m = Option.map (λ e. e.1) (find_first (λ e. is_same_key (e.0) key) m.engines)
