-- ===== src/Runtimes/Examples.antt =====
-- A strategy that trades on levels of the price, its engines, and the theorems at concrete calls
-- (backend/app/core/runtime.py).
use codex_trading_app.Prelude.{
  ℕ, String, ltb, ◌≡◌, ◌↔◌, if◌then◌else◌, refl, true, Option, none, some, List, [], ◌∷◌, All, map,
  Attempt, ok, raised,
}
use codex_trading_app.Prelude.Rows.{find_first}
use codex_trading_app.Trades.Executions.Events.{find_field}
use codex_trading_app.Allocation.Signals.{buy}
use codex_trading_app.Redaction.Payload.{Payload, number, text, Fields, end, field}
use codex_trading_app.Runtimes.Strategy.{PriceUpdate, Strategies}
use codex_trading_app.Runtimes.Registry.{
  RuntimeError, not_registered, already_running, constructor_failed, Registered, register,
}
use codex_trading_app.Runtimes.Engine.{EngineSignal, entry_signal, exit_signal}
use codex_trading_app.Runtimes.Manager.{
  RuntimeKey, StrategyRuntimeManager, EngineUpdateResult, StartRequest, empty_manager, start, stop,
  process_price, get_engine,
}
use codex_trading_app.Runtimes.Calls.{
  ManagerCall, starting, pricing, writing, run_calls, stops, follow_calls,
}
use codex_trading_app.Runtimes.Answers.{IsRefused, answer_of, start_answer, manager_as_map}
use codex_trading_app.Runtimes.Traces.{SoundResult, signals_sound}

abbrev number_or_zero : Payload ℕ → ℕ
number_or_zero (number n) = n
number_or_zero _ = 0

abbrev text_or_empty : Payload ℕ → String
text_or_empty (text t) = t
text_or_empty _ = ""

-- The state is the last price: above 10 the strategy enters, below 5 it leaves.
abbrev levels : Strategies
levels = record {
  F = ℕ;
  zero_size = 0;
  Position = ℕ;
  State = ℕ;
  on_price_update = λ update last. update.price;
  should_enter_trade = λ last. (ltb 10 last, last);
  should_exit_trade = λ last. (ltb last 5, last);
  entry_direction = λ last. (buy, last);
  entry_signal_hints =
      λ last. (field "stop_loss_price" (number 8) (field "desk" (text "london") end), last);
  restore_state_snapshot = λ snapshot last. last;
  to_float = number_or_zero;
  to_str = text_or_empty;
}

-- The constructor wants some ticks.
abbrev new_levels : Fields ℕ → Attempt RuntimeError ℕ
new_levels (field name ticks end) =
    if ltb 0 (number_or_zero ticks)
    then ok 0
    else raised (constructor_failed "ticks must be positive")
new_levels parameters = ok 0

abbrev breakout : Registered ℕ ℕ
breakout = record {
  metadata = record {
    name = "breakout";
    parameters = record { key = "ticks"; value = 3; constructor_key = none } ∷ [];
    parameter_profiles = record { name = "calm"; parameter_values = end } ∷ [];
  };
  factory = record { name = "breakout"; construct = new_levels };
}

abbrev registry : List (Registered ℕ ℕ)
registry = breakout ∷ []

registered_once : register breakout (register breakout []) ≡ registry
unfolding register
registered_once = refl

abbrev eurusd : RuntimeKey
eurusd = record { strategy_name = "breakout"; instrument = "EURUSD" }

abbrev request : String → String → StartRequest levels
request strategy mode = record {
  strategy_name = strategy;
  instrument = "EURUSD";
  profile_name = none;
  strategy_parameters = field "ticks" (number 5) end;
  runtime_id = "run-1";
  strategy_snapshot = end;
  startup_context = end;
  current_position = none;
  runtime_mode = mode;
  activate = true;
}

abbrev wanting : ℕ → StartRequest levels
wanting ticks = record (request "breakout" "NORMAL") {
  strategy_parameters = field "ticks" (number ticks) end;
}

abbrev tick : ℕ → PriceUpdate ℕ
tick price = record {
  instrument = "EURUSD";
  price = price;
  bid = none;
  ask = none;
  high = none;
  low = none;
  market_status = none;
  tradable = some true;
  received_at = none;
}

-- Two starts under one key, one of an unknown strategy, a price, and the position that is opened.
abbrev calls : List (ManagerCall levels)
calls =
    starting 1 (request "breakout" "NORMAL")
    ∷ starting 2 (request "breakout" "EXITS_ONLY")
    ∷ starting 3 (request "scalper" "NORMAL")
    ∷ pricing 4 5 (tick 9)
    ∷ []

abbrev holding : List (ManagerCall levels)
holding = starting 1 (request "breakout" "NORMAL") ∷ writing eurusd (some 77) "NORMAL" 12 ∷ []

abbrev exits_only : List (ManagerCall levels)
exits_only = starting 1 (request "breakout" "EXITS_ONLY") ∷ []

abbrev Priced : Type 0
Priced = Attempt RuntimeError (List (EngineUpdateResult levels) × StrategyRuntimeManager levels)

abbrev priced : ℕ → List (ManagerCall levels) → Priced
priced price before =
    process_price levels 6 7 (tick price) (run_calls levels registry before (empty_manager levels))

abbrev results_of : Priced → List (EngineUpdateResult levels)
results_of (raised problem) = []
results_of (ok (results, after)) = results

abbrev manager_of : Priced → StrategyRuntimeManager levels
manager_of (raised problem) = empty_manager levels
manager_of (ok (results, after)) = after

abbrev shown_signal : Option (EngineSignal levels) → String × Option ℕ
shown_signal none = ("none", none)
shown_signal (some (entry_signal p)) = ("entry", p.signal.stop_loss_price)
shown_signal (some (exit_signal x)) = ("exit", some x.position)

abbrev signals_of : Priced → List (String × Option ℕ)
signals_of answer =
    map (λ (r : EngineUpdateResult levels). shown_signal r.signal) (results_of answer)

-- Flat an engine enters, with the hinted stop; holding it leaves; in EXITS_ONLY it does not enter; and
-- without an engine the price is refused.
signals_emitted :
    signals_of (priced 12 calls)
      ∷ signals_of (priced 3 holding)
      ∷ signals_of (priced 12 exits_only)
      ∷ signals_of (priced 12 [])
      ∷ []
    ≡ (("entry", some 8) ∷ []) ∷ (("exit", some 77) ∷ []) ∷ (("none", none) ∷ []) ∷ [] ∷ []
unfolding process_price run_calls find_first find_field
signals_emitted = refl

priced_ok : priced 12 calls ≡ ok (results_of (priced 12 calls), manager_of (priced 12 calls))
unfolding process_price run_calls find_first find_field
priced_ok = refl

signals_sound_example : All (SoundResult levels (tick 12)) (results_of (priced 12 calls))
signals_sound_example =
    signals_sound levels registry calls 6 7 (tick 12) (results_of (priced 12 calls))
      (manager_of (priced 12 calls)) (refl, tt) priced_ok

-- Where the key has an engine a start is refused, where it has none it answers as the building does,
-- and a stop and a price are refused where no engine is selected.
answers_given :
    answer_of (start levels 8 registry (request "breakout" "NORMAL") (manager_of (priced 12 calls)))
      ∷ answer_of (start levels 8 registry (wanting 0) (empty_manager levels))
      ∷ answer_of (start levels 8 registry (request "scalper" "NORMAL") (empty_manager levels))
      ∷ []
    ≡ raised (already_running "breakout" "EURUSD")
      ∷ raised (constructor_failed "ticks must be positive")
      ∷ raised (not_registered "scalper")
      ∷ []
unfolding start process_price run_calls find_first find_field
answers_given = refl

manager_as_map_example :
    (get_engine levels eurusd (run_calls levels registry calls (empty_manager levels))
      ≡ follow_calls levels registry eurusd calls none)
    × (answer_of (
          start levels 8 registry
            (request "breakout" "NORMAL")
            (run_calls levels registry calls (empty_manager levels)))
        ≡ start_answer levels 8 registry
            (request "breakout" "NORMAL")
            (follow_calls levels registry eurusd calls none))
    × (IsRefused (
          stop levels 8 none
            (some "GBPUSD")
            (run_calls levels registry calls (empty_manager levels)))
        ↔ ((k : RuntimeKey)
            → stops none (some "GBPUSD") k ≡ true
            → follow_calls levels registry k calls none ≡ none))
    × (IsRefused (
          process_price levels 8 9
            (tick 12)
            (run_calls levels registry calls (empty_manager levels)))
        ↔ ((k : RuntimeKey)
            → k.instrument ≡ "EURUSD"
            → follow_calls levels registry k calls none ≡ none))
manager_as_map_example =
    manager_as_map levels registry calls eurusd 8 9 (request "breakout" "NORMAL") none
      (some "GBPUSD") (tick 12)
