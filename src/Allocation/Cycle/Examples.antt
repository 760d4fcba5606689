-- ===== src/Allocation/Cycle/Examples.antt =====
-- A cycle over whole numbers with one broker, and the theorems about cycles of
-- backend/app/services/capital_allocator_service.py at concrete inputs.
use codex_trading_app.Prelude.{
  ℕ, ◌+◌, ◌-◌, ◌≤◌, String, str_eq, ◌≡◌, refl, true, false, ◌&&◌, none, some, List, [], ◌∷◌, map,
  count, length,
}
use codex_trading_app.Allocation.Whole.{whole}
use codex_trading_app.Allocation.Signals.{
  OrderDirection, buy, sell, entry, exit, SignalCandidate, PositionRisk, IntentRisk, exact, Brokers,
}
use codex_trading_app.Allocation.Decision.{AllocationDecision, AllocationSettings, passthrough}
use codex_trading_app.Allocation.State.{build_open_state, empty_cycle, reserve_cycle_state}
use codex_trading_app.Allocation.Scoring.{is_stale, stale_decision}
use codex_trading_app.Allocation.Planning.{prepare_candidate_plan}
use codex_trading_app.Allocation.Budgets.{allocate_risk, allocate_candidate}
use codex_trading_app.Allocation.State.Counts.{stands_alone, held_by, book_counts}
use codex_trading_app.Allocation.Cycle.{allocate, consider}
use codex_trading_app.Allocation.Cycle.Opening.{opens}
use codex_trading_app.Allocation.Cycle.Accounting.{of_decision, every_candidate_decided}
use codex_trading_app.Allocation.Cycle.Limits.{cycle_within_limits, cycle_within_strategy_limit}
use codex_trading_app.Allocation.Cycle.Exclusive.{cycle_exclusive}

-- One engine, with an account of 10,000; a quote of 10 units at the price that is asked for.
abbrev desk : Brokers ℕ Unit
desk = record {
  is_live = λ e. false;
  account_equity = λ e. some 10000;
  get_market_details =
      λ e i. some (record { base_currency = some "EUR"; quote_currency = some "USD" });
  quote_risk_sized_order = λ e i price amount stop fallback. some (record {
    precision = exact;
    sizing_available = true;
    entry_price = price;
    risk_amount = amount;
    requested_size = 10;
  });
  normalize_order_size = λ e i size. record {
    normalized_size = size;
    accepted = true;
    reason_code = "accepted";
    min_deal_size = none;
    size_step = none;
  };
  currency_buckets = λ i details. "EUR" ∷ "USD" ∷ [];
}

abbrev settings : AllocationSettings ℕ
settings = record {
  max_price_age_ms = 60000;
  max_spread_pips = 2;
  runtime_max_open_positions = 3;
  runtime_max_positions_per_strategy = 2;
  runtime_max_open_risk_percent = 20;
  runtime_max_position_notional = 1000;
  allocation_default_risk_per_trade_percent = 1;
  allocation_fallback_stop_distance_percent = 1;
  allocation_max_new_positions_per_cycle = 2;
  allocation_max_new_risk_per_cycle_percent = 10;
  allocation_max_risk_per_strategy_percent = 10;
  allocation_max_risk_per_family_percent = 10;
  allocation_max_risk_per_instrument_percent = 10;
  allocation_max_risk_per_currency_percent = 20;
  allocation_max_gross_exposure_percent = 100;
  allocation_under_minimum_round_up_tolerance_percent = 10;
  trade_allocator_signal_stale_after_seconds = 30;
}

abbrev entry_at : OrderDirection → ℕ → String → String → SignalCandidate ℕ Unit
entry_at way at strategy market = record {
  strategy_name = strategy;
  instrument = market;
  signal = entry (record {
    strategy_name = strategy;
    instrument = market;
    observed_price = 2;
    signal_at = at;
    direction = way;
    size = 10;
    risk_percent = 2;
    stop_loss_price = none;
    expected_reward_risk = none;
    bid = none;
    ask = none;
    market_status = none;
    tradable = none;
  });
  engine = tt;
  source_tier = "TIER1";
  confidence = some 1;
  family_name = none;
}

-- Two strategies on one instrument, a stale signal, a second instrument and an exit.
abbrev candidates : List (SignalCandidate ℕ Unit)
candidates =
    entry_at buy 100 "trend" "EURUSD"
    ∷ entry_at sell 101 "revert" "EURUSD"
    ∷ entry_at buy 10 "trend" "GBPUSD"
    ∷ entry_at buy 102 "trend" "USDJPY"
    ∷ record (entry_at buy 100 "trend" "AUDUSD") { signal = exit }
    ∷ []

abbrev positions : List (PositionRisk ℕ)
positions =
    (record {
      trade_intent_id = some 7;
      strategy_name = "trend";
      family_name = none;
      instrument = "USDCHF";
      size = 10;
      open_price = 3;
      current_price = none;
      risk_percent = some 1;
    })
    ∷ []

-- An intent that the open position stands for.
abbrev intents : List (IntentRisk ℕ)
intents =
    (record {
      id = some 7;
      position_id = none;
      strategy_name = "trend";
      family_name = none;
      instrument = "USDCHF";
      allocated_risk_percent = some 1;
      proposed_risk_percent = none;
      allocated_size = some 10;
      proposed_size = none;
      average_fill_price = none;
      observed_price = some 3;
    })
    ∷ []

abbrev decisions : List (AllocationDecision ℕ Unit)
decisions = allocate whole desk settings "cycle" 110 positions intents candidates

decision_codes :
    map (λ d. d.reason_code) decisions
    ≡ "stale_signal" ∷ "non_entry_passthrough" ∷ "direction_conflict" ∷ "allocated" ∷ "allocated"
      ∷ []
unfolding allocate consider is_stale prepare_candidate_plan stale_decision passthrough
    allocate_candidate empty_cycle allocate_risk reserve_cycle_state
decision_codes = refl

every_candidate_decided_example :
    count (of_decision whole (λ c. str_eq c.instrument "EURUSD")) decisions
    ≡ count (λ c. str_eq c.instrument "EURUSD") candidates
every_candidate_decided_example =
    every_candidate_decided whole (λ c. str_eq c.instrument "EURUSD") desk settings "cycle" 110
      positions intents candidates

cycle_within_limits_example :
    (count (opens whole) decisions ≤ 2)
    × (count (opens whole) decisions
        ≤ 3 - (length positions + count (stands_alone whole desk positions) intents))
cycle_within_limits_example =
    cycle_within_limits whole desk settings "cycle" 110 positions intents candidates

cycle_within_strategy_limit_example :
    count (λ d. opens whole d && str_eq d.candidate.strategy_name "trend") decisions
    ≤ 2 - held_by whole desk "trend" positions intents
cycle_within_strategy_limit_example =
    cycle_within_strategy_limit whole desk settings "trend" "cycle" 110 positions intents candidates

cycle_exclusive_example :
    count (λ d. opens whole d && str_eq d.candidate.instrument "EURUSD") decisions ≤ 1
cycle_exclusive_example =
    cycle_exclusive whole desk settings "EURUSD" "cycle" 110 positions intents candidates

book_counts_example :
    let book = build_open_state whole desk positions intents in
    (book.open_positions ≡ length positions + count (stands_alone whole desk positions) intents)
    × (book.strategy_positions "trend" ≡ held_by whole desk "trend" positions intents)
book_counts_example = book_counts whole desk "trend" positions intents
