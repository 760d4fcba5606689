-- ===== src/Risk/PreTrade.antt =====
-- `_evaluate_pre_trade` of backend/app/services/portfolio_risk_service.py, with the lookup of the
-- recent intents. `a >= b - d` on instants is written `b ≤ a + d`.
use codex_trading_app.Prelude.{
  ℕ, ◌+◌, String, str_eq, Bool, true, false, not, ◌&&◌, ◌||◌, Option, none, some, List, [], ◌∷◌,
  any, filter, count, ltb, leb, if◌then◌else◌,
}
use codex_trading_app.Allocation.Floats.{Floats}
use codex_trading_app.Allocation.Signals.{EntrySignal, direction_value}
use codex_trading_app.Risk.Records.{
  HeldPosition, ClosedTrade, EntryIntent, RiskSettings, Check, LayerResult, check, layer_result,
}

-- `SMOKE_TEST_STRATEGIES`
abbrev pub is_smoke_test : String → Bool
is_smoke_test strategy = str_eq strategy "smoke_test_hold"

-- The built-in `max` on whole numbers.
abbrev later : ℕ → ℕ → ℕ
later a b = if ltb a b then b else a

module _ (fl : Floats) (settings : RiskSettings fl.F) where
  open fl use {F, literal, lt}

  -- `_load_recent_entry_trade_intents`: the intents of the table from the longest window on; none
  -- without a session.
  lookback : ℕ
  lookback =
      later
        (later
          (later (later settings.entry_burst_window settings.failed_entry_retry_cooldown)
            settings.duplicate_signal_window)
          settings.cooldown_after_loss)
        settings.cooldown_after_exit

  unfoldable pub load_recent_entry_trade_intents :
      EntrySignal F → Option (List EntryIntent) → List EntryIntent
  unfolding lookback
  load_recent_entry_trade_intents s none = []
  load_recent_entry_trade_intents s (some intents) =
      filter (λ i. leb s.signal_at (i.signal_time + lookback)) intents

  -- `max(relevant, key=...)`: the first of the latest.
  latest : Option (ClosedTrade F) → List (ClosedTrade F) → Option (ClosedTrade F)
  latest best [] = best
  latest none (t ∷ ts) = latest (some t) ts
  latest (some b) (t ∷ ts) = latest (some (if ltb b.close_time t.close_time then t else b)) ts

  -- `_latest_closed_trade`
  unfoldable pub latest_closed_trade : List (ClosedTrade F) → EntrySignal F → Option (ClosedTrade F)
  unfolding latest
  latest_closed_trade trades s = latest none (
      filter (λ t. str_eq t.strategy_name s.strategy_name && str_eq t.instrument s.instrument)
        trades)

  unfoldable pub open_same_instrument : EntrySignal F → HeldPosition F → Bool
  open_same_instrument s p = str_eq p.instrument s.instrument && p.is_open

  unfoldable pub same_strategy_instrument : EntrySignal F → HeldPosition F → Bool
  same_strategy_instrument s p =
      str_eq p.strategy_name s.strategy_name && (str_eq p.instrument s.instrument && p.is_open)

  unfoldable pub open_for_strategy : EntrySignal F → HeldPosition F → Bool
  open_for_strategy s p = str_eq p.strategy_name s.strategy_name && p.is_open

  unfoldable pub recent_loss : EntrySignal F → Option (ClosedTrade F) → Bool
  recent_loss s none = false
  recent_loss s (some t) =
      lt t.pnl (literal "0") && leb s.signal_at (t.close_time + settings.cooldown_after_loss)

  unfoldable pub recent_exit : EntrySignal F → Option (ClosedTrade F) → Bool
  recent_exit s none = false
  recent_exit s (some t) = leb s.signal_at (t.close_time + settings.cooldown_after_exit)

  -- The intent has been decided, and not been rejected.
  abbrev went_ahead : EntryIntent → Bool
  went_ahead i = not (str_eq i.state "PROPOSED") && not (str_eq i.state "REJECTED")

  unfoldable pub is_duplicate : EntrySignal F → EntryIntent → Bool
  is_duplicate s i =
      leb s.signal_at (i.created_at + settings.duplicate_signal_window)
      && (ltb i.signal_time s.signal_at
          && (str_eq i.strategy_name s.strategy_name
              && (str_eq i.instrument s.instrument
                  && (str_eq i.direction (direction_value s.direction) && went_ahead i))))

  unfoldable pub is_concurrent : EntrySignal F → EntryIntent → Bool
  is_concurrent s i =
      leb s.signal_at (i.created_at + settings.entry_burst_window)
      && (ltb i.signal_time s.signal_at && went_ahead i)

  abbrev is_absent : Option ℕ → Bool
  is_absent none = true
  is_absent (some n) = false

  unfoldable pub is_failed_entry : EntrySignal F → EntryIntent → Bool
  is_failed_entry s i =
      leb s.signal_at (i.created_at + settings.failed_entry_retry_cooldown)
      && (str_eq i.strategy_name s.strategy_name
          && (str_eq i.instrument s.instrument
              && (str_eq i.state "FAILED" && is_absent i.position_id)))

  -- `signal.tradable is not False`
  abbrev pub may_trade : Option Bool → Bool
  may_trade (some false) = false
  may_trade _ = true

  unfoldable pub pre_trade_checks :
      EntrySignal F → List (HeldPosition F) → List (ClosedTrade F) → List EntryIntent → List Check
  unfolding open_same_instrument same_strategy_instrument open_for_strategy recent_loss recent_exit
      is_duplicate is_concurrent is_failed_entry latest_closed_trade check
  pre_trade_checks s positions trades intents =
      let last_trade = latest_closed_trade trades s in
      let smoke_test = is_smoke_test s.strategy_name in
      check "tradable" (may_trade s.tradable) "Market is tradable for fresh entries."
        "Market is not tradable."
      ∷ check "one_position_per_instrument"
          (not settings.one_position_per_instrument || not (any (open_same_instrument s) positions))
          "Instrument-level position limit is clear." "Instrument already has an open position."
      ∷ check "strategy_instrument_uniqueness" (not (any (same_strategy_instrument s) positions))
          "No duplicate strategy position for this instrument."
          "Strategy already has an open position for this instrument."
      ∷ check "strategy_position_limit"
          (ltb (count (open_for_strategy s) positions) settings.max_positions_per_strategy)
          "Strategy concurrency is within limits." "Strategy concurrency limit reached."
      ∷ check "cooldown_after_loss" (not (recent_loss s last_trade)) "Loss cooldown is clear."
          "Cooldown after recent losing trade is active."
      ∷ check "cooldown_after_exit" (not (recent_exit s last_trade)) "Exit cooldown is clear."
          "Cooldown after recent exit is active."
      ∷ check "duplicate_signal_suppression"
          (if smoke_test then true else not (any (is_duplicate s) intents))
          (if smoke_test
            then "Duplicate signal suppression skipped for smoke-test strategy."
            else "No duplicate entry signal in the suppression window.")
          "Duplicate entry signal detected in suppression window."
      ∷ check "entry_burst_limit"
          (if smoke_test
            then true
            else ltb (count (is_concurrent s) intents) settings.entry_burst_limit)
          (if smoke_test
            then "Entry burst limit skipped for smoke-test strategy."
            else "Entry velocity is within the configured burst window.")
          "Too many recent entry attempts in the configured burst window."
      ∷ check "failed_entry_retry_cooldown" (not (any (is_failed_entry s) intents))
          "No recent broker-side entry failures are blocking retries."
          "Recent broker-side entry failure is in cooldown; retry paused to avoid repeated broker requests."
      ∷ []

  -- `_evaluate_pre_trade`
  unfoldable pub evaluate_pre_trade :
      EntrySignal F → List (HeldPosition F) → List (ClosedTrade F) → List EntryIntent → LayerResult
  evaluate_pre_trade s positions trades intents =
      layer_result "pre_trade" "pre_trade checks passed."
        (pre_trade_checks s positions trades intents)
