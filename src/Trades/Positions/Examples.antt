-- ===== src/Trades/Positions/Examples.antt =====
-- Positions of one broker reference at concrete calls (backend/app/services/trade_service.py).
use codex_trading_app.Prelude.{
  ℕ, ◌≤◌, String, ◌≡◌, refl, Bool, true, false, none, some, List, [], ◌∷◌, map, count, arith,
}
use codex_trading_app.Prelude.Rows.{find_first, replace_first}
use codex_trading_app.Trades.Positions.Store.{Position, PositionClosing, is_open_at}
use codex_trading_app.Trades.Positions.Unique.{
  PositionCall, recording, closing, upserting, run_position_calls, one_open_position,
}

abbrev reported : String → ℕ → Position ℕ
reported market size = record {
  id = none;
  trade_intent_id = none;
  strategy_name = "trend";
  family_name = none;
  broker_reference = some "deal-1";
  instrument = market;
  direction = "SELL";
  size = size;
  open_price = 20;
  close_price = none;
  open_time = 3;
  close_time = none;
  pnl = none;
  current_price = some 21;
  unrealized_pnl = none;
  risk_percent = none;
  entry_risk_amount = none;
  risk_truth_confidence = none;
  reason = some "seen";
  manual_override = true;
  account_type = "DEMO";
  is_open = true;
  broker_sync_status = "PENDING";
  close_execution_source = none;
  broker_open_confirmed_at = none;
  broker_closed_confirmed_at = none;
  last_reconciled_at = none;
  created_at = 3;
}

abbrev closing_arguments : PositionClosing ℕ
closing_arguments = record {
  close_price = some 18;
  close_time = none;
  pnl = none;
  broker_sync_status = "CONFIRMED";
  close_execution_source = none;
  close_reason = none;
  broker_confirmed_at = none;
}

-- A position that is reported twice, closed, and reported again.
abbrev reports : List (PositionCall ℕ)
reports =
    recording 4 0 (reported "GBPUSD" 1)
    ∷ recording 5 1 (reported "GBPUSD" 2)
    ∷ closing 6 7 closing_arguments 0
    ∷ upserting 1 (reported "GBPUSD" 3)
    ∷ []

abbrev clean : String → String
clean t = t

abbrev round : ℕ → ℕ → ℕ
round x digits = x

abbrev sizes_of : List (Position ℕ) → List (ℕ × Bool × String)
sizes_of rows = map (λ (p : Position ℕ). (p.size, p.is_open, p.broker_sync_status)) rows

stored_positions :
    sizes_of (run_position_calls clean round 0 reports [])
    ≡ (2, false, "CONFIRMED") ∷ (3, true, "PENDING") ∷ []
unfolding run_position_calls find_first replace_first
stored_positions = refl

one_open_position_example :
    count
      (is_open_at "" (some "trend") (some "deal-1"))
      (run_position_calls clean round 0 reports [])
    ≤ 1
one_open_position_example =
    one_open_position clean round 0 "trend" "deal-1" reports [] (omega arith)
