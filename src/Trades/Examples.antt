-- ===== src/Trades/Examples.antt =====
-- A table in memory, intents that compete for an instrument, and the theorems about the store at
-- concrete inputs (backend/app/services/trade_service.py).
use codex_trading_app.Prelude.{
  ℕ, ◌≤◌, String, ◌≡◌, refl, Bool, true, false, none, some, List, [], ◌∷◌, ◌++◌, length, count,
  raised, arith, if◌then◌else◌,
}
use mathlib.Core.Option
use codex_trading_app.Prelude.Rows.{find_first}
use codex_trading_app.Lifecycle.IntentState.{proposed, closed, value}
use codex_trading_app.Lifecycle.Errors.{LifecycleError, refused}
use codex_trading_app.Lifecycle.Intents.{text, member, refusal, validate_trade_intent_transition}
use codex_trading_app.Trades.Intent.{TradeIntent, no_update, owns_instrument}
use codex_trading_app.Trades.Table.{clashes, replace_row, IntentTable}
use codex_trading_app.Trades.Service.{
  transition_refused, commit_transition, transition_trade_intent,
}
use codex_trading_app.Trades.Calls.{Call, creating, transitioning, perform_all}
use codex_trading_app.Trades.Runs.{ownership_exclusive}
use codex_trading_app.Trades.Refusals.{transition_never_conflicts}

abbrev Rows : Type 0
Rows = List (TradeIntent ℕ)

pub map_checked :
    (b : Bool) (rows : Rows)
    → Option.map (λ (x : Rows). x) (if b then none else some rows) ≡ (if b then none else some rows)
map_checked true rows = refl
map_checked false rows = refl

-- The laws of `IntentTable` can be met: the table is the list of its rows.
abbrev pub memory : IntentTable ℕ
memory = record {
  Db = Rows;
  rows = λ db. db;
  new_id = λ db. length db;
  insert =
      λ r db. if clashes r db then none else some (db ++ record r { id = some (length db) } ∷ []);
  update = λ r db. if clashes r db then none else some (replace_row r db);
  insert_lem = λ r db. map_checked (clashes r db) (db ++ record r { id = some (length db) } ∷ []);
  update_lem = λ r db. map_checked (clashes r db) (replace_row r db);
}

abbrev clean : String → String
clean t = t

abbrev pub intent : String → String → TradeIntent ℕ
intent strategy market = record {
  id = none;
  strategy_name = strategy;
  instrument = market;
  direction = "BUY";
  state = "PROPOSED";
  allocation_cycle_id = none;
  allocated_size = none;
  allocated_risk_percent = none;
  estimated_risk_amount = none;
  submitted_risk_amount = none;
  fill_derived_risk_amount = none;
  risk_truth_confidence = none;
  risk_currency = none;
  average_fill_price = none;
  filled_size = none;
  broker_reference = none;
  close_broker_reference = none;
  position_id = none;
  trade_id = none;
  decision_reason_code = none;
  decision_reason = none;
  close_reason_code = none;
  close_reason = none;
  execution_client_request_id = none;
  submitted_at = none;
  acknowledged_at = none;
  completed_at = none;
  opened_at = none;
  closed_at = none;
  updated_at = 0;
}

-- Two intents for one instrument, a transition, and one that is not allowed.
abbrev calls : List (Call ℕ)
calls =
    creating (intent "trend" "EURUSD")
    ∷ creating (intent "revert" "EURUSD")
    ∷ transitioning 0 (text "APPROVED") no_update 5
    ∷ transitioning 0 (member closed) no_update 6
    ∷ []

nobody : (i : String) → count (owns_instrument i) (memory.rows []) ≤ 1
nobody i = omega arith

ownership_exclusive_example :
    count (owns_instrument "EURUSD") (perform_all memory clean calls []) ≤ 1
ownership_exclusive_example = ownership_exclusive memory clean calls [] nobody "EURUSD"

-- A stored intent that is proposed, and its refused closing.
abbrev stored : TradeIntent ℕ
stored = record (intent "trend" "EURUSD") { id = some 0 }

alone : (i : String) → count (owns_instrument i) (memory.rows (stored ∷ [])) ≤ 1
alone i = ground arith

closing_refused :
    transition_trade_intent memory clean (member closed) no_update 6 stored (stored ∷ [])
    ≡ raised (transition_refused (refused (refusal proposed closed)))
unfolding transition_trade_intent commit_transition validate_trade_intent_transition value
closing_refused = refl

transition_never_conflicts_example :
    (e : LifecycleError) × (transition_refused (refused (refusal proposed closed))
      ≡ transition_refused e)
    × (validate_trade_intent_transition (text "PROPOSED") (member closed) ≡ raised e)
unfolding find_first
transition_never_conflicts_example =
    transition_never_conflicts memory clean (member closed) no_update 6 stored (stored ∷ [])
      (transition_refused (refused (refusal proposed closed))) alone refl closing_refused
