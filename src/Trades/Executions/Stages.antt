-- ===== src/Trades/Executions/Stages.antt =====
-- The statuses that backend/app/services/trade_service.py stores as texts, and how far they have come.
use codex_trading_app.Prelude.{
  ℕ, ◌≤◌, String, eq_iff, ◌≡◌, refl, true, Option, none, some, List, [], ◌∷◌, arith, ok,
}
use codex_trading_app.Lifecycle.ExecutionStatus.{
  ExecutionStatus, submission_pending, signal_generated, value, members, is_in, find_value,
  of_value,
}
use codex_trading_app.Lifecycle.Executions.{text, known, terminal_statuses, parse_execution_status}
use codex_trading_app.Lifecycle.Executions.Table.{stage, stage-le-five}

pub of_value-value : (s : ExecutionStatus) → of_value (value s) ≡ some s
unfolding of_value value
of_value-value submission_pending = refl
of_value-value signal_generated = refl
of_value-value _ = refl

find_value-value :
    (given : String) (l : List ExecutionStatus) (s : ExecutionStatus)
    → find_value given l ≡ some s
    → value s ≡ given
unfolding find_value
find_value-value given [] s h = ground (arith, h)
find_value-value given (t ∷ ts) s h =
    ground (arith, h, eq_iff (value t) given, find_value-value given ts s)

value_of_found : (given : String) (s : ExecutionStatus) → of_value given ≡ some s → value s ≡ given
unfolding of_value
value_of_found given s h = find_value-value given members s h

known-ok :
    (given : String) (o : Option ExecutionStatus) (s : ExecutionStatus)
    → known given o ≡ ok s
    → o ≡ some s
unfolding known
known-ok given none s h = cc
known-ok given (some t) s h = cc

pub parsed_text :
    (given : String) (s : ExecutionStatus)
    → parse_execution_status (text given) ≡ ok s
    → (of_value given ≡ some s) × (value s ≡ given)
unfolding parse_execution_status
parsed_text given s h =
    let found = known-ok given (of_value given) s h in (found, value_of_found given s found)

-- How far a stored status has come; an unknown text has not begun.
abbrev pub stage_of : Option ExecutionStatus → ℕ
stage_of none = 0
stage_of (some s) = stage s

pub stage_of-le-five : (o : Option ExecutionStatus) → stage_of o ≤ 5
stage_of-le-five none = omega arith
stage_of-le-five (some s) = stage-le-five s

pub stage_of_terminal : (s : ExecutionStatus) → is_in s terminal_statuses ≡ true → stage s ≡ 5
unfolding is_in stage
stage_of_terminal s h = ground (arith, h)

-- The number of events in an option.
abbrev pub weight : {A : Type 0} → Option A → ℕ
weight none = 0
weight (some a) = 1

pub weight-le-one : {A : Type 0} (o : Option A) → weight o ≤ 1
weight-le-one none = omega arith
weight-le-one (some a) = omega arith
