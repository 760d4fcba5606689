-- ===== src/Allocation/Budgets.antt =====
-- The budgets of a cycle and the decision on one plan: `_allocatable_risk_percent`,
-- `_gross_remaining_notional`, the two position counts and `_allocate_candidate` of
-- backend/app/services/capital_allocator_service.py.
use Prim.Native.String.{◌++◌}
use codex_trading_app.Prelude.{
  ℕ, ◌+◌, String, true, ◌||◌, some, List, [], ◌∷◌, map, Attempt, ok, raised, leb, if◌then◌else◌,
}
use codex_trading_app.Allocation.Floats.{Floats, max, min}
use codex_trading_app.Allocation.Signals.{Brokers}
use codex_trading_app.Allocation.Decision.{
  AllocationDecision, CandidatePlan, AllocationSettings, is_approximate, reject,
}
use codex_trading_app.Allocation.State.{OpenState, CycleState}
use codex_trading_app.Allocation.Sizing.{NormalizedSize, normalize_size}

module _ (fl : Floats) {E : Type 0} (brokers : Brokers fl.F E)
    (settings : AllocationSettings fl.F) where
  open fl use {F, literal, sub, mul, div, abs, lt, le}

  -- `_portfolio_position_count` and `_strategy_position_count`
  unfoldable pub portfolio_position_count : OpenState F → CycleState F → ℕ
  portfolio_position_count book cycle = book.open_positions + cycle.selected_positions

  unfoldable pub strategy_position_count : String → OpenState F → CycleState F → ℕ
  strategy_position_count strategy book cycle =
      book.strategy_positions strategy + cycle.selected_strategy_positions strategy

  -- `max(limit - open - selected, 0.0)`
  remaining : F → F → F → F
  unfolding max
  remaining limit open_risk selected_risk =
      max fl (sub (sub limit open_risk) selected_risk) (literal "0.0")

  -- The entries of `remaining` for the currencies of the plan.
  currency_budgets : OpenState F → CycleState F → List String → List (String × F)
  unfolding remaining
  currency_budgets book cycle currencies =
      map
        (λ c. (
          "currency_" ++ c,
          remaining settings.allocation_max_risk_per_currency_percent (book.currency_risk c)
              (cycle.currency_risk c),
        ))
        currencies

  -- The budgets behind the first, in the order of the dictionary.
  other_budgets : CandidatePlan F E → OpenState F → CycleState F → List (String × F)
  unfolding remaining currency_budgets max
  other_budgets plan book cycle =
      let strategy = plan.candidate.strategy_name in
      let instrument = plan.candidate.instrument in
      (
        "cycle_risk",
        max fl (sub settings.allocation_max_new_risk_per_cycle_percent cycle.selected_risk)
            (literal "0.0"),
      )
      ∷ (
        "strategy_risk",
        remaining settings.allocation_max_risk_per_strategy_percent (book.strategy_risk strategy)
            (cycle.strategy_risk strategy),
      )
      ∷ (
        "family_risk",
        remaining settings.allocation_max_risk_per_family_percent
            (book.family_risk plan.family_name) (cycle.family_risk plan.family_name),
      )
      ∷ (
        "instrument_risk",
        remaining settings.allocation_max_risk_per_instrument_percent
            (book.instrument_risk instrument) (cycle.instrument_risk instrument),
      )
      ∷ currency_budgets book cycle plan.currencies

  -- `min(items, key=...)`: the first of the smallest.
  smallest : String × F → List (String × F) → String × F
  smallest best [] = best
  smallest best (b ∷ bs) = smallest (if lt b.1 best.1 then b else best) bs

  -- The binding budget and what it leaves.
  unfoldable pub binding_budget : CandidatePlan F E → OpenState F → CycleState F → String × F
  unfolding smallest remaining other_budgets
  binding_budget plan book cycle =
      smallest
        (
          "portfolio_risk",
          remaining settings.runtime_max_open_risk_percent book.total_risk cycle.selected_risk,
        )
        (other_budgets plan book cycle)

  -- `_gross_remaining_notional`
  gross_remaining_notional : F → OpenState F → CycleState F → F
  unfolding max
  gross_remaining_notional equity book cycle =
      let limit =
        mul equity (div settings.allocation_max_gross_exposure_percent (literal "100.0")) in
      let used = fl.add book.total_gross_notional cycle.selected_gross_notional in
      max fl (sub limit used) (literal "0.0")

  -- `allocated`, the decision on a plan that gets a size.
  approve : CandidatePlan F E → String → String → NormalizedSize F → AllocationDecision F E
  approve plan cycle_id budget size = record {
    candidate = plan.candidate;
    cycle_id = cycle_id;
    selected = true;
    reason_code = "allocated";
    priority_score = plan.priority_score;
    requested_size = plan.requested_size;
    normalized_size = size.normalized_size;
    requested_risk_percent = plan.requested_risk_percent;
    allocated_risk_percent = size.allocated_risk_percent;
    risk_amount = size.allocated_risk_amount;
    account_equity = plan.account_equity;
    binding_budget = some budget;
    degraded = is_approximate plan.precision;
  }

  settle :
      CandidatePlan F E
      → String
      → String
      → Attempt String (NormalizedSize F)
      → AllocationDecision F E
  unfolding approve reject
  settle plan cycle_id budget (ok size) = approve plan cycle_id budget size
  settle plan cycle_id budget (raised code) = reject fl plan code (some budget)

  -- `_allocate_candidate` from the caps on: size and risk are cut to the caps on notional.
  size_position :
      CandidatePlan F E
      → String
      → OpenState F
      → CycleState F
      → String
      → F
      → F
      → F
      → F
      → AllocationDecision F E
  unfolding gross_remaining_notional settle reject min normalize_size
  size_position plan cycle_id book cycle budget available allocatable raw_size raw_notional =
      let gross = gross_remaining_notional plan.account_equity book cycle in
      let capped_notional =
        min fl (min fl raw_notional settings.runtime_max_position_notional) gross in
      let capped_size =
        if lt (literal "0") raw_notional
        then mul raw_size (div capped_notional raw_notional)
        else raw_size in
      let capped_risk =
        if lt (literal "0") raw_size
        then mul allocatable (div capped_size raw_size)
        else allocatable in
      let capped_amount =
        if lt (literal "0") plan.requested_risk_percent
        then mul plan.risk_amount (div capped_risk plan.requested_risk_percent)
        else literal "0.0" in
      if le capped_size (literal "0") || le capped_notional (literal "0")
      then reject fl plan "gross_exposure_limit" (some "gross_exposure")
      else settle plan cycle_id budget
          (normalize_size fl brokers settings plan capped_size capped_risk capped_amount available)

  -- `_allocate_candidate` behind the limits on positions.
  unfoldable pub allocate_risk :
      CandidatePlan F E → String → OpenState F → CycleState F → AllocationDecision F E
  unfolding binding_budget reject size_position min
  allocate_risk plan cycle_id book cycle =
      let (budget, available) = binding_budget plan book cycle in
      let allocatable = min fl plan.requested_risk_percent available in
      let risk_scale =
        if lt (literal "0") plan.requested_risk_percent
        then div allocatable plan.requested_risk_percent
        else literal "0.0" in
      let raw_size = mul plan.requested_size risk_scale in
      let raw_notional = abs (mul raw_size plan.entry_price) in
      if le allocatable (literal "0")
      then reject fl plan (budget ++ "_exhausted") (some budget)
      else if le raw_size (literal "0") || le raw_notional (literal "0")
      then reject fl plan "size_zero" (some budget)
      else size_position plan cycle_id book cycle budget available allocatable raw_size raw_notional

  -- `_allocate_candidate`
  unfoldable pub allocate_candidate :
      CandidatePlan F E → String → OpenState F → CycleState F → AllocationDecision F E
  unfolding portfolio_position_count strategy_position_count reject
  allocate_candidate plan cycle_id book cycle =
      if leb settings.runtime_max_open_positions (portfolio_position_count book cycle)
      then reject fl plan "portfolio_position_limit" (some "portfolio_open_positions")
      else if leb settings.runtime_max_positions_per_strategy
          (strategy_position_count plan.candidate.strategy_name book cycle)
      then reject fl plan "strategy_position_limit" (some "strategy_positions")
      else if leb settings.allocation_max_new_positions_per_cycle cycle.selected_positions
      then reject fl plan "cycle_position_limit" (some "cycle_positions")
      else allocate_risk plan cycle_id book cycle
