-- ===== src/Allocation/Cycle/Limits.antt =====
-- How many positions a cycle of backend/app/services/capital_allocator_service.py opens.
use codex_trading_app.Prelude.{
  ℕ, suc, ◌+◌, ◌-◌, ◌≤◌, ◌<◌, String, str_eq, eq_iff, ◌≡◌, Bool, true, ◌&&◌, List, [], ◌∷◌, count,
  length, count_mono, length, arith, if◌then◌else◌,
}
use codex_trading_app.Allocation.Floats.{Floats}
use codex_trading_app.Allocation.Signals.{SignalCandidate, PositionRisk, IntentRisk, Brokers}
use codex_trading_app.Allocation.Decision.{AllocationDecision, CandidatePlan, AllocationSettings}
use codex_trading_app.Allocation.State.{
  OpenState, CycleState, empty_cycle, build_open_state, reserve_cycle_state,
}
use codex_trading_app.Allocation.State.Counts.{stands_alone, held_by, book_counts}
use codex_trading_app.Allocation.Budgets.{allocate_candidate}
use codex_trading_app.Allocation.Candidates.{candidate-allocate_candidate}
use codex_trading_app.Allocation.Cycle.{allocate_plans, decide, allocate}
use codex_trading_app.Allocation.Cycle.Opening.{
  is_selected, opens, ranked_plans, opened-le-selected,
}

module _ (fl : Floats) {E : Type 0} (brokers : Brokers fl.F E)
    (settings : AllocationSettings fl.F) where
  open fl use {F}

  -- What a selected decision needed of the book and the cycle.
  record HadRoom (plan : CandidatePlan F E) (book : OpenState F) (cycle : CycleState F)
      : Type 0 where
    in_portfolio :
        book.open_positions + cycle.selected_positions < settings.runtime_max_open_positions
    in_strategy :
        book.strategy_positions plan.candidate.strategy_name
          + cycle.selected_strategy_positions plan.candidate.strategy_name
        < settings.runtime_max_positions_per_strategy
    in_cycle : cycle.selected_positions < settings.allocation_max_new_positions_per_cycle

  selected-HadRoom :
      (plan : CandidatePlan F E) (cycle_id : String) (book : OpenState F) (cycle : CycleState F)
      → (allocate_candidate fl brokers settings plan cycle_id book cycle).selected ≡ true
      → HadRoom plan book cycle
  unfolding allocate_candidate
  selected-HadRoom plan cycle_id book cycle h = ground arith

  -- How many decisions of a list are selected, and how many of those are of one strategy.
  abbrev pub is_selected_of : String → AllocationDecision F E → Bool
  is_selected_of strategy d = d.selected && str_eq d.candidate.strategy_name strategy

  cycle_after : CandidatePlan F E → String → OpenState F → CycleState F → CycleState F
  cycle_after plan cycle_id book cycle =
      let decision = allocate_candidate fl brokers settings plan cycle_id book cycle in
      if decision.selected then reserve_cycle_state fl plan decision cycle else cycle

  -- The counts after one decision.
  counts_after :
      (plan : CandidatePlan F E) (cycle_id : String) (book : OpenState F) (cycle : CycleState F)
      → let d = allocate_candidate fl brokers settings plan cycle_id book cycle in
        let next = cycle_after plan cycle_id book cycle in
        (next.selected_positions
          ≡ (if d.selected then suc cycle.selected_positions else cycle.selected_positions))
        × ((strategy : String)
            → next.selected_strategy_positions strategy ≡ (
                if is_selected_of strategy d
                then suc (cycle.selected_strategy_positions strategy)
                else cycle.selected_strategy_positions strategy))
  unfolding cycle_after reserve_cycle_state
  counts_after plan cycle_id book cycle =
      let same = candidate-allocate_candidate fl brokers settings plan cycle_id book cycle in
      (
        ground arith,
        λ strategy. ground (
          arith,
          same,
          eq_iff plan.candidate.strategy_name strategy,
          eq_iff strategy plan.candidate.strategy_name,
        ),
      )

  allocated_limits :
      (plans : List (CandidatePlan F E)) (cycle_id : String) (book : OpenState F)
      (cycle : CycleState F)
      → let n =
          count (is_selected fl) (allocate_plans fl brokers settings cycle_id book cycle plans) in
        (n ≤ settings.runtime_max_open_positions - (book.open_positions + cycle.selected_positions))
        × (n ≤ settings.allocation_max_new_positions_per_cycle - cycle.selected_positions)
  unfolding allocate_plans cycle_after
  allocated_limits [] cycle_id book cycle = omega arith
  allocated_limits (plan ∷ plans) cycle_id book cycle = ground (
    arith,
    selected-HadRoom plan cycle_id book cycle,
    (counts_after plan cycle_id book cycle).0,
    allocated_limits plans cycle_id book (cycle_after plan cycle_id book cycle),
  )

  strategy_limit :
      (strategy : String) (plans : List (CandidatePlan F E)) (cycle_id : String)
      (book : OpenState F) (cycle : CycleState F)
      → count
          (is_selected_of strategy)
          (allocate_plans fl brokers settings cycle_id book cycle plans)
        ≤ settings.runtime_max_positions_per_strategy
          - (book.strategy_positions strategy + cycle.selected_strategy_positions strategy)
  unfolding allocate_plans cycle_after
  strategy_limit strategy [] cycle_id book cycle = omega arith
  strategy_limit strategy (plan ∷ plans) cycle_id book cycle = ground (
    arith,
    selected-HadRoom plan cycle_id book cycle,
    candidate-allocate_candidate fl brokers settings plan cycle_id book cycle,
    eq_iff plan.candidate.strategy_name strategy,
    (counts_after plan cycle_id book cycle).1 strategy,
    strategy_limit strategy plans cycle_id book (cycle_after plan cycle_id book cycle),
  )

  decide_limits :
      (cycle_id : String) (now : ℕ) (book : OpenState F) (candidates : List (SignalCandidate F E))
      → let n = count (opens fl) (decide fl brokers settings cycle_id now book candidates) in
        (n ≤ settings.allocation_max_new_positions_per_cycle)
        × (n ≤ settings.runtime_max_open_positions - book.open_positions)
  unfolding empty_cycle
  decide_limits cycle_id now book candidates =
      let plans = ranked_plans fl brokers settings cycle_id now book candidates in
      let any_candidate : SignalCandidate F E → Bool = λ c. true in
      let chosen = allocate_plans fl brokers settings cycle_id book (empty_cycle fl) plans in
      let limits = allocated_limits plans cycle_id book (empty_cycle fl) in
      let opened =
        opened-le-selected fl brokers settings any_candidate cycle_id now book candidates in
      let all_opens =
        count_mono (opens fl) (λ d. opens fl d && true) (λ d h. ground arith)
          (decide fl brokers settings cycle_id now book candidates) in
      let all_selected =
        count_mono (λ d. d.selected && true) (is_selected fl) (λ d h. ground arith) chosen in
      (
        omega (arith, limits.1, opened, all_opens, all_selected),
        omega (arith, limits.0, opened, all_opens, all_selected),
      )

  decide_strategy_limit :
      (strategy cycle_id : String) (now : ℕ) (book : OpenState F)
      (candidates : List (SignalCandidate F E))
      → count
          (λ d. opens fl d && str_eq d.candidate.strategy_name strategy)
          (decide fl brokers settings cycle_id now book candidates)
        ≤ settings.runtime_max_positions_per_strategy - book.strategy_positions strategy
  unfolding empty_cycle
  decide_strategy_limit strategy cycle_id now book candidates = omega (
    arith,
    opened-le-selected fl brokers settings (λ c. str_eq c.strategy_name strategy) cycle_id now book
        candidates,
    strategy_limit strategy (ranked_plans fl brokers settings cycle_id now book candidates) cycle_id
        book (empty_cycle fl),
  )

  -- A cycle opens at most as many positions as the cycle limit says, and at most as many as the
  -- portfolio limit leaves above the open positions and the reserved intents that no open position
  -- and no recorded position stands for: none where that many or more are open already.
  pub cycle_within_limits :
      (cycle_id : String) (now : ℕ) (positions : List (PositionRisk F))
      (intents : List (IntentRisk F)) (candidates : List (SignalCandidate F E))
      → let n =
          count
            (opens fl)
            (allocate fl brokers settings cycle_id now positions intents candidates) in
        (n ≤ settings.allocation_max_new_positions_per_cycle)
        × (n
            ≤ settings.runtime_max_open_positions
              - (length positions + count (stands_alone fl brokers positions) intents))
  unfolding allocate
  cycle_within_limits cycle_id now positions intents [] = omega arith
  cycle_within_limits cycle_id now positions intents (c ∷ cs) =
      let book = build_open_state fl brokers positions intents in
      let counts = (book_counts fl brokers "" positions intents).0 in
      rw (← counts) (decide_limits cycle_id now book (c ∷ cs))

  -- For every strategy, a cycle opens at most as many positions as the strategy limit leaves above
  -- the open positions of the strategy and its reserved intents that no position stands for.
  pub cycle_within_strategy_limit :
      (strategy cycle_id : String) (now : ℕ) (positions : List (PositionRisk F))
      (intents : List (IntentRisk F)) (candidates : List (SignalCandidate F E))
      → count
          (λ d. opens fl d && str_eq d.candidate.strategy_name strategy)
          (allocate fl brokers settings cycle_id now positions intents candidates)
        ≤ settings.runtime_max_positions_per_strategy
          - held_by fl brokers strategy positions intents
  unfolding allocate
  cycle_within_strategy_limit strategy cycle_id now positions intents [] = omega arith
  cycle_within_strategy_limit strategy cycle_id now positions intents (c ∷ cs) =
      let book = build_open_state fl brokers positions intents in
      let counts = (book_counts fl brokers strategy positions intents).1 in
      omega (arith, counts, decide_strategy_limit strategy cycle_id now book (c ∷ cs))
