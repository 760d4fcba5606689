-- ===== src/Allocation/Cycle.antt =====
-- One allocation cycle: `allocate` of backend/app/services/capital_allocator_service.py, up to the
-- summary that it stores.
pub mod Accounting
pub mod Exclusive
pub mod Opening
pub mod Limits
mod Examples
use codex_trading_app.Prelude.{
  ℕ, String, str_eq, Bool, List, [], ◌∷◌, ◌++◌, map, Attempt, ok, raised, if◌then◌else◌,
}
use codex_trading_app.Prelude.Sort.{sorted}
use codex_trading_app.Allocation.Floats.{Floats}
use codex_trading_app.Allocation.Signals.{
  Signal, entry, exit, absent, SignalCandidate, PositionRisk, IntentRisk, Brokers,
}
use codex_trading_app.Allocation.Decision.{
  AllocationDecision, CandidatePlan, AllocationSettings, passthrough,
}
use codex_trading_app.Allocation.State.{
  OpenState, CycleState, empty_cycle, build_open_state, reserve_cycle_state,
}
use codex_trading_app.Allocation.Scoring.{is_stale, stale_decision}
use codex_trading_app.Allocation.Planning.{prepare_candidate_plan}
use codex_trading_app.Allocation.Budgets.{allocate_candidate}
use codex_trading_app.Allocation.Ranking.{
  ranks_before, suppress_weaker_duplicates, resolve_direction_conflicts,
}

module _ (fl : Floats) {E : Type 0} (brokers : Brokers fl.F E)
    (settings : AllocationSettings fl.F) where
  open fl use {F}

  -- What the first loop makes of a candidate: a decision, or a plan.
  unfoldable pub consider :
      String
      → ℕ
      → OpenState F
      → SignalCandidate F E
      → Signal F
      → Attempt (AllocationDecision F E) (CandidatePlan F E)
  consider cycle_id now book c exit = raised (passthrough fl c cycle_id)
  consider cycle_id now book c absent = raised (passthrough fl c cycle_id)
  consider cycle_id now book c (entry s) =
      if is_stale fl brokers settings now s
      then raised (stale_decision fl brokers settings c s)
      else prepare_candidate_plan fl brokers settings c s now book

  unfoldable pub sort_out :
      Attempt (AllocationDecision F E) (CandidatePlan F E)
      → List (AllocationDecision F E) × List (CandidatePlan F E)
      → List (AllocationDecision F E) × List (CandidatePlan F E)
  sort_out (ok plan) (decisions, plans) = (decisions, plan ∷ plans)
  sort_out (raised decision) (decisions, plans) = (decision ∷ decisions, plans)

  -- The first loop: the decisions and the plans, each in the order of the candidates.
  unfoldable pub plan_candidates :
      String
      → ℕ
      → OpenState F
      → List (SignalCandidate F E)
      → List (AllocationDecision F E) × List (CandidatePlan F E)
  unfolding sort_out
  plan_candidates cycle_id now book [] = ([], [])
  plan_candidates cycle_id now book (c ∷ cs) =
      sort_out (consider cycle_id now book c c.signal) (plan_candidates cycle_id now book cs)

  -- The second loop: each plan is decided on the book and on what the cycle has reserved.
  unfoldable pub allocate_plans :
      String → OpenState F → CycleState F → List (CandidatePlan F E) → List (AllocationDecision F E)
  allocate_plans cycle_id book cycle [] = []
  allocate_plans cycle_id book cycle (plan ∷ plans) =
      let decision = allocate_candidate fl brokers settings plan cycle_id book cycle in
      decision
      ∷ allocate_plans cycle_id book
          (if decision.selected then reserve_cycle_state fl plan decision cycle else cycle) plans

  -- `if decision.cycle_id == "unassigned": decision.cycle_id = cycle_id`
  unfoldable pub assign_cycle : String → AllocationDecision F E → AllocationDecision F E
  assign_cycle cycle_id d = record d {
    cycle_id = if str_eq d.cycle_id "unassigned" then cycle_id else d.cycle_id;
  }

  -- The decisions of a cycle, on a given book.
  unfoldable pub decide :
      String → ℕ → OpenState F → List (SignalCandidate F E) → List (AllocationDecision F E)
  unfolding plan_candidates allocate_plans assign_cycle suppress_weaker_duplicates
      resolve_direction_conflicts ranks_before sorted
  decide cycle_id now book candidates =
      let (decisions, plans) = plan_candidates cycle_id now book candidates in
      let (kept, duplicates) = suppress_weaker_duplicates fl plans in
      let (shortlist, conflicts) = resolve_direction_conflicts fl kept in
      let allocated =
        allocate_plans cycle_id book (empty_cycle fl) (sorted (ranks_before fl) shortlist) in
      map (assign_cycle cycle_id) (decisions ++ (duplicates ++ (conflicts ++ allocated)))

  -- `allocate`: no candidates, no cycle.
  unfoldable pub allocate :
      String
      → ℕ
      → List (PositionRisk F)
      → List (IntentRisk F)
      → List (SignalCandidate F E)
      → List (AllocationDecision F E)
  unfolding decide build_open_state
  allocate cycle_id now positions intents [] = []
  allocate cycle_id now positions intents (c ∷ cs) =
      decide cycle_id now (build_open_state fl brokers positions intents) (c ∷ cs)
