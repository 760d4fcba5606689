-- ===== src/Allocation/Candidates.antt =====
-- Each decision of the allocator is about the plan or the candidate that it was made for
-- (backend/app/services/capital_allocator_service.py).
use codex_trading_app.Prelude.{
  ℕ, String, ◌≡◌, Bool, true, false, Attempt, ok, raised, arith, if◌then◌else◌,
}
use codex_trading_app.Allocation.Floats.{Floats}
use codex_trading_app.Allocation.Signals.{EntrySignal, SignalCandidate, Brokers}
use codex_trading_app.Allocation.Decision.{AllocationDecision, CandidatePlan, AllocationSettings}
use codex_trading_app.Allocation.State.{OpenState, CycleState}
use codex_trading_app.Allocation.Planning.{prepare_candidate_plan}
use codex_trading_app.Allocation.Budgets.{allocate_risk, allocate_candidate}

module _ (fl : Floats) {E : Type 0} (brokers : Brokers fl.F E)
    (settings : AllocationSettings fl.F) where
  open fl use {F}

  candidate-allocate_risk :
      (plan : CandidatePlan F E) (cycle_id : String) (book : OpenState F) (cycle : CycleState F)
      → (allocate_risk fl brokers settings plan cycle_id book cycle).candidate ≡ plan.candidate
  unfolding allocate_risk
  candidate-allocate_risk plan cycle_id book cycle = ground arith

  pub candidate-allocate_candidate :
      (plan : CandidatePlan F E) (cycle_id : String) (book : OpenState F) (cycle : CycleState F)
      → (allocate_candidate fl brokers settings plan cycle_id book cycle).candidate ≡ plan.candidate
  unfolding allocate_candidate
  candidate-allocate_candidate plan cycle_id book cycle =
      ground (arith, candidate-allocate_risk plan cycle_id book cycle)

  -- The candidate that a plan or a rejection is about.
  abbrev pub subject : Attempt (AllocationDecision F E) (CandidatePlan F E) → SignalCandidate F E
  subject (ok plan) = plan.candidate
  subject (raised d) = d.candidate

  abbrev pub is_rejection : Attempt (AllocationDecision F E) (CandidatePlan F E) → Bool
  is_rejection (ok plan) = true
  is_rejection (raised d) = if d.selected then false else true

  pub prepare_subject :
      (c : SignalCandidate F E) (s : EntrySignal F) (now : ℕ) (book : OpenState F)
      → let r = prepare_candidate_plan fl brokers settings c s now book in
        (subject r ≡ c) × (is_rejection r ≡ true)
  unfolding prepare_candidate_plan
  prepare_subject c s now book = ground arith
