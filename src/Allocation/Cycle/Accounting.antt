-- ===== src/Allocation/Cycle/Accounting.antt =====
-- Every candidate of a cycle gets its decision: the phases of `allocate` in
-- backend/app/services/capital_allocator_service.py, counted.
use codex_trading_app.Prelude.{
  ℕ, ◌+◌, String, ◌≡◌, refl, Bool, List, [], ◌∷◌, ◌++◌, map, count, count-append, count-map, none,
  arith, if◌then◌else◌,
}
use codex_trading_app.Prelude.Sort.{sorted, count-sorted}
use codex_trading_app.Allocation.Floats.{Floats}
use codex_trading_app.Allocation.Signals.{
  Signal, entry, exit, absent, SignalCandidate, PositionRisk, IntentRisk, Brokers,
}
use codex_trading_app.Allocation.Decision.{
  AllocationDecision, CandidatePlan, AllocationSettings, reject, passthrough,
}
use codex_trading_app.Allocation.State.{
  OpenState, CycleState, empty_cycle, build_open_state, reserve_cycle_state,
}
use codex_trading_app.Allocation.Scoring.{stale_decision}
use codex_trading_app.Allocation.Budgets.{allocate_candidate}
use codex_trading_app.Allocation.Ranking.{
  ranks_before, outranks, suppress_from, suppress_weaker_duplicates, add_to_group, group_from,
  split_ranked, resolve_group, resolve_groups, resolve_direction_conflicts,
}
use codex_trading_app.Allocation.Candidates.{candidate-allocate_candidate, subject, prepare_subject}
use codex_trading_app.Allocation.Cycle.{
  consider, plan_candidates, allocate_plans, assign_cycle, decide, allocate,
}

module _ (fl : Floats) {E : Type 0} (q : SignalCandidate fl.F E → Bool) where
  open fl use {F}

  abbrev pub of_decision : AllocationDecision F E → Bool
  of_decision d = q d.candidate

  abbrev pub of_plan : CandidatePlan F E → Bool
  of_plan p = q p.candidate

  suppress_from-count :
      (best plans : List (CandidatePlan F E))
      → let (kept, rejected) = suppress_from fl best plans in
        count of_plan kept + count of_decision rejected ≡ count of_plan best + count of_plan plans
  unfolding suppress_from
  suppress_from-count best [] = omega arith
  suppress_from-count best (p ∷ ps) = ground (
    arith,
    suppress_from-count best ps,
    suppress_from-count (best ++ p ∷ []) ps,
    count-append of_plan best (p ∷ []),
  )

  pub suppress-count :
      (plans : List (CandidatePlan F E))
      → let (kept, rejected) = suppress_weaker_duplicates fl plans in
        count of_plan kept + count of_decision rejected ≡ count of_plan plans
  unfolding suppress_weaker_duplicates
  suppress-count plans = omega (
    arith,
    suppress_from-count [] (sorted (ranks_before fl) plans),
    count-sorted (ranks_before fl) of_plan plans,
  )

  -- The plans of all groups.
  abbrev grouped : List (String × List (CandidatePlan F E)) → ℕ
  grouped [] = 0
  grouped ((key, entries) ∷ groups) = count of_plan entries + grouped groups

  add_to_group-grouped :
      (p : CandidatePlan F E) (groups : List (String × List (CandidatePlan F E)))
      → grouped (add_to_group fl p groups) ≡ count of_plan (p ∷ []) + grouped groups
  unfolding add_to_group
  add_to_group-grouped p [] = omega arith
  add_to_group-grouped p ((key, entries) ∷ groups) =
      ground (arith, add_to_group-grouped p groups, count-append of_plan entries (p ∷ []))

  group_from-grouped :
      (groups : List (String × List (CandidatePlan F E))) (plans : List (CandidatePlan F E))
      → grouped (group_from fl groups plans) ≡ grouped groups + count of_plan plans
  unfolding group_from
  group_from-grouped groups [] = omega arith
  group_from-grouped groups (p ∷ ps) =
      ground
        (arith, group_from-grouped (add_to_group fl p groups) ps, add_to_group-grouped p groups)

  rejected-count :
      (plans : List (CandidatePlan F E))
      → count of_decision (map (λ p. reject fl p "direction_conflict" none) plans)
        ≡ count of_plan plans
  unfolding reject
  rejected-count [] = refl
  rejected-count (p ∷ ps) = ground (arith, rejected-count ps)

  split_ranked-count :
      (plans : List (CandidatePlan F E))
      → let (winners, rejected) = split_ranked fl plans in
        count of_plan winners + count of_decision rejected ≡ count of_plan plans
  unfolding split_ranked
  split_ranked-count [] = omega arith
  split_ranked-count (w ∷ rest) = ground (arith, rejected-count rest)

  resolve_group-count :
      (plans : List (CandidatePlan F E))
      → let (winners, rejected) = resolve_group fl plans in
        count of_plan winners + count of_decision rejected ≡ count of_plan plans
  unfolding resolve_group
  resolve_group-count [] = split_ranked-count []
  resolve_group-count (only ∷ []) = omega arith
  resolve_group-count (a ∷ b ∷ rest) = omega (
    arith,
    split_ranked-count (sorted (outranks fl) (a ∷ b ∷ rest)),
    count-sorted (outranks fl) of_plan (a ∷ b ∷ rest),
  )

  resolve_groups-count :
      (groups : List (String × List (CandidatePlan F E)))
      → let (winners, rejected) = resolve_groups fl groups in
        count of_plan winners + count of_decision rejected ≡ grouped groups
  unfolding resolve_groups
  resolve_groups-count [] = omega arith
  resolve_groups-count ((key, entries) ∷ groups) =
      let (winners, rejected) = resolve_group fl entries in
      let (later_winners, later_rejected) = resolve_groups fl groups in
      omega (
        arith,
        resolve_group-count entries,
        resolve_groups-count groups,
        count-append of_plan winners later_winners,
        count-append of_decision rejected later_rejected,
      )

  pub resolve-count :
      (plans : List (CandidatePlan F E))
      → let (winners, rejected) = resolve_direction_conflicts fl plans in
        count of_plan winners + count of_decision rejected ≡ count of_plan plans
  unfolding resolve_direction_conflicts
  resolve-count plans =
      omega (arith, resolve_groups-count (group_from fl [] plans), group_from-grouped [] plans)

  module _ (brokers : Brokers F E) (settings : AllocationSettings F) where
    subject-consider :
        (cycle_id : String) (now : ℕ) (book : OpenState F) (c : SignalCandidate F E) (s : Signal F)
        → subject fl brokers settings (consider fl brokers settings cycle_id now book c s) ≡ c
    unfolding consider passthrough stale_decision
    subject-consider cycle_id now book c exit = refl
    subject-consider cycle_id now book c absent = refl
    subject-consider cycle_id now book c (entry s) =
        ground (arith, (prepare_subject fl brokers settings c s now book).0)

    plan_candidates-count :
        (cycle_id : String) (now : ℕ) (book : OpenState F) (candidates : List (SignalCandidate F E))
        → let (decisions, plans) =
            plan_candidates fl brokers settings cycle_id now book candidates in
          count of_decision decisions + count of_plan plans ≡ count q candidates
    unfolding plan_candidates
    plan_candidates-count cycle_id now book [] = omega arith
    plan_candidates-count cycle_id now book (c ∷ cs) = ground (
      arith,
      subject-consider cycle_id now book c c.signal,
      plan_candidates-count cycle_id now book cs,
    )

    pub allocate_plans-count :
        (plans : List (CandidatePlan F E)) (cycle_id : String) (book : OpenState F)
        (cycle : CycleState F)
        → count of_decision (allocate_plans fl brokers settings cycle_id book cycle plans)
          ≡ count of_plan plans
    unfolding allocate_plans
    allocate_plans-count [] cycle_id book cycle = refl
    allocate_plans-count (plan ∷ plans) cycle_id book cycle =
        let decision = allocate_candidate fl brokers settings plan cycle_id book cycle in
        ground (
          arith,
          candidate-allocate_candidate fl brokers settings plan cycle_id book cycle,
          allocate_plans-count plans cycle_id book
              (if decision.selected then reserve_cycle_state fl plan decision cycle else cycle),
        )

    decide-count :
        (cycle_id : String) (now : ℕ) (book : OpenState F) (candidates : List (SignalCandidate F E))
        → count of_decision (decide fl brokers settings cycle_id now book candidates)
          ≡ count q candidates
    unfolding decide assign_cycle
    decide-count cycle_id now book candidates =
        let (decisions, plans) = plan_candidates fl brokers settings cycle_id now book candidates in
        let (kept, duplicates) = suppress_weaker_duplicates fl plans in
        let (shortlist, conflicts) = resolve_direction_conflicts fl kept in
        let ranked = sorted (ranks_before fl) shortlist in
        let allocated = allocate_plans fl brokers settings cycle_id book (empty_cycle fl) ranked in
        omega (
          arith,
          count-map (assign_cycle fl brokers settings cycle_id) of_decision
              (decisions ++ (duplicates ++ (conflicts ++ allocated))),
          count-append of_decision decisions (duplicates ++ (conflicts ++ allocated)),
          count-append of_decision duplicates (conflicts ++ allocated),
          count-append of_decision conflicts allocated,
          plan_candidates-count cycle_id now book candidates,
          suppress-count plans,
          resolve-count kept,
          count-sorted (ranks_before fl) of_plan shortlist,
          allocate_plans-count ranked cycle_id book (empty_cycle fl),
        )

    -- A cycle decides on every candidate once: whatever property of candidates is tested, as many
    -- decisions are about candidates with it as there are candidates with it. Rounding, brokers
    -- and settings play no part.
    pub every_candidate_decided :
        (cycle_id : String) (now : ℕ) (positions : List (PositionRisk F))
        (intents : List (IntentRisk F)) (candidates : List (SignalCandidate F E))
        → count of_decision (allocate fl brokers settings cycle_id now positions intents candidates)
          ≡ count q candidates
    unfolding allocate
    every_candidate_decided cycle_id now positions intents [] = refl
    every_candidate_decided cycle_id now positions intents (c ∷ cs) =
        decide-count cycle_id now (build_open_state fl brokers positions intents) (c ∷ cs)
