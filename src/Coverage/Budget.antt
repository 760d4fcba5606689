-- ===== src/Coverage/Budget.antt =====
-- What a run of backend/app/services/coverage_allocator_service.py decides and spends.
use codex_trading_app.Prelude.{
  ℕ, suc, ◌+◌, ◌-◌, ◌≤◌, ◌≡◌, refl, Bool, true, not, ◌&&◌, List, [], ◌∷◌, ◌++◌, all, count, filter,
  length, arith,
}
use codex_trading_app.Prelude.Sort.{sorted, count-sorted}
use codex_trading_app.Allocation.Floats.{Floats}
use codex_trading_app.Coverage.Records.{
  PromotionRequest, CoverageSettings, CoverageEvent, promotion_accepted, promotion_rejected,
}
use codex_trading_app.Coverage.Watchlist.{ran_out}
use codex_trading_app.Coverage.Allocator.{
  CoverageRun, CoverageTables, is_pending, sorts_before, accepted_in_last_minute, reject_request,
  expire_request, skip_request, accept_request, decide_request, decide_requests, started,
  allocate_pending_promotions,
}

pub length-filter : {A : Type 0} (p : A → Bool) (xs : List A) → length (filter p xs) ≡ count p xs
length-filter p [] = refl
length-filter p (x ∷ xs) = ground (arith, length-filter p xs)

length_is_count : {A : Type 0} (xs : List A) → length xs ≡ count (λ x. true) xs
length_is_count [] = refl
length_is_count (x ∷ xs) = ground (arith, length_is_count xs)

pub length-sorted :
    {A : Type 0} (less : A → A → Bool) (xs : List A) → length (sorted less xs) ≡ length xs
length-sorted less xs =
    omega (
      arith,
      length_is_count xs,
      length_is_count (sorted less xs),
      count-sorted less (λ x. true) xs,
    )

all-append :
    {A : Type 0} (p : A → Bool) (xs ys : List A) → all p (xs ++ ys) ≡ (all p xs && all p ys)
all-append p [] ys = refl
all-append p (x ∷ xs) ys = ground (arith, all-append p xs ys)

module _ (fl : Floats) (settings : CoverageSettings fl.F) where
  open fl use {F, le}

  -- The requests that a run has counted.
  abbrev pub counted : CoverageRun F → ℕ
  counted run = run.accepted + run.rejected + run.expired + run.skipped

  abbrev pub pending_request : PromotionRequest F → Bool
  pending_request r = is_pending r.status

  -- An acceptance is of a request that is in time and scores enough.
  abbrev pub deserved : ℕ → CoverageEvent F → Bool
  deserved now (promotion_accepted r) =
      le settings.promotion_score_threshold r.score && not (ran_out r.expires_at now)
  deserved now (promotion_rejected r code) = true

  decide_request-counters :
      (now : ℕ) (r : PromotionRequest F) (run : CoverageRun F)
      → let next = decide_request fl settings now r run in
        (counted next ≡ suc (counted run))
        × (next.accepted + next.remaining_budget ≡ run.accepted + run.remaining_budget)
  unfolding decide_request reject_request expire_request skip_request accept_request
  decide_request-counters now r run = ground arith

  decide_request-deserved :
      (now : ℕ) (r : PromotionRequest F) (run : CoverageRun F)
      → all (deserved now) run.events ≡ true
      → all (deserved now) (decide_request fl settings now r run).events ≡ true
  unfolding decide_request reject_request expire_request skip_request accept_request
  decide_request-deserved now r run h = ground (
    arith,
    h,
    all-append (deserved now) run.events (promotion_accepted r ∷ []),
    all-append (deserved now) run.events (promotion_rejected r "score_below_threshold" ∷ []),
    all-append (deserved now) run.events (promotion_rejected r "instrument_cooldown_active" ∷ []),
    all-append (deserved now) run.events (promotion_rejected r "promotion_budget_exhausted" ∷ []),
  )

  pub decide_requests-counters :
      (now : ℕ) (rs : List (PromotionRequest F)) (run : CoverageRun F)
      → let done = decide_requests fl settings now rs run in
        (counted done ≡ counted run + length rs)
        × (done.accepted + done.remaining_budget ≡ run.accepted + run.remaining_budget)
  unfolding decide_requests
  decide_requests-counters now [] run = (omega arith, refl)
  decide_requests-counters now (r ∷ rs) run = ground (
    arith,
    decide_request-counters now r run,
    decide_requests-counters now rs (decide_request fl settings now r run),
  )

  decide_requests-deserved :
      (now : ℕ) (rs : List (PromotionRequest F)) (run : CoverageRun F)
      → all (deserved now) run.events ≡ true
      → all (deserved now) (decide_requests fl settings now rs run).events ≡ true
  unfolding decide_requests
  decide_requests-deserved now [] run h = h
  decide_requests-deserved now (r ∷ rs) run h =
      decide_requests-deserved now rs (decide_request fl settings now r run)
        (decide_request-deserved now r run h)

  -- A run accepts at most what the limit of promotions per minute leaves above the requests that were
  -- accepted in the last minute, and all that it accepts is in time and reaches the score threshold.
  pub promotions_within_budget :
      (now : ℕ) (tables : CoverageTables F)
      → let run = allocate_pending_promotions fl settings now tables in
        (run.accepted
          ≤ settings.max_promotions_per_minute
            - accepted_in_last_minute fl settings now tables.requests)
        × (all (deserved now) run.events ≡ true)
  unfolding allocate_pending_promotions started
  promotions_within_budget now tables =
      let queue = sorted (sorts_before fl settings) (filter pending_request tables.requests) in
      (
        omega (arith, (decide_requests-counters now queue (started fl settings now tables)).1),
        decide_requests-deserved now queue (started fl settings now tables) refl,
      )
