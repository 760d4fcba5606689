-- ===== src/Coverage/Examples.antt =====
-- A run over five requests, and the theorems about runs of
-- backend/app/services/coverage_allocator_service.py at concrete inputs.
use codex_trading_app.Prelude.{
  ℕ, ◌+◌, ◌-◌, ◌≤◌, String, ◌≡◌, refl, arith, true, false, none, some, [], ◌∷◌, all, count, map,
  if◌then◌else◌,
}
use codex_trading_app.Prelude.Rows.{find_first, replace_first}
use codex_trading_app.Allocation.Whole.{whole}
use codex_trading_app.Coverage.Records.{
  PromotionRequestStatus, pending, accepted, rejected, expired, PromotionRequest, CoverageSettings,
}
use codex_trading_app.Coverage.Watchlist.{
  find_entry, write_entry, is_streamed, is_already_streamed, passes_cooldown, promoted,
  promote_instrument,
}
use codex_trading_app.Coverage.Allocator.{
  CoverageTables, is_pending, is_accepted, has_request_id, accepted_in_last_minute, decide_request,
  accept_request, expire_request, skip_request, reject_request, allocate_pending_promotions,
  tables_after,
}
use codex_trading_app.Coverage.Budget.{counted, deserved, promotions_within_budget}
use codex_trading_app.Coverage.Rows.{IsKeyed}
use codex_trading_app.Coverage.Decisions.{is_rejected, is_expired, rows_with, every_request_decided}
use codex_trading_app.Coverage.Once.{promotes, streams, promoted_once}

abbrev settings : CoverageSettings ℕ
settings = record {
  max_promotions_per_minute = 2;
  promotion_score_threshold = 75;
  promotion_ttl = 300000000;
  streaming_requested_frequency = "2.0";
  min_tier1_residency = 60000000;
}

abbrev request : ℕ → String → ℕ → PromotionRequestStatus → PromotionRequest ℕ
request n market score status = record {
  id = some n;
  instrument = market;
  score = score;
  status = status;
  requested_at = n;
  expires_at = none;
  requested_frequency = none;
  updated_at = 100000000;
}

-- One acceptance in the last minute; two requests for one instrument, a weak and an expired one.
abbrev tables : CoverageTables ℕ
tables = record {
  requests =
      request 1 "AUDUSD" 90 accepted
      ∷ request 2 "EURUSD" 80 pending
      ∷ request 3 "EURUSD" 95 pending
      ∷ request 4 "GBPUSD" 60 pending
      ∷ record (request 5 "USDJPY" 99 pending) { expires_at = some 5 }
      ∷ request 6 "USDCHF" 76 pending
      ∷ [];
  watchlist = [];
}

run_statuses :
    map (λ r. r.status) (tables_after whole settings 120000000 tables).requests
    ≡ accepted ∷ accepted ∷ accepted ∷ rejected ∷ expired ∷ rejected ∷ []
unfolding tables_after replace_first decide_request accept_request is_already_streamed find_entry
    expire_request passes_cooldown promote_instrument write_entry promoted is_streamed skip_request
    reject_request
run_statuses = refl

promotions_within_budget_example :
    let run = allocate_pending_promotions whole settings 120000000 tables in
    (run.accepted ≤ 2 - accepted_in_last_minute whole settings 120000000 tables.requests)
    × (all (deserved whole settings 120000000) run.events ≡ true)
promotions_within_budget_example = promotions_within_budget whole settings 120000000 tables

tables-IsKeyed : IsKeyed tables.requests
tables-IsKeyed none = ground arith
tables-IsKeyed (some n) = ground arith

every_request_decided_example :
    let run = allocate_pending_promotions whole settings 120000000 tables in
    let after = (tables_after whole settings 120000000 tables).requests in
    (counted whole settings run ≡ rows_with is_pending tables.requests)
    × (rows_with is_pending after ≡ 0)
    × (rows_with is_accepted after
        ≡ rows_with is_accepted tables.requests + (run.accepted + run.skipped))
    × (rows_with is_rejected after ≡ rows_with is_rejected tables.requests + run.rejected)
    × (rows_with is_expired after ≡ rows_with is_expired tables.requests + run.expired)
    × ((row : PromotionRequest ℕ)
        → find_first (has_request_id row.id) tables.requests ≡ some row
        → is_pending row.status ≡ false
        → find_first (has_request_id row.id) after ≡ some row)
every_request_decided_example = every_request_decided whole settings 120000000 tables tables-IsKeyed

promoted_once_example :
    count
      (promotes whole settings "EURUSD")
      (allocate_pending_promotions whole settings 120000000 tables).events
    ≤ (if streams whole settings "EURUSD" 120000000 tables.watchlist then 0 else 1)
promoted_once_example = promoted_once whole settings "EURUSD" 120000000 tables
