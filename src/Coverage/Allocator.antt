-- ===== src/Coverage/Allocator.antt =====
-- `allocate_pending_promotions` of backend/app/services/coverage_allocator_service.py.
use codex_trading_app.Prelude.{
  ℕ, suc, ◌+◌, ◌-◌, String, str_eq, Bool, true, false, not, ◌&&◌, Option, none, some, List, [], ◌∷◌,
  ◌++◌, count, filter, ltb, leb, ◌==◌, if◌then◌else◌,
}
use codex_trading_app.Prelude.Rows.{replace_first}
use codex_trading_app.Prelude.Sort.{sorted}
use codex_trading_app.Allocation.Floats.{Floats}
use codex_trading_app.Coverage.Records.{
  PromotionRequestStatus, pending, accepted, rejected, expired, PromotionRequest, WatchlistEntry,
  CoverageSettings, CoverageEvent, promotion_accepted, promotion_rejected,
}
use codex_trading_app.Coverage.Watchlist.{
  find_entry, ran_out, is_already_streamed, passes_cooldown, promote_instrument,
}

-- The counters of `CoverageAllocationResult`, the budget, and the tables as the run has written them.
pub record CoverageRun (F : Type 0) : Type 0 where
  pub accepted : ℕ
  pub rejected : ℕ
  pub expired : ℕ
  pub skipped : ℕ
  pub remaining_budget : ℕ
  pub watchlist : List (WatchlistEntry F)
  pub requests : List (PromotionRequest F)
  pub events : List (CoverageEvent F)

-- The tables.
pub record CoverageTables (F : Type 0) : Type 0 where
  pub requests : List (PromotionRequest F)
  pub watchlist : List (WatchlistEntry F)

abbrev pub is_pending : PromotionRequestStatus → Bool
is_pending pending = true
is_pending _ = false

abbrev pub is_accepted : PromotionRequestStatus → Bool
is_accepted accepted = true
is_accepted _ = false

-- `request.id or 0`
abbrev id_or_zero : Option ℕ → ℕ
id_or_zero none = 0
id_or_zero (some n) = n

-- `a or b`, of a text: an empty one is false too.
abbrev pub text_or : Option String → String → String
text_or none default = default
text_or (some t) default = if str_eq t "" then default else t

abbrev pub instant_or : Option ℕ → ℕ → ℕ
instant_or none default = default
instant_or (some t) default = t

-- The row of an identifier.
abbrev pub same_request_id : Option ℕ → Option ℕ → Bool
same_request_id none none = true
same_request_id (some a) (some b) = a == b
same_request_id _ _ = false

abbrev pub has_request_id : {F : Type 0} → Option ℕ → PromotionRequest F → Bool
has_request_id id r = same_request_id r.id id

module _ (fl : Floats) (settings : CoverageSettings fl.F) where
  open fl use {F, lt, le, eq, neg}

  -- The order of the keys `(-score, requested_at, id or 0)`.
  unfoldable pub sorts_before : PromotionRequest F → PromotionRequest F → Bool
  sorts_before a b =
      if not (eq (neg a.score) (neg b.score))
      then lt (neg a.score) (neg b.score)
      else if not (a.requested_at == b.requested_at)
      then ltb a.requested_at b.requested_at
      else ltb (id_or_zero a.id) (id_or_zero b.id)

  -- `_accepted_in_last_minute`; `updated_at >= now - 1 min`.
  unfoldable pub accepted_in_last_minute : ℕ → List (PromotionRequest F) → ℕ
  accepted_in_last_minute now requests =
      count (λ r. is_accepted r.status && leb now (r.updated_at + 60000000)) requests

  -- The request with its new status.
  unfoldable pub settled : ℕ → PromotionRequestStatus → PromotionRequest F → PromotionRequest F
  settled now status r = record r { status = status; updated_at = now }

  -- The request is written in its place.
  unfoldable pub settle_request :
      ℕ
      → PromotionRequestStatus
      → PromotionRequest F
      → List (PromotionRequest F)
      → List (PromotionRequest F)
  unfolding settled replace_first
  settle_request now status r requests =
      replace_first (has_request_id r.id) (settled now status r) requests

  -- `_reject_request`, and its count.
  unfoldable pub reject_request : ℕ → String → PromotionRequest F → CoverageRun F → CoverageRun F
  unfolding settle_request
  reject_request now code r run = record run {
    rejected = suc run.rejected;
    requests = settle_request now rejected r run.requests;
    events = run.events ++ promotion_rejected r code ∷ [];
  }

  unfoldable pub expire_request : ℕ → PromotionRequest F → CoverageRun F → CoverageRun F
  unfolding settle_request
  expire_request now r run = record run {
    expired = suc run.expired;
    requests = settle_request now expired r run.requests;
  }

  unfoldable pub skip_request : ℕ → PromotionRequest F → CoverageRun F → CoverageRun F
  unfolding settle_request
  skip_request now r run = record run {
    skipped = suc run.skipped;
    requests = settle_request now accepted r run.requests;
  }

  unfoldable pub accept_request : ℕ → PromotionRequest F → CoverageRun F → CoverageRun F
  unfolding settle_request
  accept_request now r run = record run {
    accepted = suc run.accepted;
    remaining_budget = run.remaining_budget - 1;
    requests = settle_request now accepted r run.requests;
    events = run.events ++ promotion_accepted r ∷ [];
    watchlist =
        promote_instrument fl settings r.instrument now
          (instant_or r.expires_at (now + settings.promotion_ttl)) r.score
          (text_or r.requested_frequency settings.streaming_requested_frequency) run.watchlist;
  }

  -- The body of the loop.
  unfoldable pub decide_request : ℕ → PromotionRequest F → CoverageRun F → CoverageRun F
  decide_request now r run =
      let entry = find_entry r.instrument run.watchlist in
      if ran_out r.expires_at now
      then expire_request now r run
      else if is_already_streamed now entry
      then skip_request now r run
      else if not (le settings.promotion_score_threshold r.score)
      then reject_request now "score_below_threshold" r run
      else if not (passes_cooldown now entry)
      then reject_request now "instrument_cooldown_active" r run
      else if leb run.remaining_budget 0
      then reject_request now "promotion_budget_exhausted" r run
      else accept_request now r run

  unfoldable pub decide_requests : ℕ → List (PromotionRequest F) → CoverageRun F → CoverageRun F
  decide_requests now [] run = run
  decide_requests now (r ∷ rs) run = decide_requests now rs (decide_request now r run)

  -- The run before the loop.
  unfoldable pub started : ℕ → CoverageTables F → CoverageRun F
  unfolding accepted_in_last_minute
  started now tables = record {
    accepted = 0;
    rejected = 0;
    expired = 0;
    skipped = 0;
    remaining_budget =
        settings.max_promotions_per_minute - accepted_in_last_minute now tables.requests;
    watchlist = tables.watchlist;
    requests = tables.requests;
    events = [];
  }

  -- `allocate_pending_promotions`
  unfoldable pub allocate_pending_promotions : ℕ → CoverageTables F → CoverageRun F
  unfolding decide_requests started sorted sorts_before
  allocate_pending_promotions now tables =
      decide_requests now (sorted sorts_before (filter (λ r. is_pending r.status) tables.requests))
        (started now tables)

  -- The tables that the run commits.
  unfoldable pub tables_after : ℕ → CoverageTables F → CoverageTables F
  unfolding allocate_pending_promotions
  tables_after now tables =
      let run = allocate_pending_promotions now tables in
      record { requests = run.requests; watchlist = run.watchlist }
