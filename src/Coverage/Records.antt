-- ===== src/Coverage/Records.antt =====
-- The rows of backend/app/models/promotion_request.py and backend/app/models/watchlist.py, and the
-- settings and events of backend/app/services/coverage_allocator_service.py.
use codex_trading_app.Prelude.{ℕ, String, Bool, Option}

-- `PromotionRequestStatus`; the rows hold its values.
pub data PromotionRequestStatus : Type 0 where
  pending accepted rejected expired : PromotionRequestStatus

-- The fields of `PromotionRequest` that decide, with the status read as the enum.
pub record PromotionRequest (F : Type 0) : Type 0 where
  pub id : Option ℕ
  pub instrument : String
  pub score : F
  pub status : PromotionRequestStatus
  pub requested_at : ℕ
  pub expires_at : Option ℕ
  pub requested_frequency : Option String
  pub updated_at : ℕ

-- The fields of `WatchlistEntry` that a promotion reads or writes, but for the asset class.
pub record WatchlistEntry (F : Type 0) : Type 0 where
  pub instrument : String
  pub tier : String
  pub status : String
  pub pinned : Bool
  pub reason : Option String
  pub priority_score : F
  pub requested_frequency : Option String
  pub min_residency_until : Option ℕ
  pub cooldown_until : Option ℕ
  pub promotion_expires_at : Option ℕ
  pub updated_at : ℕ

-- The settings; durations are in microseconds.
pub record CoverageSettings (F : Type 0) : Type 0 where
  pub max_promotions_per_minute : ℕ
  pub promotion_score_threshold : F
  pub promotion_ttl : ℕ
  pub streaming_requested_frequency : String
  pub min_tier1_residency : ℕ

-- The domain events that are recorded, by request.
pub data CoverageEvent (F : Type 0) : Type 0 where
  promotion_accepted : PromotionRequest F → CoverageEvent F
  promotion_rejected : PromotionRequest F → String → CoverageEvent F
