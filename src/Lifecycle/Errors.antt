-- ===== src/Lifecycle/Errors.antt =====
-- The exceptions that the lifecycle rules raise: backend/app/services/lifecycle_rules.py.
use codex_trading_app.Prelude.{String, List}

-- `LifecycleTransitionError`
pub record LifecycleTransitionError : Type 0 where
  pub entity_name : String
  pub current_state : String
  pub target_state : String
  pub allowed_targets : List String
  pub reason : String

-- `LegacyLifecycleWriteError`
pub record LegacyLifecycleWriteError : Type 0 where
  pub entity_name : String
  pub target_state : String

-- What a validation raises; `unknown_value` is the ValueError of a text that names no member.
pub data LifecycleError : Type 0 where
  unknown_value : String → LifecycleError
  refused : LifecycleTransitionError → LifecycleError
  legacy_write : LegacyLifecycleWriteError → LifecycleError
