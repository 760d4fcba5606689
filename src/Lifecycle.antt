-- ===== src/Lifecycle.antt =====
-- The lifecycles of trade intents and execution attempts: backend/app/services/lifecycle_rules.py,
-- with the enumerations of backend/app/models/trade.py.
pub mod IntentState
pub mod ExecutionStatus
pub mod Errors
pub mod Executions
pub mod Parsing
pub mod Refusals
pub mod Intents
