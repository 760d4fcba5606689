-- ===== src/Trades.antt =====
-- The store of trade intents: backend/app/services/trade_service.py.
pub mod Intent
pub mod Table
pub mod Service
pub mod Ownership
pub mod Calls
pub mod Runs
pub mod Refusals
pub mod Held
pub mod Examples
pub mod Executions
pub mod Positions
