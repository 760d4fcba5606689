-- ===== src/Trades/Executions.antt =====
-- Execution attempts: the `Execution` rows of backend/app/services/trade_service.py.
pub mod Record
pub mod Events
pub mod Store
pub mod Stages
pub mod Runs
mod Examples
