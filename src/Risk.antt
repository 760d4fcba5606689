-- ===== src/Risk.antt =====
-- The layered risk controls of an entry: backend/app/services/portfolio_risk_service.py.
pub mod Records
pub mod PreTrade
pub mod Limits
pub mod Assessment
pub mod Verdict
pub mod Entries
pub mod KillSwitch
mod Examples
