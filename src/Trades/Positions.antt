-- ===== src/Trades/Positions.antt =====
-- Positions: the `Position` rows of backend/app/services/trade_service.py.
pub mod Store
pub mod Unique
mod Examples
