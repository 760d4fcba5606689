-- ===== src/Coverage.antt =====
-- The coverage allocator: backend/app/services/coverage_allocator_service.py.
pub mod Records
pub mod Watchlist
pub mod Allocator
pub mod Budget
pub mod Rows
pub mod Decisions
pub mod Once
mod Examples
