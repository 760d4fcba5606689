-- ===== src/Allocation.antt =====
-- The capital allocator: backend/app/services/capital_allocator_service.py, with the signals of
-- backend/app/core/signals.py and the broker contract of backend/app/core/broker.py.
pub mod Floats
pub mod Whole
pub mod Signals
pub mod Decision
pub mod State
pub mod Scoring
pub mod Planning
pub mod Sizing
pub mod Budgets
pub mod Candidates
pub mod Ranking
pub mod Cycle
