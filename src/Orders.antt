-- ===== src/Orders.antt =====
-- Orders to the broker and what becomes of them: backend/app/services/strategy_service.py.
pub mod Request
pub mod Prepare
pub mod Retry
pub mod Resend
pub mod Review
pub mod Result
pub mod Outcome
pub mod Accepted
pub mod Booked
mod Examples
mod Results
