-- ===== src/Leadership.antt =====
-- The runtime-leadership lease: backend/app/services/runtime_leadership_service.py over the table
-- of backend/app/models/runtime_leadership.py.
pub mod Lease
pub mod Service
pub mod Fence
pub mod Rows
pub mod Claims
pub mod Traces
mod Examples
