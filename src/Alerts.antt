-- ===== src/Alerts.antt =====
-- Allocation alerts: backend/app/services/allocation_alert_service.py.
pub mod Record
pub mod Candidates
pub mod Table
pub mod Service
pub mod Lookup
pub mod Refresh
pub mod Sync
mod Examples
