-- ===== src/Redaction.antt =====
-- What may leave the process: backend/app/core/redaction.py.
pub mod Payload
pub mod Text
pub mod Sanitize
pub mod Hiding
mod Examples
