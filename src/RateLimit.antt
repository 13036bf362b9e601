-- ===== src/RateLimit.antt =====
-- The write rate limit of the ingestion service (src/services/ingestion_service/app/ops_controls.py).
pub mod Window
pub mod Bounds
pub mod Deques
pub mod Accepted
mod Tests
