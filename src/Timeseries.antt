-- ===== src/Timeseries.antt =====
-- The timeseries generator (src/services/timeseries_generator_service).
pub mod Tables
pub mod Position
pub mod Portfolio
pub mod Shares
pub mod Totals
mod Tests
