-- ===== src/Valuation.antt =====
-- The valuation scheduler (src/services/calculators/position_valuation_calculator).
pub mod Jobs
pub mod Amounts
pub mod Tables
pub mod Worker
pub mod Scheduler
pub mod Claims
pub mod Contiguous
pub mod Lifecycle
pub mod Settled
pub mod Pricing
pub mod Snapshots
pub mod Reprocessing
pub mod ReprocessingWorker
pub mod Rewound
pub mod Gaps
mod Tests
mod WorkerTests
mod ReprocessingTests
