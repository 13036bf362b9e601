-- ===== src/Simulation.antt =====
-- The what-if simulation of the query service (src/services/query_service): sessions, their changes,
-- and the positions that they project.
pub mod Sessions
pub mod Lifecycle
pub mod Projection
pub mod Quantities
pub mod Proposed
mod Tests
mod ProjectionTests
