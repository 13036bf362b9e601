-- ===== src/Costs.antt =====
-- The cost calculator (src/services/calculators/cost_calculator_service): the consumer that feeds a
-- transaction and its history to the calculation engine and stores what comes back.
pub mod Repository
pub mod Consumer
pub mod Effects
pub mod Once
mod Tests
