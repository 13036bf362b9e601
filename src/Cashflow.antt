-- ===== src/Cashflow.antt =====
-- The cashflow calculator (src/services/calculators/cashflow_calculator_service): the cashflow that
-- a transaction causes under a rule.
pub mod Logic
pub mod Consumer
pub mod Once
pub mod Interleaving
pub mod Duplicates
pub mod Signs
mod Tests
