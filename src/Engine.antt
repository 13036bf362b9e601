-- ===== src/Engine.antt =====
-- The financial calculator engine (src/libs/financial-calculator-engine): costs and realised gains of
-- a history of transactions, by lots (FIFO) or by average cost.
pub mod Model
pub mod Reporter
pub mod Fifo
pub mod Average
pub mod Disposition
pub mod Strategies
pub mod Calculator
pub mod Sorter
pub mod Parser
pub mod Processor
pub mod Behaviour
pub mod Invariant
pub mod Soundness
pub mod Timeline
pub mod Sales
mod Tests
