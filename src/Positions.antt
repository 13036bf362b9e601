-- ===== src/Positions.antt =====
-- The position calculator (src/services/calculators/position_calculator) and the state of a position
-- key (portfolio_common/position_state_repository.py, reprocessing.py).
pub mod State
pub mod Logic
pub mod Store
pub mod Calculator
pub mod Running
pub mod Recalculation
pub mod Epochs
pub mod Replay
mod Tests
