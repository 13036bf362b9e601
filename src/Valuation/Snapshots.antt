-- ===== src/Valuation/Snapshots.antt =====
-- A snapshot that is stored is read back.
use portfolio_analytics_syst.Valuation.Tables.{Tables}
