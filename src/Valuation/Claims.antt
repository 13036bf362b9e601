-- ===== src/Valuation/Claims.antt =====
-- How many jobs a claim takes.
use portfolio_analytics_syst.Prelude.{ℕ, ◌≤◌, Bool, ◌&&◌, not, List, count, ◌==◌}
use portfolio_analytics_syst.Prelude.Collation.{Collation}
use portfolio_analytics_syst.Valuation.Jobs.{ValuationJob, is_pending}

module _ (jobs : List ValuationJob) where
  -- The ids of the rows are the primary key.
  abbrev pub HasUniqueIds : Type 0
  HasUniqueIds = (id : ℕ) → count (λ (j : ValuationJob). j.id == id) jobs ≤ 1

module _ (is_locked : ℕ → Bool) where
  -- A job that a claim can take.
  unfoldable pub is_waiting : ValuationJob → Bool
  is_waiting j = is_pending j && not (is_locked j.id)
