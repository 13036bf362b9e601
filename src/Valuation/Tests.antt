-- ===== src/Valuation/Tests.antt =====
-- A key that lags by three days.
use portfolio_analytics_syst.Prelude.{some, [], ◌∷◌, ◌≡◌, refl}
use portfolio_analytics_syst.Positions.State.{PositionState}
use portfolio_analytics_syst.Valuation.Scheduler.{dates_to, backfill_dates, advance_one}
use portfolio_analytics_syst.Valuation.Gaps.{Advances, advance_one-Advances}

abbrev lagging : PositionState
lagging = record {
  portfolio_id = "P";
  security_id = "S";
  epoch = 2;
  watermark_date = 7;
  status = "REPROCESSING";
}

fills_the_gap : backfill_dates 7 10 ≡ 8 ∷ 9 ∷ 10 ∷ []
unfolding backfill_dates dates_to
fills_the_gap = refl

advances : Advances 10 lagging (advance_one 10 lagging (some 10))
advances = advance_one-Advances 10 lagging (some 10)
