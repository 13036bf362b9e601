-- ===== src/Timeseries/Portfolio.antt =====
-- app/core/portfolio_timeseries_logic.py: the record of a portfolio on one day. A series whose
-- instrument is not known is skipped; a rate that is missing ends the calculation.
use portfolio_analytics_syst.Prelude.{
  ℕ, String, Option, none, some, List, [], ◌∷◌, map, ◌==◌, concat, get_or, strip, str_eq,
  if◌then◌else◌,
}
use portfolio_analytics_syst.Prelude.Int.{pos, ◌+ℤ◌, abs, ltb_ℤ}
use portfolio_analytics_syst.Prelude.Results.{Result, ok, raised, ◌>>=◌}
use portfolio_analytics_syst.Decimal.{Decimal, Arith}
use portfolio_analytics_syst.Valuation.Tables.{
  Instrument, Portfolio, FxRate, DailyPositionSnapshot, get_instrument, get_fx_rate,
}
use portfolio_analytics_syst.Timeseries.Tables.{
  PositionTimeseries, PortfolioTimeseries, SeriesTables, get_all_snapshots_for_date,
  get_instruments_by_ids, get_last_portfolio_timeseries_before,
}

pub record DayTotals : Type 0 where
  pub bod_cf : Decimal
  pub eod_cf : Decimal
  pub total_fees : Decimal

abbrev pub no_totals : DayTotals
no_totals = record { bod_cf = pos 0; eod_cf = pos 0; total_fees = pos 0 }

abbrev pub start_value : Option PortfolioTimeseries → Decimal
start_value none = pos 0
start_value (some previous) = previous.eod_market_value

-- The loop over the snapshots of the day.
unfoldable pub add_values : ℕ → List DailyPositionSnapshot → Decimal → Decimal
add_values epoch [] total = total
add_values epoch (s ∷ snapshots) total =
    add_values epoch snapshots
      (if s.epoch == epoch then total +ℤ get_or s.market_value (pos 0) else total)

abbrev pub security_ids_of : List PositionTimeseries → List String
security_ids_of = map (λ (ts : PositionTimeseries). ts.security_id)

abbrev pub record_of : Portfolio → ℕ → ℕ → Decimal → Decimal → DayTotals → PortfolioTimeseries
record_of portfolio a_date epoch bod_mv eod_mv totals = record {
  portfolio_id = portfolio.portfolio_id;
  date = a_date;
  epoch = epoch;
  bod_market_value = bod_mv;
  bod_cashflow = totals.bod_cf;
  eod_cashflow = totals.eod_cf;
  eod_market_value = eod_mv;
  fees = totals.total_fees;
}

module _ ⦃a : Arith⦄ where
  abbrev pub add_fee : Decimal → Decimal → Decimal → Decimal
  add_fee flow rate total = if ltb_ℤ flow (pos 0) then total +ℤ abs (a.mul flow rate) else total

  abbrev pub add_rated : PositionTimeseries → DayTotals → Decimal → DayTotals
  add_rated ts totals rate = record {
    bod_cf = totals.bod_cf +ℤ a.mul ts.bod_cashflow_portfolio rate;
    eod_cf = totals.eod_cf +ℤ a.mul ts.eod_cashflow_portfolio rate;
    total_fees =
        add_fee ts.eod_cashflow_portfolio rate
          (add_fee ts.bod_cashflow_portfolio rate totals.total_fees);
  }

  abbrev rate_of_row : Option FxRate → Option Decimal
  rate_of_row none = none
  rate_of_row (some row) = some row.rate

  -- The rate between two currencies on a date: one between equal texts.
  unfoldable pub rate_between : String → String → ℕ → List FxRate → Option Decimal
  unfolding str_eq strip get_fx_rate
  rate_between from to date rates =
      if str_eq (strip from) (strip to)
      then some a.one
      else rate_of_row (get_fx_rate from to date rates)

  -- With the text of a date.
  module _ (show_date : ℕ → String) where
    unfoldable pub missing_rate : String → String → ℕ → String
    unfolding concat
    missing_rate from to date =
        concat
          ("Missing FX rate from " ∷ from ∷ " to " ∷ to ∷ " for date " ∷ show_date date ∷ "." ∷ [])

    abbrev pub add_at_rate :
        String → String → PositionTimeseries → DayTotals → Option Decimal → Result DayTotals
    add_at_rate from to ts totals none = raised (missing_rate from to ts.date)
    add_at_rate from to ts totals (some rate) = ok (add_rated ts totals rate)

    abbrev pub add_of_instrument :
        Portfolio
        → List FxRate
        → PositionTimeseries
        → DayTotals
        → Option Instrument
        → Result DayTotals
    add_of_instrument portfolio rates ts totals none = ok totals
    add_of_instrument portfolio rates ts totals (some i) =
        add_at_rate i.currency portfolio.base_currency ts totals
          (rate_between i.currency portfolio.base_currency ts.date rates)

    unfoldable pub add_positions :
        Portfolio
        → List FxRate
        → List Instrument
        → List PositionTimeseries
        → DayTotals
        → Result DayTotals
    unfolding get_instrument rate_between missing_rate
    add_positions portfolio rates instruments [] totals = ok totals
    add_positions portfolio rates instruments (ts ∷ l) totals =
        add_of_instrument portfolio rates ts totals (get_instrument ts.security_id instruments)
        >>= add_positions portfolio rates instruments l

    unfoldable pub calculate_daily_record :
        Portfolio → ℕ → ℕ → List PositionTimeseries → SeriesTables → Result PortfolioTimeseries
    unfolding add_positions add_values get_all_snapshots_for_date get_instruments_by_ids
        get_last_portfolio_timeseries_before
    calculate_daily_record portfolio a_date epoch l t =
        let bod_mv =
          start_value (
            get_last_portfolio_timeseries_before portfolio.portfolio_id a_date
              t.portfolio_series) in
        let instruments = get_instruments_by_ids (security_ids_of l) t.instruments in
        add_positions portfolio t.fx_rates instruments l no_totals >>= λ totals. ok (
          record_of portfolio a_date epoch bod_mv
            (add_values epoch (get_all_snapshots_for_date portfolio.portfolio_id a_date t.snapshots)
              (pos 0))
            totals)
