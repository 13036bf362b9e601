-- ===== src/Timeseries/Tables.antt =====
-- The rows that the timeseries are made of, and the queries of
-- app/repositories/timeseries_repository.py that the calculations read them with. Its get_fx_rate,
-- get_instrument and get_portfolio are the queries of the valuation's repository.
use portfolio_analytics_syst.Prelude.{
  ℕ, String, ◌&&◌, Option, List, ◌==◌, filter, leb, ltb, str_eq, str_in,
}
use portfolio_analytics_syst.Prelude.Tables.{first_by}
use portfolio_analytics_syst.Decimal.{Decimal}
use portfolio_analytics_syst.Cashflow.Logic.{Cashflow}
use portfolio_analytics_syst.Valuation.Tables.{Instrument, FxRate, DailyPositionSnapshot}

pub record PositionTimeseries : Type 0 where
  pub portfolio_id : String
  pub security_id : String
  pub date : ℕ
  pub epoch : ℕ
  pub bod_market_value : Decimal
  pub bod_cashflow_position : Decimal
  pub eod_cashflow_position : Decimal
  pub bod_cashflow_portfolio : Decimal
  pub eod_cashflow_portfolio : Decimal
  pub eod_market_value : Decimal
  pub fees : Decimal
  pub quantity : Decimal
  pub cost : Decimal

pub record PortfolioTimeseries : Type 0 where
  pub portfolio_id : String
  pub date : ℕ
  pub epoch : ℕ
  pub bod_market_value : Decimal
  pub bod_cashflow : Decimal
  pub eod_cashflow : Decimal
  pub eod_market_value : Decimal
  pub fees : Decimal

-- What the aggregation of a portfolio reads.
pub record SeriesTables : Type 0 where
  pub instruments : List Instrument
  pub fx_rates : List FxRate
  pub snapshots : List DailyPositionSnapshot
  pub portfolio_series : List PortfolioTimeseries

unfoldable pub get_all_snapshots_for_date :
    String → ℕ → List DailyPositionSnapshot → List DailyPositionSnapshot
unfolding filter str_eq
get_all_snapshots_for_date portfolio_id a_date rows =
    filter (λ (s : DailyPositionSnapshot). str_eq s.portfolio_id portfolio_id && (s.date == a_date))
      rows

unfoldable pub get_all_position_timeseries_for_date :
    String → ℕ → ℕ → List PositionTimeseries → List PositionTimeseries
unfolding filter str_eq
get_all_position_timeseries_for_date portfolio_id a_date epoch rows =
    filter
      (λ (r : PositionTimeseries).
        str_eq r.portfolio_id portfolio_id && (r.date == a_date) && (r.epoch == epoch))
      rows

unfoldable pub get_all_cashflows_for_security_date :
    String → String → ℕ → List Cashflow → List Cashflow
unfolding filter str_eq
get_all_cashflows_for_security_date portfolio_id security_id a_date rows =
    filter
      (λ (c : Cashflow).
        str_eq c.portfolio_id portfolio_id
        && str_eq c.security_id security_id
        && (c.cashflow_date == a_date))
      rows

unfoldable pub get_instruments_by_ids : List String → List Instrument → List Instrument
unfolding filter str_in
get_instruments_by_ids security_ids rows =
    filter (λ (r : Instrument). str_in r.security_id security_ids) rows

-- Of any epoch.
unfoldable pub get_last_portfolio_timeseries_before :
    String → ℕ → List PortfolioTimeseries → Option PortfolioTimeseries
unfolding first_by str_eq
get_last_portfolio_timeseries_before portfolio_id a_date rows =
    first_by (λ (r q : PortfolioTimeseries). leb q.date r.date)
      (λ (r : PortfolioTimeseries). str_eq r.portfolio_id portfolio_id && ltb r.date a_date) rows

unfoldable pub get_last_snapshot_before :
    String → String → ℕ → ℕ → List DailyPositionSnapshot → Option DailyPositionSnapshot
unfolding first_by str_eq
get_last_snapshot_before portfolio_id security_id a_date epoch rows =
    first_by (λ (r q : DailyPositionSnapshot). leb q.date r.date)
      (λ (r : DailyPositionSnapshot).
        str_eq r.portfolio_id portfolio_id
        && str_eq r.security_id security_id
        && ltb r.date a_date
        && (r.epoch == epoch))
      rows
