-- ===== src/Timeseries/Totals.antt =====
-- What the record of a portfolio adds up.
use portfolio_analytics_syst.Prelude.{
  ℕ, String, Option, none, some, List, [], ◌∷◌, ◌==◌, filter, sum_by, get_or,
}
use portfolio_analytics_syst.Prelude.Int.{pos}
use portfolio_analytics_syst.Prelude.Results.{Result, ok, raised}
use portfolio_analytics_syst.Decimal.{Decimal, Arith}
use portfolio_analytics_syst.Valuation.Tables.{
  Instrument, Portfolio, FxRate, DailyPositionSnapshot, get_instrument,
}
use portfolio_analytics_syst.Timeseries.Tables.{PositionTimeseries, get_all_snapshots_for_date}
use portfolio_analytics_syst.Timeseries.Portfolio.{
  DayTotals, rate_between, missing_rate, add_at_rate,
}
use portfolio_analytics_syst.Timeseries.Shares.{Quote, share}

abbrev or_first : Option String → Option String → Option String
or_first none rest = rest
or_first (some text) rest = some text

-- The first message of a list.
unfoldable pub first_missing :
    (PositionTimeseries → Option String) → List PositionTimeseries → Option String
first_missing f [] = none
first_missing f (ts ∷ l) = or_first (f ts) (first_missing f l)

abbrev pub unless_missing {ℓ} : {A : Type ℓ} → Option String → A → Result A
unless_missing none x = ok x
unless_missing (some text) x = raised text

module _ ⦃a : Arith⦄ where
  module _ (portfolio : Portfolio) (rates : List FxRate) where
    abbrev pub quote_of : PositionTimeseries → Option Instrument → Option Quote
    quote_of ts none = none
    quote_of ts (some i) =
        some (i.currency, rate_between i.currency portfolio.base_currency ts.date rates)

    module _ (show_date : ℕ → String) where
      abbrev pub message : PositionTimeseries → Option Quote → Option String
      message ts none = none
      message ts (some (currency, some rate)) = none
      message ts (some (currency, none)) =
          some (missing_rate show_date currency portfolio.base_currency ts.date)

      abbrev add_quoted : PositionTimeseries → DayTotals → Option Quote → Result DayTotals
      add_quoted ts totals none = ok totals
      add_quoted ts totals (some (currency, rate)) =
          add_at_rate show_date currency portfolio.base_currency ts totals rate

    module _ (instruments : List Instrument) where
      -- The currency of a series with its rate; nothing if its instrument is not known.
      abbrev pub quote : PositionTimeseries → Option Quote
      quote ts = quote_of ts (get_instrument ts.security_id instruments)

      -- The flows in the portfolio's currency, and what of them is an outflow.
      abbrev pub totals_of : List PositionTimeseries → DayTotals
      totals_of l = record {
        bod_cf = sum_by (λ ts. (share ts (quote ts)).bod_cf) l;
        eod_cf = sum_by (λ ts. (share ts (quote ts)).eod_cf) l;
        total_fees = sum_by (λ ts. (share ts (quote ts)).total_fees) l;
      }

-- The value of the day's snapshots of one epoch.
abbrev pub value_in_epoch : String → ℕ → ℕ → List DailyPositionSnapshot → Decimal
value_in_epoch portfolio_id a_date epoch snapshots =
    sum_by (λ (s : DailyPositionSnapshot). get_or s.market_value (pos 0))
      (filter (λ (s : DailyPositionSnapshot). s.epoch == epoch)
        (get_all_snapshots_for_date portfolio_id a_date snapshots))
