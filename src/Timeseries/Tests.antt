-- ===== src/Timeseries/Tests.antt =====
-- A day with a purchase: the record of the position, and that of its portfolio in another currency,
-- with and without a rate.
use portfolio_analytics_syst.Prelude.{
  ℕ, String, ◌&&◌, not, true, false, none, some, List, [], ◌∷◌, ◌≡◌, refl, str_eq,
}
use portfolio_analytics_syst.Prelude.Int.{pos, negsuc, abs, ◌*ℤ◌, ◌+ℤ◌, ◌-ℤ◌}
use portfolio_analytics_syst.Prelude.Results.{ok, raised}
use portfolio_analytics_syst.Decimal.{Arith}
use portfolio_analytics_syst.Cashflow.Logic.{Cashflow}
use portfolio_analytics_syst.Valuation.Tables.{Portfolio, FxRate, DailyPositionSnapshot, unvalued}
use portfolio_analytics_syst.Timeseries.Tables.{PositionTimeseries, SeriesTables}
use portfolio_analytics_syst.Timeseries.Position.{flow_total, calculate_daily_record-flow_total}
use portfolio_analytics_syst.Timeseries.Position
use portfolio_analytics_syst.Timeseries.Portfolio

instance abbrev whole : Arith
whole = record { one = pos 1; mul = λ x y. x *ℤ y; div = λ x y. x; show = λ x. "x" }

abbrev snapshot : DailyPositionSnapshot
snapshot = record {
  id = 1;
  portfolio_id = "P";
  security_id = "S";
  date = 9;
  epoch = 1;
  quantity = pos 5;
  cost_basis = pos 3;
  cost_basis_local = some (pos 3);
  market_price = none;
  market_value = some (pos 40);
  market_value_local = some (pos 20);
  unrealized_gain_loss = none;
  unrealized_gain_loss_local = none;
  valuation_status = unvalued;
}

abbrev payment : Cashflow
payment = record {
  transaction_id = "T";
  portfolio_id = "P";
  security_id = "S";
  cashflow_date = 9;
  epoch = 1;
  amount = negsuc 6;
  currency = "USD";
  classification = "INVESTMENT_OUTFLOW";
  timing = "BOD";
  calculation_type = "NET";
  is_position_flow = true;
  is_portfolio_flow = true;
  economic_event_id = none;
  linked_transaction_group_id = none;
}

abbrev dividend : Cashflow
dividend = record payment { amount = pos 2; timing = "EOD"; is_portfolio_flow = false }

abbrev series : PositionTimeseries
series = record {
  portfolio_id = "P";
  security_id = "S";
  date = 9;
  epoch = 1;
  bod_market_value = pos 0;
  bod_cashflow_position = negsuc 6;
  eod_cashflow_position = pos 2;
  bod_cashflow_portfolio = negsuc 6;
  eod_cashflow_portfolio = pos 0;
  eod_market_value = pos 20;
  fees = pos 0;
  quantity = pos 5;
  cost = pos 3;
}

day_of_position : Position.calculate_daily_record snapshot none (payment ∷ dividend ∷ []) 1 ≡ series
unfolding Position.calculate_daily_record Position.add_flows str_eq ◌+ℤ◌
day_of_position = refl

calculate_daily_record-flow_total_example :
    let flows = payment ∷ dividend ∷ [] in
    let r = Position.calculate_daily_record snapshot none flows 1 in
    (r.bod_market_value ≡ pos 0)
    × (r.eod_market_value ≡ pos 20)
    × (r.bod_cashflow_position
        ≡ flow_total (λ (cf : Cashflow). cf.is_position_flow && str_eq cf.timing "BOD") flows)
    × (r.eod_cashflow_position
        ≡ flow_total (λ (cf : Cashflow). cf.is_position_flow && not (str_eq cf.timing "BOD")) flows)
    × (r.bod_cashflow_portfolio
        ≡ flow_total (λ (cf : Cashflow). cf.is_portfolio_flow && str_eq cf.timing "BOD") flows)
    × (r.eod_cashflow_portfolio
        ≡ flow_total
            (λ (cf : Cashflow). cf.is_portfolio_flow && not (str_eq cf.timing "BOD"))
            flows)
calculate_daily_record-flow_total_example =
    calculate_daily_record-flow_total snapshot none (payment ∷ dividend ∷ []) 1

abbrev portfolio : Portfolio
portfolio = record { portfolio_id = "P"; base_currency = "CHF " }

abbrev tables : List FxRate → SeriesTables
tables rates = record {
  instruments = record { security_id = "S"; currency = "USD" } ∷ [];
  fx_rates = rates;
  snapshots = snapshot ∷ record snapshot { epoch = 0 } ∷ [];
  portfolio_series = [];
}

abbrev rates : List FxRate
rates = record { from_currency = "USD"; to_currency = "CHF "; rate_date = 8; rate = pos 2 } ∷ []

abbrev show_date : ℕ → String
show_date date = "9"

-- A snapshot of an older epoch does not count.
day_of_portfolio :
    Portfolio.calculate_daily_record show_date portfolio 9 1 (series ∷ []) (tables rates)
    ≡ ok (record {
      portfolio_id = "P";
      date = 9;
      epoch = 1;
      bod_market_value = pos 0;
      bod_cashflow = negsuc 13;
      eod_cashflow = pos 0;
      eod_market_value = pos 40;
      fees = pos 14;
    })
unfolding Portfolio.calculate_daily_record ◌+ℤ◌ ◌*ℤ◌ abs ◌-ℤ◌
day_of_portfolio = refl

no_rate :
    Portfolio.calculate_daily_record show_date portfolio 9 1 (series ∷ []) (tables [])
    ≡ raised "Missing FX rate from USD to CHF  for date 9."
unfolding Portfolio.calculate_daily_record
no_rate = refl
