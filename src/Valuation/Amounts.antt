-- ===== src/Valuation/Amounts.antt =====
-- app/logic/valuation_logic.py: the value of a position and its unrealized gain or loss, in the
-- currency of the instrument and in that of the portfolio. A missing local cost basis, which the
-- column allows, fails in the subtraction.
use portfolio_analytics_syst.Prelude.{
  String, Bool, true, false, Option, none, some, str_eq, if◌then◌else◌,
}
use portfolio_analytics_syst.Prelude.Int.{pos, ◌-ℤ◌, is_zero}
use portfolio_analytics_syst.Prelude.Results.{Result, ok, raised}
use portfolio_analytics_syst.Decimal.{Decimal, Arith}

pub record ValuationInput : Type 0 where
  pub quantity : Decimal
  pub market_price : Decimal
  pub cost_basis_base : Decimal
  pub cost_basis_local : Option Decimal
  pub price_currency : String
  pub instrument_currency : String
  pub portfolio_currency : String
  pub price_to_instrument_fx_rate : Option Decimal
  pub instrument_to_portfolio_fx_rate : Option Decimal

pub record Valuation : Type 0 where
  pub market_value_base : Decimal
  pub market_value_local : Decimal
  pub pnl_base : Decimal
  pub pnl_local : Decimal

abbrev pub nothing_held : Valuation
nothing_held = record {
  market_value_base = pos 0;
  market_value_local = pos 0;
  pnl_base = pos 0;
  pnl_local = pos 0;
}

module _ ⦃a : Arith⦄ where
  -- An amount in another currency; none, when the rate is needed and missing.
  abbrev pub converted : Bool → Option Decimal → Decimal → Option Decimal
  converted true rate amount = some amount
  converted false none amount = none
  converted false (some rate) amount = some (a.mul amount rate)

  abbrev pub with_base : ValuationInput → Decimal → Decimal → Option Decimal → Option Valuation
  with_base i local pnl none = none
  with_base i local pnl (some base) = some (record {
    market_value_base = base;
    market_value_local = local;
    pnl_base = base -ℤ i.cost_basis_base;
    pnl_local = pnl;
  })

  abbrev pub with_local_cost : ValuationInput → Decimal → Option Decimal → Result (Option Valuation)
  with_local_cost i local none =
      raised "unsupported operand type(s) for -: 'decimal.Decimal' and 'NoneType'"
  with_local_cost i local (some cost) = ok (
      with_base i local (local -ℤ cost) (
        converted (str_eq i.instrument_currency i.portfolio_currency)
          i.instrument_to_portfolio_fx_rate local))

  abbrev pub with_price : ValuationInput → Option Decimal → Result (Option Valuation)
  with_price i none = ok none
  with_price i (some price) = with_local_cost i (a.mul i.quantity price) i.cost_basis_local

  unfoldable pub calculate_valuation : ValuationInput → Result (Option Valuation)
  unfolding str_eq ◌-ℤ◌
  calculate_valuation i =
      if is_zero i.quantity
      then ok (some nothing_held)
      else with_price i (
          converted (str_eq i.price_currency i.instrument_currency) i.price_to_instrument_fx_rate
            i.market_price)
