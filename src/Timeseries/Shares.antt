-- ===== src/Timeseries/Shares.antt =====
-- What one series adds to the totals of a day.
use portfolio_analytics_syst.Prelude.{
  String, Option, none, some, ◌≡◌, refl, ap, ◌∙◌, inl, inr, Bool-cases, get_or, if◌then◌else◌,
}
use portfolio_analytics_syst.Prelude.Int.{pos, ◌+ℤ◌, abs, ltb_ℤ, int_laws, +ℤ_assoc, zero_+ℤ}
use portfolio_analytics_syst.Decimal.{Decimal, Arith}
use portfolio_analytics_syst.Timeseries.Tables.{PositionTimeseries}
use portfolio_analytics_syst.Timeseries.Portfolio.{DayTotals, add_fee, add_rated}

-- A currency and the rate from it, if there is one.
abbrev pub Quote : Type 0
Quote = String × Option Decimal

abbrev pub plus : DayTotals → DayTotals → DayTotals
plus x y = record {
  bod_cf = x.bod_cf +ℤ y.bod_cf;
  eod_cf = x.eod_cf +ℤ y.eod_cf;
  total_fees = x.total_fees +ℤ y.total_fees;
}

module _ ⦃a : Arith⦄ where
  abbrev pub converted : Decimal → Option Quote → Decimal
  converted amount none = pos 0
  converted amount (some (currency, rate)) = a.mul amount (get_or rate (pos 0))

  abbrev pub fee_part : Decimal → Option Quote → Decimal
  fee_part amount o = if ltb_ℤ amount (pos 0) then abs (converted amount o) else pos 0

  abbrev pub share : PositionTimeseries → Option Quote → DayTotals
  share ts o = record {
    bod_cf = converted ts.bod_cashflow_portfolio o;
    eod_cf = converted ts.eod_cashflow_portfolio o;
    total_fees = fee_part ts.bod_cashflow_portfolio o +ℤ fee_part ts.eod_cashflow_portfolio o;
  }

  fee_part_added :
      (flow rate total : Decimal) (currency : String)
      → add_fee flow rate total ≡ total +ℤ fee_part flow (some (currency, some rate))
  fee_part_added flow rate total currency = elim (Bool-cases (ltb_ℤ flow (pos 0))) [
    | inl e ↦ rw (e) refl
    | inr e ↦ rw (e) (omega int_laws)
  ]

  pub plus_assoc : (x y z : DayTotals) → plus (plus x y) z ≡ plus x (plus y z)
  plus_assoc x y z = rw (+ℤ_assoc, +ℤ_assoc, +ℤ_assoc) refl

  fee_part_nothing : (amount : Decimal) → fee_part amount none ≡ pos 0
  unfolding abs
  fee_part_nothing amount = elim (Bool-cases (ltb_ℤ amount (pos 0))) [
    | inl e ↦ rw (e) refl
    | inr e ↦ rw (e) refl
  ]

  pub plus_nothing : (ts : PositionTimeseries) (x : DayTotals) → plus (share ts none) x ≡ x
  plus_nothing ts x =
      rw
        (
          zero_+ℤ,
          zero_+ℤ,
          fee_part_nothing ts.bod_cashflow_portfolio,
          fee_part_nothing ts.eod_cashflow_portfolio,
        )
        (ap (λ f. record x { total_fees = f }) (omega int_laws))

  pub add_rated-share :
      (ts : PositionTimeseries) (totals : DayTotals) (currency : String) (rate : Decimal)
      → add_rated ts totals rate ≡ plus totals (share ts (some (currency, some rate)))
  add_rated-share ts totals currency rate =
      ap (λ f. record (add_rated ts totals rate) { total_fees = f })
        (fee_part_added ts.eod_cashflow_portfolio rate
            (add_fee ts.bod_cashflow_portfolio rate totals.total_fees) currency
          ∙ ap (λ z. z +ℤ fee_part ts.eod_cashflow_portfolio (some (currency, some rate)))
              (fee_part_added ts.bod_cashflow_portfolio rate totals.total_fees currency)
          ∙ +ℤ_assoc totals.total_fees
              (fee_part ts.bod_cashflow_portfolio (some (currency, some rate)))
              (fee_part ts.eod_cashflow_portfolio (some (currency, some rate))))
