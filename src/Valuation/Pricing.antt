-- ===== src/Valuation/Pricing.antt =====
-- The figures of a snapshot: when a position has a value, what the value is made of, and that it is
-- made of nothing later than its date.
use portfolio_analytics_syst.Prelude.{
  ℕ, String, Bool, true, false, ◌&&◌, not, Option, none, some, List, ◌≡◌, refl, ap, ◌∙◌, arith, inl,
  inr, Bool-cases, is_some, str_eq,
}
use portfolio_analytics_syst.Prelude.Int.{◌-ℤ◌, is_zero}
use portfolio_analytics_syst.Prelude.Results.{Result, ok}
use portfolio_analytics_syst.Prelude.Keys.{Key}
use portfolio_analytics_syst.Prelude.Tables.{IsFirst, first_by-IsFirst}
use portfolio_analytics_syst.Decimal.{Decimal, Arith}
use portfolio_analytics_syst.Positions.Store.{HistoryRow, newest_first}
use portfolio_analytics_syst.Valuation.Amounts.{
  ValuationInput, Valuation, converted, with_base, with_local_cost, with_price, calculate_valuation,
}
use portfolio_analytics_syst.Valuation.Tables.{
  Instrument, Portfolio, MarketPrice, FxRate, valuation_failed, DailyPositionSnapshot, held_by,
  get_last_position_history_before_date, later_price, priced_by, get_latest_price_for_position,
  later_rate, converts_by, get_fx_rate,
}
use portfolio_analytics_syst.Valuation.Worker.{value_at}

-- A rate that is needed and not there.
abbrev pub is_missing : String → String → Option Decimal → Bool
is_missing from to rate = not (str_eq from to) && not (is_some rate)

-- Both gains are the values less the costs.
abbrev pub IsGain : Decimal → Decimal → Option Valuation → Type 0
IsGain base local none = Unit
IsGain base local (some v) =
    (v.pnl_base ≡ v.market_value_base -ℤ base) × (v.pnl_local ≡ v.market_value_local -ℤ local)

module _ ⦃a : Arith⦄ where
  converted-is_some :
      (same : Bool) (rate : Option Decimal) (amount : Decimal)
      → is_some (converted same rate amount) ≡ not (not same && not (is_some rate))
  converted-is_some true rate amount = refl
  converted-is_some false none amount = refl
  converted-is_some false (some rate) amount = refl

  with_base-is_some :
      (i : ValuationInput) (local pnl : Decimal) (o : Option Decimal)
      → is_some (with_base i local pnl o) ≡ is_some o
  with_base-is_some i local pnl none = refl
  with_base-is_some i local pnl (some base) = refl

  with_base-IsGain :
      (i : ValuationInput) (local cost : Decimal) (o : Option Decimal)
      → IsGain i.cost_basis_base cost (with_base i local (local -ℤ cost) o)
  with_base-IsGain i local cost none = tt
  with_base-IsGain i local cost (some base) = (refl, refl)

  -- The value that is computed for a position that is held.
  abbrev IsValued : ValuationInput → Decimal → Bool → Result (Option Valuation) → Type 0
  IsValued i cost known r =
      (v : Option Valuation) × (r ≡ ok v) × (is_some v ≡ known) × IsGain i.cost_basis_base cost v

  with_price-IsValued :
      (i : ValuationInput) (cost : Decimal) (o : Option Decimal)
      → i.cost_basis_local ≡ some cost
      → IsValued i cost
          (is_some o
            && not (
                is_missing i.instrument_currency i.portfolio_currency
                  i.instrument_to_portfolio_fx_rate))
          (with_price i o)
  with_price-IsValued i cost none h = (none, refl, refl, tt)
  with_price-IsValued i cost (some price) h =
      let local = a.mul i.quantity price in
      let base =
        converted (str_eq i.instrument_currency i.portfolio_currency)
          i.instrument_to_portfolio_fx_rate local in
      (
        with_base i local (local -ℤ cost) base,
        ap (with_local_cost i local) h,
        with_base-is_some i local (local -ℤ cost) base
            ∙ converted-is_some (str_eq i.instrument_currency i.portfolio_currency)
                i.instrument_to_portfolio_fx_rate local,
        with_base-IsGain i local cost base,
      )

  -- A position that is held, with a local cost, has a value exactly when no rate that is needed is
  -- missing, and its gain in either currency is its value there less its cost.
  pub calculate_valuation-IsValued :
      (i : ValuationInput) (cost : Decimal)
      → is_zero i.quantity ≡ false
      → i.cost_basis_local ≡ some cost
      → (v : Option Valuation) × (calculate_valuation i ≡ ok v)
        × (is_some v ≡ (
            not (is_missing i.price_currency i.instrument_currency i.price_to_instrument_fx_rate)
            && not (
                is_missing i.instrument_currency i.portfolio_currency
                  i.instrument_to_portfolio_fx_rate)))
        × IsGain i.cost_basis_base cost v
  unfolding calculate_valuation
  calculate_valuation-IsValued i cost held h =
      let same = str_eq i.price_currency i.instrument_currency in
      let price = converted same i.price_to_instrument_fx_rate i.market_price in
      let (v, e, known, gain) = with_price-IsValued i cost price h in
      (
        v,
        rw (held) e,
        rw (known, converted-is_some same i.price_to_instrument_fx_rate i.market_price) refl,
        gain,
      )

  -- A price in another currency than the instrument's is not used: the snapshot of a position that is
  -- held has the status FAILED.
  pub value_at_foreign_price :
      (s : DailyPositionSnapshot) (instrument : Instrument) (portfolio : Portfolio)
      (price : MarketPrice) (fx_rate : Option FxRate)
      → is_zero s.quantity ≡ false
      → str_eq price.currency instrument.currency ≡ false
      → value_at s instrument portfolio price fx_rate
        ≡ ok (record s { valuation_status = valuation_failed })
  unfolding value_at calculate_valuation
  value_at_foreign_price s instrument portfolio price fx_rate held foreign =
      elim (Bool-cases
        (not (str_eq instrument.currency portfolio.base_currency) && not (is_some fx_rate))) [
          | inl e ↦ rw (e) refl
          | inr e ↦ rw (e, held, foreign) refl
        ]

newest_first_total : (x y : HistoryRow) → newest_first x y ≡ false → newest_first y x ≡ true
newest_first_total x y h = ground (arith, h)

newest_first_trans :
    (x y z : HistoryRow)
    → newest_first x y ≡ true
    → newest_first y z ≡ true
    → newest_first x z ≡ true
newest_first_trans x y z h k = ground (arith, h, k)

-- The position, the price and the rate of a valuation are each the latest on or before its date, in
-- the epoch of the job for the position; there is none only when no row qualifies.
pub lookups-IsFirst :
    (key : Key) (date epoch : ℕ) (security_id from to : String) (history : List HistoryRow)
    (prices : List MarketPrice) (rates : List FxRate)
    → IsFirst newest_first
        (held_by key date epoch)
        history
        (get_last_position_history_before_date key date epoch history)
      × IsFirst later_price
          (priced_by security_id date)
          prices
          (get_latest_price_for_position security_id date prices)
      × IsFirst later_rate (converts_by from to date) rates (get_fx_rate from to date rates)
unfolding get_last_position_history_before_date get_latest_price_for_position get_fx_rate
lookups-IsFirst key date epoch security_id from to history prices rates = (
  first_by-IsFirst newest_first newest_first_total newest_first_trans (held_by key date epoch)
      history,
  first_by-IsFirst later_price (λ p q h. ground (arith, h)) (λ p q r h k. ground (arith, h, k))
      (priced_by security_id date) prices,
  first_by-IsFirst later_rate (λ p q h. ground (arith, h)) (λ p q r h k. ground (arith, h, k))
      (converts_by from to date) rates,
)
