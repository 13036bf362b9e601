-- ===== src/Timeseries/Position.antt =====
-- app/core/position_timeseries_logic.py: the record of one position on one day. A cashflow that is
-- not timed at the beginning of the day counts at its end.
use portfolio_analytics_syst.Prelude.{
  ℕ, Bool, ◌&&◌, not, Option, none, some, List, [], ◌∷◌, ◌≡◌, refl, ◌∙◌, arith, filter, sum_by,
  get_or, str_eq, if◌then◌else◌,
}
use portfolio_analytics_syst.Prelude.Int.{pos, ◌+ℤ◌, is_zero, int_laws, +ℤ_assoc, zero_+ℤ}
use portfolio_analytics_syst.Decimal.{Decimal, Arith}
use portfolio_analytics_syst.Cashflow.Logic.{Cashflow}
use portfolio_analytics_syst.Valuation.Tables.{DailyPositionSnapshot}
use portfolio_analytics_syst.Timeseries.Tables.{PositionTimeseries}

-- The four sums of the loop.
pub record Flows : Type 0 where
  pub bod_position : Decimal
  pub eod_position : Decimal
  pub bod_portfolio : Decimal
  pub eod_portfolio : Decimal

abbrev pub no_flows : Flows
no_flows = record {
  bod_position = pos 0;
  eod_position = pos 0;
  bod_portfolio = pos 0;
  eod_portfolio = pos 0;
}

abbrev pub is_bod : Cashflow → Bool
is_bod cf = str_eq cf.timing "BOD"

abbrev pub add_position_flow : Cashflow → Flows → Flows
add_position_flow cf f =
    if is_bod cf
    then record f { bod_position = f.bod_position +ℤ cf.amount }
    else record f { eod_position = f.eod_position +ℤ cf.amount }

abbrev pub add_portfolio_flow : Cashflow → Flows → Flows
add_portfolio_flow cf f =
    if is_bod cf
    then record f { bod_portfolio = f.bod_portfolio +ℤ cf.amount }
    else record f { eod_portfolio = f.eod_portfolio +ℤ cf.amount }

abbrev pub add_flow : Cashflow → Flows → Flows
add_flow cf f =
    let g = if cf.is_position_flow then add_position_flow cf f else f in
    if cf.is_portfolio_flow then add_portfolio_flow cf g else g

unfoldable pub add_flows : List Cashflow → Flows → Flows
unfolding str_eq
add_flows [] f = f
add_flows (cf ∷ cashflows) f = add_flows cashflows (add_flow cf f)

abbrev pub previous_value : Option DailyPositionSnapshot → Decimal
previous_value none = pos 0
previous_value (some previous) = get_or previous.market_value_local (pos 0)

module _ ⦃a : Arith⦄ where
  abbrev pub average_cost : Decimal → Decimal → Decimal
  average_cost cost_basis quantity = if is_zero quantity then pos 0 else a.div cost_basis quantity

  abbrev pub record_of :
      DailyPositionSnapshot → Option DailyPositionSnapshot → ℕ → Flows → PositionTimeseries
  record_of current previous epoch f = record {
    portfolio_id = current.portfolio_id;
    security_id = current.security_id;
    date = current.date;
    epoch = epoch;
    bod_market_value = previous_value previous;
    bod_cashflow_position = f.bod_position;
    eod_cashflow_position = f.eod_position;
    bod_cashflow_portfolio = f.bod_portfolio;
    eod_cashflow_portfolio = f.eod_portfolio;
    eod_market_value = get_or current.market_value_local (pos 0);
    fees = pos 0;
    quantity = current.quantity;
    cost = average_cost (get_or current.cost_basis_local (pos 0)) current.quantity;
  }

  unfoldable pub calculate_daily_record :
      DailyPositionSnapshot → Option DailyPositionSnapshot → List Cashflow → ℕ → PositionTimeseries
  unfolding add_flows
  calculate_daily_record current previous cashflows epoch =
      record_of current previous epoch (add_flows cashflows no_flows)

-- The amounts of the cashflows that pass a test.
abbrev pub flow_total : (Cashflow → Bool) → List Cashflow → Decimal
flow_total test cashflows = sum_by (λ (cf : Cashflow). cf.amount) (filter test cashflows)

abbrev pub counts_at_start : (Cashflow → Bool) → Cashflow → Bool
counts_at_start test cf = test cf && is_bod cf

abbrev pub counts_at_end : (Cashflow → Bool) → Cashflow → Bool
counts_at_end test cf = test cf && not (is_bod cf)

bod_position_after :
    (cashflows : List Cashflow) (f : Flows)
    → (add_flows cashflows f).bod_position
      ≡ f.bod_position
        +ℤ flow_total (counts_at_start (λ (cf : Cashflow). cf.is_position_flow)) cashflows
unfolding add_flows sum_by filter
bod_position_after [] f = omega int_laws
bod_position_after (cf ∷ cashflows) f =
    bod_position_after cashflows (add_flow cf f) ∙ grind (arith, +ℤ_assoc)

eod_position_after :
    (cashflows : List Cashflow) (f : Flows)
    → (add_flows cashflows f).eod_position
      ≡ f.eod_position
        +ℤ flow_total (counts_at_end (λ (cf : Cashflow). cf.is_position_flow)) cashflows
unfolding add_flows sum_by filter
eod_position_after [] f = omega int_laws
eod_position_after (cf ∷ cashflows) f =
    eod_position_after cashflows (add_flow cf f) ∙ grind (arith, +ℤ_assoc)

bod_portfolio_after :
    (cashflows : List Cashflow) (f : Flows)
    → (add_flows cashflows f).bod_portfolio
      ≡ f.bod_portfolio
        +ℤ flow_total (counts_at_start (λ (cf : Cashflow). cf.is_portfolio_flow)) cashflows
unfolding add_flows sum_by filter
bod_portfolio_after [] f = omega int_laws
bod_portfolio_after (cf ∷ cashflows) f =
    bod_portfolio_after cashflows (add_flow cf f) ∙ grind (arith, +ℤ_assoc)

eod_portfolio_after :
    (cashflows : List Cashflow) (f : Flows)
    → (add_flows cashflows f).eod_portfolio
      ≡ f.eod_portfolio
        +ℤ flow_total (counts_at_end (λ (cf : Cashflow). cf.is_portfolio_flow)) cashflows
unfolding add_flows sum_by filter
eod_portfolio_after [] f = omega int_laws
eod_portfolio_after (cf ∷ cashflows) f =
    eod_portfolio_after cashflows (add_flow cf f) ∙ grind (arith, +ℤ_assoc)

module _ ⦃a : Arith⦄ where
  -- The record of a day begins with the local value of the previous snapshot, or zero, ends with that
  -- of its own, and has four sums: of the flows of the position and of those of the portfolio, each
  -- over the flows that are timed "BOD" and over all others, whatever their order.
  pub calculate_daily_record-flow_total :
      (current : DailyPositionSnapshot) (previous : Option DailyPositionSnapshot)
      (cashflows : List Cashflow) (epoch : ℕ)
      → let r = calculate_daily_record current previous cashflows epoch in
        (r.bod_market_value
          ≡ elim previous [ none ↦ pos 0 | some s ↦ get_or s.market_value_local (pos 0) ])
        × (r.eod_market_value ≡ get_or current.market_value_local (pos 0))
        × (r.bod_cashflow_position
            ≡ flow_total
                (λ (cf : Cashflow). cf.is_position_flow && str_eq cf.timing "BOD")
                cashflows)
        × (r.eod_cashflow_position
            ≡ flow_total
                (λ (cf : Cashflow). cf.is_position_flow && not (str_eq cf.timing "BOD"))
                cashflows)
        × (r.bod_cashflow_portfolio
            ≡ flow_total
                (λ (cf : Cashflow). cf.is_portfolio_flow && str_eq cf.timing "BOD")
                cashflows)
        × (r.eod_cashflow_portfolio
            ≡ flow_total
                (λ (cf : Cashflow). cf.is_portfolio_flow && not (str_eq cf.timing "BOD"))
                cashflows)
  unfolding calculate_daily_record
  calculate_daily_record-flow_total current previous cashflows epoch = (
    previous_value-cases previous,
    refl,
    bod_position_after cashflows no_flows ∙ zero_+ℤ _,
    eod_position_after cashflows no_flows ∙ zero_+ℤ _,
    bod_portfolio_after cashflows no_flows ∙ zero_+ℤ _,
    eod_portfolio_after cashflows no_flows ∙ zero_+ℤ _,
  )
    where
      previous_value-cases :
          (o : Option DailyPositionSnapshot)
          → previous_value o
            ≡ elim o [ none ↦ pos 0 | some s ↦ get_or s.market_value_local (pos 0) ]
      previous_value-cases none = refl
      previous_value-cases (some s) = refl
