-- ===== src/Engine/Calculator.antt =====
-- `CostCalculator` of logic/cost_calculator.py: the FX check and the dispatch by transaction type.
use portfolio_analytics_syst.Prelude.{
  Bool, true, false, Option, none, some, [], ◌∷◌, concat, str_eq, if◌then◌else◌,
}
use portfolio_analytics_syst.Prelude.Int.{pos, leb_ℤ, is_zero}
use portfolio_analytics_syst.Decimal.{Arith}
use portfolio_analytics_syst.Engine.Model.{
  Transaction, TransactionType, buy, sell, interest, dividend, deposit, withdrawal, fee,
  transfer_in, transfer_out, other, parse_type,
}
use portfolio_analytics_syst.Engine.Strategies.{
  Run, Outcome, done, report, buy_strategy, sell_strategy, cash_inflow_strategy,
  security_inflow_strategy, security_outflow_strategy, income_strategy, default_strategy,
}

module _ ⦃a : Arith⦄ where
  -- `not t.transaction_fx_rate`
  abbrev pub no_rate : Transaction → Bool
  no_rate t = elim t.transaction_fx_rate [ none ↦ true | some rate ↦ is_zero rate ]

  -- `t.transaction_fx_rate is None or t.transaction_fx_rate <= 0`
  abbrev pub bad_rate : Transaction → Bool
  bad_rate t = elim t.transaction_fx_rate [ none ↦ true | some rate ↦ leb_ℤ rate (pos 0) ]

  -- Whether the transaction may go on, with the rate of a same-currency trade filled in.
  unfoldable pub validate_fx : Run → Bool × Run
  validate_fx r =
      let t = r.txn in
      if str_eq t.trade_currency t.portfolio_base_currency
      then (
        true,
        (if no_rate t then record r { txn = record t { transaction_fx_rate = some a.one } } else r),
      )
      else if bad_rate t
      then (
        false,
        report
            (concat (
              "Missing/invalid FX rate for cross-currency transaction from " ∷ t.trade_currency
              ∷ " to " ∷ t.portfolio_base_currency ∷ "." ∷ []))
            r,
      )
      else (true, r)

  -- `_strategies`
  unfoldable pub calculate_costs : TransactionType → Run → Outcome
  calculate_costs buy r = buy_strategy r
  calculate_costs sell r = sell_strategy r
  calculate_costs interest r = income_strategy r
  calculate_costs dividend r = income_strategy r
  calculate_costs deposit r = cash_inflow_strategy r
  calculate_costs transfer_in r = security_inflow_strategy r
  calculate_costs transfer_out r = security_outflow_strategy r
  calculate_costs withdrawal r = security_outflow_strategy r
  calculate_costs fee r = default_strategy r
  calculate_costs other r = default_strategy r

  unfoldable pub dispatch : Option TransactionType → Run → Outcome
  unfolding calculate_costs
  dispatch none r =
      done (report (concat ("Unknown transaction type '" ∷ r.txn.transaction_type ∷ "'." ∷ [])) r)
  dispatch (some type) r = calculate_costs type r

  unfoldable pub calculate_transaction_costs : Run → Outcome
  unfolding validate_fx dispatch
  calculate_transaction_costs r =
      let (valid, checked) = validate_fx r in
      if valid then dispatch (parse_type checked.txn.transaction_type) checked else done checked
