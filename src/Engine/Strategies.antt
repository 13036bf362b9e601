-- ===== src/Engine/Strategies.antt =====
-- The strategies of logic/cost_calculator.py. A call changes the transaction, the books and the
-- reporter in place; the text of a `ValueError` that it does not catch comes back beside them.
use portfolio_analytics_syst.Prelude.{
  String, Bool, false, ◌||◌, Option, none, some, [], ◌∷◌, concat, str_eq, get_or, not,
  if◌then◌else◌,
}
use portfolio_analytics_syst.Prelude.Int.{pos, ◌+ℤ◌, ◌-ℤ◌, neg, ltb_ℤ, leb_ℤ, is_zero}
use portfolio_analytics_syst.Decimal.{Decimal, Arith}
use portfolio_analytics_syst.Engine.Model.{Transaction, total_fees, key_of, Result, ok, raised}
use portfolio_analytics_syst.Engine.Reporter.{Reporter, add_error}
use portfolio_analytics_syst.Engine.Fifo.{Matched}
use portfolio_analytics_syst.Engine.Disposition.{
  Books, add_buy_lot, get_available_quantity, consume_sell_quantity,
}

pub record Run : Type 0 where
  pub txn : Transaction
  pub books : Books
  pub errors : Reporter

-- The state, and the text of an exception that leaves the call.
abbrev pub Outcome : Type 0
Outcome = Run × Option String

abbrev pub done : Run → Outcome
done r = (r, none)

-- `error_reporter.add_error(transaction.transaction_id, …)`
abbrev pub report : String → Run → Run
report text r = record r { errors = add_error r.txn.transaction_id text r.errors }

abbrev pub is_accrued_interest_excluded : Transaction → Bool
is_accrued_interest_excluded t = elim t.calculation_policy_id [
  | none ↦ false
  | some policy ↦ str_eq policy "BUY_EXCLUDE_ACCRUED_INTEREST_FROM_BOOK_COST"
]

abbrev pub allows_oversold : Transaction → Bool
allows_oversold t = elim t.calculation_policy_id [
  | none ↦ false
  | some policy ↦ str_eq policy "SELL_ALLOW_OVERSOLD_POLICY"
]

abbrev pub add_buy_invariant_error : String → Run → Run
add_buy_invariant_error message r = report (concat ("BUY invariant violation: " ∷ message ∷ [])) r

abbrev pub add_sell_invariant_error : String → Run → Run
add_sell_invariant_error message r = report (concat ("SELL invariant violation: " ∷ message ∷ [])) r

-- `transaction.fees.total_fees if transaction.fees else Decimal(0)`
abbrev pub fees_or_zero : Transaction → Decimal
fees_or_zero t = elim t.fees [ none ↦ pos 0 | some f ↦ total_fees f ]

abbrev pub reported_lot : Run → Result Books → Outcome
reported_lot r (ok books) = done (record r { books = books })
reported_lot r (raised text) = done (report text r)

abbrev pub uncaught_lot : Run → Result Books → Outcome
uncaught_lot r (ok books) = done (record r { books = books })
uncaught_lot r (raised text) = (r, some text)

module _ ⦃a : Arith⦄ where
  -- `transaction.transaction_fx_rate or Decimal(1)`
  abbrev pub fx_rate_or_one : Transaction → Decimal
  fx_rate_or_one t = elim t.transaction_fx_rate [
    | none ↦ a.one
    | some rate ↦ if is_zero rate then a.one else rate
  ]

  -- `try: add_buy_lot` with the `ValueError` reported
  unfoldable pub add_lot_reporting : Run → Outcome
  add_lot_reporting r = reported_lot r (add_buy_lot r.books r.txn)

  -- The costs that `BuyStrategy` writes.
  abbrev pub book_cost_local : Transaction → Decimal
  book_cost_local t =
      let principal = t.gross_transaction_amount +ℤ fees_or_zero t in
      if is_accrued_interest_excluded t
      then principal
      else principal +ℤ get_or t.accrued_interest (pos 0)

  unfoldable pub with_buy_costs : Transaction → Transaction
  with_buy_costs t = record t {
    gross_cost = some (a.mul t.gross_transaction_amount (fx_rate_or_one t));
    net_cost_local = some (book_cost_local t);
    net_cost = some (a.mul (book_cost_local t) (fx_rate_or_one t));
    realized_gain_loss = some (pos 0);
    realized_gain_loss_local = some (pos 0);
  }

  unfoldable pub buy_strategy : Run → Outcome
  unfolding with_buy_costs
  buy_strategy r =
      let t = r.txn in
      let costed : Run = record r { txn = with_buy_costs t } in
      if leb_ℤ t.quantity (pos 0)
      then done (add_buy_invariant_error "quantity_delta must be > 0." costed)
      else if ltb_ℤ (a.mul t.gross_transaction_amount (fx_rate_or_one t)) (pos 0)
      then done (add_buy_invariant_error "gross_cost must be >= 0." costed)
      else if ltb_ℤ (book_cost_local t) (pos 0)
      then done (add_buy_invariant_error "book_cost_local must be >= 0." costed)
      else if ltb_ℤ (a.mul (book_cost_local t) (fx_rate_or_one t)) (pos 0)
      then done (add_buy_invariant_error "book_cost_base must be >= 0." costed)
      else if not (is_zero (pos 0)) || not (is_zero (pos 0))
      then done (add_buy_invariant_error "realized P&L must be explicit zero for BUY." costed)
      else if ltb_ℤ (pos 0) t.quantity
      then add_lot_reporting costed
      else done costed

  -- The amounts that `SellStrategy` writes, from the proceeds and the cost of what was sold.
  unfoldable pub with_disposal : Decimal → Decimal → Matched → Transaction → Transaction
  with_disposal proceeds_local proceeds_base m t = record t {
    realized_gain_loss_local = some (proceeds_local -ℤ m.cost_local);
    realized_gain_loss = some (proceeds_base -ℤ m.cost_base);
    net_cost = some (neg m.cost_base);
    net_cost_local = some (neg m.cost_local);
    gross_cost = some (neg m.cost_base);
  }

  -- What `SellStrategy` does with the reply of the disposition engine; `r` holds the new books.
  unfoldable pub settle_sale : Decimal → Decimal → Run → Matched × Option String → Outcome
  unfolding with_disposal
  settle_sale proceeds_local proceeds_base r (m, some text) = done (report text r)
  settle_sale proceeds_local proceeds_base r (m, none) =
      let settled : Run = record r { txn = with_disposal proceeds_local proceeds_base m r.txn } in
      if leb_ℤ m.consumed (pos 0)
      then done (add_sell_invariant_error "consumed_quantity must be > 0." r)
      else if ltb_ℤ m.cost_base (pos 0) || ltb_ℤ m.cost_local (pos 0)
      then done (add_sell_invariant_error "disposed cost basis must be non-negative." r)
      else if ltb_ℤ (pos 0) (neg m.cost_base) || ltb_ℤ (pos 0) (neg m.cost_local)
      then done (
          add_sell_invariant_error "net_cost and net_cost_local must be <= 0 for SELL disposal."
            settled)
      else done settled

  abbrev pub net_proceeds_local : Transaction → Decimal
  net_proceeds_local t = t.gross_transaction_amount -ℤ fees_or_zero t

  abbrev pub net_proceeds_base : Transaction → Decimal
  net_proceeds_base t = a.mul (net_proceeds_local t) (fx_rate_or_one t)

  unfoldable pub sell_strategy : Run → Outcome
  unfolding settle_sale
  sell_strategy r =
      let t = r.txn in
      let (reply, books) = consume_sell_quantity r.books t in
      if ltb_ℤ (net_proceeds_local t) (pos 0)
      then done (add_sell_invariant_error "net_sell_proceeds_local must be >= 0." r)
      else if ltb_ℤ (net_proceeds_base t) (pos 0)
      then done (add_sell_invariant_error "net_sell_proceeds_base must be >= 0." r)
      else if ltb_ℤ (get_available_quantity r.books (key_of t)) t.quantity
      then (if allows_oversold t
          then done (
              add_sell_invariant_error
                "oversold policy is configured but not supported in current engine." r)
          else done (
              add_sell_invariant_error
                "sell quantity exceeds available holdings under strict oversell policy." r))
      else settle_sale (net_proceeds_local t) (net_proceeds_base t) (record r { books = books })
          reply

  -- The costs that the inflow and default strategies write; the amount is converted for the base.
  unfoldable pub with_gross_costs : Transaction → Transaction
  with_gross_costs t = record t {
    gross_cost = some t.gross_transaction_amount;
    net_cost_local = some t.gross_transaction_amount;
    net_cost = some (a.mul t.gross_transaction_amount (fx_rate_or_one t));
  }

  -- The lot of a deposit counts its amount; the copy that makes the lot is dropped, and an exception
  -- is not caught.
  unfoldable pub cash_inflow_strategy : Run → Outcome
  unfolding with_gross_costs
  cash_inflow_strategy r =
      let costed = with_gross_costs r.txn in
      let equivalent : Transaction = record costed { quantity = r.txn.gross_transaction_amount } in
      uncaught_lot (record r { txn = costed }) (add_buy_lot r.books equivalent)

  unfoldable pub security_inflow_strategy : Run → Outcome
  unfolding with_gross_costs
  security_inflow_strategy r =
      let costed : Run = record r { txn = with_gross_costs r.txn } in
      if ltb_ℤ (pos 0) r.txn.quantity then add_lot_reporting costed else done costed

  unfoldable pub with_transfer : Matched → Transaction → Transaction
  with_transfer m t = record t {
    net_cost = some (neg m.cost_base);
    net_cost_local = some (neg m.cost_local);
    gross_cost = some (neg m.cost_base);
    realized_gain_loss = none;
    realized_gain_loss_local = none;
  }

  unfoldable pub settle_transfer : Run → Matched × Option String → Outcome
  unfolding with_transfer
  settle_transfer r (m, some text) = done (report text r)
  settle_transfer r (m, none) =
      if ltb_ℤ (pos 0) m.consumed then done (record r { txn = with_transfer m r.txn }) else done r

  unfoldable pub security_outflow_strategy : Run → Outcome
  unfolding settle_transfer
  security_outflow_strategy r =
      let (reply, books) = consume_sell_quantity r.books r.txn in
      settle_transfer (record r { books = books }) reply

  unfoldable pub income_strategy : Run → Outcome
  income_strategy r = done (record r {
    txn = record r.txn {
      net_cost = some (pos 0);
      net_cost_local = some (pos 0);
      gross_cost = some (pos 0);
      realized_gain_loss = none;
      realized_gain_loss_local = none;
    };
  })

  unfoldable pub default_strategy : Run → Outcome
  default_strategy r = done (record r { txn = with_gross_costs r.txn })
