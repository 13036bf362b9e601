-- ===== src/Engine/Soundness.antt =====
-- `calculate_transaction_costs` keeps the books sound, keeps the id of its transaction, removes no
-- error, and lets no exception out.
use portfolio_analytics_syst.Prelude.{
  String, Option, none, some, ◌≡◌, refl, arith, Bool-cases, inl, inr, str_eq, if◌then◌else◌,
}
use portfolio_analytics_syst.Prelude.Int.{pos, ◌≤ℤ◌, is_zero, ltb_ℤ}
use portfolio_analytics_syst.Decimal.{Decimal, Arith, IsRounded}
use portfolio_analytics_syst.Engine.Model.{
  Transaction, TransactionType, buy, sell, interest, dividend, deposit, withdrawal, fee,
  transfer_in, transfer_out, other, parse_type, key_of, InRange, AboveZero,
}
use portfolio_analytics_syst.Engine.Fifo.{Matched}
use portfolio_analytics_syst.Engine.Disposition.{
  add_buy_lot, consume_sell_quantity, get_available_quantity,
}
use portfolio_analytics_syst.Engine.Strategies.{
  Run, fx_rate_or_one, net_proceeds_local, net_proceeds_base, allows_oversold, with_gross_costs,
  add_lot_reporting, sell_strategy, settle_sale, cash_inflow_strategy, security_inflow_strategy,
  settle_transfer, security_outflow_strategy, income_strategy, default_strategy,
}
use portfolio_analytics_syst.Engine.Calculator.{
  validate_fx, dispatch, calculate_transaction_costs, no_rate, bad_rate,
}
use portfolio_analytics_syst.Engine.Invariant.{
  BooksAreSound, add_buy_lot_sound, reported_lot_sound, uncaught_lot_sound, buy_strategy_sound,
  consume_sell_quantity-BooksAreSound,
}

module _ ⦃a : Arith⦄ where
  settle_sale-books :
      (pl pb : Decimal) (r : Run) (reply : Matched × Option String)
      → (settle_sale pl pb r reply).0.books ≡ r.books
  unfolding settle_sale
  settle_sale-books pl pb r (m, some text) = refl
  settle_sale-books pl pb r (m, none) = ground arith

  settle_transfer-books :
      (r : Run) (reply : Matched × Option String) → (settle_transfer r reply).0.books ≡ r.books
  unfolding settle_transfer
  settle_transfer-books r (m, some text) = refl
  settle_transfer-books r (m, none) = ground arith

  sell_strategy_sound : (r : Run) → BooksAreSound r.books → BooksAreSound (sell_strategy r).0.books
  unfolding sell_strategy
  sell_strategy_sound r s =
      let t = r.txn in
      elim (Bool-cases (ltb_ℤ (net_proceeds_local t) (pos 0))) [
        | inl e ↦ rw e s
        | inr e ↦ elim (Bool-cases (ltb_ℤ (net_proceeds_base t) (pos 0))) [
          | inl f ↦ rw (e, f) s
          | inr f ↦
              elim (Bool-cases (ltb_ℤ (get_available_quantity r.books (key_of t)) t.quantity)) [
                | inl g ↦ elim (Bool-cases (allows_oversold t)) [
                  | inl h ↦ rw (e, f, g, h) s
                  | inr h ↦ rw (e, f, g, h) s
                ]
                | inr g ↦
                    rw (e, f, g)
                      (rw
                        (settle_sale-books (net_proceeds_local t) (net_proceeds_base t)
                          (record r { books = (consume_sell_quantity r.books t).1 })
                          (consume_sell_quantity r.books t).0)
                        (consume_sell_quantity-BooksAreSound r.books t s))
              ]
        ]
      ]

  outflow_strategy_sound :
      (r : Run) → BooksAreSound r.books → BooksAreSound (security_outflow_strategy r).0.books
  unfolding security_outflow_strategy
  outflow_strategy_sound r s =
      rw
        (settle_transfer-books (record r { books = (consume_sell_quantity r.books r.txn).1 })
          (consume_sell_quantity r.books r.txn).0)
        (consume_sell_quantity-BooksAreSound r.books r.txn s)

  module _ (laws : IsRounded a) where
    fx_rate_nonneg : (t : Transaction) → InRange t → pos 0 ≤ℤ fx_rate_or_one t
    fx_rate_nonneg t i = rate_nonneg t.transaction_fx_rate i.rate_gt
      where
        rate_nonneg :
            (rate : Option Decimal)
            → AboveZero rate
            → pos 0 ≤ℤ (elim rate [ none ↦ a.one | some r ↦ if is_zero r then a.one else r ])
        rate_nonneg none h = let one = laws.one_pos in omega arith
        rate_nonneg (some r) h = elim (Bool-cases (is_zero r)) [
          | inl e ↦ let one = laws.one_pos in rw e (omega arith)
          | inr e ↦ rw e (omega arith)
        ]

    base_cost_nonneg :
        (t : Transaction) → InRange t → pos 0 ≤ℤ a.mul t.gross_transaction_amount (fx_rate_or_one t)
    base_cost_nonneg t i =
        laws.mul_nonneg t.gross_transaction_amount (fx_rate_or_one t) i.gross_ge
          (fx_rate_nonneg t i)

    cash_inflow_strategy_sound :
        (r : Run)
        → InRange r.txn
        → BooksAreSound r.books
        → BooksAreSound (cash_inflow_strategy r).0.books
    unfolding cash_inflow_strategy
    cash_inflow_strategy_sound r i s =
        let t = r.txn in
        let equivalent : Transaction = record (with_gross_costs t) {
          quantity = t.gross_transaction_amount;
        } in
        uncaught_lot_sound laws (record r { txn = with_gross_costs t })
          (add_buy_lot r.books equivalent) s
          (add_buy_lot_sound laws r.books equivalent
            (a.mul t.gross_transaction_amount (fx_rate_or_one t)) t.gross_transaction_amount s refl
            refl (base_cost_nonneg t i) i.gross_ge)

    security_inflow_strategy_sound :
        (r : Run)
        → InRange r.txn
        → BooksAreSound r.books
        → BooksAreSound (security_inflow_strategy r).0.books
    unfolding security_inflow_strategy add_lot_reporting
    security_inflow_strategy_sound r i s =
        let t = r.txn in
        elim (Bool-cases (ltb_ℤ (pos 0) t.quantity)) [
          | inr e ↦ rw e s
          | inl e ↦ rw e (
              reported_lot_sound laws (record r { txn = with_gross_costs t })
                (add_buy_lot r.books (with_gross_costs t)) s
                (add_buy_lot_sound laws r.books (with_gross_costs t)
                  (a.mul t.gross_transaction_amount (fx_rate_or_one t)) t.gross_transaction_amount s
                  refl refl (base_cost_nonneg t i) i.gross_ge))
        ]

    dispatch_sound :
        (type : Option TransactionType) (r : Run)
        → InRange r.txn
        → BooksAreSound r.books
        → BooksAreSound (dispatch type r).0.books
    unfolding dispatch income_strategy default_strategy
    dispatch_sound none r i s = s
    dispatch_sound (some buy) r i s = buy_strategy_sound laws r s
    dispatch_sound (some sell) r i s = sell_strategy_sound r s
    dispatch_sound (some interest) r i s = s
    dispatch_sound (some dividend) r i s = s
    dispatch_sound (some deposit) r i s = cash_inflow_strategy_sound r i s
    dispatch_sound (some transfer_in) r i s = security_inflow_strategy_sound r i s
    dispatch_sound (some transfer_out) r i s = outflow_strategy_sound r s
    dispatch_sound (some withdrawal) r i s = outflow_strategy_sound r s
    dispatch_sound (some fee) r i s = s
    dispatch_sound (some other) r i s = s

    validate_fx-keeps :
        (r : Run)
        → InRange r.txn
        → InRange (validate_fx r).1.txn × ((validate_fx r).1.books ≡ r.books)
    unfolding validate_fx
    validate_fx-keeps r i =
        let t = r.txn in
        elim (Bool-cases (str_eq t.trade_currency t.portfolio_base_currency)) [
          | inl e ↦ elim (Bool-cases (no_rate t)) [
            | inl f ↦
                rw (e, f)
                  (
                    record {
                      quantity_ge = i.quantity_ge;
                      gross_ge = i.gross_ge;
                      fees_ge = i.fees_ge;
                      accrued_ge = i.accrued_ge;
                      rate_gt = laws.one_pos;
                    },
                    refl,
                  )
            | inr f ↦ rw (e, f) (i, refl)
          ]
          | inr e ↦ elim (Bool-cases (bad_rate t)) [
            | inl f ↦ rw (e, f) (i, refl)
            | inr f ↦ rw (e, f) (i, refl)
          ]
        ]

    -- For a transaction in range, whatever its type, the books stay sound.
    pub calculate_transaction_costs-BooksAreSound :
        (r : Run)
        → InRange r.txn
        → BooksAreSound r.books
        → BooksAreSound (calculate_transaction_costs r).0.books
    unfolding calculate_transaction_costs
    calculate_transaction_costs-BooksAreSound r i s =
        let (valid, checked) = validate_fx r in
        let k = validate_fx-keeps r i in
        elim (Bool-cases valid) [
          | inl e ↦
              rw e (dispatch_sound (parse_type checked.txn.transaction_type) checked k.0 (rw k.1 s))
          | inr e ↦ rw e (rw k.1 s)
        ]
