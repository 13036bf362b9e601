-- ===== src/Engine/Behaviour.antt =====
-- What every strategy leaves alone: it raises nothing, keeps the id, and reports for its own
-- transaction or not at all. One rule for each way to end a strategy.
use portfolio_analytics_syst.Prelude.{
  String, Bool, true, false, ◌||◌, Option, none, some, [], ◌∷◌, ◌++◌, ◌≡◌, ◌∙◌, ◌⊎◌, inl, inr, refl,
  Bool-cases, str_eq, if◌then◌else◌,
}
use portfolio_analytics_syst.Prelude.Int.{pos, neg, ◌+ℤ◌, is_zero, leb_ℤ, ltb_ℤ}
use portfolio_analytics_syst.Decimal.{Decimal, Arith}
use portfolio_analytics_syst.Engine.Model.{
  Transaction, TransactionType, buy, sell, interest, dividend, deposit, withdrawal, fee,
  transfer_in, transfer_out, other, parse_type, key_of, update, Result, ok, raised,
}
use portfolio_analytics_syst.Engine.Reporter.{Reporter, add_error}
use portfolio_analytics_syst.Engine.Fifo
use portfolio_analytics_syst.Engine.Fifo.{Matched, new_lot}
use portfolio_analytics_syst.Engine.Average.{Holding}
use portfolio_analytics_syst.Engine.Average
use portfolio_analytics_syst.Engine.Disposition.{
  Books, fifo, average, add_buy_lot, consume_sell_quantity, get_available_quantity,
}
use portfolio_analytics_syst.Engine.Strategies.{
  Run, Outcome, done, report, fx_rate_or_one, book_cost_local, with_gross_costs, with_buy_costs,
  with_disposal, with_transfer, net_proceeds_local, net_proceeds_base, allows_oversold,
  reported_lot, add_lot_reporting, buy_strategy, sell_strategy, settle_sale, cash_inflow_strategy,
  security_inflow_strategy, settle_transfer, security_outflow_strategy, income_strategy,
  default_strategy,
}
use portfolio_analytics_syst.Engine.Calculator.{
  validate_fx, dispatch, calculate_transaction_costs, no_rate, bad_rate,
}

abbrev pub Extends : String → Reporter → Reporter → Type 0
Extends tid old new = (new ≡ old) ⊎ ((text : String) × (new ≡ add_error tid text old))

pub record Behaves (r : Run) (o : Outcome) : Type 0 where
  pub raises_nothing : o.1 ≡ none
  pub same_id : o.0.txn.transaction_id ≡ r.txn.transaction_id
  pub errors : Extends r.txn.transaction_id r.errors o.0.errors

Behaves-done :
    (r s : Run)
    → s.txn.transaction_id ≡ r.txn.transaction_id
    → s.errors ≡ r.errors
    → Behaves r (done s)
Behaves-done r s e f = record { raises_nothing = refl; same_id = e; errors = inl f }

Behaves-report :
    (r s : Run) (text : String)
    → s.txn.transaction_id ≡ r.txn.transaction_id
    → s.errors ≡ r.errors
    → Behaves r (done (report text s))
Behaves-report r s text e f = record {
  raises_nothing = refl;
  same_id = e;
  errors = inr (text, rw (e, f));
}

Behaves-if :
    (r : Run) (b : Bool) (x y : Outcome)
    → Behaves r x
    → Behaves r y
    → Behaves r (if b then x else y)
Behaves-if r true x y h k = h
Behaves-if r false x y h k = k

Behaves-reported_lot :
    (r s : Run) (result : Result Books)
    → s.txn.transaction_id ≡ r.txn.transaction_id
    → s.errors ≡ r.errors
    → Behaves r (reported_lot s result)
Behaves-reported_lot r s (ok books) e f = Behaves-done r (record s { books = books }) e f
Behaves-reported_lot r s (raised text) e f = Behaves-report r s text e f

added : Holding → Transaction → Decimal → Decimal → Holding
added h t c cl = record {
  total_qty = h.total_qty +ℤ t.quantity;
  total_cost_local = h.total_cost_local +ℤ cl;
  total_cost_base = h.total_cost_base +ℤ c;
}

module _ ⦃a : Arith⦄ where
  Behaves-buy : (r : Run) → Behaves r (buy_strategy r)
  unfolding buy_strategy add_lot_reporting
  Behaves-buy r =
      let t = r.txn in
      let s : Run = record r { txn = with_buy_costs t } in
      Behaves-if r (leb_ℤ t.quantity (pos 0)) _ _ (Behaves-report r s _ refl refl) (
        Behaves-if r (ltb_ℤ (a.mul t.gross_transaction_amount (fx_rate_or_one t)) (pos 0)) _ _
          (Behaves-report r s _ refl refl)
          (Behaves-if r (ltb_ℤ (book_cost_local t) (pos 0)) _ _ (Behaves-report r s _ refl refl) (
            Behaves-if r (ltb_ℤ (a.mul (book_cost_local t) (fx_rate_or_one t)) (pos 0)) _ _
              (Behaves-report r s _ refl refl)
              (Behaves-if r (ltb_ℤ (pos 0) t.quantity) _ _
                (Behaves-reported_lot r s (add_buy_lot r.books (with_buy_costs t)) refl refl)
                (Behaves-done r s refl refl)))))

  Behaves-settle_sale :
      (pl pb : Decimal) (r s : Run) (reply : Matched × Option String)
      → s.txn.transaction_id ≡ r.txn.transaction_id
      → s.errors ≡ r.errors
      → Behaves r (settle_sale pl pb s reply)
  unfolding settle_sale
  Behaves-settle_sale pl pb r s (m, some text) e f = Behaves-report r s text e f
  Behaves-settle_sale pl pb r s (m, none) e f =
      let t : Run = record s { txn = with_disposal pl pb m s.txn } in
      Behaves-if r (leb_ℤ m.consumed (pos 0)) _ _ (Behaves-report r s _ e f) (
        Behaves-if r (ltb_ℤ m.cost_base (pos 0) || ltb_ℤ m.cost_local (pos 0)) _ _
          (Behaves-report r s _ e f)
          (Behaves-if r (ltb_ℤ (pos 0) (neg m.cost_base) || ltb_ℤ (pos 0) (neg m.cost_local)) _ _
            (Behaves-report r t _ e f) (Behaves-done r t e f)))

  Behaves-sell : (r : Run) → Behaves r (sell_strategy r)
  unfolding sell_strategy
  Behaves-sell r =
      let t = r.txn in
      let (reply, books) = consume_sell_quantity r.books t in
      Behaves-if r (ltb_ℤ (net_proceeds_local t) (pos 0)) _ _ (Behaves-report r r _ refl refl) (
        Behaves-if r (ltb_ℤ (net_proceeds_base t) (pos 0)) _ _ (Behaves-report r r _ refl refl) (
          Behaves-if r (ltb_ℤ (get_available_quantity r.books (key_of t)) t.quantity) _ _
            (Behaves-if r (allows_oversold t) _ _ (Behaves-report r r _ refl refl)
              (Behaves-report r r _ refl refl))
            (Behaves-settle_sale (net_proceeds_local t) (net_proceeds_base t) r
              (record r { books = books }) reply refl refl)))

  Behaves-settle_transfer :
      (r s : Run) (reply : Matched × Option String)
      → s.txn.transaction_id ≡ r.txn.transaction_id
      → s.errors ≡ r.errors
      → Behaves r (settle_transfer s reply)
  unfolding settle_transfer
  Behaves-settle_transfer r s (m, some text) e f = Behaves-report r s text e f
  Behaves-settle_transfer r s (m, none) e f =
      Behaves-if r (ltb_ℤ (pos 0) m.consumed) _ _
        (Behaves-done r (record s { txn = with_transfer m s.txn }) e f) (Behaves-done r s e f)

  -- A purchase whose costs are known makes a lot, and raises nothing.
  add_buy_lot-ok :
      (books : Books) (t : Transaction) (c cl : Decimal)
      → t.net_cost ≡ some c
      → t.net_cost_local ≡ some cl
      → (after : Books) × (add_buy_lot books t ≡ ok after)
  unfolding added add_buy_lot Fifo.add_buy_lot Average.add_buy_lot
  add_buy_lot-ok (fifo lots) t c cl e el = elim (Bool-cases (ltb_ℤ (pos 0) t.quantity)) [
    | inr q ↦ (fifo lots, rw q)
    | inl q ↦ elim (Bool-cases (is_zero t.quantity)) [
      | inl z ↦ (fifo lots, rw (q, e, el, z))
      | inr z ↦
          (fifo (update lots (key_of t) (lots (key_of t) ++ new_lot t c cl ∷ [])), rw (q, e, el, z))
    ]
  ]
  add_buy_lot-ok (average h) t c cl e el = elim (Bool-cases (ltb_ℤ (pos 0) t.quantity)) [
    | inr q ↦ (average h, rw q)
    | inl q ↦ (average (update h (key_of t) (added (h (key_of t)) t c cl)), rw (q, e, el))
  ]

  Behaves-cash_inflow : (r : Run) → Behaves r (cash_inflow_strategy r)
  unfolding cash_inflow_strategy
  Behaves-cash_inflow r =
      let t = r.txn in
      let (after, e) =
        add_buy_lot-ok r.books
          (record (with_gross_costs t) { quantity = t.gross_transaction_amount })
          (a.mul t.gross_transaction_amount (fx_rate_or_one t)) t.gross_transaction_amount refl
          refl in
      rw e (
        Behaves-done r (record { txn = with_gross_costs t; books = after; errors = r.errors }) refl
          refl)

  Behaves-dispatch : (type : Option TransactionType) (r : Run) → Behaves r (dispatch type r)
  unfolding dispatch security_inflow_strategy add_lot_reporting security_outflow_strategy
      income_strategy default_strategy
  Behaves-dispatch none r = Behaves-report r r _ refl refl
  Behaves-dispatch (some buy) r = Behaves-buy r
  Behaves-dispatch (some sell) r = Behaves-sell r
  Behaves-dispatch (some interest) r = Behaves-done r _ refl refl
  Behaves-dispatch (some dividend) r = Behaves-done r _ refl refl
  Behaves-dispatch (some deposit) r = Behaves-cash_inflow r
  Behaves-dispatch (some transfer_in) r =
      let s : Run = record r { txn = with_gross_costs r.txn } in
      Behaves-if r (ltb_ℤ (pos 0) r.txn.quantity) _ _
        (Behaves-reported_lot r s (add_buy_lot r.books (with_gross_costs r.txn)) refl refl)
        (Behaves-done r s refl refl)
  Behaves-dispatch (some transfer_out) r =
      let (reply, books) = consume_sell_quantity r.books r.txn in
      Behaves-settle_transfer r (record r { books = books }) reply refl refl
  Behaves-dispatch (some withdrawal) r =
      let (reply, books) = consume_sell_quantity r.books r.txn in
      Behaves-settle_transfer r (record r { books = books }) reply refl refl
  Behaves-dispatch (some fee) r = Behaves-done r _ refl refl
  Behaves-dispatch (some other) r = Behaves-done r _ refl refl

  Behaves-checked :
      (valid : Bool) (r s : Run)
      → s.txn.transaction_id ≡ r.txn.transaction_id
      → s.errors ≡ r.errors
      → Behaves r (if valid then dispatch (parse_type s.txn.transaction_type) s else done s)
  Behaves-checked true r s e f =
      let b = Behaves-dispatch (parse_type s.txn.transaction_type) s in
      record {
        raises_nothing = b.raises_nothing;
        same_id = b.same_id ∙ e;
        errors = rw (← e, ← f) b.errors;
      }
  Behaves-checked false r s e f = Behaves-done r s e f

  -- No exception leaves the calculation of one transaction; the id stays, and the reporter gains at
  -- most an error of this transaction.
  pub calculate_transaction_costs-Behaves : (r : Run) → Behaves r (calculate_transaction_costs r)
  unfolding calculate_transaction_costs validate_fx
  calculate_transaction_costs-Behaves r =
      let t = r.txn in
      elim (Bool-cases (str_eq t.trade_currency t.portfolio_base_currency)) [
        | inl e ↦ elim (Bool-cases (no_rate t)) [
          | inl f ↦
              rw (e, f)
                (Behaves-checked true r
                  (record r { txn = record t { transaction_fx_rate = some a.one } }) refl refl)
          | inr f ↦ rw (e, f) (Behaves-checked true r r refl refl)
        ]
        | inr e ↦ elim (Bool-cases (bad_rate t)) [
          | inl f ↦ rw (e, f) (Behaves-report r r _ refl refl)
          | inr f ↦ rw (e, f) (Behaves-checked true r r refl refl)
        ]
      ]
