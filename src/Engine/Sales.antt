-- ===== src/Engine/Sales.antt =====
-- `SellStrategy`: a covered sale books the first-in-first-out cost, and a refused one changes nothing.
use portfolio_analytics_syst.Prelude.{
  String, true, false, none, some, ◌≡◌, refl, arith, Bool-cases, inl, inr, All-weaken, str_eq_self,
}
use portfolio_analytics_syst.Prelude.Int.{
  ℤ, pos, ◌-ℤ◌, ◌≤ℤ◌, ◌<ℤ◌, neg, leb_ℤ, ltb_ℤ, int_laws, le→ltb_ℤ, lt→ltb_ℤ,
}
use portfolio_analytics_syst.Decimal.{Decimal, Arith, IsRounded}
use portfolio_analytics_syst.Engine.Model.{Transaction, key_of, update}
use portfolio_analytics_syst.Engine.Reporter.{
  Reporter, add_error, has_errors_for, has_errors_for-add_error,
}
use portfolio_analytics_syst.Engine.Fifo
use portfolio_analytics_syst.Engine.Fifo.{OpenLots, Matched, nothing_matched, available, match_lots}
use portfolio_analytics_syst.Engine.Fifo.Consume.{IsOpen, FifoSale, match_lots-FifoSale}
use portfolio_analytics_syst.Engine.Fifo.Lots.{
  IsSound, LotsAreSound, CostsNotNegative, match_lots-CostsNotNegative,
}
use portfolio_analytics_syst.Engine.Disposition.{
  fifo, consume_sell_quantity, get_available_quantity,
}
use portfolio_analytics_syst.Engine.Strategies.{
  Run, done, allows_oversold, net_proceeds_local, net_proceeds_base, with_disposal, settle_sale,
  sell_strategy,
}

leb_of_lt : (x y : ℤ) → x <ℤ y → leb_ℤ y x ≡ false
leb_of_lt x y h = ground arith

neg_not_pos : (x : ℤ) → pos 0 ≤ℤ x → ltb_ℤ (pos 0) (neg x) ≡ false
neg_not_pos x h = le→ltb_ℤ (pos 0) (neg x) (omega int_laws)

has_own_error :
    (id text : String) (errors : Reporter) → has_errors_for id (add_error id text errors) ≡ true
has_own_error id text errors =
    ground (arith, has_errors_for-add_error id id text errors, str_eq_self id)

module _ ⦃a : Arith⦄ where
  -- What is settled when the engine has taken a positive quantity at costs that are not negative.
  settle_sale-settled :
      (pl pb : Decimal) (r : Run) (m : Matched)
      → pos 0 <ℤ m.consumed
      → CostsNotNegative m
      → settle_sale pl pb r (m, none) ≡ done (record r { txn = with_disposal pl pb m r.txn })
  unfolding settle_sale
  settle_sale-settled pl pb r m h (b, l) = rw (
    leb_of_lt (pos 0) m.consumed h,
    le→ltb_ℤ m.cost_base (pos 0) b,
    le→ltb_ℤ m.cost_local (pos 0) l,
    neg_not_pos m.cost_base b,
    neg_not_pos m.cost_local l,
  )

  consume_sell_quantity-covered :
      (lots : OpenLots) (t : Transaction)
      → t.quantity ≤ℤ available (lots (key_of t))
      → let (m, left) = match_lots t.quantity nothing_matched (lots (key_of t)) in
        consume_sell_quantity (fifo lots) t ≡ ((m, none), fifo (update lots (key_of t) left))
  unfolding consume_sell_quantity Fifo.consume_sell_quantity
  consume_sell_quantity-covered lots t h = rw (le→ltb_ℤ (available (lots (key_of t))) t.quantity h)

  sell_strategy-covered :
      (lots : OpenLots) (t : Transaction) (errors : Reporter)
      → t.quantity ≤ℤ available (lots (key_of t))
      → pos 0 ≤ℤ net_proceeds_local t
      → pos 0 ≤ℤ net_proceeds_base t
      → let (m, left) = match_lots t.quantity nothing_matched (lots (key_of t)) in
        let after : Run = record {
          txn = t;
          books = fifo (update lots (key_of t) left);
          errors = errors;
        } in
        sell_strategy (record { txn = t; books = fifo lots; errors = errors })
        ≡ settle_sale (net_proceeds_local t) (net_proceeds_base t) after (m, none)
  unfolding sell_strategy get_available_quantity
  sell_strategy-covered lots t errors h p q = rw (
    le→ltb_ℤ (net_proceeds_local t) (pos 0) p,
    le→ltb_ℤ (net_proceeds_base t) (pos 0) q,
    le→ltb_ℤ (available (lots (key_of t))) t.quantity h,
    consume_sell_quantity-covered lots t h,
  )

  -- Under FIFO with sound lots and rounding that keeps signs, a sale of a positive quantity within
  -- the holdings, with proceeds that are not negative, takes the oldest lots first, books their cost, and reports no error.
  pub sell_strategy_fifo :
      IsRounded a
      → (lots : OpenLots) (t : Transaction) (errors : Reporter) → LotsAreSound lots
      → pos 0 <ℤ t.quantity
      → t.quantity ≤ℤ available (lots (key_of t))
      → pos 0 ≤ℤ net_proceeds_local t
      → pos 0 ≤ℤ net_proceeds_base t
      → let (m, left) = match_lots t.quantity nothing_matched (lots (key_of t)) in
        FifoSale nothing_matched t.quantity (lots (key_of t)) (m, left)
        × (sell_strategy (record { txn = t; books = fifo lots; errors = errors })
            ≡ done (record {
              txn = record t {
                realized_gain_loss_local = some (net_proceeds_local t -ℤ m.cost_local);
                realized_gain_loss = some (net_proceeds_base t -ℤ m.cost_base);
                net_cost = some (neg m.cost_base);
                net_cost_local = some (neg m.cost_local);
                gross_cost = some (neg m.cost_base);
              };
              books = fifo (update lots (key_of t) left);
              errors = errors;
            }))
  unfolding with_disposal
  sell_strategy_fifo laws lots t errors s h k p q =
      let own = lots (key_of t) in
      let sale =
        match_lots-FifoSale nothing_matched t.quantity own
          (All-weaken IsSound IsOpen own (λ l i. i.0) (s (key_of t))) h k in
      (
        sale,
        rw (sell_strategy-covered lots t errors k p q) (
            settle_sale-settled (net_proceeds_local t) (net_proceeds_base t) _ _
              (rw sale.consumed (omega int_laws))
              (match_lots-CostsNotNegative laws t.quantity nothing_matched own (s (key_of t))
                (omega arith, omega arith))),
      )

  -- A sale of more than is held, under either method and any policy, leaves the books and the
  -- transaction as they were and reports an error for the transaction.
  pub sell_strategy_oversold :
      (r : Run)
      → get_available_quantity r.books (key_of r.txn) <ℤ r.txn.quantity
      → let after = (sell_strategy r).0 in
        (after.books ≡ r.books)
        × (after.txn ≡ r.txn)
        × (has_errors_for r.txn.transaction_id after.errors ≡ true)
  unfolding sell_strategy
  sell_strategy_oversold r h =
      let t = r.txn in
      let id = t.transaction_id in
      elim (Bool-cases (ltb_ℤ (net_proceeds_local t) (pos 0))) [
        | inl e ↦ rw e (refl, refl, has_own_error id _ r.errors)
        | inr e ↦ elim (Bool-cases (ltb_ℤ (net_proceeds_base t) (pos 0))) [
          | inl f ↦ rw (e, f) (refl, refl, has_own_error id _ r.errors)
          | inr f ↦ elim (Bool-cases (allows_oversold t)) [
            | inl g ↦
                rw (e, f, lt→ltb_ℤ (get_available_quantity r.books (key_of t)) t.quantity h, g)
                  (refl, refl, has_own_error id _ r.errors)
            | inr g ↦
                rw (e, f, lt→ltb_ℤ (get_available_quantity r.books (key_of t)) t.quantity h, g)
                  (refl, refl, has_own_error id _ r.errors)
          ]
        ]
      ]
