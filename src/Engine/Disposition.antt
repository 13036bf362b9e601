-- ===== src/Engine/Disposition.antt =====
-- logic/disposition_engine.py: the lots behind one of the two cost basis methods. The strategy
-- classes are the constructors of a data type.
use portfolio_analytics_syst.Prelude.{
  String, Bool, Option, List, ◌&&◌, filter, str_eq, if◌then◌else◌,
}
use portfolio_analytics_syst.Prelude.Int.{pos, ltb_ℤ}
use portfolio_analytics_syst.Decimal.{Decimal, Arith}
use portfolio_analytics_syst.Engine.Model.{Transaction, Key, key_of, Result, ok, raised}
use portfolio_analytics_syst.Engine.Fifo
use portfolio_analytics_syst.Engine.Fifo.{OpenLots, Matched}
use portfolio_analytics_syst.Engine.Average
use portfolio_analytics_syst.Engine.Average.{Holdings}

pub data Books : Type 0 where
  fifo : OpenLots → Books
  average : Holdings → Books

abbrev map_result {ℓ κ} : {A : Type ℓ} {B : Type κ} → (A → B) → Result A → Result B
map_result f (ok x) = ok (f x)
map_result f (raised text) = raised text

unfoldable pub get_available_quantity : Books → Key → Decimal
unfolding Fifo.get_available_quantity Average.get_available_quantity
get_available_quantity (fifo lots) key = Fifo.get_available_quantity lots key
get_available_quantity (average holdings) key = Average.get_available_quantity holdings key

module _ ⦃a : Arith⦄ where
  -- the strategy's own method
  unfoldable pub strategy_add_buy_lot : Books → Transaction → Result Books
  strategy_add_buy_lot (fifo lots) t = map_result fifo (Fifo.add_buy_lot lots t)
  strategy_add_buy_lot (average holdings) t = map_result average (Average.add_buy_lot holdings t)

  -- Only a positive quantity makes a lot.
  unfoldable pub add_buy_lot : Books → Transaction → Result Books
  unfolding strategy_add_buy_lot
  add_buy_lot books t = if ltb_ℤ (pos 0) t.quantity then strategy_add_buy_lot books t else ok books

  abbrev with_fifo : (Matched × Option String) × OpenLots → (Matched × Option String) × Books
  with_fifo (reply, lots) = (reply, fifo lots)

  abbrev with_average : (Matched × Option String) × Holdings → (Matched × Option String) × Books
  with_average (reply, holdings) = (reply, average holdings)

  unfoldable pub consume_sell_quantity : Books → Transaction → (Matched × Option String) × Books
  consume_sell_quantity (fifo lots) t =
      with_fifo (Fifo.consume_sell_quantity lots (key_of t) t.quantity)
  consume_sell_quantity (average holdings) t =
      with_average (Average.consume_sell_quantity holdings (key_of t) t.quantity)

  abbrev is_positive_buy : Transaction → Bool
  is_positive_buy t = str_eq t.transaction_type "BUY" && ltb_ℤ (pos 0) t.quantity

  unfoldable pub set_initial_lots : Books → List Transaction → Result Books
  set_initial_lots (fifo lots) ts =
      map_result fifo (Fifo.set_initial_lots lots (filter is_positive_buy ts))
  set_initial_lots (average holdings) ts =
      map_result average (Average.set_initial_lots holdings (filter is_positive_buy ts))
