-- ===== src/Engine/Tests.antt =====
-- Runs of the engine on concrete amounts, in hundredths, and its theorems at such inputs.
use mathlib.Core.List.{Perm}
use portfolio_analytics_syst.Prelude.Sorting.{IsSorted}
use portfolio_analytics_syst.Engine.Sorter.{
  comes_before, has_key, sort_transactions, sort_transactions-IsSorted,
}
use portfolio_analytics_syst.Engine.Reporter.{add_error-HasUniqueIds, HasUniqueIds, add_error}
use portfolio_analytics_syst.Prelude.{
  ℕ, ◌⊎◌, String, true, none, some, List, [], ◌∷◌, ◌≡◌, ◌≢◌, refl, arith, All, filter, sum_by,
}
use portfolio_analytics_syst.Prelude.Int.{ℤ, pos, neg, ◌+ℤ◌, ◌-ℤ◌, ◌≤ℤ◌, ◌<ℤ◌}
use portfolio_analytics_syst.Decimal.{Decimal}
use portfolio_analytics_syst.Decimal.Hundredths.{hundredths, hundredths-IsRounded}
use portfolio_analytics_syst.Engine.Model.{Transaction, Key, CostLot, update, InRange}
use portfolio_analytics_syst.Engine.Fifo.{
  OpenLots, no_lots, Matched, nothing_matched, match_lots, available, consume_sell_quantity,
}
use portfolio_analytics_syst.Engine.Disposition.{fifo, get_available_quantity}
use portfolio_analytics_syst.Engine.Fifo
use portfolio_analytics_syst.Engine.Fifo.Consume.{FifoSale}
use portfolio_analytics_syst.Engine.Fifo.Lots.{LotsAreSound, available-consume_sell_quantity}
use portfolio_analytics_syst.Engine.Reporter.{has_errors_for}
use portfolio_analytics_syst.Engine.Strategies.{Run, done, sell_strategy}
use portfolio_analytics_syst.Engine.Calculator.{calculate_transaction_costs}
use portfolio_analytics_syst.Engine.Processor.{replay, is_valid}
use portfolio_analytics_syst.Engine.Invariant.{BooksAreSound}
use portfolio_analytics_syst.Engine.Soundness.{calculate_transaction_costs-BooksAreSound}
use portfolio_analytics_syst.Engine.Behaviour.{Behaves, calculate_transaction_costs-Behaves}
use portfolio_analytics_syst.Engine.Timeline.{Handled, replay-BooksAreSound, replay_accounts}
use portfolio_analytics_syst.Engine.Sales.{sell_strategy_fifo, sell_strategy_oversold}

abbrev blank : Transaction
blank = record {
  transaction_id = "T";
  portfolio_id = "P";
  instrument_id = "I";
  security_id = "S";
  transaction_type = "OTHER";
  transaction_date = 0;
  settlement_date = none;
  quantity = pos 0;
  gross_transaction_amount = pos 0;
  net_transaction_amount = none;
  fees = none;
  accrued_interest = none;
  average_price = none;
  trade_currency = "USD";
  portfolio_base_currency = "USD";
  transaction_fx_rate = none;
  net_cost = none;
  gross_cost = none;
  realized_gain_loss = none;
  net_cost_local = none;
  realized_gain_loss_local = none;
  error_reason = none;
  calculation_policy_id = none;
}

abbrev trade : String → String → Decimal → Decimal → Transaction
trade id type quantity amount = record blank {
  transaction_id = id;
  transaction_type = type;
  quantity = quantity;
  gross_transaction_amount = amount;
}

abbrev lot : String → Decimal → Decimal → CostLot
lot id quantity cost = record {
  transaction_id = id;
  original_quantity = quantity;
  remaining_quantity = quantity;
  cost_per_share_local = cost;
  cost_per_share_base = cost;
}

abbrev two_lots : OpenLots
two_lots key = lot "A" (pos 1000) (pos 500) ∷ lot "B" (pos 1000) (pos 700) ∷ []

-- 15 shares: 10 at 5.00 and 5 at 7.00.
takes_the_oldest : match_lots (pos 1500) nothing_matched (two_lots ("P", "I")) ≡ (
  record { cost_base = pos 8500; cost_local = pos 8500; consumed = pos 1500 },
  record (lot "B" (pos 1000) (pos 700)) { remaining_quantity = pos 500 } ∷ [],
)
unfolding match_lots ◌+ℤ◌ ◌-ℤ◌
takes_the_oldest = refl

abbrev sale : Transaction
sale = trade "X" "SELL" (pos 1500) (pos 12000)

two_lots-LotsAreSound : LotsAreSound two_lots
two_lots-LotsAreSound key = ground arith

sell_strategy_fifo_example :
    let (m, left) = match_lots (pos 1500) nothing_matched (two_lots ("P", "I")) in
    FifoSale nothing_matched (pos 1500) (two_lots ("P", "I")) (m, left)
    × (sell_strategy (record { txn = sale; books = fifo two_lots; errors = [] })
        ≡ done (record {
          txn = record sale {
            realized_gain_loss_local = some (pos 12000 -ℤ m.cost_local);
            realized_gain_loss = some (pos 12000 -ℤ m.cost_base);
            net_cost = some (neg m.cost_base);
            net_cost_local = some (neg m.cost_local);
            gross_cost = some (neg m.cost_base);
          };
          books = fifo (update two_lots ("P", "I") left);
          errors = [];
        }))
unfolding available sum_by ◌+ℤ◌ ◌-ℤ◌
sell_strategy_fifo_example =
    sell_strategy_fifo hundredths-IsRounded two_lots sale [] two_lots-LotsAreSound (omega arith)
      (omega arith) (omega arith) (omega arith)

abbrev oversale : Run
oversale = record {
  txn = trade "Y" "SELL" (pos 3000) (pos 12000);
  books = fifo two_lots;
  errors = [];
}

sell_strategy_oversold_example :
    let after = (sell_strategy oversale).0 in
    (after.books ≡ fifo two_lots)
    × (after.txn ≡ oversale.txn)
    × (has_errors_for "Y" after.errors ≡ true)
sell_strategy_oversold_example = sell_strategy_oversold oversale oversold
  where
    oversold : get_available_quantity (fifo two_lots) ("P", "I") <ℤ pos 3000
    oversold = unfold get_available_quantity available sum_by ◌+ℤ◌ in omega arith

available-consume_sell_quantity_example :
    let (reply, after) = consume_sell_quantity two_lots ("P", "I") (pos 1500) in
    ((pos 1500 ≤ℤ Fifo.get_available_quantity two_lots ("P", "I"))
        × (reply.1 ≡ none)
        × (Fifo.get_available_quantity after ("P", "I") +ℤ pos 1500
            ≡ Fifo.get_available_quantity two_lots ("P", "I"))
      ⊎ (Fifo.get_available_quantity two_lots ("P", "I") <ℤ pos 1500)
        × (reply.0 ≡ nothing_matched)
        × (reply.1 ≢ none)
        × (after ≡ two_lots))
    × ((j : Key) → (j ≡ ("P", "I")) ⊎ (after j ≡ two_lots j))
available-consume_sell_quantity_example =
    available-consume_sell_quantity two_lots ("P", "I") (pos 1500) (omega arith)

abbrev history : List Transaction
history =
    trade "A" "BUY" (pos 1000) (pos 5000)
    ∷ trade "B" "SELL" (pos 400) (pos 3000)
    ∷ trade "C" "SELL" (pos 9000) (pos 3000)
    ∷ []

history-InRange : All InRange history
history-InRange = ground arith

no_lots-LotsAreSound : LotsAreSound no_lots
no_lots-LotsAreSound key = tt

calculate_transaction_costs-BooksAreSound_example :
    BooksAreSound
      (calculate_transaction_costs
        (record { txn = sale; books = fifo two_lots; errors = [] })).0.books
calculate_transaction_costs-BooksAreSound_example =
    calculate_transaction_costs-BooksAreSound hundredths-IsRounded
      (record { txn = sale; books = fifo two_lots; errors = [] }) (ground arith)
      two_lots-LotsAreSound

replay-BooksAreSound_example : BooksAreSound (replay (fifo no_lots) [] [] history).1.books
replay-BooksAreSound_example =
    replay-BooksAreSound hundredths-IsRounded (fifo no_lots) [] [] history tt history-InRange
      no_lots-LotsAreSound

replay_accounts_example :
    let (returned, after) = replay (fifo no_lots) [] [] history in
    All (λ t. Handled t.transaction_id returned after.errors) (filter is_valid history)
replay_accounts_example = replay_accounts (fifo no_lots) [] [] history

calculate_transaction_costs-Behaves_example :
    Behaves oversale (calculate_transaction_costs oversale)
calculate_transaction_costs-Behaves_example = calculate_transaction_costs-Behaves oversale

history_in_order :
    IsSorted comes_before (sort_transactions [] history)
    × Perm (sort_transactions [] history) history
    × ((date : ℕ) (quantity : ℤ)
        → filter (has_key date quantity) (sort_transactions [] history)
          ≡ filter (has_key date quantity) history)
history_in_order = sort_transactions-IsSorted [] history

one_more_error :
    HasUniqueIds (add_error "X" "late" (record { transaction_id = "X"; error_reason = "bad" } ∷ []))
one_more_error = add_error-HasUniqueIds "X" "late" _ one-HasUniqueIds
  where
    one-HasUniqueIds : HasUniqueIds (record { transaction_id = "X"; error_reason = "bad" } ∷ [])
    one-HasUniqueIds = (unfold has_errors_for in refl, tt)
