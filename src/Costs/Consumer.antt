-- ===== src/Costs/Consumer.antt =====
-- app/consumer.py. Reading a message and writing a raw transaction are pydantic's, and parameters. Of
-- the errors of the database, the broken foreign key of a lot is an outcome here.
use portfolio_analytics_syst.Prelude.{
  ℕ, zero, suc, String, Bool, true, false, ◌&&◌, not, is_some, Option, none, some, List, [], ◌∷◌,
  ◌++◌, map, filter, str_eq, or_text, concat, get_or, if◌then◌else◌,
}
use portfolio_analytics_syst.Prelude.Int.{pos, ltb_ℤ}
use portfolio_analytics_syst.Prelude.Results.{Result, ok, raised, ◌>>=◌}
use portfolio_analytics_syst.Prelude.Tables.{find_row, update_rows}
use portfolio_analytics_syst.Decimal.{Decimal, Arith}
use portfolio_analytics_syst.Events.{TransactionEvent, date_of}
use portfolio_analytics_syst.Idempotency.{Delivery, is_event_processed, mark_event_processed}
use portfolio_analytics_syst.Outbox.Repository.{Outbox, NewEvent, create_outbox_event}
use portfolio_analytics_syst.Positions.Store.{TransactionRow}
use portfolio_analytics_syst.TransactionDomain.Linkage.{enrich_sell_transaction_metadata}
use portfolio_analytics_syst.Valuation.Tables.{FxRate, get_fx_rate}
use portfolio_analytics_syst.Engine.Model.{Transaction, total_fees}
use portfolio_analytics_syst.Engine.Reporter.{ErroredTransaction, get_errors}
use portfolio_analytics_syst.Engine.Fifo.{no_lots}
use portfolio_analytics_syst.Engine.Average.{no_holdings}
use portfolio_analytics_syst.Engine.Disposition.{Books, fifo, average}
use portfolio_analytics_syst.Engine.Parser.{Pydantic, Raw}
use portfolio_analytics_syst.Engine.Processor.{Timeline, process_transactions}
use portfolio_analytics_syst.Costs.Repository.{
  CostPortfolio, CostTables, get_portfolio, get_transaction_history, is_transaction, with_costs,
  Extras, upsert_buy_lot_state, upsert_accrued_income_offset_state,
}

abbrev pub service : String
service = "cost-calculator"

-- What pydantic does at the edges, and the clock of the outbox.
pub record Edges : Type 1 where
  pub pydantic : Pydantic
  pub decode : String → Result TransactionEvent
  -- `model_dump`, and the value of `{"brokerage": str(fee)}`
  pub dump : TransactionEvent → Raw pydantic
  pub brokerage : Decimal → Pydantic.Value pydantic
  pub extra : Extras
  pub show_instant : ℕ → String
  pub clock : ℕ → ℕ

pub data Attempt : Type 0 where
  committed : CostTables → Attempt
  skipped : Attempt
  portfolio_not_found fx_rate_not_found : String → Attempt
  invalid_payload : Attempt
  integrity_error unexpected : String → Attempt

-- `cost_basis_method` names the strategy; all but AVCO is FIFO.
abbrev pub new_books : String → Books
new_books method = if str_eq method "AVCO" then average no_holdings else fifo no_lots

-- `del d[name]` and `d[name] = value`
unfoldable pub without_key {ℓ} : {V : Type ℓ} → String → List (String × V) → List (String × V)
unfolding str_eq
without_key name [] = []
without_key name ((n, v) ∷ d) =
    let rest = without_key name d in if str_eq n name then rest else (n, v) ∷ rest

unfoldable pub set_key {ℓ} : {V : Type ℓ} → String → V → List (String × V) → List (String × V)
unfolding str_eq
set_key name value [] = (name, value) ∷ []
set_key name value ((n, v) ∷ d) =
    if str_eq n name then (n, value) ∷ d else (n, v) ∷ set_key name value d

abbrev pub fee_of : Transaction → Decimal
fee_of t = elim t.fees [
  | none ↦ pos 0
  | some f ↦ if ltb_ℤ (pos 0) (total_fees f) then total_fees f else pos 0
]

-- The stored event with its costs and its fee.
abbrev pub costed : Transaction → TransactionRow → TransactionRow
costed t r = record r { event = record (with_costs t r.event) { trade_fee = some (fee_of t) } }

abbrev pub published : Option ℕ → TransactionEvent → TransactionEvent
published none e = e
published (some epoch) e = record e { epoch = some epoch }

abbrev pub processed_event : Option String → String → TransactionEvent → NewEvent TransactionEvent
processed_event correlation_id portfolio_id e = record {
  aggregate_type = "ProcessedTransaction";
  aggregate_id = portfolio_id;
  event_type = "ProcessedTransactionPersisted";
  payload = e;
  topic = "processed_transactions_completed";
  correlation_id = correlation_id;
}

abbrev pub with_outbox : CostTables → Result (Outbox TransactionEvent) → Result CostTables
with_outbox db (ok outbox) = ok (record db { outbox = outbox })
with_outbox db (raised text) = raised text

module _ ⦃a : Arith⦄ (edges : Edges) where
  abbrev pub as_raw : TransactionEvent → Raw edges.pydantic
  as_raw e =
      let fee = get_or e.trade_fee (pos 0) in
      let raw = without_key "trade_fee" (edges.dump e) in
      if ltb_ℤ (pos 0) fee then set_key "fees" (edges.brokerage fee) raw else raw

  abbrev pub with_rate :
      Raw edges.pydantic → TransactionEvent → String → Option FxRate → Result (Raw edges.pydantic)
  with_rate raw e base none = raised (
      concat (
        "FX rate for "
        ∷ e.trade_currency
        ∷ "->"
        ∷ base
        ∷ " on "
        ∷ edges.show_instant e.transaction_date
        ∷ " not found. Retrying..."
        ∷ []))
  with_rate raw e base (some rate) =
      ok (set_key "transaction_fx_rate" (edges.pydantic.decimal rate.rate) raw)

  -- The raw transaction for the engine, with the rate of a foreign trade.
  unfoldable pub enrich_with_fx :
      List FxRate → String → TransactionEvent → Result (Raw edges.pydantic)
  unfolding get_fx_rate without_key set_key str_eq concat
  enrich_with_fx rates base e =
      let raw = set_key "portfolio_base_currency" (edges.pydantic.text base) (as_raw e) in
      if str_eq e.trade_currency base
      then ok raw
      else with_rate raw e base
          (get_fx_rate e.trade_currency base (date_of e.transaction_date) rates)

  unfoldable pub enrich_all :
      List FxRate → String → List TransactionEvent → Result (List (Raw edges.pydantic))
  unfolding enrich_with_fx
  enrich_all rates base [] = ok []
  enrich_all rates base (e ∷ es) =
      enrich_with_fx rates base e >>= λ raw. enrich_all rates base es >>= λ raws. ok (raw ∷ raws)

  -- The costs of the stored row, and the lot and the offset of a purchase.
  abbrev pub store_costs : CostTables → Transaction → CostTables
  store_costs db t = record db {
    transactions = update_rows (is_transaction t.transaction_id) (costed t) db.transactions;
    lots =
        if str_eq t.transaction_type "BUY"
        then upsert_buy_lot_state edges.extra t db.lots
        else db.lots;
    offsets =
        if str_eq t.transaction_type "BUY"
        then upsert_accrued_income_offset_state edges.extra t db.offsets
        else db.offsets;
  }

  module _ (m : Delivery) (epoch : Option ℕ) where
    -- The loop's body, on the row that the costs are stored in.
    abbrev pub persist_row : CostTables → Transaction → Option TransactionRow → Result CostTables
    persist_row db t none = raised "'NoneType' object has no attribute 'trade_fee'"
    persist_row db t (some row) = with_outbox (store_costs db t) (
        create_outbox_event edges.clock
          (processed_event m.correlation_id t.portfolio_id (published epoch (costed t row).event))
          db.outbox)

    unfoldable pub persist_transactions : List Transaction → CostTables → Result CostTables
    unfolding find_row update_rows upsert_buy_lot_state upsert_accrued_income_offset_state
        create_outbox_event str_eq
    persist_transactions [] db = ok db
    persist_transactions (t ∷ ts) db =
        persist_row db t (find_row (is_transaction t.transaction_id) db.transactions)
        >>= persist_transactions ts

    abbrev pub mark_processed : TransactionEvent → Result CostTables → Attempt
    mark_processed e (raised text) = unexpected text
    mark_processed e (ok db) = committed (record db {
      processed =
          mark_event_processed m.event_id e.portfolio_id service m.correlation_id db.processed;
    })

    -- The lot of a purchase that is not stored breaks its foreign key. All results have the id of the
    -- new transaction, so the first one decides.
    abbrev pub breaks_foreign_key : CostTables → List Transaction → Bool
    breaks_foreign_key db [] = false
    breaks_foreign_key db (t ∷ ts) =
        str_eq t.transaction_type "BUY"
        && not (is_some (find_row (is_transaction t.transaction_id) db.transactions))

    abbrev pub persist_checked : TransactionEvent → CostTables → List Transaction → Bool → Attempt
    persist_checked e db ts true =
        integrity_error "insert or update violates foreign key constraint"
    persist_checked e db ts false = mark_processed e (persist_transactions ts db)

    abbrev pub persist_unless :
        TransactionEvent → CostTables → List Transaction → List ErroredTransaction → Attempt
    persist_unless e db ts (error ∷ errors) =
        unexpected (concat ("Transaction engine failed: " ∷ error.error_reason ∷ []))
    persist_unless e db ts [] = persist_checked e db ts (breaks_foreign_key db ts)

    -- The results that concern the new transaction.
    abbrev pub take_results :
        TransactionEvent → CostTables → Option (List Transaction × Timeline) → Attempt
    take_results e db none = invalid_payload
    take_results e db (some (done, end_state)) =
        persist_unless e db
          (filter (λ (t : Transaction). str_eq t.transaction_id e.transaction_id) done)
          (filter (λ (x : ErroredTransaction). str_eq x.transaction_id e.transaction_id)
            (get_errors end_state.errors))

    abbrev pub run_engine :
        TransactionEvent → CostTables → String → Result (List (Raw edges.pydantic)) → Attempt
    run_engine e db method (raised text) = fx_rate_not_found text
    run_engine e db method (ok raws) =
        take_results e db (process_transactions edges.pydantic (new_books method) [] raws)

    abbrev pub with_portfolio : TransactionEvent → CostTables → Option CostPortfolio → Attempt
    with_portfolio event db none =
        portfolio_not_found
          (concat ("Portfolio " ∷ event.portfolio_id ∷ " not found. Retrying..." ∷ []))
    with_portfolio event db (some portfolio) =
        let method = or_text portfolio.cost_basis_method "FIFO" in
        let e = enrich_sell_transaction_metadata (some method) event in
        let history =
          get_transaction_history e.portfolio_id e.security_id e.transaction_id db.transactions in
        run_engine e db method (
          enrich_all db.fx_rates portfolio.base_currency
            (map (λ (r : TransactionRow). r.event) history ++ e ∷ []))

  unfoldable pub process_event : Delivery → TransactionEvent → CostTables → Attempt
  unfolding persist_transactions enrich_all get_portfolio get_transaction_history
      enrich_sell_transaction_metadata is_event_processed mark_event_processed or_text
      process_transactions
  process_event m event db =
      if is_event_processed m.event_id service db.processed
      then skipped
      else with_portfolio m event.epoch event db (get_portfolio event.portfolio_id db.portfolios)

-- The end of `process_message`: it returns, has sent the message to the dead-letter queue, asks for
-- the message again, or raises.
pub data Ending : Type 0 where
  returned : Ending
  dead_lettered deferred raised_out : String → Ending

-- The handlers; `again` is the next attempt, after the exception that is retried.
abbrev pub settle : CostTables → (String → Ending × CostTables) → Attempt → Ending × CostTables
settle db again (committed after) = (returned, after)
settle db again skipped = (returned, db)
settle db again (portfolio_not_found text) = again text
settle db again (integrity_error text) = again text
settle db again (fx_rate_not_found text) = (deferred text, db)
settle db again invalid_payload = (dead_lettered "invalid payload", db)
settle db again (unexpected text) = (dead_lettered text, db)

module _ ⦃a : Arith⦄ (edges : Edges) (meanwhile : ℕ → CostTables → CostTables) where
  abbrev pub attempt_decoded : Delivery → Result TransactionEvent → CostTables → Attempt
  attempt_decoded m (raised text) db = invalid_payload
  attempt_decoded m (ok event) db = process_event edges m event db

  -- With no attempt left, the last exception is raised again. `meanwhile` is what others write while
  -- the retry waits.
  unfoldable pub process_with_retry : ℕ → String → Delivery → CostTables → Ending × CostTables
  unfolding process_event
  process_with_retry zero text m db = (raised_out text, db)
  process_with_retry (suc left) text m db =
      settle db (λ last. process_with_retry left last m (meanwhile left db))
        (attempt_decoded m (edges.decode m.value) db)

  -- `stop_after_attempt(5)`
  unfoldable pub process_message : Delivery → CostTables → Ending × CostTables
  unfolding process_with_retry
  process_message m db = process_with_retry 5 "" m db
