-- ===== src/Costs/Once.antt =====
-- A transaction event is processed once, and touches its own rows only.
use portfolio_analytics_syst.Prelude.{
  ℕ, zero, suc, String, true, Option, none, some, ◌≡◌, refl, arith, inl, inr, Bool-cases, or_text,
}
use mathlib.Core.Path.{subst}
use portfolio_analytics_syst.Prelude.Results.{Result, ok, raised}
use portfolio_analytics_syst.Decimal.{Arith}
use portfolio_analytics_syst.Events.{TransactionEvent}
use portfolio_analytics_syst.Idempotency.{Delivery, is_event_processed}
use portfolio_analytics_syst.TransactionDomain.Linkage.{enrich_sell_transaction_metadata}
use portfolio_analytics_syst.Costs.Repository.{CostPortfolio, CostTables, get_portfolio}
use portfolio_analytics_syst.Costs.Consumer.{
  service, Edges, Attempt, committed, skipped, portfolio_not_found, fx_rate_not_found,
  invalid_payload, integrity_error, unexpected, with_portfolio, process_event, Ending, returned,
  dead_lettered, deferred, raised_out, settle, attempt_decoded, process_with_retry, process_message,
}
use portfolio_analytics_syst.Costs.Effects.{Concerns, Commits, run_engine-Commits}

enriched-id :
    (method : Option String) (e : TransactionEvent)
    → (enrich_sell_transaction_metadata method e).transaction_id ≡ e.transaction_id
unfolding enrich_sell_transaction_metadata
enriched-id method e = ground arith

module _ ⦃a : Arith⦄ (edges : Edges) where
  with_portfolio-Commits :
      (m : Delivery) (event : TransactionEvent) (db : CostTables) (o : Option CostPortfolio)
      → Commits edges m event.epoch event.transaction_id db
          (with_portfolio edges m event.epoch event db o)
  with_portfolio-Commits m event db none = tt
  with_portfolio-Commits m event db (some portfolio) =
      let method = or_text portfolio.cost_basis_method "FIFO" in
      let e = enrich_sell_transaction_metadata (some method) event in
      subst
        (λ (id : String).
          Commits edges m event.epoch id db
            (with_portfolio edges m event.epoch event db (some portfolio)))
        (enriched-id (some method) event) (run_engine-Commits edges m event.epoch e db method _)

  process_event-Commits :
      (m : Delivery) (event : TransactionEvent) (db : CostTables)
      → Commits edges m event.epoch event.transaction_id db (process_event edges m event db)
  unfolding process_event
  process_event-Commits m event db =
      elim (Bool-cases (is_event_processed m.event_id service db.processed)) [
        | inl e ↦ rw (e) e
        | inr e ↦
            rw (e)
              (with_portfolio-Commits m event db (get_portfolio event.portfolio_id db.portfolios))
      ]

  -- An event that is committed has changed no stored transaction and no lot but its own, has queued
  -- events about its own transaction only, each in the epoch of the message if it names one, and is
  -- marked as processed.
  pub process_event-Concerns :
      (m : Delivery) (event : TransactionEvent) (db after : CostTables)
      → process_event edges m event db ≡ committed after
      → Concerns event.transaction_id event.epoch db after
        × (is_event_processed m.event_id service after.processed ≡ true)
  process_event-Concerns m event db after e =
      subst (Commits edges m event.epoch event.transaction_id db) e
        (process_event-Commits m event db)

  module _ (meanwhile : ℕ → CostTables → CostTables) where
    -- What is left when the message is taken to be done.
    abbrev MarksAll : Delivery → Ending × CostTables → Type 0
    MarksAll m r = (r.0 ≡ returned) → is_event_processed m.event_id service r.1.processed ≡ true

    settle-Marks :
        (m : Delivery) (id : String) (epoch : Option ℕ) (db : CostTables)
        (again : String → Ending × CostTables) (x : Attempt)
        → Commits edges m epoch id db x
        → ((text : String) → MarksAll m (again text))
        → MarksAll m (settle db again x)
    settle-Marks m id epoch db again (committed after) h k = λ _. h.1
    settle-Marks m id epoch db again skipped h k = λ _. h
    settle-Marks m id epoch db again (portfolio_not_found text) h k = k text
    settle-Marks m id epoch db again (integrity_error text) h k = k text
    settle-Marks m id epoch db again (fx_rate_not_found text) h k =
        λ (e : deferred text ≡ returned). cc
    settle-Marks m id epoch db again invalid_payload h k =
        λ (e : dead_lettered "invalid payload" ≡ returned). cc
    settle-Marks m id epoch db again (unexpected text) h k =
        λ (e : dead_lettered text ≡ returned). cc

    decoded-Marks :
        (m : Delivery) (r : Result TransactionEvent) (db : CostTables)
        (again : String → Ending × CostTables)
        → ((text : String) → MarksAll m (again text))
        → MarksAll m (settle db again (attempt_decoded edges meanwhile m r db))
    decoded-Marks m (raised text) db again k =
        λ (e : dead_lettered "invalid payload" ≡ returned). cc
    decoded-Marks m (ok event) db again k =
        settle-Marks m event.transaction_id event.epoch db again (process_event edges m event db)
          (process_event-Commits m event db) k

    retry-Marks :
        (left : ℕ) (text : String) (m : Delivery) (db : CostTables)
        → MarksAll m (process_with_retry edges meanwhile left text m db)
    unfolding process_with_retry
    retry-Marks zero text m db = λ (e : raised_out text ≡ returned). cc
    retry-Marks (suc left) text m db =
        decoded-Marks m (edges.decode m.value) db
          (λ last. process_with_retry edges meanwhile left last m (meanwhile left db))
          (λ last. retry-Marks left last m (meanwhile left db))

    process_message_marked :
        (m : Delivery) (event : TransactionEvent) (db : CostTables)
        → edges.decode m.value ≡ ok event
        → is_event_processed m.event_id service db.processed ≡ true
        → process_message edges meanwhile m db ≡ (returned, db)
    unfolding process_message process_with_retry process_event
    process_message_marked m event db read h = rw (read, h) refl

    -- A valid message whose processing returned, at whichever attempt and whatever others wrote
    -- between the attempts, changes nothing when it is delivered again.
    pub process_message_once :
        (m : Delivery) (event : TransactionEvent) (db : CostTables)
        → edges.decode m.value ≡ ok event
        → (process_message edges meanwhile m db).0 ≡ returned
        → process_message edges meanwhile m (process_message edges meanwhile m db).1
          ≡ (returned, (process_message edges meanwhile m db).1)
    process_message_once m event db read done =
        process_message_marked m event (process_message edges meanwhile m db).1 read
          (unfold process_message in retry-Marks 5 "" m db done)
