-- ===== src/Cashflow/Duplicates.antt =====
-- A second message about a transaction that has its cashflow.
use portfolio_analytics_syst.Prelude.{
  ℕ, zero, suc, String, true, false, Option, none, some, List, ◌≡◌, refl,
}
use portfolio_analytics_syst.Events.{TransactionEvent}
use portfolio_analytics_syst.Idempotency.{Delivery, is_event_processed}
use portfolio_analytics_syst.Cashflow.Logic.{CashflowRule, calculate}
use portfolio_analytics_syst.Cashflow.Consumer.{
  Database, service_name, integrity_error, loaded_rules, has_cashflow, violates_constraint,
  create_cashflow, process_event, retries_exhausted, Service, attempt_message, process_with_retry,
  process_message,
}
use portfolio_analytics_syst.Cashflow.Once.{is_current, rule_of, process_event_open}

module _ (clock : ℕ → ℕ) where
  process_event_duplicate :
      (m : Delivery) (event : TransactionEvent) (cache : Option (List CashflowRule)) (db : Database)
      (rule : CashflowRule)
      → is_current event db ≡ true
      → is_event_processed m.event_id service_name db.processed ≡ false
      → rule_of event (loaded_rules cache db.rules) ≡ some rule
      → has_cashflow event.transaction_id db.cashflows ≡ true
      → process_event clock m event cache db ≡ (integrity_error, some (loaded_rules cache db.rules))
  unfolding create_cashflow violates_constraint calculate
  process_event_duplicate m event cache db rule current fresh known saved =
      rw (process_event_open clock m event cache db current fresh, known, saved) refl

  module _ (decode : String → Option TransactionEvent) where
    attempt_message_duplicate :
        (m : Delivery) (s : Service) (event : TransactionEvent) (rule : CashflowRule)
        → decode m.value ≡ some event
        → is_current event s.database ≡ true
        → is_event_processed m.event_id service_name s.database.processed ≡ false
        → rule_of event (loaded_rules s.cache s.database.rules) ≡ some rule
        → has_cashflow event.transaction_id s.database.cashflows ≡ true
        → attempt_message clock decode m s
          ≡ (none, record s { cache = some (loaded_rules s.cache s.database.rules) })
    unfolding attempt_message
    attempt_message_duplicate m s event rule read current fresh known saved =
        rw (read, process_event_duplicate m event s.cache s.database rule current fresh known saved)
          refl

    abbrev undisturbed : ℕ → Database → Database
    undisturbed left db = db

    retries_all :
        (left : ℕ) (m : Delivery) (s : Service)
        → attempt_message clock decode m s ≡ (none, s)
        → process_with_retry clock decode undisturbed left m s ≡ (retries_exhausted, s)
    unfolding process_with_retry
    retries_all zero m s h = refl
    retries_all (suc left) m s h = rw (h) (retries_all left m s h)

    -- A message that is new to the service and whose event is current and has a rule, but whose
    -- transaction already has a cashflow, as when the transaction is replayed under a later epoch,
    -- uses up its attempts and leaves the tables as they were, when no one else writes meanwhile.
    pub process_message_duplicate :
        (m : Delivery) (s : Service) (event : TransactionEvent) (rule : CashflowRule)
        → decode m.value ≡ some event
        → is_current event s.database ≡ true
        → is_event_processed m.event_id service_name s.database.processed ≡ false
        → rule_of event (loaded_rules s.cache s.database.rules) ≡ some rule
        → has_cashflow event.transaction_id s.database.cashflows ≡ true
        → process_message clock decode (λ left db. db) m s
          ≡ (retries_exhausted, record s { cache = some (loaded_rules s.cache s.database.rules) })
    unfolding process_message process_with_retry
    process_message_duplicate m s event rule read current fresh known saved =
        let after : Service = record s { cache = some (loaded_rules s.cache s.database.rules) } in
        let first = attempt_message_duplicate m s event rule read current fresh known saved in
        let again = attempt_message_duplicate m after event rule read current fresh known saved in
        rw (first) (retries_all 14 m after again)
