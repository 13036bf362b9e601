-- ===== src/Cashflow/Once.antt =====
-- Exactly-once processing by the cashflow consumer.
use portfolio_analytics_syst.Prelude.{
  ℕ, zero, suc, String, Bool, true, false, Option, none, some, List, ◌≡◌, ◌≢◌, refl, inl, inr,
  Bool-cases, upper, arith,
}
use portfolio_analytics_syst.Prelude.Results.{Result, ok, raised}
use portfolio_analytics_syst.Events.{TransactionEvent}
use portfolio_analytics_syst.Idempotency.{Delivery, is_event_processed, is_event_processed-marked}
use portfolio_analytics_syst.Outbox.Repository.{Outbox, create_outbox_event}
use portfolio_analytics_syst.Positions.State.{fence_check}
use portfolio_analytics_syst.Cashflow.Logic.{CashflowRule, calculate}
use portfolio_analytics_syst.Cashflow.Consumer.{
  CashflowRow, OutboxPayload, Database, service_name, Attempt, committed, skipped, integrity_error,
  no_rule, unexpected, rule_for, loaded_rules, create_cashflow, outbox_entry, mark_and_commit,
  publish_and_commit, save_under_rule, process_event, Ending, retries_exhausted, Service, settle,
  attempt_decoded, attempt_message, interleaved, retry_or, process_with_retry, process_message,
}

-- The fence's answer to an event.
unfoldable pub is_current : TransactionEvent → Database → Bool
is_current event db = (fence_check (event.portfolio_id, event.security_id) event.epoch db.states).0

abbrev pub fenced : TransactionEvent → Database → Database
fenced event db = record db {
  states = (fence_check (event.portfolio_id, event.security_id) event.epoch db.states).1;
}

abbrev pub rule_of : TransactionEvent → List CashflowRule → Option CashflowRule
rule_of event rules = rule_for (upper event.transaction_type) rules none

module _ (clock : ℕ → ℕ) where
  -- A stale event is skipped.
  pub process_event_stale :
      (m : Delivery) (event : TransactionEvent) (cache : Option (List CashflowRule)) (db : Database)
      → is_current event db ≡ false
      → process_event clock m event cache db ≡ (skipped, cache)
  unfolding is_current process_event
  process_event_stale m event cache db stale = rw (stale) refl

  -- An event that is marked as processed is skipped, current or not.
  pub process_event_marked :
      (m : Delivery) (event : TransactionEvent) (cache : Option (List CashflowRule)) (db : Database)
      → is_event_processed m.event_id service_name db.processed ≡ true
      → process_event clock m event cache db ≡ (skipped, cache)
  unfolding process_event
  process_event_marked m event cache db h = rw (h) ground arith

  -- An event that is current and not marked is saved under the rule of its type.
  pub process_event_open :
      (m : Delivery) (event : TransactionEvent) (cache : Option (List CashflowRule)) (db : Database)
      → is_current event db ≡ true
      → is_event_processed m.event_id service_name db.processed ≡ false
      → process_event clock m event cache db ≡ (
        save_under_rule clock m event
            (fenced event db)
            (rule_of event (loaded_rules cache db.rules)),
        some (loaded_rules cache db.rules),
      )
  unfolding is_current process_event
  process_event_open m event cache db current h = rw (current, h) refl

-- A committed database has the event among the processed ones.
abbrev IsMarked : Delivery → Attempt → Type 0
IsMarked m (committed db) = is_event_processed m.event_id service_name db.processed ≡ true
IsMarked m skipped = Unit
IsMarked m integrity_error = Unit
IsMarked m (no_rule text) = Unit
IsMarked m (unexpected text) = Unit

mark_and_commit-IsMarked :
    (m : Delivery) (event : TransactionEvent) (db : Database) (r : Result (Outbox OutboxPayload))
    → IsMarked m (mark_and_commit m event db r)
mark_and_commit-IsMarked m event db (raised text) = tt
mark_and_commit-IsMarked m event db (ok outbox) =
    is_event_processed-marked m.event_id event.portfolio_id service_name m.correlation_id
      db.processed

module _ (clock : ℕ → ℕ) where
  publish_and_commit-IsMarked :
      (m : Delivery) (event : TransactionEvent) (o : Option (CashflowRow × Database))
      → IsMarked m (publish_and_commit clock m event o)
  publish_and_commit-IsMarked m event none = tt
  publish_and_commit-IsMarked m event (some (saved, db)) =
      mark_and_commit-IsMarked m event db
        (create_outbox_event clock (outbox_entry m.correlation_id saved) db.outbox)

  save_under_rule-IsMarked :
      (m : Delivery) (event : TransactionEvent) (db : Database) (o : Option CashflowRule)
      → IsMarked m (save_under_rule clock m event db o)
  save_under_rule-IsMarked m event db none = tt
  save_under_rule-IsMarked m event db (some rule) =
      publish_and_commit-IsMarked m event (create_cashflow (calculate event rule event.epoch) db)

  -- An attempt whose cache is loaded, once more on what it left.
  settle_twice :
      (m : Delivery) (event : TransactionEvent) (cache : Option (List CashflowRule)) (db : Database)
      (a : Attempt)
      → IsMarked m a
      → process_event clock m event cache db ≡ (a, cache)
      → (λ (s : Service). settle s.database (process_event clock m event s.cache s.database))
          (settle db (a, cache)).1
        ≡ settle db (a, cache)
  settle_twice m event cache db (committed after) h e =
      rw (process_event_marked clock m event cache after h) refl
  settle_twice m event cache db skipped h e = rw (e) refl
  settle_twice m event cache db integrity_error h e = rw (e) refl
  settle_twice m event cache db (no_rule text) h e = rw (e) refl
  settle_twice m event cache db (unexpected text) h e = rw (e) refl

  attempt_event_twice :
      (m : Delivery) (event : TransactionEvent) (cache : Option (List CashflowRule)) (db : Database)
      → (λ (s : Service). settle s.database (process_event clock m event s.cache s.database))
          (settle db (process_event clock m event cache db)).1
        ≡ settle db (process_event clock m event cache db)
  attempt_event_twice m event cache db = elim (Bool-cases (is_current event db)) [
    | inr stale ↦
        let e = process_event_stale clock m event cache db stale in
        rw (e) (settle_twice m event cache db skipped tt e)
    | inl current ↦ elim (Bool-cases (is_event_processed m.event_id service_name db.processed)) [
      | inl marked ↦
          let e = process_event_marked clock m event cache db marked in
          rw (e) (settle_twice m event cache db skipped tt e)
      | inr fresh ↦
          let rules = loaded_rules cache db.rules in
          let a = save_under_rule clock m event (fenced event db) (rule_of event rules) in
          rw (process_event_open clock m event cache db current fresh) (
            settle_twice m event (some rules) db a
              (save_under_rule-IsMarked m event (fenced event db) (rule_of event rules))
              (process_event_open clock m event (some rules) db current fresh))
    ]
  ]

  module _ (decode : String → Option TransactionEvent) where
    attempt_decoded_twice :
        (m : Delivery) (s : Service) (o : Option TransactionEvent)
        → attempt_decoded clock decode m (attempt_decoded clock decode m s o).1 o
          ≡ attempt_decoded clock decode m s o
    attempt_decoded_twice m s none = refl
    attempt_decoded_twice m s (some event) = attempt_event_twice m event s.cache s.database

    -- An attempt, repeated at once, ends the same way and changes nothing more.
    pub attempt_message_twice :
        (m : Delivery) (s : Service)
        → attempt_message clock decode m (attempt_message clock decode m s).1
          ≡ attempt_message clock decode m s
    unfolding attempt_message
    attempt_message_twice m s = attempt_decoded_twice m s (decode m.value)

    module _ (meanwhile : ℕ → Database → Database) where
      abbrev retried : ℕ → Delivery → Option Ending × Service → Ending × Service
      retried left m = retry_or (λ (after : Service).
          process_with_retry clock decode meanwhile left m (interleaved meanwhile left after))

      -- The retry with the outcome `r` of its first attempt, which repeats itself.
      retry_or_twice :
          (more left : ℕ) (m : Delivery) (r : Option Ending × Service)
          → attempt_message clock decode m r.1 ≡ r
          → ((s : Service)
              → (process_with_retry clock decode meanwhile left m s).0 ≢ retries_exhausted
              → process_with_retry clock decode meanwhile
                  (suc more)
                  m
                  (process_with_retry clock decode meanwhile left m s).1
                ≡ process_with_retry clock decode meanwhile left m s)
          → (retried left m r).0 ≢ retries_exhausted
          → process_with_retry clock decode meanwhile (suc more) m (retried left m r).1
            ≡ retried left m r
      unfolding process_with_retry
      retry_or_twice more left m (some ending, after) e rest h = rw (e) refl
      retry_or_twice more left m (none, after) e rest h = rest (interleaved meanwhile left after) h

      process_with_retry_twice :
          (more left : ℕ) (m : Delivery) (s : Service)
          → (process_with_retry clock decode meanwhile left m s).0 ≢ retries_exhausted
          → process_with_retry clock decode meanwhile
              (suc more)
              m
              (process_with_retry clock decode meanwhile left m s).1
            ≡ process_with_retry clock decode meanwhile left m s
      unfolding process_with_retry
      process_with_retry_twice more zero m s h = absurd (h refl)
      process_with_retry_twice more (suc left) m s h =
          retry_or_twice more left m (attempt_message clock decode m s) (attempt_message_twice m s)
            (process_with_retry_twice more left m) h

      -- A message whose processing did not use up its attempts, when it is delivered again, ends the
      -- same way and changes nothing more, whatever others wrote between the attempts.
      pub process_message_twice :
          (m : Delivery) (s : Service)
          → (process_message clock decode meanwhile m s).0 ≢ retries_exhausted
          → process_message clock decode meanwhile m (process_message clock decode meanwhile m s).1
            ≡ process_message clock decode meanwhile m s
      unfolding process_message
      process_message_twice m s h = process_with_retry_twice 14 15 m s h
