-- ===== src/Cashflow/Consumer.antt =====
-- app/consumers/transaction_consumer.py, with app/repositories/cashflow_repository.py and
-- cashflow_rules_repository.py. Reading a message (`json.loads` and pydantic) is a parameter, as are
-- the clock of the outbox and what other processes write between two attempts.
use portfolio_analytics_syst.Prelude.{
  ℕ, zero, suc, String, Bool, true, false, Option, none, some, List, [], ◌∷◌, ◌++◌, ◌||◌, not,
  str_eq, str_in, upper, concat, if◌then◌else◌,
}
use portfolio_analytics_syst.Prelude.Results.{Result, ok, raised}
use portfolio_analytics_syst.Decimal.{Decimal}
use portfolio_analytics_syst.Events.{TransactionEvent}
use portfolio_analytics_syst.Idempotency.{
  Delivery, ProcessedEvent, is_event_processed, mark_event_processed,
}
use portfolio_analytics_syst.Outbox.Repository.{Outbox, NewEvent, create_outbox_event}
use portfolio_analytics_syst.Positions.State.{PositionState, fence_check}
use portfolio_analytics_syst.Cashflow.Logic.{CashflowRule, Cashflow, calculate}

pub record CashflowRow : Type 0 where
  pub id : ℕ
  pub cashflow : Cashflow

pub record CashflowCalculatedEvent : Type 0 where
  pub cashflow_id : ℕ
  pub transaction_id : String
  pub portfolio_id : String
  pub security_id : String
  pub cashflow_date : ℕ
  pub epoch : ℕ
  pub amount : Decimal
  pub currency : String
  pub classification : String
  pub timing : String
  pub is_position_flow : Bool
  pub is_portfolio_flow : Bool
  pub calculation_type : String

-- A payload of outbox_events, which all services share: one of this service, or any other text.
pub data OutboxPayload : Type 0 where
  cashflow_calculated : CashflowCalculatedEvent → OutboxPayload
  of_other_service : String → OutboxPayload

-- The tables; of those of transactions and portfolios, the ids.
pub record Database : Type 0 where
  pub transaction_ids : List String
  pub portfolio_ids : List String
  pub states : List PositionState
  pub processed : List ProcessedEvent
  pub rules : List CashflowRule
  pub cashflows : List CashflowRow
  pub next_id : ℕ
  pub outbox : Outbox OutboxPayload

abbrev pub service_name : String
service_name = "cashflow-calculator"

-- The end of an attempt: the transaction is committed or rolled back, or an exception leaves it.
pub data Attempt : Type 0 where
  committed : Database → Attempt
  skipped : Attempt
  integrity_error : Attempt
  no_rule : String → Attempt
  unexpected : String → Attempt

-- `{rule.transaction_type: rule for rule in rules}.get(code)`: a later rule replaces an earlier one.
unfoldable pub rule_for : String → List CashflowRule → Option CashflowRule → Option CashflowRule
unfolding str_eq
rule_for code [] found = found
rule_for code (r ∷ rules) found =
    rule_for code rules (if str_eq r.transaction_type code then some r else found)

-- The module's cache, filled from the table when it is empty.
abbrev pub loaded_rules : Option (List CashflowRule) → List CashflowRule → List CashflowRule
loaded_rules none table = table
loaded_rules (some rules) table = rules

unfoldable pub has_cashflow : String → List CashflowRow → Bool
unfolding str_eq
has_cashflow transaction_id [] = false
has_cashflow transaction_id (r ∷ rows) =
    if str_eq r.cashflow.transaction_id transaction_id
    then true
    else has_cashflow transaction_id rows

-- The unique transaction id, and the foreign keys to transactions and portfolios.
unfoldable pub violates_constraint : Cashflow → Database → Bool
unfolding has_cashflow str_in
violates_constraint c db =
    has_cashflow c.transaction_id db.cashflows
    || not (str_in c.transaction_id db.transaction_ids)
    || not (str_in c.portfolio_id db.portfolio_ids)

-- `create_cashflow`: none stands for the IntegrityError of a violated constraint.
unfoldable pub create_cashflow : Cashflow → Database → Option (CashflowRow × Database)
unfolding violates_constraint
create_cashflow c db =
    let row : CashflowRow = record { id = db.next_id; cashflow = c } in
    if violates_constraint c db
    then none
    else some (row, record db { cashflows = db.cashflows ++ row ∷ []; next_id = suc db.next_id })

abbrev pub completion_of : CashflowRow → CashflowCalculatedEvent
completion_of saved = record {
  cashflow_id = saved.id;
  transaction_id = saved.cashflow.transaction_id;
  portfolio_id = saved.cashflow.portfolio_id;
  security_id = saved.cashflow.security_id;
  cashflow_date = saved.cashflow.cashflow_date;
  epoch = saved.cashflow.epoch;
  amount = saved.cashflow.amount;
  currency = saved.cashflow.currency;
  classification = saved.cashflow.classification;
  timing = saved.cashflow.timing;
  is_position_flow = saved.cashflow.is_position_flow;
  is_portfolio_flow = saved.cashflow.is_portfolio_flow;
  calculation_type = saved.cashflow.calculation_type;
}

abbrev pub outbox_entry : Option String → CashflowRow → NewEvent OutboxPayload
outbox_entry correlation_id saved = record {
  aggregate_type = "Cashflow";
  aggregate_id = saved.cashflow.portfolio_id;
  event_type = "CashflowCalculated";
  payload = cashflow_calculated (completion_of saved);
  topic = "cashflow_calculated";
  correlation_id = correlation_id;
}

-- The rest of the transaction once the outbox has been asked.
abbrev pub mark_and_commit :
    Delivery → TransactionEvent → Database → Result (Outbox OutboxPayload) → Attempt
mark_and_commit m event db (raised text) = unexpected text
mark_and_commit m event db (ok outbox) = committed (record db {
  outbox = outbox;
  processed =
      mark_event_processed m.event_id event.portfolio_id service_name m.correlation_id db.processed;
})

module _ (clock : ℕ → ℕ) where
  abbrev pub publish_and_commit :
      Delivery → TransactionEvent → Option (CashflowRow × Database) → Attempt
  publish_and_commit m event none = integrity_error
  publish_and_commit m event (some (saved, db)) =
      mark_and_commit m event db
        (create_outbox_event clock (outbox_entry m.correlation_id saved) db.outbox)

  abbrev pub save_under_rule :
      Delivery → TransactionEvent → Database → Option CashflowRule → Attempt
  save_under_rule m event db none = no_rule (
      concat (
        "No cashflow rule found for transaction type '" ∷ event.transaction_type
        ∷ "'. Message will be sent to DLQ." ∷ []))
  save_under_rule m event db (some rule) =
      publish_and_commit m event (create_cashflow (calculate event rule event.epoch) db)

  -- The body of the transaction, and the cache after it: a rollback does not empty it.
  unfoldable pub process_event :
      Delivery
      → TransactionEvent
      → Option (List CashflowRule)
      → Database
      → Attempt × Option (List CashflowRule)
  unfolding fence_check rule_for create_cashflow create_outbox_event is_event_processed
  process_event m event cache db =
      let (current, states) =
        fence_check (event.portfolio_id, event.security_id) event.epoch db.states in
      let rules = loaded_rules cache db.rules in
      if current
      then (if is_event_processed m.event_id service_name db.processed then (skipped, cache) else (
        save_under_rule m event (record db { states = states })
            (rule_for (upper event.transaction_type) rules none),
        some rules,
      ))
      else (skipped, cache)

-- What is left of a message when `process_message` ends.
pub data Ending : Type 0 where
  returned : Ending
  dead_lettered : String → Ending
  retries_exhausted : Ending

-- The database, and the cache of the process.
pub record Service : Type 0 where
  pub database : Database
  pub cache : Option (List CashflowRule)

-- The handlers of the exceptions; none is the IntegrityError, which is raised again.
abbrev pub settle : Database → Attempt × Option (List CashflowRule) → Option Ending × Service
settle db (committed after, cache) = (some returned, record { database = after; cache = cache })
settle db (skipped, cache) = (some returned, record { database = db; cache = cache })
settle db (integrity_error, cache) = (none, record { database = db; cache = cache })
settle db (no_rule text, cache) =
    (some (dead_lettered text), record { database = db; cache = cache })
settle db (unexpected text, cache) =
    (some (dead_lettered text), record { database = db; cache = cache })

abbrev pub retry_or : (Service → Ending × Service) → Option Ending × Service → Ending × Service
retry_or next (some ending, after) = (ending, after)
retry_or next (none, after) = next after

-- What others write while the retry waits, with this many attempts left.
abbrev pub interleaved : (ℕ → Database → Database) → ℕ → Service → Service
interleaved meanwhile left s = record s { database = meanwhile left s.database }

module _ (clock : ℕ → ℕ) (decode : String → Option TransactionEvent) where
  abbrev pub attempt_decoded :
      Delivery → Service → Option TransactionEvent → Option Ending × Service
  attempt_decoded m s none = (some (dead_lettered "invalid cashflow event payload"), s)
  attempt_decoded m s (some event) =
      settle s.database (process_event clock m event s.cache s.database)

  -- One call of `_process_message_with_retry`.
  unfoldable pub attempt_message : Delivery → Service → Option Ending × Service
  unfolding process_event
  attempt_message m s = attempt_decoded m s (decode m.value)

  module _ (meanwhile : ℕ → Database → Database) where
    -- `tenacity.retry`: another attempt while the IntegrityError is raised and attempts are left.
    unfoldable pub process_with_retry : ℕ → Delivery → Service → Ending × Service
    unfolding attempt_message
    process_with_retry zero m s = (retries_exhausted, s)
    process_with_retry (suc left) m s =
        retry_or (λ (after : Service). process_with_retry left m (interleaved meanwhile left after))
          (attempt_message m s)

    -- `stop_after_attempt(15)`
    unfoldable pub process_message : Delivery → Service → Ending × Service
    unfolding process_with_retry
    process_message m s = process_with_retry 15 m s
